-- ===== src/Config/Rules.antt =====
-- What a configuration that was loaded satisfies: `Load` and `validate` of
-- platform/config/config.go.
use mathlib.Core.List.{Memᴰ}
use billiards_online.Base.{
  subst, ◌≡◌, ◌≢◌, ◌⊎◌, inl, inr, refl, sym, ◌∙◌, pos, ltb_ℤ, Bool, true, false, not, ◌&&◌, ◌||◌,
  Option, none, some, List, [], ◌∷◌, ◌++◌, All, Text, text_eq, text_eq_iff, codes, if◌then◌else◌,
  ok, any, arith, Bool-cases,
}
use billiards_online.Config.{
  Url, System, Config, Problem, env_development, env_production, is_production, unless, is_empty,
  origin_problem, one_of, levels, formats, origin_problems, http_problems, url_problems,
  database_problems, validate, outcome, read_config, read_problems, load,
}

-- What `validate` tests of an origin as url.Parse reads it: a scheme, a host, no path, no query, and
-- https in production. A fragment or user information is not tested for.
abbrev pub GoodUrl : Text → Option Url → Type 0
GoodUrl env none = ⊥
GoodUrl env (some u) =
    (u.scheme ≢ [])
    × (u.host ≢ [])
    × (u.path ≡ [])
    × (u.raw_query ≡ [])
    × (env ≡ env_production → u.scheme ≡ codes "https")

pub record Valid (sys : System) (c : Config) : Type 0 where
  pub env : (c.env ≡ env_development) ⊎ (c.env ≡ env_production)
  pub addr : c.http.addr ≢ []
  pub internal_addr : c.http.internal_addr ≢ []
  pub apart : c.http.internal_addr ≢ c.http.addr
  pub shutdown : ltb_ℤ (pos 0) c.http.shutdown_timeout ≡ true
  pub some_origin : c.http.allowed_origins ≢ []
  pub origins : All (λ o. GoodUrl c.env (sys.parse_url o)) c.http.allowed_origins
  pub database_url : c.database.url ≢ []
  pub max_conns : ltb_ℤ c.database.max_conns (pos 1) ≡ false
  pub min_conns : ltb_ℤ c.database.min_conns (pos 0) ≡ false
  pub ordered : ltb_ℤ c.database.max_conns c.database.min_conns ≡ false
  pub connect : ltb_ℤ (pos 0) c.database.connect_timeout ≡ true
  pub level : Memᴰ c.log.level levels
  pub format : Memᴰ c.log.format formats

append-nil-inv : {A : Type 0} (xs ys : List A) → xs ++ ys ≡ [] → (xs ≡ []) × (ys ≡ [])
append-nil-inv [] ys e = (refl, e)
append-nil-inv (x ∷ xs) ys e = absurd (cc e)

unless-nil : (b : Bool) (p : Problem) → unless b p ≡ [] → b ≡ true
unless-nil true p e = refl
unless-nil false p e = absurd (cc e)

not-true : (b : Bool) → not b ≡ true → b ≡ false
not-true b e = ground arith

is_empty-false : {A : Type 0} (xs : List A) → not (is_empty xs) ≡ true → xs ≢ []
is_empty-false [] e = absurd (cc e)
is_empty-false (x ∷ xs) e = λ eq. absurd (cc eq)

text_eq-false : (s t : Text) → not (text_eq s t) ≡ true → s ≢ t
text_eq-false s t e eq = absurd (cc (sym ((text_eq_iff s t).1 eq) ∙ not-true (text_eq s t) e))

one_of-Mem : (names : List Text) (s : Text) → one_of names s ≡ true → Memᴰ s names
unfolding any
one_of-Mem [] s e = absurd (cc e)
one_of-Mem (n ∷ names) s e = elim (Bool-cases (text_eq s n)) [
  | inl same ↦ Memᴰ.head ((text_eq_iff s n).0 same)
  | inr other ↦ Memᴰ.tail (one_of-Mem names s (rw other at e))
]

if-nil :
    (b : Bool) (p : Problem) (rest : List Problem)
    → (if b then p ∷ [] else rest) ≡ []
    → (b ≡ false) × (rest ≡ [])
if-nil true p rest e = absurd (cc e)
if-nil false p rest e = (refl, e)

or-false : (a b : Bool) → (a || b) ≡ false → (not a ≡ true) × (not b ≡ true)
or-false a b e = ground arith

not_empty-false : (s : Text) → not (not (is_empty s)) ≡ true → s ≡ []
not_empty-false [] e = refl
not_empty-false (c ∷ cs) e = absurd (cc e)

https-in_production :
    (env scheme : Text)
    → (is_production env && not (text_eq scheme (codes "https"))) ≡ false
    → env ≡ env_production
    → scheme ≡ codes "https"
unfolding is_production
https-in_production env scheme e prod =
    (text_eq_iff scheme (codes "https")).0
      (and-false _ _ ((text_eq_iff env env_production).1 prod) e)
  where
    and-false : (a b : Bool) → a ≡ true → (a && not b) ≡ false → b ≡ true
    and-false a b h e = ground arith

origin_problem-GoodUrl :
    (env o : Text) (u : Option Url) → origin_problem env o u ≡ [] → GoodUrl env u
unfolding origin_problem
origin_problem-GoodUrl env o none e = absurd (cc e)
origin_problem-GoodUrl env o (some u) e =
    let (there, r1) = if-nil _ _ _ e in
    let (bare, r2) = if-nil _ _ _ r1 in
    let (https, r3) = if-nil _ _ _ r2 in
    let (s, h) = or-false _ _ there in
    let (p, q) = or-false _ _ bare in
    (
      is_empty-false u.scheme s,
      is_empty-false u.host h,
      not_empty-false u.path p,
      not_empty-false u.raw_query q,
      https-in_production env u.scheme https,
    )

origin_problems-GoodUrl :
    (sys : System) (env : Text) (os : List Text)
    → origin_problems sys env os ≡ []
    → All (λ o. GoodUrl env (sys.parse_url o)) os
unfolding origin_problems
origin_problems-GoodUrl sys env [] e = tt
origin_problems-GoodUrl sys env (o ∷ os) e =
    let (here, there) = append-nil-inv _ _ e in
    (origin_problem-GoodUrl env o (sys.parse_url o) here, origin_problems-GoodUrl sys env os there)

url_problems-some : (sys : System) (s : Text) → url_problems sys s ≡ [] → s ≢ []
unfolding url_problems
url_problems-some sys [] e = absurd (cc e)
url_problems-some sys (c ∷ cs) e = λ eq. absurd (cc eq)

two_envs :
    (e : Text)
    → Memᴰ e (env_development ∷ env_production ∷ [])
    → (e ≡ env_development) ⊎ (e ≡ env_production)
two_envs e (Memᴰ.head h) = inl h
two_envs e (Memᴰ.tail (Memᴰ.head h)) = inr h
two_envs e (Memᴰ.tail (Memᴰ.tail m)) = elim m [ ]

validate-Valid : (sys : System) (c : Config) → validate sys c ≡ [] → Valid sys c
unfolding validate http_problems database_problems
validate-Valid sys c e =
    let (e1, r1) = append-nil-inv _ _ e in
    let (h, r2) = append-nil-inv _ _ r1 in
    let (d, r3) = append-nil-inv _ _ r2 in
    let (lv, fm) = append-nil-inv _ _ r3 in
    let (h1, h') = append-nil-inv _ _ h in
    let (h2, h'') = append-nil-inv _ _ h' in
    let (h3, h3') = append-nil-inv _ _ h'' in
    let (h4, h4') = append-nil-inv _ _ h3' in
    let (h5, h6) = append-nil-inv _ _ h4' in
    let (d1, d') = append-nil-inv _ _ d in
    let (d2, d'') = append-nil-inv _ _ d' in
    let (d3, d3') = append-nil-inv _ _ d'' in
    let (d4, d5) = append-nil-inv _ _ d3' in
    record {
      env = two_envs c.env (one_of-Mem _ c.env (unless-nil _ _ e1));
      addr = is_empty-false _ (unless-nil _ _ h1);
      internal_addr = is_empty-false _ (unless-nil _ _ h2);
      apart = text_eq-false _ _ (unless-nil _ _ h3);
      shutdown = unless-nil _ _ h4;
      some_origin = is_empty-false _ (unless-nil _ _ h5);
      origins = origin_problems-GoodUrl sys c.env _ h6;
      database_url = url_problems-some sys _ d1;
      max_conns = not-true _ (unless-nil _ _ d2);
      min_conns = not-true _ (unless-nil _ _ d3);
      ordered = not-true _ (unless-nil _ _ d4);
      connect = unless-nil _ _ d5;
      level = one_of-Mem levels _ (unless-nil _ _ lv);
      format = one_of-Mem formats _ (unless-nil _ _ fm);
    }

outcome-ok : (ps : List Problem) (c c' : Config) → outcome ps c ≡ ok c' → (ps ≡ []) × (c ≡ c')
outcome-ok [] c c' e = (refl, cc e)
outcome-ok (p ∷ ps) c c' e = absurd (cc e)

-- Whatever the environment holds, of a configuration that is loaded this is true: its environment is
-- one of two, the public and the internal listener have addresses and these differ, the timeouts
-- of the shutdown and of connecting are positive, there is an origin, each origin is one that
-- url.Parse reads with a scheme and a host and without a path and a query, and with the scheme
-- https in production, a database is given, 0 ≤ MinConns ≤ MaxConns and 1 ≤ MaxConns, and the log's
-- level and format are known ones.
pub load-Valid : (sys : System) (c : Config) → load sys ≡ ok c → Valid sys c
unfolding load
load-Valid sys c e =
    let (none_found, same) =
      outcome-ok (read_problems sys ++ validate sys (read_config sys)) (read_config sys) c e in
    subst (Valid sys) same
      (validate-Valid sys (read_config sys) (append-nil-inv (read_problems sys) _ none_found).1)
