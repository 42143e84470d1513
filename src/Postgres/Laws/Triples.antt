-- ===== src/Postgres/Laws/Triples.antt =====
-- Triples, which speak of the runs that succeed, and `Keeps`, which speaks of every run, with
-- the rules of the monad's combinators.
use billiards_online.Base.{◌≡◌, refl, Bool, true, false, Result, ok, err}
use billiards_online.Schema.{Tables, PgError}
use billiards_online.Postgres.{World, M, ◌>>=◌, map_err, catch, lift, asks, Env, pure, raise, guard}

-- What holds of a result and the tables left behind; nothing is said of a failure.
abbrev pub Post : {E A : Type 0} → (A → Tables → Type 0) → Result E A → World → Type 0
Post Q (ok a) w = Q a w.tables
Post Q (err e) w = Unit {0}

pub record Triple {E A : Type 0} (P : Tables → Type 0) (m : M E A) (Q : A → Tables → Type 0)
    : Type 0 where
  pub at : (w : World) → P w.tables → Post Q (m w).0 (m w).1

pub record Keeps {E A : Type 0} (P : Tables → Type 0) (m : M E A) : Type 0 where
  pub at : (w : World) → P w.tables → P (m w).1.tables

-- The same of one statement's outcome, before the environment has its say.
abbrev pub Outcome : {A : Type 0} → (A → Tables → Type 0) → Result PgError (A × Tables) → Type 0
Outcome Q (ok (a, t)) = Q a t
Outcome Q (err e) = Unit {0}

pub >>=-Triple :
    {E A B : Type 0} {P : Tables → Type 0} (Q : A → Tables → Type 0) {R : B → Tables → Type 0}
    {m : M E A} {f : A → M E B}
    → Triple P m Q
    → ((a : A) → Triple (Q a) (f a) R)
    → Triple P (m >>= f) R
unfolding ◌>>=◌
>>=-Triple {E} {A} Q {R} {m} {f} hm hf = record { at = λ w h. go (m w).0 (m w).1 (hm.at w h) }
  where
    go :
        (r : Result E A) (w' : World)
        → Post Q r w'
        → let s = ◌>>=◌ (λ _. (r, w')) f w' in Post R s.0 s.1
    go (ok a) w' q = (hf a).at w' q
    go (err e) w' q = tt

pub map_err-Triple :
    {E F A : Type 0} (g : E → F) {P : Tables → Type 0} {Q : A → Tables → Type 0} {m : M E A}
    → Triple P m Q
    → Triple P (map_err g m) Q
unfolding map_err
map_err-Triple {E} {F} {A} g {P} {Q} {m} hm = record { at = λ w h. go (m w).0 (m w).1 (hm.at w h) }
  where
    go :
        (r : Result E A) (w' : World)
        → Post Q r w'
        → let s = map_err g (λ _. (r, w')) w' in Post Q s.0 s.1
    go (ok a) w' q = q
    go (err e) w' q = tt

-- A handler that starts from what the error left, of which nothing is known but `K`.
pub catch-Triple :
    {E A : Type 0} {P : Tables → Type 0} {Q : A → Tables → Type 0} {m : M E A} {h : E → M E A}
    → Triple P m Q
    → Keeps P m
    → ((e : E) → Triple P (h e) Q)
    → Triple P (catch m h) Q
unfolding catch
catch-Triple {E} {A} {P} {Q} {m} {h} hm km hh = record {
  at = λ w p. go (m w).0 (m w).1 (hm.at w p) (km.at w p);
}
  where
    go :
        (r : Result E A) (w' : World)
        → Post Q r w'
        → P w'.tables
        → let s = catch (λ _. (r, w')) h w' in Post Q s.0 s.1
    go (ok a) w' q k = q
    go (err e) w' q k = (hh e).at w' k

pub catch-Keeps :
    {E A : Type 0} {P : Tables → Type 0} {m : M E A} {h : E → M E A}
    → Keeps P m
    → ((e : E) → Keeps P (h e))
    → Keeps P (catch m h)
unfolding catch
catch-Keeps {E} {A} {P} {m} {h} km kh = record { at = λ w p. go (m w).0 (m w).1 (km.at w p) }
  where
    go : (r : Result E A) (w' : World) → P w'.tables → P (catch (λ _. (r, w')) h w').1.tables
    go (ok a) w' k = k
    go (err e) w' k = (kh e).at w' k

pub >>=-Keeps :
    {E A B : Type 0} {P : Tables → Type 0} {m : M E A} {f : A → M E B}
    → Keeps P m
    → ((a : A) → Keeps P (f a))
    → Keeps P (m >>= f)
unfolding ◌>>=◌
>>=-Keeps {E} {A} {P = P} {m} {f} hm hf = record { at = λ w h. go (m w).0 (m w).1 (hm.at w h) }
  where
    go : (r : Result E A) (w' : World) → P w'.tables → P (◌>>=◌ (λ _. (r, w')) f w').1.tables
    go (ok a) w' q = (hf a).at w' q
    go (err e) w' q = q

pub map_err-Keeps :
    {E F A : Type 0} (g : E → F) {P : Tables → Type 0} {m : M E A}
    → Keeps P m
    → Keeps P (map_err g m)
unfolding map_err
map_err-Keeps {E} {A = A} g {P} {m} hm = record { at = λ w h. go (m w).0 (m w).1 (hm.at w h) }
  where
    go : (r : Result E A) (w' : World) → P w'.tables → P (map_err g (λ _. (r, w')) w').1.tables
    go (ok a) w' q = q
    go (err e) w' q = q

-- A test that passes is a fact for the rest of the chain.
pub guard-Triple :
    {E : Type 0} {P : Tables → Type 0} (b : Bool) (e : E)
    → Triple P (guard b e) (λ _ t. P t × (b ≡ true))
unfolding guard
guard-Triple true e = record { at = λ w h. (h, refl) }
guard-Triple false e = record { at = λ w h. tt }

pub guard-Keeps : {E : Type 0} {P : Tables → Type 0} (b : Bool) (e : E) → Keeps P (guard b e)
unfolding guard
guard-Keeps b e = record { at = λ w h. h }

module _ {E A : Type 0} {P : Tables → Type 0} where
  pub pure-Keeps : (a : A) → Keeps P (pure {E = E} a)
  unfolding pure
  pure-Keeps a = record { at = λ w h. h }

  pub raise-Keeps : (e : E) → Keeps P (raise {A = A} e)
  unfolding raise
  raise-Keeps e = record { at = λ w h. h }

  pub lift-Keeps : (r : Result E A) → Keeps P (lift r)
  unfolding lift
  lift-Keeps r = record { at = λ w h. h }

  pub asks-Keeps : (f : Env → A) → Keeps P (asks {E = E} f)
  unfolding asks
  asks-Keeps f = record { at = λ w h. h }

  -- What leaves the tables as they were lets a fact through.
  pub Keeps-Triple : {m : M E A} → Keeps P m → Triple P m (λ _. P)
  Keeps-Triple {m} km = record { at = λ w h. go (m w).0 (m w).1 (km.at w h) }
    where
      go : (r : Result E A) (w' : World) → P w'.tables → Post (λ _. P) r w'
      go (ok a) w' q = q
      go (err e) w' q = tt

  pub pure-Triple : (a : A) → Triple P (pure {E = E} a) (λ _. P)
  unfolding pure
  pure-Triple a = record { at = λ w h. h }

  pub pure-establishes :
      {Q : A → Tables → Type 0} (a : A) → ((t : Tables) → P t → Q a t) → Triple P (pure {E = E} a) Q
  unfolding pure
  pure-establishes a imp = record { at = λ w h. imp w.tables h }

  pub raise-Triple : {Q : A → Tables → Type 0} (e : E) → Triple P (raise e) Q
  unfolding raise
  raise-Triple e = record { at = λ w h. tt }

  -- Less is asked at the start, more is promised at the end.
  pub weaken :
      {Q R : A → Tables → Type 0} {m : M E A}
      → ((a : A) (t : Tables) → Q a t → R a t)
      → Triple P m Q
      → Triple P m R
  weaken {Q} {R} {m} imp hm = record { at = λ w h. go (m w).0 (m w).1 (hm.at w h) }
    where
      go : (r : Result E A) (w' : World) → Post Q r w' → Post R r w'
      go (ok a) w' q = imp a w'.tables q
      go (err e) w' q = tt

pub assume :
    {E A : Type 0} {P R : Tables → Type 0} {Q : A → Tables → Type 0} {m : M E A}
    → ((t : Tables) → R t → P t)
    → Triple P m Q
    → Triple R m Q
assume imp hm = record { at = λ w h. hm.at w (imp w.tables h) }

-- An outcome is judged by what it is when it succeeds.
pub Outcome-ok :
    {A : Type 0} (Q : A → Tables → Type 0) (o : Result PgError (A × Tables))
    → ((a : A) (t : Tables) → o ≡ ok (a, t) → Q a t)
    → Outcome Q o
Outcome-ok Q (ok (a, t)) h = h a t refl
Outcome-ok Q (err e) h = tt
