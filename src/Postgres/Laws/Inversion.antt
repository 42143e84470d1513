-- ===== src/Postgres/Laws/Inversion.antt =====
-- What a result says of the steps that led to it.
use billiards_online.Postgres.Laws.Triples.{Post}
use billiards_online.Base.{subst, ap, ◌≡◌, ◌⊎◌, refl, false, Bool-cases, inl, inr, Result, ok, err}
use billiards_online.Schema.{Tables, PgError}
use billiards_online.Postgres.{
  World, M, Handle, Statement, ◌>>=◌, map_err, exec, query, settle, times, next,
}

pub ok-inj : {E A : Type 0} {a b : A} → ◌≡◌ {A = Result E A} (ok a) (ok b) → a ≡ b
ok-inj e = cc

-- Like `>>=`, on what the first step has come to.
abbrev go_on : {E A B : Type 0} → (A → M E B) → Result E A → World → Result E B × World
go_on f r w = elim r [ ok a ↦ f a w | err e ↦ (err e, w) ]

go_on-ok :
    {E A B : Type 0} (f : A → M E B) (r : Result E A) (w : World) (b : B)
    → (go_on f r w).0 ≡ ok b
    → (a : A) × (r ≡ ok a) × ((f a w).0 ≡ ok b)
go_on-ok f (ok a) w b h = (a, refl, h)
go_on-ok f (err e) w b h = cc

pub >>=-ok :
    {E A B : Type 0} (m : M E A) (f : A → M E B) (w : World) (b : B)
    → ((m >>= f) w).0 ≡ ok b
    → (a : A) × ((m w).0 ≡ ok a) × ((f a (m w).1).0 ≡ ok b)
unfolding ◌>>=◌
>>=-ok m f w b h = go_on-ok f (m w).0 (m w).1 b h

abbrev translated : {E F A : Type 0} → (F → E) → Result F A → World → Result E A × World
translated f r w = elim r [ ok a ↦ (ok a, w) | err e ↦ (err (f e), w) ]

translated-ok :
    {E F A : Type 0} (f : F → E) (r : Result F A) (w : World) (a : A)
    → (translated f r w).0 ≡ ok a
    → r ≡ ok a
translated-ok f (ok b) w a h = cc
translated-ok f (err e) w a h = cc

pub map_err-ok :
    {E F A : Type 0} (f : F → E) (m : M F A) (w : World) (a : A)
    → (map_err f m w).0 ≡ ok a
    → (m w).0 ≡ ok a
unfolding map_err
map_err-ok f m w a h = translated-ok f (m w).0 (m w).1 a h

settled-ok :
    {A : Type 0} (w : World) (r : Result PgError (A × Tables)) (a : A)
    → (settle w r).0 ≡ ok a
    → (t' : Tables) × (r ≡ ok (a, t'))
settled-ok w (ok (b, t)) a h = (t, cc)
settled-ok w (err e) a h = cc

pub exec-ok :
    {A : Type 0} (db : Handle) (s : Statement A) (w : World) (a : A)
    → (exec db s w).0 ≡ ok a
    → (t' : Tables) × (s (times db w) w.tables ≡ ok (a, t'))
unfolding exec
exec-ok db s w a h = elim (Bool-cases (w.env.fails w.tick)) [
  | inl down ↦ cc (rw down at h)
  | inr up ↦ settled-ok w (s (times db w) w.tables) a (rw up at h)
]

pub query-ok :
    {E A : Type 0} (sending reading : PgError → E) (db : Handle) (s : Statement A) (w : World)
    (a : A)
    → (query sending reading db s w).0 ≡ ok a
    → (t' : Tables) × (s (times db w) w.tables ≡ ok (a, t'))
unfolding query
query-ok sending reading db s w a h = exec-ok db s w a (map_err-ok _ (exec db s) w a h)

pub Post-ok :
    {E A : Type 0} (Q : A → Tables → Type 0) (r : Result E A) (w : World) {a : A}
    → Post Q r w
    → r ≡ ok a
    → Q a w.tables
Post-ok Q (ok b) w q e = subst (λ x. Q x w.tables) (ok-inj e) q
Post-ok Q (err x) w q e = absurd (cc e)

-- An error comes from the first step or from the rest.
go_on-err_cases :
    {E A B : Type 0} (f : A → M E B) (r : Result E A) (w : World) (e : E)
    → (go_on f r w).0 ≡ err e
    → ((r ≡ err e) × ((go_on f r w).1 ≡ w)) ⊎ ((a : A) × (r ≡ ok a) × ((f a w).0 ≡ err e))
go_on-err_cases f (ok a) w e h = inr (a, refl, h)
go_on-err_cases f (err x) w e h = inl (cc, refl)

pub >>=-err_cases :
    {E A B : Type 0} (m : M E A) (f : A → M E B) (w : World) (e : E)
    → ((m >>= f) w).0 ≡ err e
    → (((m w).0 ≡ err e) × (((m >>= f) w).1 ≡ (m w).1))
      ⊎ ((a : A) × ((m w).0 ≡ ok a) × ((f a (m w).1).0 ≡ err e))
unfolding ◌>>=◌
>>=-err_cases m f w e h = go_on-err_cases f (m w).0 (m w).1 e h

-- What a step leads to, forwards.
go_on-runs :
    {E A B : Type 0} (f : A → M E B) (r : Result E A) (w : World) (a : A)
    → r ≡ ok a
    → (go_on f r w).0 ≡ (f a w).0
go_on-runs f r w a h = rw h refl

pub >>=-runs :
    {E A B : Type 0} (m : M E A) (f : A → M E B) (w : World) (a : A)
    → (m w).0 ≡ ok a
    → ((m >>= f) w).0 ≡ (f a (m w).1).0
unfolding ◌>>=◌
>>=-runs m f w a h = go_on-runs f (m w).0 (m w).1 a h

translated-runs :
    {E F A : Type 0} (f : F → E) (r : Result F A) (w : World) (a : A)
    → r ≡ ok a
    → (translated f r w).0 ≡ ok a
translated-runs f r w a h = rw h refl

pub map_err-runs :
    {E F A : Type 0} (f : F → E) (m : M F A) (w : World) (a : A)
    → (m w).0 ≡ ok a
    → (map_err f m w).0 ≡ ok a
unfolding map_err
map_err-runs f m w a h = translated-runs f (m w).0 (m w).1 a h

settled-runs :
    {A : Type 0} (w : World) (r : Result PgError (A × Tables)) (a : A) (t : Tables)
    → r ≡ ok (a, t)
    → (settle w r).0 ≡ ok a
settled-runs w r a t h = rw h refl

pub exec-runs :
    {A : Type 0} (db : Handle) (s : Statement A) (w : World) (a : A) (t : Tables)
    → w.env.fails w.tick ≡ false
    → s (times db w) w.tables ≡ ok (a, t)
    → (exec db s w).0 ≡ ok a
unfolding exec
exec-runs db s w a t up h = rw up (settled-runs w (s (times db w) w.tables) a t h)

pub query-runs :
    {E A : Type 0} (sending reading : PgError → E) (db : Handle) (s : Statement A) (w : World)
    (a : A) (t : Tables)
    → w.env.fails w.tick ≡ false
    → s (times db w) w.tables ≡ ok (a, t)
    → (query sending reading db s w).0 ≡ ok a
unfolding query
query-runs sending reading db s w a t up h =
    map_err-runs _ (exec db s) w a (exec-runs db s w a t up h)

settled-calm :
    {A : Type 0} (w : World) (r : Result PgError (A × Tables)) (a : A) (t : Tables)
    → r ≡ ok (a, t)
    → settle w r ≡ (ok a, record (next w) { tables = t })
settled-calm w r a t h = rw h refl

pub exec-calm :
    {A : Type 0} (db : Handle) (s : Statement A) (w : World) (a : A) (t : Tables)
    → w.env.fails w.tick ≡ false
    → s (times db w) w.tables ≡ ok (a, t)
    → exec db s w ≡ (ok a, record (next w) { tables = t })
unfolding exec
exec-calm db s w a t up h = rw up (settled-calm w (s (times db w) w.tables) a t h)

pub map_err-calm :
    {E F A : Type 0} (f : F → E) (m : M F A) (w : World) (a : A) (w' : World)
    → m w ≡ (ok a, w')
    → map_err f m w ≡ (ok a, w')
unfolding map_err
map_err-calm {F} {A} f m w a w' h = ap (λ (p : Result F A × World). translated f p.0 p.1) h

-- A statement that is sent and succeeds, with the world it leaves.
pub query-calm :
    {E A : Type 0} (sending reading : PgError → E) (db : Handle) (s : Statement A) (w : World)
    (a : A) (t : Tables)
    → w.env.fails w.tick ≡ false
    → s (times db w) w.tables ≡ ok (a, t)
    → query sending reading db s w ≡ (ok a, record (next w) { tables = t })
unfolding query
query-calm sending reading db s w a t up h =
    map_err-calm _ (exec db s) w a (record (next w) { tables = t }) (exec-calm db s w a t up h)

pub >>=-calm :
    {E A B : Type 0} (m : M E A) (f : A → M E B) (w : World) (a : A) (w' : World)
    → m w ≡ (ok a, w')
    → (m >>= f) w ≡ f a w'
unfolding ◌>>=◌
>>=-calm {E} {A} m f w a w' h = ap (λ (p : Result E A × World). go_on f p.0 p.1) h
