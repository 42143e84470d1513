-- ===== src/Postgres/Laws/Facts.antt =====
-- Facts that speak of no table, beside what a step of the monad does to the tables.
use billiards_online.Base.{◌≡◌, refl, Result, ok, err}
use billiards_online.Schema.{Tables}
use billiards_online.Postgres.{World, M, ◌>>=◌, lift}
use billiards_online.Postgres.Laws.Triples.{Triple, Post, Keeps-Triple, assume}

-- Where the rest of a chain cannot fail, an error is that of its first step.
pub >>=-err :
    {E A B : Type 0} (m : M E A) (f : A → M E B) (w : World) {val : A → B} {e : E}
    → ((a : A) (w' : World) → (f a w').0 ≡ ok (val a))
    → ((m >>= f) w).0 ≡ err e
    → ((m w).0 ≡ err e) × (((m >>= f) w).1 ≡ (m w).1)
unfolding ◌>>=◌
>>=-err {E} {A} m f w {val} {e} total h = go (m w).0 (m w).1 h
  where
    go :
        (r : Result E A) (w' : World)
        → (◌>>=◌ (λ _. (r, w')) f w').0 ≡ err e
        → (r ≡ err e) × ((◌>>=◌ (λ _. (r, w')) f w').1 ≡ w')
    go (ok a) w' k = absurd (cc (total a w'))
    go (err x) w' k = (cc, refl)

-- A fact that speaks of no table outlives any step.
pub plain-Triple :
    {E A X : Type 0} {P : Tables → Type 0} (m : M E A)
    → ((t : Tables) → P t → X)
    → Triple P m (λ _ _. X)
plain-Triple {X} m imp = assume imp (Keeps-Triple (record { at = λ w h. h }))

-- What a step achieves, beside a fact that speaks of no table.
pub with_fact :
    {E A X : Type 0} {P : Tables → Type 0} {Q : A → Tables → Type 0} {m : M E A}
    → ((t : Tables) → P t → X)
    → Triple P m Q
    → Triple P m (λ a t. Q a t × X)
with_fact {E} {A} {X} {Q = Q} {m = m} imp hm = record {
  at = λ w h. go (imp w.tables h) (m w).0 (m w).1 (hm.at w h);
}
  where
    go : X → (r : Result E A) (w' : World) → Post Q r w' → Post (λ a t. Q a t × X) r w'
    go x (ok a) w' q = (q, x)
    go x (err e) w' q = tt

-- A result that is at hand.
pub lift-fact :
    {E A : Type 0} {P : Tables → Type 0} (r : Result E A)
    → Triple P (lift r) (λ a t. P t × (r ≡ ok a))
unfolding lift
lift-fact (ok a) = record { at = λ w h. (h, refl) }
lift-fact (err e) = record { at = λ w h. tt }
