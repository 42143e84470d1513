-- ===== src/Http.antt =====
-- How the handlers of all packages answer: they run a call of a service, and turn its result or its
-- error into a reply.
use billiards_online.Base.{◌≡◌, refl, ◌⊎◌, inl, inr, Result, ok, err}
use billiards_online.Postgres.{World, M}

pub Result-cases :
    {E A : Type 0} (r : Result E A) → ((a : A) × (r ≡ ok a)) ⊎ ((e : E) × (r ≡ err e))
Result-cases (ok a) = inl (a, refl)
Result-cases (err e) = inr (e, refl)

module _ {E A R : Type 0} where
  unfoldable pub answer : M E A → (A → R) → (E → R) → World → R × World
  answer m done failed w =
      let (r, w') = m w in elim r [ ok a ↦ (done a, w') | err e ↦ (failed e, w') ]

  -- Of a call whose errors change no table, only a reply that reports success can come with a change.
  pub answered :
      (P : R → Type 0) (m : M E A) (done : A → R) (failed : E → R) (w : World)
      → ((e : E) → (m w).0 ≡ err e → (m w).1.tables ≡ w.tables)
      → ((a : A) → P (done a))
      → ¬ P (answer m done failed w).0
      → (answer m done failed w).1.tables ≡ w.tables
  unfolding answer
  answered P m done failed w atomic success h = elim (Result-cases (m w).0) [
    | inl (a, e) ↦ elim (h (rw (e, answer) (success a))) [ ]
    | inr (e, q) ↦ rw (q, answer) (atomic e q)
  ]
