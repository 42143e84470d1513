-- ===== src/Base/Ordering.antt =====
-- What ORDER BY and WHERE keep: facts about every row, and the order of the rows.
use Prim.Native.Nat.{ℕ, suc, ◌≤◌}
use mathlib.Core.Path.{◌≡◌, refl, ap, ◌∙◌}
use mathlib.Core.Logic.{inl, inr}
use mathlib.Core.Bool.{Bool, true, false, ◌&&◌}
use mathlib.Core.List.{List, [], ◌∷◌}
use native.Mathlib.Omega.{arith}
use billiards_online.Base.Tests.{if◌then◌else◌, Bool-cases}
use billiards_online.Base.Lists.{All, take, count, select, insert_sorted, sort}

module _ {A : Type 0} (P : A → Type 0) where
  pub All-take : (n : ℕ) (xs : List A) → All P xs → All P (take n xs)
  All-take ℕ.zero xs h = tt
  All-take (suc n) [] h = tt
  All-take (suc n) (x ∷ xs) (p, h) = (p, All-take n xs h)

  pub All-select : (q : A → Bool) (xs : List A) → ((x : A) → q x ≡ true → P x) → All P (select q xs)
  unfolding select
  All-select q [] imp = tt
  All-select q (x ∷ xs) imp = elim (Bool-cases (q x)) [
    | inl kept ↦ rw kept (imp x kept, All-select q xs imp)
    | inr dropped ↦ rw dropped (All-select q xs imp)
  ]

  pub All-insert_sorted :
      (le : A → A → Bool) (x : A) (xs : List A) → P x → All P xs → All P (insert_sorted le x xs)
  unfolding insert_sorted
  All-insert_sorted le x [] p h = (p, tt)
  All-insert_sorted le x (y ∷ ys) p (q, h) = elim (Bool-cases (le x y)) [
    | inl first ↦ rw first (p, (q, h))
    | inr later ↦ rw later (q, All-insert_sorted le x ys p h)
  ]

  pub All-sort : (le : A → A → Bool) (xs : List A) → All P xs → All P (sort le xs)
  unfolding sort
  All-sort le [] h = tt
  All-sort le (x ∷ xs) (p, h) = All-insert_sorted le x (sort le xs) p (All-sort le xs h)

-- Every row stands in the relation to all later ones.
abbrev pub Pairwise : {A : Type 0} → (A → A → Type 0) → List A → Type 0
Pairwise R [] = Unit
Pairwise R (x ∷ xs) = All (R x) xs × Pairwise R xs

pub All-map :
    {A : Type 0} {P Q : A → Type 0} (imp : (x : A) → P x → Q x) (xs : List A) → All P xs → All Q xs
All-map imp [] h = tt
All-map imp (x ∷ xs) (p, h) = (imp x p, All-map imp xs h)

pub All-select_of :
    {A : Type 0} (P : A → Type 0) (q : A → Bool) (xs : List A) → All P xs → All P (select q xs)
unfolding select
All-select_of P q [] h = tt
All-select_of P q (x ∷ xs) (p, h) = elim (Bool-cases (q x)) [
  | inl kept ↦ rw kept (p, All-select_of P q xs h)
  | inr dropped ↦ rw dropped (All-select_of P q xs h)
]

pub All-both :
    {A : Type 0} (P Q : A → Type 0) (xs : List A) → All P xs → All Q xs → All (λ x. P x × Q x) xs
All-both P Q [] h k = tt
All-both P Q (x ∷ xs) (p, h) (q, k) = ((p, q), All-both P Q xs h k)

-- Rows of which no two answer to one description are pairwise apart.
module _ {A : Type 0} (is : A → A → Bool) (itself : (x : A) → is x x ≡ true) where
  count-zero : (x : A) (ys : List A) → count (is x) ys ≤ 0 → All (λ y. is x y ≡ false) ys
  unfolding count
  count-zero x [] h = tt
  count-zero x (y ∷ ys) h = elim (Bool-cases (is x y)) [
    | inl hit ↦ absurd (ground arith)
    | inr miss ↦ (miss, count-zero x ys (ground arith))
  ]

  pub Pairwise-of_count :
      (xs : List A) → ((x : A) → count (is x) xs ≤ 1) → Pairwise (λ x y. is x y ≡ false) xs
  unfolding count
  Pairwise-of_count [] u = tt
  Pairwise-of_count (x ∷ xs) u = (
    count-zero x xs (ground (arith, u x, itself x)),
    Pairwise-of_count xs (λ y. ground (arith, u y)),
  )

module _ {A : Type 0} (le : A → A → Bool) (total : (a b : A) → le a b ≡ false → le b a ≡ true)
    (trans : (a b c : A) → le a b ≡ true → le b c ≡ true → le a c ≡ true) where
  abbrev pub Before : A → A → Type 0
  Before a b = le a b ≡ true

  abbrev pub IsSorted : List A → Type 0
  IsSorted = Pairwise Before

  below_head : (a x : A) (xs : List A) → Before a x → All (Before x) xs → All (Before a) xs
  below_head a x xs h = All-map (λ y k. trans a x y h k) xs

  insert_sorted-IsSorted : (a : A) (xs : List A) → IsSorted xs → IsSorted (insert_sorted le a xs)
  unfolding insert_sorted
  insert_sorted-IsSorted a [] h = (tt, tt)
  insert_sorted-IsSorted a (x ∷ xs) (h, s) = elim (Bool-cases (le a x)) [
    | inl first ↦ rw first ((first, below_head a x xs first h), (h, s))
    | inr later ↦
        rw later
          (All-insert_sorted (Before x) le a xs (total a x later) h, insert_sorted-IsSorted a xs s)
  ]

  pub sort-IsSorted : (xs : List A) → IsSorted (sort le xs)
  unfolding sort
  sort-IsSorted [] = tt
  sort-IsSorted (x ∷ xs) = insert_sorted-IsSorted x (sort le xs) (sort-IsSorted xs)

  insert_sorted-front : (a : A) (xs : List A) → All (Before a) xs → insert_sorted le a xs ≡ a ∷ xs
  unfolding insert_sorted
  insert_sorted-front a [] h = refl
  insert_sorted-front a (x ∷ xs) (h, _) = rw h refl

  select-insert_sorted :
      (p : A → Bool) (a : A) (xs : List A)
      → IsSorted xs
      → select p (insert_sorted le a xs)
        ≡ (if p a then insert_sorted le a (select p xs) else select p xs)
  unfolding select insert_sorted
  select-insert_sorted p a [] s = refl
  select-insert_sorted p a (x ∷ xs) (h, s) = elim (Bool-cases (le a x)) [
    | inl first ↦ ground (
      arith,
      first,
      insert_sorted-front a (select p (x ∷ xs))
          (All-select_of (Before a) p (x ∷ xs) (first, below_head a x xs first h)),
    )
    | inr later ↦ ground (arith, later, select-insert_sorted p a xs s)
  ]

  -- Rows may be selected before they are sorted, or after.
  pub select-sort : (p : A → Bool) (xs : List A) → select p (sort le xs) ≡ sort le (select p xs)
  unfolding select sort
  select-sort p [] = refl
  select-sort p (x ∷ xs) =
      select-insert_sorted p x (sort le xs) (sort-IsSorted xs) ∙ elim (Bool-cases (p x)) [
        | inl kept ↦ rw kept (ap (insert_sorted le x) (select-sort p xs))
        | inr dropped ↦ rw dropped (select-sort p xs)
      ]

pub count-and_le :
    {A : Type 0} (p q : A → Bool) (xs : List A) → count (λ x. q x && p x) xs ≤ count p xs
unfolding count
count-and_le p q [] = omega arith
count-and_le p q (x ∷ xs) = ground (arith, count-and_le p q xs)
