-- ===== src/Base/Sorting.antt =====
-- Sorting and selecting rows: which rows are in the outcome, and how many.
use Prim.Native.Nat.{◌+◌}
use mathlib.Core.Path.{◌≡◌, refl}
use mathlib.Core.Bool.{Bool, true, ◌&&◌, ◌||◌}
use mathlib.Core.List.{List, [], ◌∷◌}
use native.Mathlib.Omega.{arith}
use billiards_online.Base.Tests.{if◌then◌else◌}
use billiards_online.Base.Lists.{length, any, count, select, insert_sorted, sort}

module _ {ℓ} {A : Type ℓ} where
  any-insert_sorted :
      (p : A → Bool) (le : A → A → Bool) (a : A) (xs : List A)
      → any p (insert_sorted le a xs) ≡ (p a || any p xs)
  unfolding any insert_sorted
  any-insert_sorted p le a [] = refl
  any-insert_sorted p le a (x ∷ xs) = ground (arith, any-insert_sorted p le a xs)

  pub any-sort : (p : A → Bool) (le : A → A → Bool) (xs : List A) → any p (sort le xs) ≡ any p xs
  unfolding any sort
  any-sort p le [] = refl
  any-sort p le (x ∷ xs) = ground (arith, any-insert_sorted p le x (sort le xs), any-sort p le xs)

  pub any-select : (p q : A → Bool) (xs : List A) → any p (select q xs) ≡ any (λ x. q x && p x) xs
  unfolding any select
  any-select p q [] = refl
  any-select p q (x ∷ xs) = ground (arith, any-select p q xs)

  count-insert_sorted :
      (p : A → Bool) (le : A → A → Bool) (a : A) (xs : List A)
      → count p (insert_sorted le a xs) ≡ (if p a then 1 else 0) + count p xs
  unfolding count insert_sorted
  count-insert_sorted p le a [] = refl
  count-insert_sorted p le a (x ∷ xs) = ground (arith, count-insert_sorted p le a xs)

  pub count-sort :
      (p : A → Bool) (le : A → A → Bool) (xs : List A) → count p (sort le xs) ≡ count p xs
  unfolding count sort
  count-sort p le [] = refl
  count-sort p le (x ∷ xs) =
      ground (arith, count-insert_sorted p le x (sort le xs), count-sort p le xs)

  pub count-select :
      (p q : A → Bool) (xs : List A) → count p (select q xs) ≡ count (λ x. q x && p x) xs
  unfolding count select
  count-select p q [] = refl
  count-select p q (x ∷ xs) = ground (arith, count-select p q xs)

  pub length-count : (xs : List A) → length xs ≡ count (λ _. true) xs
  unfolding count
  length-count [] = refl
  length-count (x ∷ xs) = omega (arith, length-count xs)
