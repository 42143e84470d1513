-- ===== src/Matches/Registry/Members.antt =====
-- Looking up and removing entries, for internal/matches/registry.go.
use mathlib.Core.List.{Memᴰ}
use mathlib.Core.Option.{some_inj}
use billiards_online.Base.{
  ℕ, ◌≡◌, ◌≢◌, refl, sym, ap, ◌∙◌, Bool, true, false, not, none, some, List, [], ◌∷◌, arith, ◌==◌,
  find, select, Bool-cases, Option-cases, inl, inr, subst,
}
use billiards_online.Matches.Registry.{Running}

pub Mem-select :
    (p : Running → Bool) (a : Running) (xs : List Running)
    → Memᴰ a (select p xs)
    → Memᴰ a xs × (p a ≡ true)
unfolding select
Mem-select p a [] m = elim m [ ]
Mem-select p a (x ∷ xs) m = elim (Bool-cases (p x)) [
  | inl kept ↦ first (λ n. Mem-select p a xs n) kept (subst (Memᴰ a) (kept_here kept) m)
  | inr dropped ↦
      let (n, e) = Mem-select p a xs (subst (Memᴰ a) (dropped_here dropped) m) in (Memᴰ.tail n, e)
]
  where
    kept_here : p x ≡ true → select p (x ∷ xs) ≡ x ∷ select p xs
    kept_here e = rw e refl

    dropped_here : p x ≡ false → select p (x ∷ xs) ≡ select p xs
    dropped_here e = rw e refl

    first :
        (Memᴰ a (select p xs) → Memᴰ a xs × (p a ≡ true))
        → p x ≡ true
        → Memᴰ a (x ∷ select p xs)
        → Memᴰ a (x ∷ xs) × (p a ≡ true)
    first rec kept (Memᴰ.head e) = (Memᴰ.head e, ap p e ∙ kept)
    first rec kept (Memᴰ.tail n) = let (n', e) = rec n in (Memᴰ.tail n', e)

pub select-Mem :
    (p : Running → Bool) (a : Running) (xs : List Running)
    → Memᴰ a xs
    → p a ≡ true
    → Memᴰ a (select p xs)
unfolding select
select-Mem p a [] m e = elim m [ ]
select-Mem p a (x ∷ xs) m e = elim (Bool-cases (p x)) [
  | inl kept ↦ rw kept (here (λ n. select-Mem p a xs n e) m)
  | inr dropped ↦ rw dropped (there (λ n. select-Mem p a xs n e) dropped m)
]
  where
    here : (Memᴰ a xs → Memᴰ a (select p xs)) → Memᴰ a (x ∷ xs) → Memᴰ a (x ∷ select p xs)
    here rec (Memᴰ.head q) = Memᴰ.head q
    here rec (Memᴰ.tail n) = Memᴰ.tail (rec n)

    there :
        (Memᴰ a xs → Memᴰ a (select p xs)) → p x ≡ false → Memᴰ a (x ∷ xs) → Memᴰ a (select p xs)
    there rec dropped (Memᴰ.head q) = absurd (cc (sym e ∙ ap p q ∙ dropped))
    there rec dropped (Memᴰ.tail n) = rec n

pub neq-true : {m n : ℕ} → not (m == n) ≡ true → m ≢ n
neq-true e = ground arith

pub true-neq : {m n : ℕ} → m ≢ n → not (m == n) ≡ true
true-neq e = ground arith

pub find_Mem :
    (id : ℕ) (xs : List Running) (a : Running)
    → find (λ x. x.match_id == id) xs ≡ some a
    → Memᴰ a xs × (a.match_id ≡ id)
unfolding find
find_Mem id [] a e = absurd (cc e)
find_Mem id (x ∷ xs) a e = elim (Bool-cases (x.match_id == id)) [
  | inl hit ↦
      let same : x ≡ a = some_inj.0 (rw hit at e) in
      (Memᴰ.head (sym same), ap (λ (y : Running). y.match_id) (sym same) ∙ ground arith)
  | inr miss ↦ let (m, h) = find_Mem id xs a (rw miss at e) in (Memᴰ.tail m, h)
]

pub find-none :
    (id : ℕ) (xs : List Running) (a : Running)
    → find (λ x. x.match_id == id) xs ≡ none
    → Memᴰ a xs
    → a.match_id ≢ id
unfolding find
find-none id [] a e m = elim m [ ]
find-none id (x ∷ xs) a e m = elim (Bool-cases (x.match_id == id)) [
  | inl hit ↦ absurd (cc (rw hit at e))
  | inr miss ↦ apart miss m (λ n. find-none id xs a (rw miss at e) n)
]
  where
    apart :
        (x.match_id == id) ≡ false
        → Memᴰ a (x ∷ xs)
        → (Memᴰ a xs → a.match_id ≢ id)
        → a.match_id ≢ id
    apart miss (Memᴰ.head q) rec = λ same.
        let hit : (x.match_id == id) ≡ true =
          ground (arith, ap (λ (y : Running). y.match_id) q, same) in
        absurd (cc (sym miss ∙ hit))
    apart miss (Memᴰ.tail n) rec = rec n

pub find-some :
    (xs : List Running) (a : Running)
    → Memᴰ a xs
    → ((b : Running) → Memᴰ b xs → b.match_id ≡ a.match_id → b ≡ a)
    → find (λ x. x.match_id == a.match_id) xs ≡ some a
find-some xs a m only = elim (Option-cases (find (λ x. x.match_id == a.match_id) xs)) [
  | inl missing ↦ absurd (find-none a.match_id xs a missing m refl)
  | inr (b, found) ↦
      let (n, same) = find_Mem a.match_id xs b found in found ∙ ap some (only b n same)
]
