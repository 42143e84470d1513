-- ===== src/Rooms/Sides.antt =====
-- Where `buildMatchSides` of internal/rooms/service.go puts the members of a room.
use billiards_online.Base.{
  ℕ, zero, suc, ◌≤◌, ◌<◌, ◌≡◌, refl, sym, ap, ◌∙◌, Bool, false, Bool-cases, inl, inr, ◌&&◌, ◌||◌,
  Option, some, List, [], ◌∷◌, All, Pairwise, get_elem?, set, length, replicate, ltb, leb, ◌==◌,
  if◌then◌else◌, ok, arith,
}
use billiards_online.Rooms.Model.{Member, Mode, players_per_side}
use billiards_online.Rooms.Start.{place, place_all, empty_sides, build_match_sides}
use billiards_online.Matches.Model.{Side}
use billiards_online.Postgres.Laws.{ok-inj}

-- The player at a seat.
abbrev pub player_at : Side × Side → ℕ → ℕ → Option ℕ
player_at (a, b) side slot = get_elem? (if side == 0 then a.players else b.players) slot

abbrev pub SitsIn : Side × Side → Member → Type 0
SitsIn sides m = player_at sides m.side m.slot ≡ some m.user_id

abbrev pub same_seat : Member → Member → Bool
same_seat m n = (n.side == m.side) && (n.slot == m.slot)

-- The second member sits elsewhere.
abbrev pub Elsewhere : Member → Member → Type 0
Elsewhere m n = same_seat m n ≡ false

abbrev Sized : ℕ → Side × Side → Type 0
Sized n (a, b) = (length a.players ≡ n) × (length b.players ≡ n)

length-set : (xs : List ℕ) (i v : ℕ) → length (set xs i v) ≡ length xs
length-set [] i v = refl
length-set (x ∷ xs) zero v = refl
length-set (x ∷ xs) (suc i) v = ap suc (length-set xs i v)

get_elem?-set : (xs : List ℕ) (i v : ℕ) → i < length xs → get_elem? (set xs i v) i ≡ some v
get_elem?-set [] i v h = absurd (omega arith)
get_elem?-set (x ∷ xs) zero v h = refl
get_elem?-set (x ∷ xs) (suc i) v h = get_elem?-set xs i v (omega arith)

get_elem?-set_other :
    (xs : List ℕ) (i j v : ℕ) → (i == j) ≡ false → get_elem? (set xs i v) j ≡ get_elem? xs j
get_elem?-set_other [] i j v h = refl
get_elem?-set_other (x ∷ xs) zero zero v h = absurd (ground arith)
get_elem?-set_other (x ∷ xs) zero (suc j) v h = refl
get_elem?-set_other (x ∷ xs) (suc i) zero v h = refl
get_elem?-set_other (x ∷ xs) (suc i) (suc j) v h = get_elem?-set_other xs i j v (ground arith)

place-Sized : (n : ℕ) (m : Member) (s : Side × Side) → Sized n s → Sized n (place m s)
unfolding place
place-Sized n m (a, b) h =
    ground (arith, length-set a.players m.slot m.user_id, length-set b.players m.slot m.user_id)

place-SitsIn :
    (n : ℕ) (m : Member) (s : Side × Side)
    → Sized n s
    → m.side ≤ 1
    → m.slot < n
    → SitsIn (place m s) m
unfolding place
place-SitsIn n m (a, b) h k l =
    ground
      (arith, get_elem?-set a.players m.slot m.user_id, get_elem?-set b.players m.slot m.user_id)

place-other :
    (m : Member) (side slot : ℕ) (s : Side × Side)
    → m.side ≤ 1
    → side ≤ 1
    → ((m.side == side) && (m.slot == slot)) ≡ false
    → player_at (place m s) side slot ≡ player_at s side slot
unfolding place
place-other m side slot (a, b) h k e = ground (
  arith,
  get_elem?-set_other a.players m.slot slot m.user_id,
  get_elem?-set_other b.players m.slot slot m.user_id,
)

place_all-inv :
    (n : ℕ) (s r : Side × Side) (m : Member) (ms : List Member)
    → place_all n s (m ∷ ms) ≡ ok r
    → (m.side ≤ 1) × (m.slot < n) × (place_all n (place m s) ms ≡ ok r)
unfolding place_all
place_all-inv n s r m ms h = elim (Bool-cases (ltb 1 m.side || leb n m.slot)) [
  | inl out ↦ absurd (cc (rw out at h))
  | inr fine ↦ (ground arith, ground arith, rw fine at h)
]

place_all-other :
    (n side slot : ℕ) (s r : Side × Side) (ms : List Member)
    → side ≤ 1
    → place_all n s ms ≡ ok r
    → All (λ m. ((m.side == side) && (m.slot == slot)) ≡ false) ms
    → player_at r side slot ≡ player_at s side slot
unfolding place_all
place_all-other n side slot s r [] k h f = ap (λ t. player_at t side slot) (sym (ok-inj h))
place_all-other n side slot s r (m ∷ ms) k h (f, fs) =
    let (near, _, rest) = place_all-inv n s r m ms h in
    place_all-other n side slot (place m s) r ms k rest fs ∙ place-other m side slot s near k f

place_all-SitsIn :
    (n : ℕ) (s r : Side × Side) (ms : List Member)
    → Sized n s
    → Pairwise Elsewhere ms
    → place_all n s ms ≡ ok r
    → All (SitsIn r) ms
place_all-SitsIn n s r [] z p h = tt
place_all-SitsIn n s r (m ∷ ms) z (f, fs) h =
    let (near, low, rest) = place_all-inv n s r m ms h in
    (
      place_all-other n m.side m.slot (place m s) r ms near rest f ∙ place-SitsIn n m s z near low,
      place_all-SitsIn n (place m s) r ms (place-Sized n m s z) fs rest,
    )

length-replicate : (n : ℕ) → length {A = ℕ} (replicate n 0) ≡ n
length-replicate zero = refl
length-replicate (suc n) = ap suc (length-replicate n)

-- Members of whom no two share a seat are all put where they sit.
pub build_match_sides-SitsIn :
    (mode : Mode) (ms : List Member) (r : Side × Side)
    → Pairwise Elsewhere ms
    → build_match_sides mode ms ≡ ok r
    → All (SitsIn r) ms
unfolding build_match_sides empty_sides
build_match_sides-SitsIn mode ms r p h =
    place_all-SitsIn (players_per_side mode) (empty_sides (players_per_side mode)) r ms
      (length-replicate (players_per_side mode), length-replicate (players_per_side mode)) p h
