-- ===== src/Rooms/Listing/Order.antt =====
-- The order of the list of public rooms: what a cursor stands for.
use billiards_online.Base.{
  ℕ, ◌≤◌, ◌≡◌, refl, sym, ap, ◌∙◌, subst, ==_iff, Bool, true, false, Option, none, some, List, [],
  ◌∷◌, ◌++◌, All, Pairwise, All-both, Pairwise-of_count, count-and_le, ==_refl, All-map,
  select-sort, sort-IsSorted, select, sort, count, any, count-sort, count-select, Bool-cases, inl,
  inr, ◌==◌, arith,
}
use billiards_online.Rooms.Model.{Room}
use billiards_online.Rooms.Statements.{room_is}
use billiards_online.Rooms.Invariant.{RoomsDistinct}
use billiards_online.Rooms.Listing.{Cursor, before, newer, listed}
use billiards_online.Schema.{has_room}

newer_total : (r s : Room) → newer r s ≡ false → newer s r ≡ true
unfolding newer
newer_total r s h = ground arith

newer_trans : (r s t : Room) → newer r s ≡ true → newer s t ≡ true → newer r t ≡ true
unfolding newer
newer_trans r s t h k = ground arith

-- The row that follows comes later, and is another one.
abbrev pub Follows : Room → Room → Type 0
Follows r s = (newer r s ≡ true) × (room_is r.id s ≡ false)

abbrev pub cursor_of : Room → Cursor
cursor_of r = record { created_at = r.created_at; id = r.id }

Follows-before : (r s : Room) → Follows r s → before (some (cursor_of r)) s ≡ true
unfolding newer before room_is
Follows-before r s h = ground arith

Follows-not_before : (r s : Room) → Follows r s → before (some (cursor_of s)) r ≡ false
unfolding newer before room_is
Follows-not_before r s h = ground arith

before_irrefl : (r : Room) → before (some (cursor_of r)) r ≡ false
unfolding before
before_irrefl r = ground arith

-- No id occurs twice.
abbrev Unique : List Room → Type 0
Unique rs = (i : ℕ) → count (room_is i) rs ≤ 1

Unique-Pairwise : (rs : List Room) → Unique rs → Pairwise (λ r s. room_is r.id s ≡ false) rs
unfolding room_is
Unique-Pairwise rs u =
    Pairwise-of_count (λ r s. room_is r.id s) (λ r. ==_refl r.id) rs (λ r. u r.id)

count-none : (i : ℕ) (rs : List Room) → has_room i rs ≡ false → count (room_is i) rs ≡ 0
unfolding count has_room any room_is
count-none i [] h = refl
count-none i (r ∷ rs) h = ground (arith, count-none i rs)

RoomsDistinct-Unique : (rs : List Room) → RoomsDistinct rs → Unique rs
unfolding count room_is
RoomsDistinct-Unique [] d i = omega arith
RoomsDistinct-Unique (r ∷ rs) (h, d) i = elim (Bool-cases (r.id == i)) [
  | inl hit ↦
      subst (λ j. count (room_is j) (r ∷ rs) ≤ 1) ((==_iff r.id i).0 hit)
        (ground (arith, count-none r.id rs h))
  | inr miss ↦ ground (arith, RoomsDistinct-Unique rs d i)
]

-- All rooms that are listed, newest first.
abbrev pub all_listed : List Room → List Room
all_listed rooms = sort newer (select (listed none) rooms)

all_listed-Unique : (rooms : List Room) → RoomsDistinct rooms → Unique (all_listed rooms)
all_listed-Unique rooms d i = omega (
  arith,
  count-sort (room_is i) newer (select (listed none) rooms),
  count-select (room_is i) (listed none) rooms,
  count-and_le (room_is i) (listed none) rooms,
  RoomsDistinct-Unique rooms d i,
)

Pairwise-both :
    (R S : Room → Room → Type 0) (rs : List Room)
    → Pairwise R rs
    → Pairwise S rs
    → Pairwise (λ r s. R r s × S r s) rs
Pairwise-both R S [] h k = tt
Pairwise-both R S (r ∷ rs) (h, hs) (k, ks) =
    (All-both (R r) (S r) rs h k, Pairwise-both R S rs hs ks)

pub all_listed-Follows :
    (rooms : List Room) → RoomsDistinct rooms → Pairwise Follows (all_listed rooms)
all_listed-Follows rooms d =
    Pairwise-both (λ r s. newer r s ≡ true) (λ r s. room_is r.id s ≡ false) (all_listed rooms)
      (sort-IsSorted newer newer_total newer_trans (select (listed none) rooms))
      (Unique-Pairwise (all_listed rooms) (all_listed-Unique rooms d))

All-last :
    (P : Room → Type 0) (pre : List Room) (r : Room) (rest : List Room)
    → All P (pre ++ r ∷ rest)
    → P r
All-last P [] r rest (p, h) = p
All-last P (x ∷ pre) r rest (p, h) = All-last P pre r rest h

select_everything : (p : Room → Bool) (rs : List Room) → All (λ r. p r ≡ true) rs → select p rs ≡ rs
unfolding select
select_everything p [] h = refl
select_everything p (r ∷ rs) (e, h) = rw e (ap (◌∷◌ r) (select_everything p rs h))

-- The rows below a row's cursor are those that follow it.
pub select-after :
    (pre : List Room) (r : Room) (rest : List Room)
    → Pairwise Follows (pre ++ r ∷ rest)
    → select (before (some (cursor_of r))) (pre ++ r ∷ rest) ≡ rest
unfolding select
select-after [] r rest (h, _) =
    rw (before_irrefl r) (select_everything _ rest (All-map (λ s f. Follows-before r s f) rest h))
select-after (x ∷ pre) r rest (h, hs) =
    rw (Follows-not_before x r (All-last (Follows x) pre r rest h)) (select-after pre r rest hs)

select-listed :
    (c : Option Cursor) (rooms : List Room)
    → select (listed c) rooms ≡ select (before c) (select (listed none) rooms)
unfolding select listed
select-listed c [] = refl
select-listed c (r ∷ rs) = ground (arith, select-listed c rs)

-- A page starts where the cursor stands in the whole list.
pub listed-from :
    (c : Option Cursor) (rooms : List Room)
    → sort newer (select (listed c) rooms) ≡ select (before c) (all_listed rooms)
listed-from c rooms =
    ap (sort newer) (select-listed c rooms)
    ∙ sym (select-sort newer newer_total newer_trans (before c) (select (listed none) rooms))
