-- ===== src/Rooms/Rows.antt =====
-- How the lobby's statements change what a lookup by room, user or seat finds.
use mathlib.Core.Option
use billiards_online.Base.{
  ℕ, ◌≡◌, refl, Bool, true, false, not, ◌&&◌, none, some, List, [], ◌∷◌, arith, ◌==◌, if◌then◌else◌,
  any, select, find, update,
}
use billiards_online.Rooms.Model.{Room, Member}
use billiards_online.Rooms.Statements.{room_is, in_room, seat_of}
use billiards_online.Schema.{has_room, is_member, seat_taken}

module _ (x : ℕ) (f : Room → Room) (keeps : (r : Room) → (f r).id ≡ r.id) where
  pub find-update :
      (rid : ℕ) (rs : List Room)
      → find (room_is rid) (update (room_is x) f rs)
        ≡ (if rid == x then Option.map f (find (room_is rid) rs) else find (room_is rid) rs)
  unfolding find update room_is
  find-update rid [] = ground arith
  find-update rid (r ∷ rs) = ground (arith, keeps r, find-update rid rs)

  pub has_room-update :
      (rid : ℕ) (rs : List Room) → has_room rid (update (room_is x) f rs) ≡ has_room rid rs
  unfolding has_room any update room_is
  has_room-update rid [] = refl
  has_room-update rid (r ∷ rs) = ground (arith, keeps r, has_room-update rid rs)

pub find-id : (rid : ℕ) (rs : List Room) {r : Room} → find (room_is rid) rs ≡ some r → r.id ≡ rid
unfolding find room_is
find-id rid [] h = ground arith
find-id rid (x ∷ rs) {r} h = ground (arith, find-id rid rs {r = r})

pub has_room-find :
    (rid : ℕ) (rs : List Room) → has_room rid rs ≡ false → find (room_is rid) rs ≡ none
unfolding find room_is has_room any
has_room-find rid [] h = refl
has_room-find rid (x ∷ rs) h = ground (arith, has_room-find rid rs)

-- DELETE
module _ (rid uid : ℕ) where
  abbrev pub others : List Member → List Member
  others ms = select (λ m. not (seat_of rid uid m)) ms

  pub is_member-others :
      (r u : ℕ) (ms : List Member)
      → is_member r u (others ms) ≡ (if (r == rid) && (u == uid) then false else is_member r u ms)
  unfolding is_member any select seat_of
  is_member-others r u [] = ground arith
  is_member-others r u (m ∷ ms) = ground (arith, is_member-others r u ms)

  pub seat_taken-others :
      (r side slot : ℕ) (ms : List Member)
      → seat_taken r side slot (others ms) ≡ true
      → seat_taken r side slot ms ≡ true
  unfolding seat_taken any select seat_of
  seat_taken-others r side slot [] h = ground arith
  seat_taken-others r side slot (m ∷ ms) h = ground (arith, seat_taken-others r side slot ms)

  pub in_room-others :
      (r : ℕ) (ms : List Member) → any (in_room r) ms ≡ false → any (in_room r) (others ms) ≡ false
  unfolding any select seat_of in_room
  in_room-others r [] h = refl
  in_room-others r (m ∷ ms) h = ground (arith, in_room-others r ms)

-- UPDATE of a ready flag
module _ (rid uid : ℕ) (ready : Bool) where
  abbrev pub marked : List Member → List Member
  marked ms = update (seat_of rid uid) (λ m. record m { ready = ready }) ms

  pub is_member-marked : (r u : ℕ) (ms : List Member) → is_member r u (marked ms) ≡ is_member r u ms
  unfolding is_member any update seat_of
  is_member-marked r u [] = refl
  is_member-marked r u (m ∷ ms) = ground (arith, is_member-marked r u ms)

  pub seat_taken-marked :
      (r side slot : ℕ) (ms : List Member)
      → seat_taken r side slot (marked ms) ≡ seat_taken r side slot ms
  unfolding seat_taken any update seat_of
  seat_taken-marked r side slot [] = refl
  seat_taken-marked r side slot (m ∷ ms) = ground (arith, seat_taken-marked r side slot ms)

  pub in_room-marked : (r : ℕ) (ms : List Member) → any (in_room r) (marked ms) ≡ any (in_room r) ms
  unfolding any update seat_of in_room
  in_room-marked r [] = refl
  in_room-marked r (m ∷ ms) = ground (arith, in_room-marked r ms)
