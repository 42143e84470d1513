-- ===== src/Rooms/Capacity.antt =====
-- How many members a room has.
use billiards_online.Base.{
  ℕ, ◌+◌, ◌≤◌, ◌≡◌, refl, Bool, true, false, ◌&&◌, some, List, [], ◌∷◌, arith, ◌==◌, if◌then◌else◌,
  any, count, find, length, subst, Bool-cases, inl, inr,
}
use billiards_online.Rooms.Model.{
  Room, Member, Mode, one_v_one, two_v_two, capacity, players_per_side, seat_order,
}
use billiards_online.Rooms.Statements.{room_is, in_room}
use billiards_online.Rooms.Invariant.{MembersDistinct, seat_in, seat_fits, fits_room, Inv}
use billiards_online.Schema.{Tables, seat_taken}

abbrev at_seat : ℕ → ℕ → ℕ → Member → Bool
at_seat rid side slot m = (m.room_id == rid) && ((m.side == side) && (m.slot == slot))

-- The members of a room on the seats of a list.
on_seats : ℕ → List (ℕ × ℕ) → List Member → ℕ
on_seats rid [] ms = 0
on_seats rid (seat ∷ seats) ms = count (at_seat rid seat.0 seat.1) ms + on_seats rid seats ms

seat_free-count :
    (rid side slot : ℕ) (ms : List Member)
    → seat_taken rid side slot ms ≡ false
    → count (at_seat rid side slot) ms ≡ 0
unfolding seat_taken any count
seat_free-count rid side slot [] h = refl
seat_free-count rid side slot (m ∷ ms) h = ground (arith, seat_free-count rid side slot ms)

-- A seat has one member at most.
seat-count :
    (rid side slot : ℕ) (ms : List Member)
    → MembersDistinct ms
    → count (at_seat rid side slot) ms ≤ 1
unfolding count
seat-count rid side slot [] d = omega arith
seat-count rid side slot (m ∷ ms) d =
    ground (arith, seat-count rid side slot ms d.2, seat_free-count m.room_id m.side m.slot ms d.1)

on_seats-le :
    (rid : ℕ) (seats : List (ℕ × ℕ)) (ms : List Member)
    → MembersDistinct ms
    → on_seats rid seats ms ≤ length seats
unfolding on_seats
on_seats-le rid [] ms d = omega arith
on_seats-le rid (seat ∷ seats) ms d =
    omega (arith, seat-count rid seat.0 seat.1 ms d, on_seats-le rid seats ms d)

-- One more member on one of the seats adds at least one.
on_seats-cons :
    (rid : ℕ) (seats : List (ℕ × ℕ)) (m : Member) (ms : List Member)
    → on_seats rid seats ms + (if (m.room_id == rid) && seat_in m.side m.slot seats then 1 else 0)
      ≤ on_seats rid seats (m ∷ ms)
unfolding on_seats count any
on_seats-cons rid [] m ms = ground arith
on_seats-cons rid (seat ∷ seats) m ms = ground (arith, on_seats-cons rid seats m ms)

module _ (rid : ℕ) (m : Member) (ms : List Member) where
  seat_taken-later :
      (side slot : ℕ)
      → seat_taken rid side slot ms ≡ true
      → seat_taken rid side slot (m ∷ ms) ≡ true
  unfolding seat_taken any
  seat_taken-later side slot h = ground arith

  seat_taken-here : (m.room_id == rid) ≡ true → seat_taken rid m.side m.slot (m ∷ ms) ≡ true
  unfolding seat_taken any
  seat_taken-here h = ground arith

count-le-on_seats :
    (rid : ℕ) (seats : List (ℕ × ℕ)) (ms : List Member)
    → ((side slot : ℕ) → seat_taken rid side slot ms ≡ true → seat_in side slot seats ≡ true)
    → count (in_room rid) ms ≤ on_seats rid seats ms
unfolding count in_room
count-le-on_seats rid seats [] h = omega arith
count-le-on_seats rid seats (m ∷ ms) h =
    let rest =
      count-le-on_seats rid seats ms
        (λ side slot k. h side slot (seat_taken-later rid m ms side slot k)) in
    elim (Bool-cases (m.room_id == rid)) [
      | inl same ↦ ground (
        arith,
        rest,
        on_seats-cons rid seats m ms,
        h m.side m.slot (seat_taken-here rid m ms same),
      )
      | inr other ↦ ground (arith, rest, on_seats-cons rid seats m ms)
    ]

length-seat_order : (m : Mode) → length (seat_order m) ≡ capacity m
unfolding seat_order capacity players_per_side
length-seat_order one_v_one = refl
length-seat_order two_v_two = refl
length-seat_order (Mode.unknown s) = refl

-- In tables that satisfy the invariant, a room has at most as many members as its mode has seats.
pub members-le-capacity :
    (t : Tables) (rid : ℕ) (room : Room)
    → Inv t
    → find (room_is rid) t.rooms ≡ some room
    → count (in_room rid) t.members ≤ capacity room.mode
unfolding seat_fits fits_room
members-le-capacity t rid room inv found = omega (
  arith,
  count-le-on_seats rid (seat_order room.mode) t.members
      (λ side slot k. subst (λ o. fits_room side slot o ≡ true) found (inv.0.fits rid side slot k)),
  on_seats-le rid (seat_order room.mode) t.members inv.0.members_distinct,
  length-seat_order room.mode,
)
