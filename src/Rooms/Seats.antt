-- ===== src/Rooms/Seats.antt =====
-- The members of a room sit in different places, by the key of room_members.
use billiards_online.Base.{
  ℕ, ◌≤◌, ◌≡◌, Bool, false, Bool-cases, inl, inr, ◌&&◌, List, [], ◌∷◌, Pairwise, Pairwise-of_count,
  count-sort, count-select, ◌==◌, any, count, select, arith,
}
use billiards_online.Rooms.Model.{Member}
use billiards_online.Rooms.Statements.{in_room, seat_le, members_of}
use billiards_online.Rooms.Invariant.{MembersDistinct}
use billiards_online.Rooms.Sides.{Elsewhere, same_seat}
use billiards_online.Schema.{seat_taken}

-- Is this member in that seat of the room?
abbrev seat_in_room : ℕ → ℕ → ℕ → Member → Bool
seat_in_room rid side slot m = (m.room_id == rid) && ((m.side == side) && (m.slot == slot))

count-none :
    (rid side slot : ℕ) (ms : List Member)
    → seat_taken rid side slot ms ≡ false
    → count (seat_in_room rid side slot) ms ≤ 0
unfolding count seat_taken any
count-none rid side slot [] h = omega arith
count-none rid side slot (m ∷ ms) h = ground (arith, count-none rid side slot ms)

count-seat :
    (rid side slot : ℕ) (ms : List Member)
    → MembersDistinct ms
    → count (seat_in_room rid side slot) ms ≤ 1
unfolding count
count-seat rid side slot [] d = omega arith
count-seat rid side slot (m ∷ ms) (_, apart, d) = elim (Bool-cases (seat_in_room rid side slot m)) [
  | inl hit ↦
      let room : m.room_id ≡ rid = ground arith in
      let on_side : m.side ≡ side = ground arith in
      let in_slot : m.slot ≡ slot = ground arith in
      let free : seat_taken rid side slot ms ≡ false = cc in
      rw hit (omega (arith, count-none rid side slot ms free))
  | inr miss ↦ rw miss (omega (arith, count-seat rid side slot ms d))
]

pub members_of-Elsewhere :
    (rid : ℕ) (ms : List Member) → MembersDistinct ms → Pairwise Elsewhere (members_of rid ms)
unfolding members_of in_room
members_of-Elsewhere rid ms d =
    Pairwise-of_count same_seat (λ m. ground arith) (members_of rid ms)
      λ m. omega (
        arith,
        count-sort (same_seat m) (λ a b. seat_le a.side a.slot b.side b.slot)
            (select (in_room rid) ms),
        count-select (same_seat m) (in_room rid) ms,
        count-seat rid m.side m.slot ms d,
      )
