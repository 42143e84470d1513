-- ===== src/Rooms/Invariant.antt =====
-- What holds of the lobby's tables between operations.
use billiards_online.Base.{
  ℕ, ◌≡◌, ◌≢◌, ◌⊎◌, Bool, true, false, ◌&&◌, Option, none, some, List, [], ◌∷◌, ◌==◌, any, find,
}
use billiards_online.Rooms.Model.{Room, Member, closed_state, seat_order}
use billiards_online.Rooms.Statements.{room_is, in_room}
use billiards_online.Schema.{Tables, has_room, has_user, is_member, seat_taken}

-- No two rooms have one id.
abbrev pub RoomsDistinct : List Room → Type 0
RoomsDistinct [] = Unit {0}
RoomsDistinct (r ∷ rs) = (has_room r.id rs ≡ false) × RoomsDistinct rs

-- No user sits twice in one room, and no seat is taken twice.
abbrev pub MembersDistinct : List Member → Type 0
MembersDistinct [] = Unit {0}
MembersDistinct (m ∷ ms) =
    (is_member m.room_id m.user_id ms ≡ false)
    × (seat_taken m.room_id m.side m.slot ms ≡ false)
    × MembersDistinct ms

-- Is the seat one of those that the room's mode has?
abbrev pub seat_in : ℕ → ℕ → List (ℕ × ℕ) → Bool
seat_in side slot seats = any (λ seat. (seat.0 == side) && (seat.1 == slot)) seats

unfoldable pub fits_room : ℕ → ℕ → Option Room → Bool
fits_room side slot none = false
fits_room side slot (some r) = seat_in side slot (seat_order r.mode)

unfoldable pub seat_fits : ℕ → ℕ → ℕ → List Room → Bool
seat_fits rid side slot rooms = fits_room side slot (find (room_is rid) rooms)

pub record Sound (t : Tables) : Type 0 where
  pub rooms_distinct : RoomsDistinct t.rooms
  pub members_distinct : MembersDistinct t.members
  pub fits :
      (rid side slot : ℕ)
      → seat_taken rid side slot t.members ≡ true
      → seat_fits rid side slot t.rooms ≡ true
  pub known : (rid uid : ℕ) → is_member rid uid t.members ≡ true → has_user uid t.users ≡ true

-- The host is a member of the room, unless everybody has left and the room is closed.
abbrev pub HostSeated : ℕ → Room → Tables → Type 0
HostSeated rid r t =
    (is_member rid r.host_user_id t.members ≡ true)
    ⊎ ((r.state ≡ closed_state) × (any (in_room rid) t.members ≡ false))

abbrev pub Hosted : Tables → Type 0
Hosted t = (rid : ℕ) (r : Room) → find (room_is rid) t.rooms ≡ some r → HostSeated rid r t

-- The same, but for one room.
abbrev pub HostedBut : ℕ → Tables → Type 0
HostedBut x t =
    (rid : ℕ) (r : Room) → rid ≢ x → find (room_is rid) t.rooms ≡ some r → HostSeated rid r t

abbrev pub Inv : Tables → Type 0
Inv t = Sound t × Hosted t
