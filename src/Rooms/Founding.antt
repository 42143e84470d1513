-- ===== src/Rooms/Founding.antt =====
-- The invariant of the lobby across the creation of a room.
use billiards_online.Base.{
  ℕ, zero, suc, ◌≡◌, refl, true, false, Option, none, inr, List, ◌∷◌, Text, arith, ==_refl, ok, any,
  find,
}
use billiards_online.Rooms.Model.{
  Room, Visibility, public, private, Mode, one_v_one, two_v_two, NormalInput, Error,
  join_code_collision, seat_order,
}
use billiards_online.Rooms.Statements.{room_is, new_room, insert_room_row, q_insert_room}
use billiards_online.Rooms.Rows.{has_room-find}
use billiards_online.Rooms.Repository.{insert_room, generate_join_code}
use billiards_online.Rooms.Service.{draw_code, open_room, create_attempts, again_on_collision}
use billiards_online.Rooms.Invariant.{Sound, Inv, seat_in, seat_fits, fits_room}
use billiards_online.Rooms.Seating.{Opening, insert_member-Triple}
use billiards_online.Schema.{Tables, has_room}
use billiards_online.Postgres.{M, Handle, Times}
use billiards_online.Postgres.Laws.{
  Triple, Keeps, >>=-Triple, >>=-Keeps, catch-Keeps, in_tx-Keeps, query-Triple, pure-Triple,
  pure-Keeps, raise-Keeps, rand_read-Keeps, Outcome-ok,
}

insert_room_row_ok :
    (r : Room) (ts : Times) (t t' : Tables) {room : Room}
    → insert_room_row r ts t ≡ ok (room, t')
    → (room ≡ r) × (has_room r.id t.rooms ≡ false) × (t' ≡ record t { rooms = r ∷ t.rooms })
unfolding insert_room_row
insert_room_row_ok r ts t t' h = ground arith

-- A new id hides no room that a member sits in.
seat_fits-cons :
    (r : Room) (rid side slot : ℕ) (rooms : List Room)
    → has_room r.id rooms ≡ false
    → seat_fits rid side slot rooms ≡ true
    → seat_fits rid side slot (r ∷ rooms) ≡ true
unfolding seat_fits fits_room find room_is
seat_fits-cons r rid side slot rooms new h = ground (arith, has_room-find r.id rooms new)

insert_room-Sound :
    (r : Room) (t : Tables)
    → Sound t
    → has_room r.id t.rooms ≡ false
    → Sound (record t { rooms = r ∷ t.rooms })
insert_room-Sound r t s new = record {
  rooms_distinct = (new, s.rooms_distinct);
  members_distinct = s.members_distinct;
  fits = λ rid side slot h. seat_fits-cons r rid side slot t.rooms new (s.fits rid side slot h);
  known = s.known;
}

first_seat : (m : Mode) → seat_in 0 0 (seat_order m) ≡ true
unfolding any seat_order
first_seat one_v_one = refl
first_seat two_v_two = refl
first_seat (Mode.unknown s) = refl

insert_room-Opening :
    (r : Room) (t : Tables)
    → Inv t
    → has_room r.id t.rooms ≡ false
    → Opening (record t { rooms = r ∷ t.rooms }) r.id r.host_user_id 0 0
unfolding find room_is seat_fits fits_room
insert_room-Opening r t inv new = record {
  sound = insert_room-Sound r t inv.0 new;
  elsewhere = λ rid x ne e. inv.1 rid x (ground arith);
  here = λ x e. inr (ground arith);
  fit = rw (==_refl r.id) (first_seat r.mode);
}

open_room-Triple :
    (id : ℕ) (input : NormalInput) (host : ℕ) (code : Option Text) (db : Handle)
    → Triple Inv (open_room id input host code db) (λ _. Inv)
unfolding open_room insert_room q_insert_room
open_room-Triple id input host code db =
    >>=-Triple (λ room t. Opening t room.id host 0 0)
      (query-Triple _ _ db _ λ ts t inv.
        Outcome-ok (λ room t. Opening t room.id host 0 0) _
          λ room t' e.
            let r = new_room id input host code ts in
            let (same, new, after) = insert_room_row_ok r ts t t' e in
            rw (same, after) (insert_room-Opening r t inv new))
      λ room.
        >>=-Triple (λ _. Inv) (insert_member-Triple db room.id host 0 0 (λ t o. o))
          λ _. pure-Triple room

draw_code-Keeps : {P : Tables → Type 0} (v : Visibility) → Keeps P (draw_code v)
unfolding draw_code generate_join_code
draw_code-Keeps private =
    >>=-Keeps (>>=-Keeps (rand_read-Keeps _ _) λ b. pure-Keeps _) λ code. pure-Keeps _
draw_code-Keeps public = pure-Keeps none
draw_code-Keeps (Visibility.unknown s) = pure-Keeps none

again_on_collision-Keeps :
    {A : Type 0} {P : Tables → Type 0} {again : M Error A} (e : Error)
    → Keeps P again
    → Keeps P (again_on_collision again e)
again_on_collision-Keeps join_code_collision k = k
again_on_collision-Keeps e k = raise-Keeps e

pub create_attempts-Keeps :
    (n id : ℕ) (input : NormalInput) (host : ℕ) → Keeps Inv (create_attempts n id input host)
unfolding create_attempts
create_attempts-Keeps zero id input host = raise-Keeps join_code_collision
create_attempts-Keeps (suc n) id input host = >>=-Keeps (draw_code-Keeps input.visibility) λ code.
    catch-Keeps (in_tx-Keeps _ _ _ λ db. open_room-Triple id input host code db)
      λ e. again_on_collision-Keeps e (create_attempts-Keeps n id input host)
