-- ===== src/Rooms/Safety.antt =====
-- The invariant of the lobby across each of its operations.
use billiards_online.Base.{
  ℕ, ◌≡◌, Bool, true, Option, none, some, List, [], ◌∷◌, Text, arith, any, find,
}
use billiards_online.Rooms.Model.{Room, CreateInput, Error, not_found}
use billiards_online.Rooms.Statements.{
  room_is, seat_of, code_is, one_row, q_room, q_room_by_join_code, q_member_views_by_room,
  q_update_member_ready,
}
use billiards_online.Rooms.Rows.{marked, is_member-marked, in_room-marked}
use billiards_online.Rooms.Repository.{
  select_room, scan_room, select_member_views, select_room_by_join_code_for_update,
  update_member_ready,
}
use billiards_online.Rooms.Service.{
  detail, create, join, join_by_code, join_by_code_in_tx, leave, set_ready, unknown_code,
}
use billiards_online.Rooms.Invariant.{RoomsDistinct, Inv}
use billiards_online.Rooms.Sound.{marked-Sound}
use billiards_online.Rooms.Seating.{Found, one_row-ok, seat_member-Triple, join_in_tx-Triple}
use billiards_online.Rooms.Leaving.{leave_in_tx-Triple}
use billiards_online.Rooms.Founding.{create_attempts-Keeps}
use billiards_online.Schema.{Tables, has_room}
use billiards_online.Postgres.{Handle, Times}
use billiards_online.Postgres.Laws.{
  Triple, Keeps, Outcome, >>=-Triple, >>=-Keeps, catch-Triple, in_tx-Keeps, query-Triple,
  query-Keeps, guard-Keeps, lift-Keeps, asks-Keeps, new_uuid-Keeps, pure-Triple, pure-Keeps,
  raise-Triple, Outcome-ok,
}

one_row-Outcome :
    {A : Type 0} (P : Tables → Type 0) (o : Option A) (t : Tables)
    → P t
    → Outcome (λ _. P) (one_row o t)
one_row-Outcome P none t h = tt
one_row-Outcome P (some a) t h = h

-- Reading a room changes nothing.
pub detail-Keeps : {P : Tables → Type 0} (rid uid : ℕ) → Keeps P (detail rid uid)
unfolding detail select_room scan_room select_member_views q_room q_member_views_by_room
detail-Keeps {P} rid uid =
    >>=-Keeps (query-Keeps _ _ _ _ λ ts t h. one_row-Outcome P (find (room_is rid) t.rooms) t h)
      λ room.
        >>=-Keeps (query-Keeps _ _ _ _ λ ts t h. h)
          λ views. >>=-Keeps (guard-Keeps _ not_found) λ _. pure-Keeps _

pub create-Keeps : (host : ℕ) (input : CreateInput) → Keeps Inv (create host input)
unfolding create
create-Keeps host input = >>=-Keeps (lift-Keeps _) λ normal.
    >>=-Keeps (new_uuid-Keeps _)
      λ id. >>=-Keeps (create_attempts-Keeps _ id normal host) λ room. detail-Keeps room.id host

pub join-Keeps : (rid uid : ℕ) → Keeps Inv (join rid uid)
unfolding join
join-Keeps rid uid =
    >>=-Keeps (in_tx-Keeps _ _ _ λ db. join_in_tx-Triple rid uid db) λ _. detail-Keeps rid uid

pub leave-Keeps : (rid uid : ℕ) → Keeps Inv (leave rid uid)
unfolding leave
leave-Keeps rid uid = in_tx-Keeps _ _ _ λ db. leave_in_tx-Triple rid uid db

-- The row that any query of rooms returns is the one with its id.
find-found :
    (p : Room → Bool) (rooms : List Room) {r : Room}
    → RoomsDistinct rooms
    → find p rooms ≡ some r
    → (find (room_is r.id) rooms ≡ some r) × (has_room r.id rooms ≡ true)
unfolding find room_is has_room any
find-found p [] d h = cc
find-found p (x ∷ rooms) {r} d h = ground (arith, find-found p rooms {r = r} d.1)

code_room-Found :
    (code : Text) (db : Handle) → Triple Inv (select_room_by_join_code_for_update db code) Found
unfolding select_room_by_join_code_for_update scan_room q_room_by_join_code
code_room-Found code db = query-Triple _ _ db _ λ ts t inv. Outcome-ok Found _ λ room t' e.
    let (same, found) = one_row-ok (find (code_is code) t.rooms) t t' e in
    rw same (inv, (find-found (code_is code) t.rooms inv.0.rooms_distinct found).0)

code_room-Keeps :
    {P : Tables → Type 0} (code : Text) (db : Handle)
    → Keeps P (select_room_by_join_code_for_update db code)
unfolding select_room_by_join_code_for_update scan_room q_room_by_join_code
code_room-Keeps {P} code db =
    query-Keeps _ _ db _ λ ts t h. one_row-Outcome P (find (code_is code) t.rooms) t h

unknown_code-Triple : {P : Tables → Type 0} (e : Error) → Triple P (unknown_code e) Found
unknown_code-Triple not_found = raise-Triple _
unknown_code-Triple e = raise-Triple e

join_by_code_in_tx-Triple :
    (code : Text) (uid : ℕ) (db : Handle) → Triple Inv (join_by_code_in_tx code uid db) (λ _. Inv)
unfolding join_by_code_in_tx
join_by_code_in_tx-Triple code uid db =
    >>=-Triple Found
      (catch-Triple (code_room-Found code db) (code_room-Keeps code db) unknown_code-Triple)
      λ room. >>=-Triple (λ _. Inv) (seat_member-Triple db room uid) λ _. pure-Triple room.id

pub join_by_code-Keeps : (code : Text) (uid : ℕ) → Keeps Inv (join_by_code code uid)
unfolding join_by_code
join_by_code-Keeps code uid = >>=-Keeps (asks-Keeps _) λ upper. >>=-Keeps (guard-Keeps _ _) λ _.
    >>=-Keeps (in_tx-Keeps _ _ _ λ db. join_by_code_in_tx-Triple _ uid db)
      λ rid. detail-Keeps rid uid

update_member_ready-Outcome :
    (rid uid : ℕ) (ready : Bool) (ts : Times) (t : Tables)
    → Inv t
    → Outcome (λ _. Inv) (q_update_member_ready rid uid ready ts t)
unfolding q_update_member_ready
update_member_ready-Outcome rid uid ready ts t inv =
    one_row-Outcome Inv (find (seat_of rid uid) (marked rid uid ready t.members)) _ (
      marked-Sound rid uid ready t inv.0,
      λ r x e. ground (
        arith,
        inv.1 r x e,
        is_member-marked rid uid ready r x.host_user_id t.members,
        in_room-marked rid uid ready r t.members,
      ),
    )

pub set_ready-Keeps : (rid uid : ℕ) (ready : Bool) → Keeps Inv (set_ready rid uid ready)
unfolding set_ready update_member_ready
set_ready-Keeps rid uid ready =
    >>=-Keeps (query-Keeps _ _ _ _ (update_member_ready-Outcome rid uid ready))
      λ m. detail-Keeps rid uid
