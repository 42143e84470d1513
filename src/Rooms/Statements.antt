-- ===== src/Rooms/Statements.antt =====
-- The SQL of internal/rooms/repository.go, over the tables and constraints of
-- migrations/000004_rooms.up.sql. An INSERT reports a CHECK first, then the unique indexes in
-- the order of their creation, then the foreign keys.
use billiards_online.Base.{
  ℕ, Bool, false, not, ◌&&◌, ◌||◌, Option, none, some, List, ◌∷◌, Text, ltb, leb, ◌==◌, Result, ok,
  err, if◌then◌else◌, any, count, select, find, update, sort,
}
use billiards_online.Users.Model.{User}
use billiards_online.Rooms.Model.{
  Room, Member, MemberView, NormalInput, is_open, open_state, closed_state,
}
use billiards_online.Schema.{
  Tables, PgError, unique_violation, check_violation, foreign_key_violation, no_rows, rooms_pkey,
  rooms_join_code_key, room_members_pkey, room_members_seat_key, room_checks, seat_checks,
  same_code, has_user, has_room, is_member, seat_taken,
}
use billiards_online.Postgres.{Statement, Times}

-- The rows that a WHERE clause on one column picks.
unfoldable pub room_is : ℕ → Room → Bool
room_is rid r = r.id == rid

unfoldable pub in_room : ℕ → Member → Bool
in_room rid m = m.room_id == rid

unfoldable pub seat_of : ℕ → ℕ → Member → Bool
seat_of rid uid m = (m.room_id == rid) && (m.user_id == uid)

-- A query of exactly one row.
abbrev pub one_row : {A : Type 0} → Option A → Tables → Result PgError (A × Tables)
one_row none t = err no_rows
one_row (some a) t = ok (a, t)

unfoldable pub insert_room_row : Room → Statement Room
unfolding room_checks has_room has_user same_code
insert_room_row r ts t =
    if not (room_checks r)
    then err check_violation
    else if has_room r.id t.rooms
    then err (unique_violation rooms_pkey)
    else if any (λ s. same_code r.join_code s.join_code) t.rooms
    then err (unique_violation rooms_join_code_key)
    else if not (has_user r.host_user_id t.users)
    then err foreign_key_violation
    else ok (r, record t { rooms = r ∷ t.rooms })

abbrev pub new_room : ℕ → NormalInput → ℕ → Option Text → Times → Room
new_room id input host code ts = record {
  id = id;
  visibility = input.visibility;
  mode = input.mode;
  ranked = input.ranked;
  shot_timer_seconds = input.shot_timer_seconds;
  wager_amount = input.wager_amount;
  spectators_allowed = input.spectators_allowed;
  state = open_state;
  host_user_id = host;
  join_code = code;
  created_at = ts.now;
  updated_at = ts.now;
}

-- qInsertRoom
unfoldable pub q_insert_room : ℕ → NormalInput → ℕ → Option Text → Statement Room
unfolding insert_room_row
q_insert_room id input host code ts = insert_room_row (new_room id input host code ts) ts

abbrev pub new_member : ℕ → ℕ → ℕ → ℕ → Times → Member
new_member rid uid side slot ts = record {
  room_id = rid;
  user_id = uid;
  side = side;
  slot = slot;
  ready = false;
  joined_at = ts.clock_timestamp;
}

-- qInsertMember
unfoldable pub q_insert_member : ℕ → ℕ → ℕ → ℕ → Statement (Unit {0})
unfolding seat_checks is_member seat_taken has_room has_user
q_insert_member rid uid side slot ts t =
    if not (seat_checks side slot)
    then err check_violation
    else if is_member rid uid t.members
    then err (unique_violation room_members_pkey)
    else if seat_taken rid side slot t.members
    then err (unique_violation room_members_seat_key)
    else if not (has_room rid t.rooms)
    then err foreign_key_violation
    else if not (has_user uid t.users)
    then err foreign_key_violation
    else ok (tt, record t { members = new_member rid uid side slot ts ∷ t.members })

-- qRoom and qRoomForUpdate
unfoldable pub q_room : ℕ → Statement Room
unfolding room_is
q_room rid ts t = one_row (find (room_is rid) t.rooms) t

unfoldable pub code_is : Text → Room → Bool
unfolding same_code is_open
code_is code r = same_code (some code) r.join_code && is_open r.state

-- qRoomByJoinCodeForUpdate
unfoldable pub q_room_by_join_code : Text → Statement Room
unfolding code_is
q_room_by_join_code code ts t = one_row (find (code_is code) t.rooms) t

-- ORDER BY side, slot
unfoldable pub seat_le : ℕ → ℕ → ℕ → ℕ → Bool
seat_le side slot side' slot' = ltb side side' || ((side == side') && leb slot slot')

-- qMembersByRoom
unfoldable pub members_of : ℕ → List Member → List Member
unfolding seat_le in_room
members_of rid ms = sort (λ a b. seat_le a.side a.slot b.side b.slot) (select (in_room rid) ms)

unfoldable pub q_members_by_room : ℕ → Statement (List Member)
unfolding members_of
q_members_by_room rid ts t = ok (members_of rid t.members, t)

-- The inner join of qMemberViewsByRoom, on rows already in order.
unfoldable pub join_users : List User → List Member → List MemberView
join_users us List.[] = List.[]
join_users us (m ∷ ms) = elim (find (λ u. u.id == m.user_id) us) [
  | none ↦ join_users us ms
  | some u ↦
      record {
        user_id = m.user_id;
        handle = u.handle;
        side = m.side;
        slot = m.slot;
        ready = m.ready;
        joined_at = m.joined_at;
      }
      ∷ join_users us ms
]

unfoldable pub q_member_views_by_room : ℕ → Statement (List MemberView)
unfolding members_of join_users
q_member_views_by_room rid ts t = ok (join_users t.users (members_of rid t.members), t)

-- qUpdateMemberReady
unfoldable pub q_update_member_ready : ℕ → ℕ → Bool → Statement Member
unfolding seat_of
q_update_member_ready rid uid ready ts t =
    let changed = update (seat_of rid uid) (λ m. record m { ready = ready }) t.members in
    one_row (find (seat_of rid uid) changed) (record t { members = changed })

-- qDeleteMember, with the number of rows affected
unfoldable pub q_delete_member : ℕ → ℕ → Statement ℕ
unfolding seat_of
q_delete_member rid uid ts t = ok (
  count (seat_of rid uid) t.members,
  record t { members = select (λ m. not (seat_of rid uid m)) t.members },
)

-- qSetHost
unfoldable pub q_set_host : ℕ → ℕ → Statement (Unit {0})
unfolding room_is has_room has_user
q_set_host rid uid ts t =
    if has_room rid t.rooms && not (has_user uid t.users)
    then err foreign_key_violation
    else ok (
      tt,
      record t {
        rooms =
            update (room_is rid) (λ r. record r { host_user_id = uid; updated_at = ts.now })
              t.rooms;
      },
    )

-- qCloseRoom
unfoldable pub q_close_room : ℕ → Statement (Unit {0})
unfolding room_is
q_close_room rid ts t = ok (
  tt,
  record t {
    rooms =
        update (room_is rid) (λ r. record r { state = closed_state; updated_at = ts.now }) t.rooms;
  },
)
