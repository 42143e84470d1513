-- ===== src/Rooms/Repository.antt =====
-- The functions of internal/rooms/repository.go: each runs a statement and translates its errors.
use billiards_online.Base.{
  ℕ, ◌%◌, Bool, Option, none, some, List, [], ◌∷◌, map, Text, get_elem?, length, ltb,
}
use billiards_online.Rooms.Model.{
  Room, Member, MemberView, NormalInput, Error, not_found, room_full, not_member,
  join_code_collision, internal, join_code_length,
}
use billiards_online.Rooms.Statements.{
  q_insert_room, q_insert_member, q_room, q_room_by_join_code, q_members_by_room,
  q_member_views_by_room, q_update_member_ready, q_delete_member, q_set_host, q_close_room,
}
use billiards_online.Schema.{
  PgError, unique_violation, no_rows, rooms_join_code_key, room_members_seat_key,
}
use billiards_online.Postgres.{M, Handle, Statement, ◌>>=◌, pure, map_err, exec, query, rand_read}

-- `mapRoomError`
unfoldable pub map_room_error : PgError → Error
map_room_error (unique_violation rooms_join_code_key) = join_code_collision
map_room_error (unique_violation room_members_seat_key) = room_full
map_room_error _ = internal

-- An error wrapped by fmt.Errorf or passed on as it is, which no caller tells apart.
abbrev pub wrapped : PgError → Error
wrapped e = internal

-- `errors.Is(err, pgx.ErrNoRows)`
abbrev pub no_rows_as : Error → PgError → Error
no_rows_as e no_rows = e
no_rows_as e _ = internal

-- The bytes of "23456789ABCDEFGHJKMNPQRSTUVWXYZ".
abbrev pub join_code_alphabet : Text
join_code_alphabet =
    50 ∷ 51 ∷ 52 ∷ 53 ∷ 54 ∷ 55 ∷ 56 ∷ 57 ∷ 65 ∷ 66 ∷ 67 ∷ 68 ∷ 69 ∷ 70 ∷ 71 ∷ 72 ∷ 74 ∷ 75 ∷ 77
    ∷ 78 ∷ 80 ∷ 81 ∷ 82 ∷ 83 ∷ 84 ∷ 85 ∷ 86 ∷ 87 ∷ 88 ∷ 89 ∷ 90 ∷ []

unfoldable pub code_char : ℕ → ℕ
code_char v = elim (get_elem? join_code_alphabet (v % length join_code_alphabet)) [
  | none ↦ 0
  | some c ↦ c
]

unfoldable pub generate_join_code : M Error Text
unfolding code_char
generate_join_code = do b ← rand_read internal join_code_length; pure (map code_char b)

-- The insert goes through Query, so only its sending errors pass through `mapRoomError`.
unfoldable pub insert_room : Handle → ℕ → NormalInput → ℕ → Option Text → M Error Room
unfolding map_room_error
insert_room db id input host code =
    query map_room_error wrapped db (q_insert_room id input host code)

unfoldable pub insert_member : Handle → ℕ → ℕ → ℕ → ℕ → M Error (Unit {0})
unfolding map_room_error
insert_member db rid uid side slot =
    map_err map_room_error (exec db (q_insert_member rid uid side slot))

-- `scanRoom`
unfoldable pub scan_room : Handle → Statement Room → M Error Room
scan_room = query wrapped (no_rows_as not_found)

unfoldable pub select_room_for_update : Handle → ℕ → M Error Room
unfolding scan_room
select_room_for_update db rid = scan_room db (q_room rid)

unfoldable pub select_room_by_join_code_for_update : Handle → Text → M Error Room
unfolding scan_room
select_room_by_join_code_for_update db code = scan_room db (q_room_by_join_code code)

unfoldable pub select_room : Handle → ℕ → M Error Room
unfolding scan_room
select_room db rid = scan_room db (q_room rid)

unfoldable pub select_members : Handle → ℕ → M Error (List Member)
select_members db rid = query wrapped wrapped db (q_members_by_room rid)

unfoldable pub select_member_views : Handle → ℕ → M Error (List MemberView)
select_member_views db rid = query wrapped wrapped db (q_member_views_by_room rid)

unfoldable pub update_member_ready : Handle → ℕ → ℕ → Bool → M Error Member
update_member_ready db rid uid ready =
    query wrapped (no_rows_as not_member) db (q_update_member_ready rid uid ready)

unfoldable pub delete_member : Handle → ℕ → ℕ → M Error Bool
delete_member db rid uid = do
  rows ← map_err wrapped (exec db (q_delete_member rid uid))
  pure (ltb 0 rows)

unfoldable pub set_host : Handle → ℕ → ℕ → M Error (Unit {0})
set_host db rid uid = map_err wrapped (exec db (q_set_host rid uid))

unfoldable pub close_room : Handle → ℕ → M Error (Unit {0})
close_room db rid = map_err wrapped (exec db (q_close_room rid))
