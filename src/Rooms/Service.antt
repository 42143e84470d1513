-- ===== src/Rooms/Service.antt =====
-- internal/rooms/service.go: the operations of the lobby.
use billiards_online.Base.{
  ℕ, zero, suc, Bool, true, false, not, ◌&&◌, ◌||◌, Option, none, some, List, [], ◌∷◌, Text, ltb,
  ◌==◌, if◌then◌else◌, any, trim_space, to_upper,
}
use billiards_online.Rooms.Model.{
  Room, Member, MemberView, Detail, CreateInput, NormalInput, Visibility, public, private,
  seat_order, is_open, normalize, Error, not_found, room_closed, room_full, already_member,
  not_member, invalid_join_code, wrong_join_path, join_code_collision, internal,
}
use billiards_online.Rooms.Repository.{
  generate_join_code, insert_room, insert_member, select_room_for_update,
  select_room_by_join_code_for_update, select_room, select_members, select_member_views,
  update_member_ready, delete_member, set_host, close_room,
}
use billiards_online.Postgres.{
  M, Handle, pool, ◌>>=◌, ◌>>◌, pure, raise, lift, guard, asks, catch, in_tx, new_uuid,
}

unfoldable pub is_public : Visibility → Bool
is_public public = true
is_public _ = false

unfoldable pub is_private : Visibility → Bool
is_private private = true
is_private _ = false

-- `v.UserID == viewerID` for some v
unfoldable pub views_have : ℕ → List MemberView → Bool
views_have uid = any (λ v. v.user_id == uid)

unfoldable pub detail : ℕ → ℕ → M Error Detail
unfolding is_private views_have
detail rid viewer = do
  room ← select_room pool rid
  views ← select_member_views pool rid
  guard (not (is_private room.visibility) || views_have viewer views) not_found
  pure (record { room = room; members = views })

-- The code of one attempt: a fresh one for a private room.
unfoldable pub draw_code : Visibility → M Error (Option Text)
draw_code private = do code ← generate_join_code; pure (some code)
draw_code _ = pure none

-- The transaction of one attempt.
unfoldable pub open_room : ℕ → NormalInput → ℕ → Option Text → Handle → M Error Room
open_room id input host code db = do
  room ← insert_room db id input host code
  insert_member db room.id host 0 0
  pure room

-- Only a collision of join codes is tried again.
abbrev pub again_on_collision : {A : Type 0} → M Error A → Error → M Error A
again_on_collision again join_code_collision = again
again_on_collision again e = raise e

-- The loop over the attempts left; after the last, the collision is the error.
unfoldable pub create_attempts : ℕ → ℕ → NormalInput → ℕ → M Error Room
unfolding draw_code open_room
create_attempts zero id input host = raise join_code_collision
create_attempts (suc n) id input host = do
  code ← draw_code input.visibility
  catch (in_tx internal pool (open_room id input host code))
      (again_on_collision (create_attempts n id input host))

abbrev pub max_attempts : ℕ
max_attempts = 3

unfoldable pub create : ℕ → CreateInput → M Error Detail
create host input = do
  normal ← lift (normalize input)
  id ← new_uuid internal
  room ← create_attempts max_attempts id normal host
  detail room.id host

-- `occupied[seat]`
unfoldable pub occupied : List Member → ℕ × ℕ → Bool
occupied ms (side, slot) = any (λ m. (m.side == side) && (m.slot == slot)) ms

unfoldable pub first_free : List (ℕ × ℕ) → List Member → Option (ℕ × ℕ)
unfolding occupied
first_free [] ms = none
first_free (seat ∷ seats) ms = if not (occupied ms seat) then some seat else first_free seats ms

unfoldable pub sit : Handle → ℕ → ℕ → Option (ℕ × ℕ) → M Error (Unit {0})
sit db rid uid none = raise room_full
sit db rid uid (some (side, slot)) = insert_member db rid uid side slot

unfoldable pub seat_member : Handle → Room → ℕ → M Error (Unit {0})
unfolding first_free sit
seat_member db room uid = do
  guard (is_open room.state) room_closed
  members ← select_members db room.id
  guard (not (any (λ m. m.user_id == uid) members)) already_member
  sit db room.id uid (first_free (seat_order room.mode) members)

unfoldable pub join_in_tx : ℕ → ℕ → Handle → M Error (Unit {0})
unfolding is_public
join_in_tx rid uid db = do
  room ← select_room_for_update db rid
  guard (is_public room.visibility) wrong_join_path
  seat_member db room uid

unfoldable pub join : ℕ → ℕ → M Error Detail
join rid uid = do in_tx internal pool (join_in_tx rid uid); detail rid uid

abbrev pub unknown_code : Error → M Error Room
unknown_code not_found = raise invalid_join_code
unknown_code e = raise e

unfoldable pub join_by_code_in_tx : Text → ℕ → Handle → M Error ℕ
join_by_code_in_tx code uid db = do
  room ← catch (select_room_by_join_code_for_update db code) unknown_code
  seat_member db room uid
  pure room.id

-- The code as it is looked up.
unfoldable pub canonical_code : (ℕ → ℕ) → Text → Text
canonical_code upper code = to_upper upper (trim_space code)

unfoldable pub is_empty : Text → Bool
is_empty [] = true
is_empty (c ∷ cs) = false

unfoldable pub join_by_code : Text → ℕ → M Error Detail
unfolding canonical_code is_empty
join_by_code raw uid = do
  upper ← asks (λ env. env.upper)
  let code = canonical_code upper raw
  guard (not (is_empty code)) invalid_join_code
  rid ← in_tx internal pool (join_by_code_in_tx code uid)
  detail rid uid

-- The scan for the earliest-joined member, the first of equals.
unfoldable pub earliest : Member → List Member → Member
earliest best [] = best
earliest best (m ∷ ms) = earliest (if ltb m.joined_at best.joined_at then m else best) ms

unfoldable pub hand_over : Handle → ℕ → ℕ → ℕ → List Member → M Error (Unit {0})
unfolding earliest
hand_over db rid host uid [] = close_room db rid
hand_over db rid host uid (m ∷ ms) =
    if not (host == uid) then pure tt else set_host db rid (earliest m ms).user_id

unfoldable pub leave_in_tx : ℕ → ℕ → Handle → M Error (Unit {0})
unfolding hand_over
leave_in_tx rid uid db = do
  room ← select_room_for_update db rid
  deleted ← delete_member db rid uid
  guard deleted not_member
  remaining ← select_members db rid
  hand_over db rid room.host_user_id uid remaining

unfoldable pub leave : ℕ → ℕ → M Error (Unit {0})
leave rid uid = in_tx internal pool (leave_in_tx rid uid)

unfoldable pub set_ready : ℕ → ℕ → Bool → M Error Detail
set_ready rid uid ready = do changed ← update_member_ready pool rid uid ready; detail rid uid
