-- ===== src/Rooms/Http.antt =====
-- internal/rooms/handler.go and response.go: what each route answers. The framework's part is
-- given: the identity that the middleware attached, the uuid and the body that it parsed, each
-- `none` when absent or malformed, and the rate limiter's verdict. Messages and logs are left out.
pub mod Answers
use billiards_online.Base.{
  ℕ, ◌+◌, ◌-◌, ◌*◌, ◌^◌, ◌%◌, Bool, true, false, ◌||◌, Option, none, some, List, [], ◌∷◌, Text, ℤ,
  pos, negsuc, ltb, ◌==◌, if◌then◌else◌, find, Result, ok, err,
}
use billiards_online.Rooms.Model.{
  Room, Detail, MemberView, Summary, CreateInput, capacity, Error, not_found, room_closed,
  room_full, already_member, not_member, invalid_visibility, invalid_mode, invalid_shot_timer,
  invalid_wager, invalid_join_code, wrong_join_path, not_host, room_not_full, not_all_ready,
  invalid_cursor,
}
use billiards_online.Rooms.Service as Service
use billiards_online.Rooms.Start as Start
use billiards_online.Rooms.Listing.{Codec, list_public_open}
use billiards_online.Matches.Model.{Match}
use billiards_online.Http.{answer}
use billiards_online.Postgres.{World, M}

-- The code of an error's body.
pub data Code : Type 0 where
  rooms_not_found rooms_not_host rooms_closed rooms_full rooms_already_member : Code
  rooms_not_member rooms_not_full rooms_not_all_ready rooms_wrong_join_path : Code
  rooms_invalid_join_code rooms_invalid_cursor rooms_invalid_id rooms_invalid_request : Code
  rooms_invalid_visibility rooms_invalid_mode rooms_invalid_shot_timer rooms_invalid_wager : Code
  rooms_rate_limited code_internal : Code

-- `detailResponse`: the room with its capacity, its members, and the viewer's own seat.
pub record DetailResponse : Type 0 where
  pub room : Room
  pub capacity : ℕ
  pub members : List MemberView
  pub you_are : Option MemberView

unfoldable pub to_detail_response : Detail → ℕ → DetailResponse
to_detail_response d viewer = record {
  room = d.room;
  capacity = capacity d.room.mode;
  members = d.members;
  you_are = find (λ v. v.user_id == viewer) d.members;
}

pub data Body : Type 0 where
  no_content : Body
  error_code : Code → Body
  room_detail : DetailResponse → Body
  room_list : List Summary → Text → Body
  match_id : ℕ → Body

pub record Reply : Type 0 where
  pub status : ℕ
  pub body : Body

abbrev pub reply : ℕ → Body → Reply
reply s b = record { status = s; body = b }

abbrev pub bad_request : Code → Reply
bad_request c = reply 400 (error_code c)

abbrev pub internal_error : Reply
internal_error = reply 500 (error_code code_internal)

abbrev pub not_found_reply : Reply
not_found_reply = reply 404 (error_code rooms_not_found)

unfoldable pub write_room_error : Error → Reply
write_room_error not_found = not_found_reply
write_room_error room_closed = reply 409 (error_code rooms_closed)
write_room_error room_full = reply 409 (error_code rooms_full)
write_room_error already_member = reply 409 (error_code rooms_already_member)
write_room_error not_member = reply 409 (error_code rooms_not_member)
write_room_error wrong_join_path = bad_request rooms_wrong_join_path
write_room_error invalid_join_code = bad_request rooms_invalid_join_code
write_room_error _ = internal_error

unfoldable pub write_create_error : Error → Reply
write_create_error invalid_visibility = bad_request rooms_invalid_visibility
write_create_error invalid_mode = bad_request rooms_invalid_mode
write_create_error invalid_shot_timer = bad_request rooms_invalid_shot_timer
write_create_error invalid_wager = bad_request rooms_invalid_wager
write_create_error _ = internal_error

unfoldable pub write_start_error : Error → Reply
write_start_error not_found = not_found_reply
write_start_error not_host = reply 403 (error_code rooms_not_host)
write_start_error room_closed = reply 409 (error_code rooms_closed)
write_start_error room_not_full = reply 409 (error_code rooms_not_full)
write_start_error not_all_ready = reply 409 (error_code rooms_not_all_ready)
write_start_error _ = internal_error

unfoldable pub write_list_error : Error → Reply
write_list_error invalid_cursor = bad_request rooms_invalid_cursor
write_list_error _ = internal_error

abbrev pub Handler : Type 0
Handler = World → Reply × World

-- `requireUserID` and `parseRoomID`
unfoldable pub with_user : Option ℕ → (ℕ → Handler) → Handler
with_user none f w = (internal_error, w)
with_user (some uid) f w = f uid w

unfoldable pub with_room : Option ℕ → (ℕ → Handler) → Handler
with_room none f w = (bad_request rooms_invalid_id, w)
with_room (some rid) f w = f rid w

unfoldable pub with_body : {A : Type 0} → Option A → (A → Handler) → Handler
with_body none f w = (bad_request rooms_invalid_request, w)
with_body (some a) f w = f a w

abbrev pub detail_reply : ℕ → ℕ → Detail → Reply
detail_reply status uid d = reply status (room_detail (to_detail_response d uid))

unfoldable pub create : Bool → Option ℕ → Option CreateInput → Handler
unfolding answer with_user with_body write_create_error
create allowed user body = with_user user λ uid.
    if allowed
    then with_body body
        (λ input. answer (Service.create uid input) (detail_reply 201 uid) write_create_error)
    else λ w. (reply 429 (error_code rooms_rate_limited), w)

unfoldable pub get : Option ℕ → Option ℕ → Handler
unfolding answer with_user with_room write_room_error
get user room = with_user user λ uid.
    with_room room λ rid. answer (Service.detail rid uid) (detail_reply 200 uid) write_room_error

-- A Go int of 64 bits, from its bits
unfoldable pub signed : ℕ → ℤ
signed n = if ltb n (2 ^ 63) then pos n else negsuc (2 ^ 64 - n - 1)

-- The loop of `parsePositiveInt`, whose arithmetic wraps around.
unfoldable pub parse_digits : ℕ → Text → Option ℕ
parse_digits n [] = some n
parse_digits n (c ∷ cs) =
    let rest = parse_digits ((n * 10 + (c - b'0')) % 2 ^ 64) cs in
    if ltb c b'0' || ltb b'9' c then none else rest

unfoldable pub parse_limit : Text → ℤ
unfolding parse_digits signed
parse_limit [] = pos 0
parse_limit (c ∷ cs) = elim (parse_digits 0 (c ∷ cs)) [ none ↦ pos 0 | some n ↦ signed n ]

unfoldable pub list : Codec → Text → Text → Handler
unfolding answer write_list_error parse_limit
list codec cursor limit =
    answer (list_public_open codec cursor (parse_limit limit))
      (λ page. reply 200 (room_list page.0 page.1)) write_list_error

unfoldable pub join : Option ℕ → Option ℕ → Handler
unfolding answer with_user with_room write_room_error
join user room = with_user user λ uid.
    with_room room λ rid. answer (Service.join rid uid) (detail_reply 200 uid) write_room_error

unfoldable pub join_by_code : Option ℕ → Option Text → Handler
unfolding answer with_user with_body write_room_error
join_by_code user body = with_user user λ uid.
    with_body body
      λ code. answer (Service.join_by_code code uid) (detail_reply 200 uid) write_room_error

unfoldable pub leave : Option ℕ → Option ℕ → Handler
unfolding answer with_user with_room write_room_error
leave user room = with_user user λ uid.
    with_room room
      λ rid. answer (Service.leave rid uid) (λ _. reply 204 no_content) write_room_error

unfoldable pub ready : Option ℕ → Option ℕ → Option Bool → Handler
unfolding answer with_user with_room with_body write_room_error
ready user room body = with_user user λ uid. with_room room λ rid.
    with_body body λ b. answer (Service.set_ready rid uid b) (detail_reply 200 uid) write_room_error

unfoldable pub start : Option ℕ → Option ℕ → Handler
unfolding answer with_user with_room write_start_error
start user room = with_user user λ uid.
    with_room room
      λ rid. answer (Start.start rid uid) (λ m. reply 201 (match_id m.id)) write_start_error
