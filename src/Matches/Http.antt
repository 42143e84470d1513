-- ===== src/Matches/Http.antt =====
-- internal/matches/handler.go and response.go: what each route answers. The framework's part is given:
-- the uuid of the path, `none` when malformed, and the texts of the query. `parsePositiveInt` is, word
-- for word, that of internal/rooms/handler.go. Messages and logs are left out.
use billiards_online.Base.{ℕ, ℤ, Bool, Option, none, some, List, map, Text}
use billiards_online.Rooms.Http.{parse_limit}
use billiards_online.Rooms.Listing.{Codec}
use billiards_online.Matches.Model.{
  Match, State, Mode, Ruleset, TurnRef, Error, not_found, invalid_cursor,
}
use billiards_online.Matches.Service as Service
use billiards_online.Matches.Listing.{list_for_user}
use billiards_online.Http.{answer}
use billiards_online.Postgres.{World}

-- The code of an error's body.
pub data Code : Type 0 where
  matches_not_found matches_invalid_id matches_invalid_user_id matches_invalid_cursor : Code
  code_internal : Code

-- `matchResponse`
pub record MatchResponse : Type 0 where
  pub id : ℕ
  pub room_id : ℕ
  pub state : State
  pub mode : Mode
  pub ranked : Bool
  pub rules : Ruleset
  pub shot_timer_seconds : ℤ
  pub players_a : List ℕ
  pub players_b : List ℕ
  pub turn : Option TurnRef
  pub started_at : Option ℕ
  pub completed_at : Option ℕ
  pub created_at : ℕ

unfoldable pub to_match_response : Match → MatchResponse
to_match_response m = record {
  id = m.id;
  room_id = m.room_id;
  state = m.state;
  mode = m.mode;
  ranked = m.ranked;
  rules = m.rules;
  shot_timer_seconds = m.shot_timer_seconds;
  players_a = m.side_a.players;
  players_b = m.side_b.players;
  turn = m.turn;
  started_at = m.started_at;
  completed_at = m.completed_at;
  created_at = m.created_at;
}

pub data Body : Type 0 where
  error_code : Code → Body
  match_body : MatchResponse → Body
  match_list : List MatchResponse → Text → Body

pub record Reply : Type 0 where
  pub status : ℕ
  pub body : Body

abbrev pub reply : ℕ → Body → Reply
reply s b = record { status = s; body = b }

abbrev pub bad_request : Code → Reply
bad_request c = reply 400 (error_code c)

abbrev pub internal_error : Reply
internal_error = reply 500 (error_code code_internal)

unfoldable pub write_get_error : Error → Reply
write_get_error not_found = reply 404 (error_code matches_not_found)
write_get_error _ = internal_error

unfoldable pub get : Option ℕ → World → Reply × World
unfolding answer write_get_error to_match_response
get none w = (bad_request matches_invalid_id, w)
get (some id) w =
    answer (Service.get id) (λ m. reply 200 (match_body (to_match_response m))) write_get_error w

unfoldable pub write_list_error : Error → Reply
write_list_error invalid_cursor = bad_request matches_invalid_cursor
write_list_error _ = internal_error

unfoldable pub list_for_user_route : Codec → Option ℕ → Text → Text → World → Reply × World
unfolding answer write_list_error to_match_response
list_for_user_route codec none cursor limit w = (bad_request matches_invalid_user_id, w)
list_for_user_route codec (some uid) cursor limit w =
    answer (list_for_user codec uid cursor (parse_limit limit))
      (λ page. reply 200 (match_list (map to_match_response page.0) page.1)) write_list_error w
