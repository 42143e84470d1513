-- ===== src/Rooms/Start.antt =====
-- internal/rooms/service.go: `Start`, which turns a full and ready room into a match.
use billiards_online.Base.{
  ℕ, not, ◌||◌, List, [], ◌∷◌, ltb, leb, ◌==◌, if◌then◌else◌, Result, ok, err, any, length, set,
  replicate,
}
use billiards_online.Rooms.Model.{
  Room, Member, Mode, one_v_one, two_v_two, players_per_side, capacity, is_open, Error, room_closed,
  not_host, room_not_full, not_all_ready, internal, match_error,
}
use billiards_online.Rooms.Repository.{select_room_for_update, select_members, close_room}
use billiards_online.Matches.Model as MatchModel
use billiards_online.Matches.Model.{Match, Side}
use billiards_online.Matches.Service as MatchService
use billiards_online.Postgres.{M, Handle, pool, ◌>>=◌, ◌>>◌, pure, lift, guard, map_err, in_tx}

unfoldable pub to_match_mode : Mode → MatchModel.Mode
to_match_mode two_v_two = MatchModel.Mode.two_v_two
to_match_mode one_v_one = MatchModel.Mode.one_v_one
to_match_mode (Mode.unknown s) = MatchModel.Mode.one_v_one

-- `sides[m.Side].Players[m.Slot] = m.UserID`
unfoldable pub place : Member → Side × Side → Side × Side
place m (a, b) =
    if m.side == 0
    then (record a { players = set a.players m.slot m.user_id }, b)
    else (a, record b { players = set b.players m.slot m.user_id })

-- The loop over the members; a seat out of range is an error that nobody names.
unfoldable pub place_all : ℕ → Side × Side → List Member → Result Error (Side × Side)
unfolding place
place_all per_side sides [] = ok sides
place_all per_side sides (m ∷ ms) =
    let rest = place_all per_side (place m sides) ms in
    if ltb 1 m.side || leb per_side m.slot then err internal else rest

-- A slot that no member fills stays uuid.Nil, which is 0.
unfoldable pub empty_sides : ℕ → Side × Side
empty_sides n =
    (record { id = 0; players = replicate n 0 }, record { id = 1; players = replicate n 0 })

unfoldable pub build_match_sides : Mode → List Member → Result Error (Side × Side)
unfolding empty_sides place_all
build_match_sides mode ms = let n = players_per_side mode in place_all n (empty_sides n) ms

abbrev pub match_input : Room → Side × Side → MatchModel.CreateInput
match_input room (a, b) = record {
  room_id = room.id;
  mode = to_match_mode room.mode;
  ranked = room.ranked;
  rules = MatchModel.eight_ball;
  shot_timer_seconds = room.shot_timer_seconds;
  side_a = a;
  side_b = b;
}

unfoldable pub start_in_tx : ℕ → ℕ → Handle → M Error Match
unfolding to_match_mode build_match_sides
start_in_tx rid uid db = do
  room ← select_room_for_update db rid
  guard (room.host_user_id == uid) not_host
  guard (is_open room.state) room_closed
  members ← select_members db rid
  guard (length members == capacity room.mode) room_not_full
  guard (not (any (λ m. not m.ready) members)) not_all_ready
  sides ← lift (build_match_sides room.mode members)
  m ← map_err match_error (MatchService.create_in_tx db (match_input room sides))
  close_room db rid
  pure m

-- The actor is started only once the transaction has committed.
unfoldable pub start : ℕ → ℕ → M Error Match
start rid uid = do m ← in_tx internal pool (start_in_tx rid uid); MatchService.start_actor m; pure m
