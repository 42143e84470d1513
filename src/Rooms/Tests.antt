-- ===== src/Rooms/Tests.antt =====
-- The lobby at concrete inputs.
mod Views
use billiards_online.Base.{
  ℕ, ◌+◌, ◌≤◌, ◌≡◌, refl, true, false, none, some, List, [], ◌∷◌, arith, pos, find, any, count,
  ◌==◌, ok, err,
}
use billiards_online.Users.Model.{User}
use billiards_online.Rooms.Model.{
  seat_order, Room, Member, CreateInput, players_per_side, public, one_v_one, open_state, capacity,
  internal,
}
use billiards_online.Rooms.Statements.{room_is, in_room}
use billiards_online.Rooms.Invariant.{Inv, seat_fits, fits_room}
use billiards_online.Rooms.Run.{Call, run, run-Inv}
use billiards_online.Rooms.Capacity.{members-le-capacity}
use billiards_online.Rooms.Start.{start}
use billiards_online.Rooms.Starting.{start_atomic}
use billiards_online.Schema.{Tables, seat_taken, is_member, has_room, has_user}
use billiards_online.Postgres.{World, Env}
use billiards_online.Postgres.{◌>>=◌, in_tx, query, new_uuid}
use billiards_online.Rooms.Start.{start_in_tx, build_match_sides}
use billiards_online.Rooms.Repository.{select_room_for_update, select_members, close_room}
use billiards_online.Rooms.Statements.{q_room, q_members_by_room, q_close_room}
use billiards_online.Rooms.Model.{is_open}
use billiards_online.Base.{sort, select, insert_sorted, update}
use billiards_online.Matches.Service.{create_in_tx, start_actor}
use billiards_online.Matches.Model.{Match, normalize}
use billiards_online.Matches.Model as MatchModel
use billiards_online.Rooms.Started.{StartedFrom, start-StartedFrom}
use billiards_online.Matches.Repository.{insert_match}
use billiards_online.Matches.Statements.{q_insert_match, q_insert_side, q_insert_participant}

abbrev pub steady : Env
steady = record {
  fails = λ n. false;
  clock = λ n. 1000 + n;
  new_uuid = λ n. some (500 + n);
  random = λ n k. some (0 ∷ 1 ∷ 2 ∷ 3 ∷ 255 ∷ 30 ∷ 31 ∷ 8 ∷ []);
  upper = λ c. c;
  lower = λ c. c;
}

abbrev player : ℕ → User
player n = record { id = n; email = n ∷ []; handle = n ∷ []; created_at = 0; updated_at = 0 }

abbrev no_rooms : Tables
no_rooms = record {
  users = player 1 ∷ player 2 ∷ player 3 ∷ [];
  profiles = [];
  credentials = [];
  sessions = [];
  rooms = [];
  members = [];
  matches = [];
  match_sides = [];
  participants = [];
}

abbrev pub at_start : World
at_start = record { env = steady; tick = 0; tables = no_rooms; registry = some [] }

no_rooms-Inv : Inv no_rooms
unfolding find seat_taken is_member any
no_rooms-Inv = (
  record {
    rooms_distinct = tt;
    members_distinct = tt;
    fits = λ rid side slot h. cc;
    known = λ rid uid h. cc;
  },
  λ rid r e. cc,
)

abbrev duel : CreateInput
duel = record {
  visibility = public;
  mode = one_v_one;
  ranked = false;
  shot_timer_seconds = none;
  wager_amount = none;
  spectators_allowed = none;
}

abbrev calls : List Call
calls =
    Call.create 1 duel
    ∷ Call.join 500 2
    ∷ Call.join 500 3
    ∷ Call.set_ready 500 1 true
    ∷ Call.set_ready 500 2 true
    ∷ Call.leave 500 3
    ∷ Call.start 500 1
    ∷ Call.leave 500 1
    ∷ []

run-Inv_example : Inv (run at_start calls).tables
run-Inv_example = run-Inv at_start calls no_rooms-Inv

-- A full room whose two members are ready.
abbrev pub hall_room : Room
hall_room = record {
  id = 7;
  visibility = public;
  mode = one_v_one;
  ranked = false;
  shot_timer_seconds = pos 30;
  wager_amount = pos 0;
  spectators_allowed = true;
  state = open_state;
  host_user_id = 1;
  join_code = none;
  created_at = 0;
  updated_at = 0;
}

abbrev seated : ℕ → ℕ → Member
seated uid side = record {
  room_id = 7;
  user_id = uid;
  side = side;
  slot = 0;
  ready = true;
  joined_at = uid;
}

abbrev pub hall : Tables
hall = record no_rooms { rooms = hall_room ∷ []; members = seated 2 1 ∷ seated 1 0 ∷ [] }

hall-Inv : Inv hall
unfolding find seat_taken is_member any room_is in_room fits_room seat_fits seat_order has_room
    has_user
hall-Inv = (
  record {
    rooms_distinct = (refl, tt);
    members_distinct = (refl, refl, (refl, refl, tt));
    fits = λ rid side slot h. ground arith;
    known = λ rid uid h. ground arith;
  },
  λ rid r e. ground arith,
)

members-le-capacity_example : count (in_room 7) hall.members ≤ 2
unfolding capacity players_per_side find room_is
members-le-capacity_example = members-le-capacity hall 7 hall_room hall-Inv refl

-- The commit of the start fails, once the match is written and the room closed.
abbrev pub in_hall : World
in_hall = record {
  env = record steady { fails = λ n. n == 10 };
  tick = 0;
  tables = hall;
  registry = some [];
}

pub commit_fails : (start 7 1 in_hall).0 ≡ err internal
unfolding start ◌>>=◌ in_tx query new_uuid start_in_tx build_match_sides select_room_for_update
    select_members close_room q_room q_members_by_room q_close_room is_open sort select
    insert_sorted update create_in_tx start_actor normalize insert_match q_insert_match
    q_insert_side q_insert_participant find capacity any
commit_fails = refl

start_atomic_example : (start 7 1 in_hall).1.tables ≡ hall
start_atomic_example = start_atomic 7 1 in_hall internal commit_fails

-- The same where nothing fails.
abbrev in_good_hall : World
in_good_hall = record in_hall { env = steady }

-- The member of side 0 comes first, though the second to join.
abbrev hall_match : Match
hall_match = record {
  id = 503;
  room_id = 7;
  state = MatchModel.waiting;
  mode = MatchModel.Mode.one_v_one;
  ranked = false;
  rules = MatchModel.eight_ball;
  shot_timer_seconds = pos 30;
  side_a = record { id = 0; players = 1 ∷ [] };
  side_b = record { id = 1; players = 2 ∷ [] };
  turn = none;
  turn_started_at = none;
  started_at = none;
  completed_at = none;
  created_at = 1000;
  updated_at = 1000;
}

start_succeeds : (start 7 1 in_good_hall).0 ≡ ok hall_match
unfolding start ◌>>=◌ in_tx query new_uuid start_in_tx build_match_sides select_room_for_update
    select_members close_room q_room q_members_by_room q_close_room is_open sort select
    insert_sorted update create_in_tx start_actor normalize insert_match q_insert_match
    q_insert_side q_insert_participant find capacity any
start_succeeds = refl

start-StartedFrom_example : StartedFrom 7 1 hall hall_match
start-StartedFrom_example = start-StartedFrom 7 1 in_good_hall hall_match hall-Inv start_succeeds
