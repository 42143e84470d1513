-- ===== src/Matches/Tests.antt =====
-- The match actor at concrete inputs.
use billiards_online.Base.{◌≤◌, All, any, sort, insert_sorted, ok}
use billiards_online.Rooms.Listing.{Codec}
use billiards_online.Rooms.Listing as RoomsListing
use billiards_online.Schema.{MatchRow}
use billiards_online.Matches.Repository.{to_match, add_players, select_participants}
use billiards_online.Matches.Statements.{q_participants_by_match}
use billiards_online.Matches.Listing.{
  list_for_user, decode_cursor, select_matches_by_user, q_matches_by_user, with_players, page,
  page_size,
}
use billiards_online.Matches.Listing.Played.{Played, list_for_user-Played}
use billiards_online.Postgres.{◌>>=◌, query}
use mathlib.Core.List.{Memᴰ}
use billiards_online.Base.{find, select}
use billiards_online.Matches.Registry.{
  Running, Registry, new_registry, other_match, other_actor, start, exit, get, Reach, initially,
  starts, exits,
}
use billiards_online.Matches.Registry.Entries.{Vacant, get-running, running-get}
use billiards_online.Base.{List, length, none, some, [], ◌∷◌, pos, ◌≡◌, refl, false}
use billiards_online.Matches.Model.{
  Match, waiting, abandoned, two_v_two, eight_ball, players_per_side,
}
use billiards_online.Matches.Actor.{
  timer, done, stop, run, match_starting, match_started, turn_started, match_ended,
}
use billiards_online.Matches.Actor.Writes.{Stored}
use billiards_online.Matches.Actor.Inbox as Inbox
use billiards_online.Matches.Actor.Stored.{run-Stored}
use billiards_online.Matches.Statements.{match_is}
use billiards_online.Matches.Actor.Lifecycle.{
  ending, rounds, turn_of, later, kinds, run-state, run-turn, run-kinds,
}
use billiards_online.Postgres.{World}

abbrev quiet : World
quiet = record {
  env = record {
    fails = λ n. false;
    clock = λ n. n;
    new_uuid = λ n. some n;
    random = λ n k. none;
    upper = λ c. c;
    lower = λ c. c;
  };
  tick = 5;
  tables = record {
    users = [];
    profiles = [];
    credentials = [];
    sessions = [];
    rooms = [];
    members = [];
    matches = [];
    match_sides = [];
    participants = [];
  };
  registry = none;
}

abbrev doubles : Match
doubles = record {
  id = 9;
  room_id = 7;
  state = waiting;
  mode = two_v_two;
  ranked = false;
  rules = eight_ball;
  shot_timer_seconds = pos 30;
  side_a = record { id = 0; players = 1 ∷ 2 ∷ [] };
  side_b = record { id = 1; players = 3 ∷ 4 ∷ [] };
  turn = none;
  turn_started_at = none;
  started_at = none;
  completed_at = none;
  created_at = 0;
  updated_at = 0;
}

run-state_example : (run quiet doubles (timer ∷ timer ∷ done ∷ stop ∷ [])).current.state ≡ abandoned
unfolding ending
run-state_example = run-state quiet doubles (timer ∷ timer ∷ done ∷ stop ∷ []) refl

run-turn_example :
    (run quiet doubles (timer ∷ timer ∷ timer ∷ [])).current.turn
    ≡ some (record { side = 1; player_idx = 1 })
unfolding rounds turn_of players_per_side
run-turn_example = run-turn quiet doubles (timer ∷ timer ∷ timer ∷ []) refl refl

run-kinds_example :
    kinds (run quiet doubles (timer ∷ stop ∷ timer ∷ []))
    ≡ match_starting ∷ turn_started ∷ match_started ∷ turn_started ∷ match_ended ∷ []
unfolding later
run-kinds_example = run-kinds quiet doubles (timer ∷ stop ∷ timer ∷ []) refl

abbrev doubles_row : MatchRow
doubles_row = record {
  id = 7;
  room_id = doubles.room_id;
  state = waiting;
  mode = two_v_two;
  ranked = doubles.ranked;
  rules = eight_ball;
  shot_timer_seconds = pos 30;
  turn_side = none;
  turn_player_idx = none;
  turn_started_at = none;
  started_at = none;
  completed_at = none;
  created_at = 0;
  updated_at = 0;
}

abbrev recorded : World
recorded = record quiet {
  tables = record quiet.tables { matches = record doubles_row { id = doubles.id } ∷ [] };
}

doubles-Stored : Stored doubles recorded.tables
unfolding find to_match match_is
doubles-Stored = record {
  row = record doubles_row { id = doubles.id };
  found = refl;
  shows = record {
    state = refl;
    started_at = refl;
    completed_at = refl;
    turn = refl;
    turn_started_at = refl;
  };
}

run-Stored_example :
    Stored
      (run recorded doubles (timer ∷ done ∷ [])).current
      (run recorded doubles (timer ∷ done ∷ [])).world.tables
run-Stored_example = run-Stored recorded doubles (timer ∷ done ∷ []) (λ n. refl) refl doubles-Stored

-- Two Stops, the timer, and a command.
abbrev stopped_twice : List Inbox.Step
stopped_twice = Inbox.stop_called ∷ Inbox.timer_fired ∷ Inbox.stop_called ∷ Inbox.command_taken ∷ []

drive-run_example :
    (length (Inbox.drive (Inbox.launch recorded doubles) stopped_twice).inbox ≤ 32)
    × ((Inbox.drive (Inbox.launch recorded doubles) stopped_twice).actor
        ≡ run recorded doubles (timer ∷ stop ∷ []))
unfolding Inbox.heard
drive-run_example = Inbox.drive-run recorded doubles stopped_twice

-- Two matches are started, and the first ends.
abbrev seventh : Running
seventh = record { match_id = 7; number = 0 }

abbrev eighth : Running
eighth = record { match_id = 8; number = 1 }

abbrev one_left : Registry
one_left = exit seventh (start 8 (start 7 new_registry))

one_left-Reach : Reach Vacant one_left
unfolding start exit get find other_match select
one_left-Reach =
    Reach.later (Reach.later (Reach.later initially (starts 7 refl)) (starts 8 refl))
      (exits seventh (Memᴰ.tail (Memᴰ.head refl)))

get-running_example : Memᴰ eighth one_left.running × (eighth.match_id ≡ 8)
unfolding start exit get find select
get-running_example = get-running one_left 8 eighth one_left-Reach refl

running-get_example : get 8 one_left ≡ some eighth
unfolding start exit select other_actor
running-get_example = running-get one_left eighth one_left-Reach (Memᴰ.head refl)

-- A history of one match.
abbrev blank : Codec
blank = record {
  base64_encode = λ s. s;
  base64_decode = λ s. none;
  format_time = λ t. [];
  parse_time = λ s. none;
  format_uuid = λ id. [];
  parse_uuid = λ s. none;
}

abbrev row : MatchRow
row = record {
  id = 9;
  room_id = 3;
  state = waiting;
  mode = two_v_two;
  ranked = false;
  rules = eight_ball;
  shot_timer_seconds = pos 30;
  turn_side = none;
  turn_player_idx = none;
  turn_started_at = none;
  started_at = none;
  completed_at = none;
  created_at = 5;
  updated_at = 5;
}

abbrev past : World
past = record quiet {
  tables = record quiet.tables {
    matches = row ∷ record row { id = 10 } ∷ [];
    participants = record { match_id = 9; user_id = 1; side = 0; slot = 0 } ∷ [];
  };
}

abbrev played : Match
played = record (to_match row) { side_a = record { id = 0; players = 1 ∷ [] } }

listed : (list_for_user blank 1 [] (pos 7) past).0 ≡ ok (played ∷ [], [])
unfolding list_for_user decode_cursor select_matches_by_user q_matches_by_user ◌>>=◌ query any
    select sort insert_sorted with_players select_participants q_participants_by_match to_match
    add_players page page_size RoomsListing.decode_cursor
listed = refl

list_for_user-Played_example : All (Played 1 past.tables.participants) (played ∷ []) × (1 ≤ 50)
list_for_user-Played_example = list_for_user-Played blank 1 [] (pos 7) past (played ∷ []) [] listed
