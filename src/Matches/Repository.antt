-- ===== src/Matches/Repository.antt =====
-- The functions of internal/matches/repository.go.
use billiards_online.Base.{ℕ, ◌+◌, Option, none, some, List, [], ◌∷◌, ◌++◌, ◌==◌, if◌then◌else◌}
use billiards_online.Matches.Model.{
  Match, Side, State, TurnRef, CreateInput, Error, not_found, internal,
}
use billiards_online.Matches.Statements.{
  q_insert_match, q_insert_side, q_insert_participant, q_match, q_participants_by_match,
  q_update_match_state, q_update_match_turn,
}
use billiards_online.Schema.{PgError, no_rows, MatchRow, Participant}
use billiards_online.Postgres.{M, Handle, ◌>>=◌, ◌>>◌, pure, map_err, exec, query}

abbrev pub wrapped : PgError → Error
wrapped e = internal

abbrev pub no_rows_as : Error → PgError → Error
no_rows_as e no_rows = e
no_rows_as e _ = internal

-- A turn is read back only if both of its columns are set.
unfoldable pub turn_of : Option ℕ → Option ℕ → Option TurnRef
turn_of (some side) (some idx) = some (record { side = side; player_idx = idx })
turn_of _ _ = none

unfoldable pub to_match : MatchRow → Match
unfolding turn_of
to_match r = record {
  id = r.id;
  room_id = r.room_id;
  state = r.state;
  mode = r.mode;
  ranked = r.ranked;
  rules = r.rules;
  shot_timer_seconds = r.shot_timer_seconds;
  side_a = record { id = 0; players = [] };
  side_b = record { id = 1; players = [] };
  turn = turn_of r.turn_side r.turn_player_idx;
  turn_started_at = r.turn_started_at;
  started_at = r.started_at;
  completed_at = r.completed_at;
  created_at = r.created_at;
  updated_at = r.updated_at;
}

-- The inner loop of `insertMatch`, from a slot on.
unfoldable pub insert_participants : Handle → ℕ → ℕ → ℕ → List ℕ → M Error (Unit {0})
insert_participants db mid side slot [] = pure tt
insert_participants db mid side slot (uid ∷ uids) =
    map_err wrapped (exec db (q_insert_participant mid uid side slot))
    >> insert_participants db mid side (slot + 1) uids

unfoldable pub insert_side : Handle → ℕ → Side → M Error (Unit {0})
unfolding insert_participants
insert_side db mid side = do
  map_err wrapped (exec db (q_insert_side mid side.id))
  insert_participants db mid side.id 0 side.players

unfoldable pub insert_match : Handle → ℕ → CreateInput → M Error Match
unfolding to_match insert_side
insert_match db id input = do
  row ←
      query wrapped wrapped db (
        q_insert_match id input.room_id input.mode input.ranked input.rules
          input.shot_timer_seconds)
  insert_side db id input.side_a
  insert_side db id input.side_b
  pure (record (to_match row) { side_a = input.side_a; side_b = input.side_b })

-- `match.Sides[p.Side].Players = append(…, p.UserID)`; a CHECK keeps the side below 2.
unfoldable pub add_player : Match → Participant → Match
add_player m p =
    if p.side == 0
    then record m { side_a = record m.side_a { players = m.side_a.players ++ p.user_id ∷ [] } }
    else record m { side_b = record m.side_b { players = m.side_b.players ++ p.user_id ∷ [] } }

unfoldable pub add_players : Match → List Participant → Match
unfolding add_player
add_players m [] = m
add_players m (p ∷ ps) = add_players (add_player m p) ps

unfoldable pub select_participants : Handle → ℕ → M Error (List Participant)
select_participants db mid = query wrapped wrapped db (q_participants_by_match mid)

-- `scanMatch`
unfoldable pub select_match : Handle → ℕ → M Error Match
unfolding to_match add_players select_participants
select_match db mid = do
  row ← query wrapped (no_rows_as not_found) db (q_match mid)
  ps ← select_participants db mid
  pure (add_players (to_match row) ps)

unfoldable pub update_match_state : Handle → ℕ → State → Option ℕ → Option ℕ → M Error (Unit {0})
update_match_state db mid state started completed =
    map_err wrapped (exec db (q_update_match_state mid state started completed))

unfoldable pub update_match_turn : Handle → ℕ → TurnRef → ℕ → M Error (Unit {0})
update_match_turn db mid turn started =
    map_err wrapped (exec db (q_update_match_turn mid turn started))
