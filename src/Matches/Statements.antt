-- ===== src/Matches/Statements.antt =====
-- The SQL of internal/matches/repository.go, over the tables and constraints of
-- migrations/000005_matches.up.sql.
use billiards_online.Base.{
  ℕ, Bool, true, false, not, ◌&&◌, ◌||◌, Option, none, some, List, ◌∷◌, ℤ, pos, ltb, leb, ltb_ℤ,
  ◌==◌, if◌then◌else◌, ok, err, any, find, select, update, sort,
}
use billiards_online.Matches.Model.{State, Mode, Ruleset, eight_ball, TurnRef, mode_valid, waiting}
use billiards_online.Schema.{
  unique_violation, check_violation, foreign_key_violation, no_rows, matches_pkey, match_sides_pkey,
  match_participants_pkey, match_participants_seat_key, MatchRow, MatchSide, Participant,
  seat_checks, has_user,
}
use billiards_online.Postgres.{Statement}

unfoldable pub match_is : ℕ → MatchRow → Bool
match_is mid r = r.id == mid

unfoldable pub is_eight_ball : Ruleset → Bool
is_eight_ball eight_ball = true
is_eight_ball _ = false

-- The CHECK constraints of `matches` on a new row, whose turn is null.
unfoldable pub match_checks : MatchRow → Bool
unfolding is_eight_ball
match_checks r = mode_valid r.mode && (is_eight_ball r.rules && ltb_ℤ (pos 0) r.shot_timer_seconds)

-- qInsertMatch
unfoldable pub q_insert_match : ℕ → ℕ → Mode → Bool → Ruleset → ℤ → Statement MatchRow
unfolding match_checks match_is
q_insert_match id room mode ranked rules timer ts t =
    let row : MatchRow = record {
      id = id;
      room_id = room;
      state = waiting;
      mode = mode;
      ranked = ranked;
      rules = rules;
      shot_timer_seconds = timer;
      turn_side = none;
      turn_player_idx = none;
      turn_started_at = none;
      started_at = none;
      completed_at = none;
      created_at = ts.now;
      updated_at = ts.now;
    } in
    if not (match_checks row)
    then err check_violation
    else if any (match_is id) t.matches
    then err (unique_violation matches_pkey)
    else ok (row, record t { matches = row ∷ t.matches })

unfoldable pub side_is : ℕ → ℕ → MatchSide → Bool
side_is mid side s = (s.match_id == mid) && (s.side == side)

-- qInsertSide
unfoldable pub q_insert_side : ℕ → ℕ → Statement (Unit {0})
unfolding match_is side_is
q_insert_side mid side ts t =
    if not (leb side 1)
    then err check_violation
    else if any (side_is mid side) t.match_sides
    then err (unique_violation match_sides_pkey)
    else if not (any (match_is mid) t.matches)
    then err foreign_key_violation
    else ok (tt, record t { match_sides = record { match_id = mid; side = side } ∷ t.match_sides })

unfoldable pub plays_in : ℕ → ℕ → Participant → Bool
plays_in mid uid p = (p.match_id == mid) && (p.user_id == uid)

unfoldable pub sits_at : ℕ → ℕ → ℕ → Participant → Bool
sits_at mid side slot p = (p.match_id == mid) && ((p.side == side) && (p.slot == slot))

-- qInsertParticipant
unfoldable pub q_insert_participant : ℕ → ℕ → ℕ → ℕ → Statement (Unit {0})
unfolding match_is seat_checks has_user plays_in sits_at
q_insert_participant mid uid side slot ts t =
    if not (seat_checks side slot)
    then err check_violation
    else if any (plays_in mid uid) t.participants
    then err (unique_violation match_participants_pkey)
    else if any (sits_at mid side slot) t.participants
    then err (unique_violation match_participants_seat_key)
    else if not (any (match_is mid) t.matches)
    then err foreign_key_violation
    else if not (has_user uid t.users)
    then err foreign_key_violation
    else ok (
      tt,
      record t {
        participants =
            record { match_id = mid; user_id = uid; side = side; slot = slot } ∷ t.participants;
      },
    )

-- qMatch and qMatchForUpdate
unfoldable pub q_match : ℕ → Statement MatchRow
unfolding match_is
q_match mid ts t = elim (find (match_is mid) t.matches) [ none ↦ err no_rows | some r ↦ ok (r, t) ]

-- qParticipantsByMatch
unfoldable pub participant_le : Participant → Participant → Bool
participant_le p q = ltb p.side q.side || ((p.side == q.side) && leb p.slot q.slot)

unfoldable pub q_participants_by_match : ℕ → Statement (List Participant)
unfolding participant_le
q_participants_by_match mid ts t =
    ok (sort participant_le (select (λ p. p.match_id == mid) t.participants), t)

-- qUpdateMatchState
unfoldable pub q_update_match_state : ℕ → State → Option ℕ → Option ℕ → Statement (Unit {0})
unfolding match_is
q_update_match_state mid state started completed ts t = ok (
  tt,
  record t {
    matches =
        update (match_is mid)
          (λ r. record r {
            state = state;
            started_at = started;
            completed_at = completed;
            updated_at = ts.now;
          })
          t.matches;
  },
)

-- qUpdateMatchTurn; its CHECK on the side is violated only if there is a row to update.
unfoldable pub q_update_match_turn : ℕ → TurnRef → ℕ → Statement (Unit {0})
unfolding match_is
q_update_match_turn mid turn started ts t =
    if any (match_is mid) t.matches && not (leb turn.side 1)
    then err check_violation
    else ok (
      tt,
      record t {
        matches =
            update (match_is mid)
              (λ r. record r {
                turn_side = some turn.side;
                turn_player_idx = some turn.player_idx;
                turn_started_at = some started;
                updated_at = ts.now;
              })
              t.matches;
      },
    )
