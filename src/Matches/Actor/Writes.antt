-- ===== src/Matches/Actor/Writes.antt =====
-- The two writes of internal/matches/actor.go, and what a row shows of a match.
use billiards_online.Base.{
  ℕ, ◌≡◌, refl, sym, ap, ◌∙◌, true, false, Bool-cases, inl, inr, none, some, List, [], ◌∷◌, leb,
  any, find, update, ok, arith,
}
use billiards_online.Matches.Model.{Match, State, legal, terminal, TurnRef}
use billiards_online.Matches.Statements.{match_is, q_update_match_state, q_update_match_turn}
use billiards_online.Matches.Repository.{to_match, wrapped, update_match_state, update_match_turn}
use billiards_online.Matches.Actor.{enter, written_completion}
use billiards_online.Schema.{Tables, MatchRow}
use billiards_online.Postgres.{World, Times, next, pool, exec, times, now_at}
use billiards_online.Postgres.Laws.{exec-calm, map_err-calm}

-- A row that, read back, says of the match what the actor says.
pub record Shows (m : Match) (r : MatchRow) : Type 0 where
  pub state : r.state ≡ m.state
  pub started_at : r.started_at ≡ m.started_at
  pub completed_at : r.completed_at ≡ m.completed_at
  pub turn : (to_match r).turn ≡ m.turn
  pub turn_started_at : r.turn_started_at ≡ m.turn_started_at

pub record Stored (m : Match) (t : Tables) : Type 0 where
  pub row : MatchRow
  pub found : find (match_is m.id) t.matches ≡ some row
  pub shows : Shows m row

pub find-update :
    (mid : ℕ) (f : MatchRow → MatchRow) (rs : List MatchRow) (r : MatchRow)
    → ((x : MatchRow) → (f x).id ≡ x.id)
    → find (match_is mid) rs ≡ some r
    → find (match_is mid) (update (match_is mid) f rs) ≡ some (f r)
unfolding find update match_is
find-update mid f [] r ids h = absurd (cc h)
find-update mid f (x ∷ rs) r ids h = ground (arith, find-update mid f rs r ids, ids x)

pub legal-not_terminal : (s to : State) → legal s to ≡ true → terminal s ≡ false
unfolding legal terminal
legal-not_terminal s to h = ground arith

pub enter-id : (to : State) (now : ℕ) (m : Match) → (enter to now m).id ≡ m.id
unfolding enter
enter-id to now m = ground arith

enter-turn : (to : State) (now : ℕ) (m : Match) → (enter to now m).turn ≡ m.turn
unfolding enter
enter-turn to now m = ground arith

pub enter-unfinished :
    (to : State) (now : ℕ) (m : Match)
    → m.completed_at ≡ none
    → terminal (enter to now m).state ≡ false
    → (enter to now m).completed_at ≡ none
unfolding enter terminal
enter-unfinished to now m h k = ground arith

abbrev pub after_state : State → Match → World → World
after_state to m w = record (next w) {
  tables = record w.tables {
    matches =
        update (match_is m.id)
          (λ r. record r {
            state = to;
            started_at = m.started_at;
            completed_at = written_completion to m;
            updated_at = w.env.clock w.tick;
          })
          w.tables.matches;
  };
}

pub update_match_state-calm :
    (to : State) (m : Match) (w : World)
    → w.env.fails w.tick ≡ false
    → (update_match_state pool m.id to m.started_at (written_completion to m) w).1
      ≡ after_state to m w
unfolding update_match_state q_update_match_state now_at
update_match_state-calm to m w up =
    ap (λ p. p.1)
      (map_err-calm wrapped
        (exec pool (q_update_match_state m.id to m.started_at (written_completion to m))) w tt
        (after_state to m w)
        (exec-calm pool (q_update_match_state m.id to m.started_at (written_completion to m)) w tt _
          up refl))

abbrev pub after_turn : TurnRef → ℕ → Match → World → World
after_turn turn now m w = record (next w) {
  tables = record w.tables {
    matches =
        update (match_is m.id)
          (λ r. record r {
            turn_side = some turn.side;
            turn_player_idx = some turn.player_idx;
            turn_started_at = some now;
            updated_at = w.env.clock w.tick;
          })
          w.tables.matches;
  };
}

q_update_match_turn-runs :
    (turn : TurnRef) (now : ℕ) (m : Match) (ts : Times) (t : Tables)
    → leb turn.side 1 ≡ true
    → q_update_match_turn m.id turn now ts t
      ≡ ok (
        tt,
        record t {
          matches =
              update
                (match_is m.id)
                (λ r. record r {
                  turn_side = some turn.side;
                  turn_player_idx = some turn.player_idx;
                  turn_started_at = some now;
                  updated_at = ts.now;
                })
                t.matches;
        },
      )
unfolding q_update_match_turn
q_update_match_turn-runs turn now m ts t small = elim (Bool-cases (any (match_is m.id) t.matches)) [
  | inl there ↦ rw there (rw small refl)
  | inr gone ↦ rw gone refl
]

pub update_match_turn-calm :
    (turn : TurnRef) (now : ℕ) (m : Match) (w : World)
    → leb turn.side 1 ≡ true
    → w.env.fails w.tick ≡ false
    → (update_match_turn pool m.id turn now w).1 ≡ after_turn turn now m w
unfolding update_match_turn now_at
update_match_turn-calm turn now m w small up =
    ap (λ p. p.1)
      (map_err-calm wrapped (exec pool (q_update_match_turn m.id turn now)) w tt
        (after_turn turn now m w)
        (exec-calm pool (q_update_match_turn m.id turn now) w tt _ up
          (q_update_match_turn-runs turn now m (times pool w) w.tables small)))

-- What a switch of states writes, and what the match then says.
pub enter-Shows :
    (to : State) (now : ℕ) (m : Match) (r : MatchRow) (at : ℕ)
    → m.completed_at ≡ none
    → Shows m r
    → Shows (enter to now m) (record r {
      state = to;
      started_at = (enter to now m).started_at;
      completed_at = written_completion to (enter to now m);
      updated_at = at;
    })
unfolding enter written_completion to_match
enter-Shows to now m r at fresh s = record {
  state = ground arith;
  started_at = refl;
  completed_at = ground arith;
  turn = s.turn ∙ sym (enter-turn to now m);
  turn_started_at = ground arith;
}
