-- ===== src/Matches/Actor/Stored.antt =====
-- What internal/matches/actor.go leaves in the database, while the database answers.
use billiards_online.Base.{
  ℕ, ◌≡◌, refl, sym, ap, ◌∙◌, subst, true, false, Bool-cases, inl, inr, Option, none, some, List,
  [], ◌∷◌, leb, find, arith,
}
use billiards_online.Matches.Model.{
  Match, State, starting, in_progress, cancelled, abandoned, legal, terminal, TurnRef, Side,
}
use billiards_online.Matches.Turn.{first_turn, next_turn}
use billiards_online.Matches.Statements.{match_is}
use billiards_online.Matches.Repository.{to_match, update_match_state, update_match_turn}
use billiards_online.Matches.Actor.{
  Actor, Wake, done, stop, timer, new_actor, enter, written_completion, transition, set_turn,
  time_out, loop, begin, run,
}
use billiards_online.Matches.Actor.Writes.{
  Stored, find-update, legal-not_terminal, enter-id, enter-unfinished, update_match_state-calm,
  update_match_turn-calm, enter-Shows,
}
use billiards_online.Postgres.{World, next, pool}

-- What the actor relies on: its match is stored, the database answers, and a match that goes on has
-- no end.
record Tracks (m : Match) (w : World) : Type 0 where
  stored : Stored m w.tables
  calm : (n : ℕ) → w.env.fails n ≡ false
  unfinished : terminal m.state ≡ false → m.completed_at ≡ none

switched-Tracks :
    (to : State) (now : ℕ) (m : Match) (w : World)
    → m.completed_at ≡ none
    → Tracks m w
    → Tracks
        (enter to now m)
        (update_match_state pool
          (enter to now m).id
          to
          (enter to now m).started_at
          (written_completion to (enter to now m))
          w).1
switched-Tracks to now m w fresh k =
    subst (Tracks (enter to now m))
      (sym (update_match_state-calm to (enter to now m) w (k.calm w.tick)))
      (record {
        stored = record {
          row = _;
          found =
              find-update (enter to now m).id _ w.tables.matches k.stored.row (λ x. refl)
                (ap (λ i. find (match_is i) w.tables.matches) (enter-id to now m) ∙ k.stored.found);
          shows = enter-Shows to now m k.stored.row (w.env.clock w.tick) fresh k.stored.shows;
        };
        calm = k.calm;
        unfinished = enter-unfinished to now m fresh;
      })

-- The clock has moved on.
later-Tracks : (m : Match) (w : World) → Tracks m w → Tracks m (next w)
later-Tracks m w k = record { stored = k.stored; calm = k.calm; unfinished = k.unfinished }

abbrev Known : Actor → Type 0
Known a = Tracks a.current a.world

transition-Known : (to : State) (a : Actor) → Known a → Known (transition to a)
unfolding transition
transition-Known to a k = elim (Bool-cases (legal a.current.state to)) [
  | inl allowed ↦ rw allowed (
      switched-Tracks to (a.world.env.clock a.world.tick) a.current (next a.world)
        (k.unfinished (legal-not_terminal a.current.state to allowed))
        (later-Tracks a.current a.world k))
  | inr refused ↦ rw refused k
]

turned-Tracks :
    (turn : TurnRef) (now : ℕ) (m : Match) (w : World)
    → leb turn.side 1 ≡ true
    → Tracks m w
    → Tracks
        (record m { turn = some turn; turn_started_at = some now })
        (update_match_turn pool m.id turn now w).1
unfolding to_match
turned-Tracks turn now m w small k =
    subst (Tracks (record m { turn = some turn; turn_started_at = some now }))
      (sym (update_match_turn-calm turn now m w small (k.calm w.tick)))
      (record {
        stored = record {
          row = _;
          found = find-update m.id _ w.tables.matches k.stored.row (λ x. refl) k.stored.found;
          shows = record {
            state = k.stored.shows.state;
            started_at = k.stored.shows.started_at;
            completed_at = k.stored.shows.completed_at;
            turn = refl;
            turn_started_at = refl;
          };
        };
        calm = k.calm;
        unfinished = k.unfinished;
      })

set_turn-Known :
    (turn : TurnRef) (a : Actor) → leb turn.side 1 ≡ true → Known a → Known (set_turn turn a)
unfolding set_turn
set_turn-Known turn a small k =
    turned-Tracks turn (a.world.env.clock a.world.tick) a.current (next a.world) small
      (later-Tracks a.current a.world k)

next_turn-small : (a b : Side) (t : TurnRef) → leb (next_turn a b t).side 1 ≡ true
unfolding next_turn
next_turn-small a b t = ground arith

time_out-Known : (a : Actor) → Known a → Known (time_out a)
unfolding time_out
time_out-Known a k = go a.current.turn
  where
    go :
        (o : Option TurnRef)
        → (let b : Actor = elim o [
          | none ↦ a
          | some t ↦ set_turn (next_turn a.current.side_a a.current.side_b t) a
        ] in
            Known b)
    go none = k
    go (some t) =
        set_turn-Known (next_turn a.current.side_a a.current.side_b t) a
          (next_turn-small a.current.side_a a.current.side_b t) k

loop-Known : (a : Actor) (ws : List Wake) → Known a → Known (loop a ws)
unfolding loop
loop-Known a [] k = k
loop-Known a (done ∷ ws) k = transition-Known abandoned a k
loop-Known a (stop ∷ ws) k = transition-Known cancelled a k
loop-Known a (timer ∷ ws) k = loop-Known (time_out a) ws (time_out-Known a k)

begin-Known : (a : Actor) → Known a → Known (begin a)
unfolding begin first_turn
begin-Known a k =
    transition-Known in_progress (set_turn first_turn (transition starting a))
      (set_turn-Known first_turn (transition starting a) refl (transition-Known starting a k))

-- The database keeps step with the actor: if the database answers and the match's row shows the match
-- that the actor is started with, which has no end yet, then whatever the actor has gone through, the
-- row shows its match: the state, whose turn it is, when the turn, the match and its end were.
pub run-Stored :
    (w : World) (m : Match) (ws : List Wake)
    → ((n : ℕ) → w.env.fails n ≡ false)
    → m.completed_at ≡ none
    → Stored m w.tables
    → Stored (run w m ws).current (run w m ws).world.tables
unfolding run
run-Stored w m ws calm fresh stored =
    (loop-Known (begin (new_actor w m)) ws (
      begin-Known (new_actor w m)
        (record { stored = stored; calm = calm; unfinished = λ _. fresh }))).stored
