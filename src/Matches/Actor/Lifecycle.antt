-- ===== src/Matches/Actor/Lifecycle.antt =====
-- The life of a match under its actor (internal/matches/actor.go), over all worlds.
use mathlib.Core.List.{append-nil, append_assoc}
use billiards_online.Base.{
  ℕ, suc, ◌+◌, ◌/◌, ◌%◌, ◌≡◌, refl, ap, ◌∙◌, sym, true, none, some, List, [], ◌∷◌, ◌++◌, map,
  Option-cases, inl, inr, arith, length,
}
use billiards_online.Matches.Model.{
  Match, State, waiting, in_progress, cancelled, abandoned, legal, terminal, TurnRef, Side, Mode,
  one_v_one, two_v_two, players_per_side,
}
use billiards_online.Matches.Turn.{first_turn, next_turn, side_at}
use billiards_online.Matches.Actor.{
  Actor, Event, EventType, match_starting, match_started, turn_started, match_ended, Wake, done,
  stop, timer, tell, new_actor, transition, set_turn, time_out, loop, begin, run, enter, event_type,
}
use billiards_online.Postgres.{World}

-- The end that the wakes bring: that of the first which is no timeout.
unfoldable pub ending : List Wake → State
ending [] = in_progress
ending (done ∷ ws) = abandoned
ending (stop ∷ ws) = cancelled
ending (timer ∷ ws) = ending ws

-- How many timeouts come before that.
unfoldable pub rounds : List Wake → ℕ
rounds [] = 0
rounds (done ∷ ws) = 0
rounds (stop ∷ ws) = 0
rounds (timer ∷ ws) = suc (rounds ws)

zero_add : (k : ℕ) → 0 + k ≡ k
zero_add k = omega arith

time_out-state : (a : Actor) → (time_out a).current.state ≡ a.current.state
unfolding time_out
time_out-state a = ground arith

loop-state :
    (a : Actor) (ws : List Wake)
    → a.current.state ≡ in_progress
    → (loop a ws).current.state ≡ ending ws
unfolding loop ending legal
loop-state a [] h = h
loop-state a (done ∷ ws) h = ground arith
loop-state a (stop ∷ ws) h = ground arith
loop-state a (timer ∷ ws) h = loop-state (time_out a) ws (time_out-state a ∙ h)

begin-state :
    (w : World) (m : Match)
    → m.state ≡ waiting
    → (begin (new_actor w m)).current.state ≡ in_progress
unfolding begin legal
begin-state w m h = ground arith

-- A match that is started as waiting is in progress as long as only its shot timer has fired,
-- and ends abandoned or cancelled, whichever of the context's end and a stop came first.
-- What the database answers has no part in it.
pub run-state :
    (w : World) (m : Match) (ws : List Wake)
    → m.state ≡ waiting
    → (run w m ws).current.state ≡ ending ws
unfolding run
run-state w m ws h = loop-state (begin (new_actor w m)) ws (begin-state w m h)

-- The turn of the k-th round, for sides of n players: the sides alternate, and within a side
-- the players take turns.
unfoldable pub turn_of : ℕ → ℕ → TurnRef
turn_of n k = record { side = k % 2; player_idx = k / 2 % n }

next_turn-turn_of :
    (a b : Side) (m : Mode) (k : ℕ)
    → length a.players ≡ players_per_side m
    → length b.players ≡ players_per_side m
    → next_turn a b (turn_of (players_per_side m) k) ≡ turn_of (players_per_side m) (suc k)
unfolding next_turn turn_of side_at players_per_side
next_turn-turn_of a b one_v_one k ha hb = ground arith
next_turn-turn_of a b two_v_two k ha hb = ground arith
next_turn-turn_of a b (Mode.unknown s) k ha hb = ground arith

-- The actor is in a round of two sides that the mode fills.
abbrev InRound : Mode → ℕ → Actor → Type 0
InRound mode k a =
    (length a.current.side_a.players ≡ players_per_side mode)
    × (length a.current.side_b.players ≡ players_per_side mode)
    × (a.current.turn ≡ some (turn_of (players_per_side mode) k))

module _ (mode : Mode) where
  transition-InRound :
      (k : ℕ) (to : State) (a : Actor) → InRound mode k a → InRound mode k (transition to a)
  unfolding transition enter legal
  transition-InRound k to a h = ground arith

  begin-InRound :
      (w : World) (m : Match)
      → length m.side_a.players ≡ players_per_side mode
      → length m.side_b.players ≡ players_per_side mode
      → InRound mode 0 (begin (new_actor w m))
  unfolding begin transition set_turn first_turn enter legal turn_of
  begin-InRound w m ha hb = ground arith

  time_out-InRound : (k : ℕ) (a : Actor) → InRound mode k a → InRound mode (suc k) (time_out a)
  unfolding time_out set_turn
  time_out-InRound k a (ha, hb, t) =
      rw t (ha, hb, ap some (next_turn-turn_of a.current.side_a a.current.side_b mode k ha hb))

  loop-turn :
      (k : ℕ) (ws : List Wake) (a : Actor)
      → InRound mode k a
      → (loop a ws).current.turn ≡ some (turn_of (players_per_side mode) (k + rounds ws))
  unfolding loop rounds
  loop-turn k [] a h = ground (arith)
  loop-turn k (done ∷ ws) a h = ground (arith, transition-InRound k abandoned a h)
  loop-turn k (stop ∷ ws) a h = ground (arith, transition-InRound k cancelled a h)
  loop-turn k (timer ∷ ws) a h =
      ground (arith, loop-turn (suc k) ws (time_out a) (time_out-InRound k a h))

-- When both sides of a match have the players of its mode, the turn after any number of timeouts
-- is the one that the alternation of sides, and of players within a side, gives.
pub run-turn :
    (w : World) (m : Match) (ws : List Wake)
    → length m.side_a.players ≡ players_per_side m.mode
    → length m.side_b.players ≡ players_per_side m.mode
    → (run w m ws).current.turn ≡ some (turn_of (players_per_side m.mode) (rounds ws))
unfolding run
run-turn w m ws ha hb =
    loop-turn m.mode 0 ws (begin (new_actor w m)) (begin-InRound m.mode w m ha hb)
    ∙ ap (λ k. some (turn_of (players_per_side m.mode) k)) (zero_add (rounds ws))

-- What the wakes make the actor emit.
unfoldable pub later : List Wake → List EventType
later [] = []
later (done ∷ ws) = match_ended ∷ []
later (stop ∷ ws) = match_ended ∷ []
later (timer ∷ ws) = turn_started ∷ later ws

abbrev kind_of : Event → EventType
kind_of e = e.kind

abbrev pub kinds : Actor → List EventType
kinds a = map kind_of a.events

kinds-tell :
    (k : EventType) (m : Match) (es : List Event)
    → map kind_of (tell k m es) ≡ map kind_of es ++ k ∷ []
kinds-tell k m [] = refl
kinds-tell k m (e ∷ es) = ap (kind_of e ∷◌) (kinds-tell k m es)

transition-kinds :
    (to : State) (a : Actor)
    → legal a.current.state to ≡ true
    → kinds (transition to a) ≡ kinds a ++ event_type to ∷ []
unfolding transition
transition-kinds to a h = rw h (kinds-tell _ _ a.events)

time_out-kinds :
    (a : Actor) (t : TurnRef)
    → a.current.turn ≡ some t
    → kinds (time_out a) ≡ kinds a ++ turn_started ∷ []
unfolding time_out set_turn
time_out-kinds a t h = rw h (kinds-tell _ _ a.events)

time_out-turn : (a : Actor) → ¬ (a.current.turn ≡ none) → ¬ ((time_out a).current.turn ≡ none)
unfolding time_out set_turn
time_out-turn a h = ground arith

time_out-snoc :
    (a : Actor) → ¬ (a.current.turn ≡ none) → kinds (time_out a) ≡ kinds a ++ turn_started ∷ []
time_out-snoc a h = elim (Option-cases a.current.turn) [
  | inl e ↦ elim (h e) [ ]
  | inr (t, e) ↦ time_out-kinds a t e
]

loop-kinds :
    (a : Actor) (ws : List Wake)
    → a.current.state ≡ in_progress
    → ¬ (a.current.turn ≡ none)
    → kinds (loop a ws) ≡ kinds a ++ later ws
unfolding loop later legal event_type
loop-kinds a [] h t = sym (append-nil _)
loop-kinds a (done ∷ ws) h t = transition-kinds abandoned a (rw h refl)
loop-kinds a (stop ∷ ws) h t = transition-kinds cancelled a (rw h refl)
loop-kinds a (timer ∷ ws) h t =
    loop-kinds (time_out a) ws (time_out-state a ∙ h) (time_out-turn a t)
    ∙ ap (◌++ later ws) (time_out-snoc a t)
    ∙ append_assoc (kinds a) _ _

begin-kinds :
    (w : World) (m : Match)
    → m.state ≡ waiting
    → kinds (begin (new_actor w m)) ≡ match_starting ∷ turn_started ∷ match_started ∷ []
unfolding begin transition set_turn legal event_type enter
begin-kinds w m h = rw h refl

begin-turn : (w : World) (m : Match) → ¬ ((begin (new_actor w m)).current.turn ≡ none)
unfolding begin transition set_turn enter legal
begin-turn w m = ground arith

-- The actor of a waiting match emits match.starting, turn.started and match.started, then one
-- turn.started for every timeout before the end, and one match.ended when the end has come.
pub run-kinds :
    (w : World) (m : Match) (ws : List Wake)
    → m.state ≡ waiting
    → kinds (run w m ws) ≡ match_starting ∷ turn_started ∷ match_started ∷ later ws
unfolding run
run-kinds w m ws h =
    loop-kinds (begin (new_actor w m)) ws (begin-state w m h) (begin-turn w m)
    ∙ ap (◌++ later ws) (begin-kinds w m h)

-- A transition out of a terminal state does nothing: no event, no write, the same match.
pub transition-terminal :
    (to : State) (a : Actor) → terminal a.current.state ≡ true → transition to a ≡ a
unfolding transition legal terminal
transition-terminal to a h = ground arith
