-- ===== src/Matches/Actor.antt =====
-- internal/matches/actor.go: the goroutine that owns one match. `select` takes what happens in
-- some order, which is given as a list; the length of the shot timer is not modelled. What the
-- goroutine logs is left out, so a database error leaves no trace but the missing write.
pub mod Lifecycle
pub mod Writes
pub mod Stored
pub mod Inbox
use billiards_online.Base.{
  ℕ, ◌+◌, Bool, true, false, not, Option, none, some, List, [], ◌∷◌, ◌++◌, if◌then◌else◌,
}
use billiards_online.Matches.Model.{
  Match, State, waiting, starting, in_progress, paused, completed, cancelled, abandoned, legal,
  TurnRef,
}
use billiards_online.Matches.Turn.{first_turn, next_turn}
use billiards_online.Matches.Repository.{update_match_state, update_match_turn}
use billiards_online.Postgres.{World, next, pool}

-- The types of protocol.go that an actor emits, and the empty string.
pub data EventType : Type 0 where
  match_starting match_started turn_started match_ended no_type : EventType

pub record Event : Type 0 where
  pub kind : EventType
  pub snapshot : Match

pub record Actor : Type 0 where
  pub world : World
  pub current : Match
  pub events : List Event

abbrev pub tell : EventType → Match → List Event → List Event
tell k m es = es ++ record { kind = k; snapshot = m } ∷ []

-- `StartedAt` is set once.
unfoldable pub started_by : Option ℕ → ℕ → Option ℕ
started_by none now = some now
started_by (some t) now = some t

-- The match after the first switch of `transition`.
unfoldable pub enter : State → ℕ → Match → Match
unfolding started_by
enter in_progress now m = record m { state = in_progress; started_at = started_by m.started_at now }
enter completed now m = record m { state = completed; completed_at = some now }
enter cancelled now m = record m { state = cancelled; completed_at = some now }
enter abandoned now m = record m { state = abandoned; completed_at = some now }
enter other now m = record m { state = other }

-- The `completedAt` that is written: null unless the match ends.
unfoldable pub written_completion : State → Match → Option ℕ
written_completion completed m = m.completed_at
written_completion cancelled m = m.completed_at
written_completion abandoned m = m.completed_at
written_completion _ m = none

unfoldable pub event_type : State → EventType
event_type starting = match_starting
event_type in_progress = match_started
event_type completed = match_ended
event_type cancelled = match_ended
event_type abandoned = match_ended
event_type _ = no_type

unfoldable pub transition : State → Actor → Actor
unfolding enter written_completion event_type
transition to a =
    if not (legal a.current.state to)
    then a
    else let m = enter to (a.world.env.clock a.world.tick) a.current in
      record {
        world =
            (update_match_state pool m.id to m.started_at (written_completion to m)
              (next a.world)).1;
        current = m;
        events = tell (event_type to) m a.events;
      }

unfoldable pub set_turn : TurnRef → Actor → Actor
set_turn turn a =
    let now = a.world.env.clock a.world.tick in
    let m = record a.current { turn = some turn; turn_started_at = some now } in
    record {
      world = (update_match_turn pool m.id turn now (next a.world)).1;
      current = m;
      events = tell turn_started m a.events;
    }

-- What `select` finds ready.
pub data Wake : Type 0 where
  done stop timer : Wake

-- The timer's case. That the turn is set by then is `run`'s doing: the nil case would panic.
unfoldable pub time_out : Actor → Actor
unfolding set_turn next_turn
time_out a = elim a.current.turn [
  | none ↦ a
  | some t ↦ set_turn (next_turn a.current.side_a a.current.side_b t) a
]

unfoldable pub loop : Actor → List Wake → Actor
unfolding transition time_out
loop a [] = a
loop a (done ∷ ws) = transition abandoned a
loop a (stop ∷ ws) = transition cancelled a
loop a (timer ∷ ws) = loop (time_out a) ws

abbrev pub new_actor : World → Match → Actor
new_actor w m = record { world = w; current = m; events = [] }

unfoldable pub begin : Actor → Actor
unfolding transition set_turn first_turn
begin a = transition in_progress (set_turn first_turn (transition starting a))

unfoldable pub run : World → Match → List Wake → Actor
unfolding loop begin
run w m ws = loop (begin (new_actor w m)) ws
