-- ===== src/Server/Process.antt =====
-- apps/server/cmd/server/main.go: the process, from main to shutdown. Given: what loading the
-- configuration comes to, what pgx answers, what ends the wait (a signal, or a listener that fails), and
-- what the two listeners' Shutdown returns. Wait of the match registry returns nothing.
use billiards_online.Base.{
  ℕ, Bool, true, false, Option, none, some, List, [], ◌∷◌, ◌++◌, Result, ok, err,
}
use billiards_online.Config.{Config, Problem}
use billiards_online.Postgres.Connect.{Driver, Attempt, closed_again, reached, connect}

pub data Listener : Type 0 where
  public internal : Listener

pub data Failure : Type 0 where
  configuration : List Problem → Failure
  database : Attempt → Failure
  listening : Listener → Failure
  stopping : List Listener → Failure

-- What `run` holds and gives back by defer.
pub data Resource : Type 0 where
  signals pool auth_limiter room_limiter : Resource

-- `stop` is a call of Shutdown, by which the listener takes no more requests, and `broke` the end of a
-- listener by its own error. Where no such effect comes, the listener goes on.
pub data Effect : Type 0 where
  opened closed : Resource → Effect
  listen stop broke : Listener → Effect
  await_actors : Effect

pub data Ending : Type 0 where
  failed : Listener → Ending
  signalled : Ending

-- What the process meets.
pub record Surroundings : Type 0 where
  pub loaded : Result (List Problem) Config
  pub driver : Driver
  pub ending : Ending
  pub public_stops : Bool
  pub internal_stops : Bool

-- `defer`: the rest runs, and then the resource is given back.
unfoldable pub using : Resource → Option Failure × List Effect → Option Failure × List Effect
using r (e, effects) = (e, opened r ∷ (effects ++ closed r ∷ []))

-- What `Shutdown` of each listener reports.
unfoldable pub incomplete : Bool → Bool → List Listener
incomplete true true = []
incomplete false true = public ∷ []
incomplete true false = internal ∷ []
incomplete false false = public ∷ internal ∷ []

unfoldable pub report : List Listener → Option Failure
report [] = none
report (l ∷ ls) = some (stopping (l ∷ ls))

-- `shutdown`: both listeners and the actors are stopped at once, and all are awaited.
unfoldable pub shutdown : Bool → Bool → Option Failure × List Effect
unfolding incomplete report
shutdown public_stops internal_stops = (
  report (incomplete public_stops internal_stops),
  stop public ∷ stop internal ∷ await_actors ∷ [],
)

-- The two `serve` goroutines and the select. After a listener's error `run` returns at once, without
-- a call of Shutdown.
unfoldable pub served : Ending → Bool → Bool → Option Failure × List Effect
unfolding shutdown
served (failed l) a b = (some (listening l), listen public ∷ listen internal ∷ broke l ∷ [])
served signalled a b =
    let (e, effects) = shutdown a b in (e, listen public ∷ listen internal ∷ effects)

-- After a connection was tried.
unfoldable pub connected_run : Surroundings → Attempt → Option Failure × List Effect
unfolding using served
connected_run s (reached p) =
    using pool
      (using auth_limiter (using room_limiter (served s.ending s.public_stops s.internal_stops)))
connected_run s (closed_again p) =
    (some (database (closed_again p)), opened pool ∷ closed pool ∷ [])
connected_run s failure = (some (database failure), [])

unfoldable pub loaded_run :
    Surroundings → Result (List Problem) Config → Option Failure × List Effect
unfolding connected_run using connect
loaded_run s (err problems) = (some (configuration problems), [])
loaded_run s (ok cfg) = using signals (connected_run s (connect s.driver cfg.database))

-- `run`
unfoldable pub run : Surroundings → Option Failure × List Effect
unfolding loaded_run
run s = loaded_run s s.loaded

-- `main`, but for -healthcheck: the exit status
unfoldable pub exit_status : Option Failure → ℕ
exit_status none = 0
exit_status (some e) = 1
