-- ===== src/Rooms/Run.antt =====
-- Histories of the lobby: any sequence of calls of internal/rooms.Service, each with whatever the
-- environment answers. Calls on one room are serialised by the row lock that each of them takes.
use billiards_online.Base.{ℕ, Bool, List, [], ◌∷◌, Text}
use billiards_online.Rooms.Model.{CreateInput}
use billiards_online.Rooms.Service as Service
use billiards_online.Rooms.Start as Start
use billiards_online.Rooms.Invariant.{Inv}
use billiards_online.Rooms.Safety.{
  create-Keeps, join-Keeps, join_by_code-Keeps, leave-Keeps, set_ready-Keeps,
}
use billiards_online.Rooms.Starting.{start-Keeps}
use billiards_online.Postgres.{World}

pub data Call : Type 0 where
  create : ℕ → CreateInput → Call
  join leave start : ℕ → ℕ → Call
  join_by_code : Text → ℕ → Call
  set_ready : ℕ → ℕ → Bool → Call

unfoldable pub step : World → Call → World
step w (Call.create host input) = (Service.create host input w).1
step w (Call.join rid uid) = (Service.join rid uid w).1
step w (Call.leave rid uid) = (Service.leave rid uid w).1
step w (Call.start rid uid) = (Start.start rid uid w).1
step w (Call.join_by_code code uid) = (Service.join_by_code code uid w).1
step w (Call.set_ready rid uid ready) = (Service.set_ready rid uid ready w).1

unfoldable pub run : World → List Call → World
unfolding step
run w [] = w
run w (c ∷ cs) = run (step w c) cs

step-Inv : (w : World) (c : Call) → Inv w.tables → Inv (step w c).tables
unfolding step
step-Inv w (Call.create host input) h = (create-Keeps host input).at w h
step-Inv w (Call.join rid uid) h = (join-Keeps rid uid).at w h
step-Inv w (Call.leave rid uid) h = (leave-Keeps rid uid).at w h
step-Inv w (Call.start rid uid) h = (start-Keeps rid uid).at w h
step-Inv w (Call.join_by_code code uid) h = (join_by_code-Keeps code uid).at w h
step-Inv w (Call.set_ready rid uid ready) h = (set_ready-Keeps rid uid ready).at w h

-- Every history of lobby calls keeps the invariant, whatever statements, commits, uuids and
-- random bytes fail or collide on the way: rooms have distinct ids, nobody sits twice in a room,
-- no seat is taken twice, every seat taken is one of the room's mode, every member is a user,
-- and the host of a room is one of its members unless the room is closed and empty.
pub run-Inv : (w : World) (cs : List Call) → Inv w.tables → Inv (run w cs).tables
unfolding run
run-Inv w [] h = h
run-Inv w (c ∷ cs) h = run-Inv (step w c) cs (step-Inv w c h)
