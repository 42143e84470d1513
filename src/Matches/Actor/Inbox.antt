-- ===== src/Matches/Actor/Inbox.antt =====
-- internal/matches/actor.go: `Stop`, the inbox that it writes to, and the `select` of `run`. What
-- happens to an actor is a list of steps: a call of Stop by another goroutine, or a case that
-- `select` takes; the case of the inbox is taken only if a command is there.
use billiards_online.Base.{
  ℕ, ◌≤◌, ◌≡◌, refl, Bool, true, false, List, [], ◌∷◌, ◌++◌, length, ltb, length-snoc,
  if◌then◌else◌, arith,
}
use billiards_online.Matches.Model.{Match, abandoned, cancelled}
use billiards_online.Matches.Actor.{
  Actor, Wake, done, stop, timer, new_actor, transition, time_out, loop, begin, run,
}
use billiards_online.Postgres.{World}

pub data Command : Type 0 where
  cmd_stop : Command

abbrev pub inbox_capacity : ℕ
inbox_capacity = 32

-- An actor with its inbox, and whether `run` has returned.
pub record Live : Type 0 where
  pub actor : Actor
  pub inbox : List Command
  pub returned : Bool

pub data Step : Type 0 where
  stop_called context_done command_taken timer_fired : Step

-- A send that gives up if the inbox is full.
unfoldable pub offer : Command → List Command → List Command
offer c q = if ltb (length q) inbox_capacity then q ++ (c ∷ []) else q

-- Stop
unfoldable pub request_stop : Live → Live
unfolding offer
request_stop r = record r { inbox = offer cmd_stop r.inbox }

-- The case of the inbox.
unfoldable pub take_command : Live → Live
unfolding transition
take_command r = elim r.inbox [
  | [] ↦ r
  | cmd_stop ∷ cs ↦ record { actor = transition cancelled r.actor; inbox = cs; returned = true }
]

-- One round of the loop.
unfoldable pub select_case : Step → Live → Live
unfolding take_command request_stop transition time_out
select_case stop_called r = request_stop r
select_case context_done r = record r { actor = transition abandoned r.actor; returned = true }
select_case command_taken r = take_command r
select_case timer_fired r = record r { actor = time_out r.actor }

-- Once `run` has returned, only a Stop still does anything.
unfoldable pub step : Step → Live → Live
unfolding request_stop select_case
step stop_called r = request_stop r
step s r = if r.returned then r else select_case s r

unfoldable pub drive : Live → List Step → Live
unfolding step
drive r [] = r
drive r (s ∷ ss) = drive (step s r) ss

-- newActor, and `run` up to its loop
unfoldable pub launch : World → Match → Live
unfolding begin
launch w m = record { actor = begin (new_actor w m); inbox = []; returned = false }

-- What of it the loop sees, if the inbox were but a flag that Stop sets.
unfoldable pub heard : Bool → List Step → List Wake
heard asked [] = []
heard asked (stop_called ∷ ss) = heard true ss
heard asked (context_done ∷ ss) = done ∷ heard asked ss
heard true (command_taken ∷ ss) = stop ∷ heard true ss
heard false (command_taken ∷ ss) = heard false ss
heard asked (timer_fired ∷ ss) = timer ∷ heard asked ss

offer-nonempty : (c : Command) (q : List Command) → ltb 0 (length (offer c q)) ≡ true
unfolding offer
offer-nonempty c [] = refl
offer-nonempty c (d ∷ q) = ground arith

-- The actor in its loop, and after it.
abbrev looping : Actor → List Command → Live
looping a q = record { actor = a; inbox = q; returned = false }

abbrev over : Actor → List Command → Live
over a q = record { actor = a; inbox = q; returned = true }

drive-over : (a : Actor) (q : List Command) (ss : List Step) → (drive (over a q) ss).actor ≡ a
unfolding drive step request_stop
drive-over a q [] = refl
drive-over a q (stop_called ∷ ss) = drive-over a (offer cmd_stop q) ss
drive-over a q (context_done ∷ ss) = drive-over a q ss
drive-over a q (command_taken ∷ ss) = drive-over a q ss
drive-over a q (timer_fired ∷ ss) = drive-over a q ss

drive-loop :
    (a : Actor) (q : List Command) (asked : Bool) (ss : List Step)
    → ltb 0 (length q) ≡ asked
    → (drive (looping a q) ss).actor ≡ loop a (heard asked ss)
unfolding drive step loop heard select_case take_command request_stop
drive-loop a q asked [] k = refl
drive-loop a q asked (stop_called ∷ ss) k =
    drive-loop a (offer cmd_stop q) true ss (offer-nonempty cmd_stop q)
drive-loop a q asked (context_done ∷ ss) k = drive-over _ q ss
drive-loop a [] true (command_taken ∷ ss) k = absurd (cc k)
drive-loop a [] false (command_taken ∷ ss) k = drive-loop a [] false ss k
drive-loop a (cmd_stop ∷ cs) true (command_taken ∷ ss) k = drive-over _ cs ss
drive-loop a (cmd_stop ∷ cs) false (command_taken ∷ ss) k = absurd (ground arith)
drive-loop a q asked (timer_fired ∷ ss) k = drive-loop (time_out a) q asked ss k

offer-bounded :
    (c : Command) (q : List Command)
    → length q ≤ inbox_capacity
    → length (offer c q) ≤ inbox_capacity
unfolding offer
offer-bounded c q h = ground (arith, length-snoc q c)

take_command-bounded :
    (a : Actor) (q : List Command) (b : Bool)
    → length q ≤ inbox_capacity
    → length (take_command (record { actor = a; inbox = q; returned = b })).inbox ≤ inbox_capacity
unfolding take_command
take_command-bounded a [] b h = h
take_command-bounded a (cmd_stop ∷ q) b h = omega arith

step-bounded :
    (s : Step) (r : Live)
    → length r.inbox ≤ inbox_capacity
    → length (step s r).inbox ≤ inbox_capacity
unfolding step select_case take_command request_stop
step-bounded stop_called r h = offer-bounded cmd_stop r.inbox h
step-bounded context_done r h = ground arith
step-bounded command_taken r h = ground (arith, take_command-bounded r.actor r.inbox r.returned h)
step-bounded timer_fired r h = ground arith

drive-bounded :
    (r : Live) (ss : List Step)
    → length r.inbox ≤ inbox_capacity
    → length (drive r ss).inbox ≤ inbox_capacity
unfolding drive
drive-bounded r [] h = h
drive-bounded r (s ∷ ss) h = drive-bounded (step s r) ss (step-bounded s r h)

-- The inbox of 32 is as good as a flag: whatever calls of Stop and cases of `select` come, it holds at
-- most 32 commands, and the actor is the one that `run` makes if Stop only sets a flag, on which the
-- case of the inbox ends the match. So a Stop whose send gives up on a full inbox makes no
-- difference, and a Stop whose command is not taken before the run ends by its context has none.
pub drive-run :
    (w : World) (m : Match) (ss : List Step)
    → (length (drive (launch w m) ss).inbox ≤ inbox_capacity)
      × ((drive (launch w m) ss).actor ≡ run w m (heard false ss))
unfolding launch run
drive-run w m ss = (
  drive-bounded (launch w m) ss (omega arith),
  drive-loop (begin (new_actor w m)) [] false ss refl,
)
