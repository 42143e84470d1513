-- ===== src/Matches/Registry.antt =====
-- internal/matches/registry.go: which actor runs which match. The map is a list of entries, and each
-- call that takes the lock is one step; actors start and end in any order.
mod Members
pub mod Entries
use mathlib.Core.List.{Memᴰ}
use mathlib.Core.Option.{some_inj}
use billiards_online.Base.{
  ℕ, ◌+◌, ◌<◌, ◌≡◌, ◌≢◌, refl, sym, ap, ◌∙◌, Bool, true, false, not, Option, none, some, List, [],
  ◌∷◌, arith, ◌==◌, if◌then◌else◌, find, select, length, Bool-cases, inl, inr, subst,
}

-- An actor: its match, and a number that tells it from every other.
pub record Running : Type 0 where
  pub match_id : ℕ
  pub number : ℕ

-- The map, and the goroutines that the wait group counts.
pub record Registry : Type 0 where
  pub actors : List Running
  pub running : List Running
  pub started : ℕ

abbrev pub new_registry : Registry
new_registry = record { actors = []; running = []; started = 0 }

unfoldable pub other_match : ℕ → Running → Bool
other_match id a = not (a.match_id == id)

unfoldable pub other_actor : ℕ → Running → Bool
other_actor n a = not (a.number == n)

-- `remove`
unfoldable pub remove : ℕ → List Running → List Running
unfolding other_match
remove id actors = select (other_match id) actors

-- `Start`: an entry of the same match is replaced.
unfoldable pub start : ℕ → Registry → Registry
unfolding remove
start id r =
    let a : Running = record { match_id = id; number = r.started } in
    record { actors = a ∷ remove id r.actors; running = a ∷ r.running; started = r.started + 1 }

-- The actor returns, and its goroutine's deferred calls are made.
unfoldable pub exit : Running → Registry → Registry
unfolding remove other_actor
exit a r = record r {
  actors = remove a.match_id r.actors;
  running = select (other_actor a.number) r.running;
}

unfoldable pub get : ℕ → Registry → Option Running
get id r = find (λ a. a.match_id == id) r.actors

unfoldable pub len : Registry → ℕ
len r = length r.actors

-- One step, where a match may be started if `May` says so.
pub data Step (May : ℕ → Registry → Type 0) (r : Registry) : Registry → Type 0 where
  starts : (id : ℕ) → May id r → Step May r (start id r)
  exits : (a : Running) → Memᴰ a r.running → Step May r (exit a r)

pub data Reach (May : ℕ → Registry → Type 0) : Registry → Type 0 where
  initially : Reach May new_registry
  later : {r s : Registry} → Reach May r → Step May r s → Reach May s
