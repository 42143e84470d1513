-- ===== src/Server/Ending.antt =====
-- How the process of apps/server/cmd/server/main.go ends.
use billiards_online.Base.{
  ◌≡◌, Bool, true, false, any, Option, none, some, List, [], ◌∷◌, ok, if◌then◌else◌,
}
use billiards_online.Config.{Config}
use billiards_online.Postgres.Connect.{PoolConfig, reached, connect}
use billiards_online.Server.Process.{
  Resource, signals, pool, auth_limiter, room_limiter, Effect, opened, closed, signalled,
  Surroundings,
}

unfoldable pub same : Resource → Resource → Bool
same signals signals = true
same pool pool = true
same auth_limiter auth_limiter = true
same room_limiter room_limiter = true
same _ _ = false

-- What is held after an effect, the last opened first. Only what was opened last can be closed, and a
-- listener is started or stopped, and the actors are awaited, only while the pool is held.
unfoldable pub effect : Effect → List Resource → Option (List Resource)
unfolding same any
effect (opened r) held = some (r ∷ held)
effect (closed r) [] = none
effect (closed r) (x ∷ held) = if same r x then some held else none
effect _ held = if any (same pool) held then some held else none

unfoldable pub after : List Resource → List Effect → Option (List Resource)
unfolding effect
after held [] = some held
after held (e ∷ es) = elim (effect e held) [ none ↦ none | some held' ↦ after held' es ]

-- A process that was asked to stop and could.
pub record StopsInOrder (s : Surroundings) : Type 0 where
  pub cfg : Config
  pub loaded : s.loaded ≡ ok cfg
  pub pool : PoolConfig
  pub connected : connect s.driver cfg.database ≡ reached pool
  pub ending : s.ending ≡ signalled
  pub public_stops : s.public_stops ≡ true
  pub internal_stops : s.internal_stops ≡ true
