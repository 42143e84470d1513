-- ===== src/Auth/Middleware.antt =====
-- internal/auth/middleware.go: a handler behind RequireAuth or OptionalAuth, over the cookie that was
-- parsed, `none` when it is absent.
use billiards_online.Base.{Option, none, some, Text, ok, err}
use billiards_online.Security.Crypto.{Crypto}
use billiards_online.Auth.Model.{Error, unauthenticated, Identity}
use billiards_online.Auth.Service as Service
use billiards_online.Auth.Http.{Reply, unauthorized}
use billiards_online.Postgres.{World, M, raise}

module _ (c : Crypto) where
  unfoldable pub identify : Option Text → M Error Identity
  identify none = raise unauthenticated
  identify (some raw) = Service.authenticate c raw

  -- `RequireAuth`: whatever went wrong looks the same.
  unfoldable pub require_auth :
      {R : Type 0} → (Reply → R) → Option Text → (Identity → World → R × World) → World → R × World
  unfolding identify
  require_auth refused cookie next w =
      let (r, w') = identify cookie w in
      elim r [ ok id ↦ next id w' | err e ↦ (refused unauthorized, w') ]

  -- `OptionalAuth`
  unfoldable pub optional_auth :
      {R : Type 0} → Option Text → (Option Identity → World → R × World) → World → R × World
  unfolding identify
  optional_auth cookie next w =
      let (r, w') = identify cookie w in elim r [ ok id ↦ next (some id) w' | err e ↦ next none w' ]
