-- ===== src/Realtime/Gateway.antt =====
-- internal/realtime/gateway.go: who gets a connection. The request's Origin and cookie are given, as
-- is whether the upgrade itself works.
use mathlib.Core.List.{Memᴰ}
use billiards_online.Base.{
  ℕ, ◌≡◌, refl, ap, Bool, true, false, not, ◌||◌, Option, none, some, [], ◌∷◌, Text, if◌then◌else◌,
  Result, ok, err, Bool-cases, inl, inr, arith,
}
use billiards_online.Config.{Config, allows_origin, is_empty}
use billiards_online.Config.Origins.{allows_origin_iff}
use billiards_online.Security.Crypto.{Crypto}
use billiards_online.Auth.Model.{Identity, Error, internal}
use billiards_online.Auth.Service.{authenticate}
use billiards_online.Auth.Access.{Opens, authenticate_sound}
use billiards_online.Schema.{Session}
use billiards_online.Postgres.{World, new_uuid}

-- What becomes of an upgrade: a plain reply, an upgrade that failed and wrote its own reply, or a
-- connection with its id.
pub data Admission : Type 0 where
  origin_rejected auth_required internal_error : Admission
  accept_failed : Admission
  opened : Identity → ℕ → Admission

unfoldable pub accepted : Bool → Identity → ℕ → Admission
accepted true identity conn_id = opened identity conn_id
accepted false identity conn_id = accept_failed

-- After the session is known.
unfoldable pub number : Bool → Identity → World → Admission × World
unfolding accepted
number accepts identity w =
    let (r, w') = new_uuid internal w in
    elim r [ ok conn_id ↦ (accepted accepts identity conn_id, w') | err e ↦ (internal_error, w') ]

unfoldable pub admit : Crypto → Bool → Text → World → Admission × World
unfolding number
admit c accepts raw w =
    let (r, w') = authenticate c raw w in
    elim r [ ok identity ↦ number accepts identity w' | err e ↦ (auth_required, w') ]

unfoldable pub with_cookie : Crypto → Bool → Option Text → World → Admission × World
unfolding admit
with_cookie c accepts none w = (auth_required, w)
with_cookie c accepts (some raw) w =
    if is_empty raw then (auth_required, w) else admit c accepts raw w

unfoldable pub serve_ws : Crypto → Config → Text → Option Text → Bool → World → Admission × World
unfolding with_cookie
serve_ws c cfg origin cookie accepts w =
    if is_empty origin || not (allows_origin cfg origin)
    then (origin_rejected, w)
    else with_cookie c accepts cookie w

opened-accepted :
    (accepts : Bool) (identity i : Identity) (conn_id id : ℕ)
    → accepted accepts identity conn_id ≡ opened i id
    → identity ≡ i
unfolding accepted
opened-accepted true identity i conn_id id e = cc e
opened-accepted false identity i conn_id id e = absurd (cc e)

number-opened :
    (accepts : Bool) (identity i : Identity) (id : ℕ) (w : World)
    → (number accepts identity w).0 ≡ opened i id
    → identity ≡ i
unfolding number
number-opened accepts identity i id w e = go (new_uuid internal w).0 (new_uuid internal w).1 e
  where
    go :
        (r : Result Error ℕ) (w' : World)
        → (let s : Admission × World = elim r [
          | ok conn_id ↦ (accepted accepts identity conn_id, w')
          | err e ↦ (internal_error, w')
        ] in
            s.0 ≡ opened i id)
        → identity ≡ i
    go (ok conn_id) w' e = opened-accepted accepts identity i conn_id id e
    go (err x) w' e = absurd (cc e)

admit-opened :
    (c : Crypto) (accepts : Bool) (raw : Text) (i : Identity) (id : ℕ) (w : World)
    → (admit c accepts raw w).0 ≡ opened i id
    → (authenticate c raw w).0 ≡ ok i
unfolding admit
admit-opened c accepts raw i id w e = go (authenticate c raw w).0 (authenticate c raw w).1 e
  where
    go :
        (r : Result Error Identity) (w' : World)
        → (let s : Admission × World = elim r [
          | ok identity ↦ number accepts identity w'
          | err e ↦ (auth_required, w')
        ] in
            s.0 ≡ opened i id)
        → r ≡ ok i
    go (ok identity) w' e = ap ok (number-opened accepts identity i id w' e)
    go (err x) w' e = absurd (cc e)

with_cookie-opened :
    (c : Crypto) (accepts : Bool) (cookie : Option Text) (i : Identity) (id : ℕ) (w : World)
    → (with_cookie c accepts cookie w).0 ≡ opened i id
    → (raw : Text) × (cookie ≡ some raw) × ((authenticate c raw w).0 ≡ ok i)
unfolding with_cookie
with_cookie-opened c accepts none i id w e = absurd (cc e)
with_cookie-opened c accepts (some []) i id w e = absurd (cc e)
with_cookie-opened c accepts (some (b ∷ bs)) i id w e =
    (b ∷ bs, refl, admit-opened c accepts (b ∷ bs) i id w e)

either-false : (a b : Bool) → (a || not b) ≡ false → b ≡ true
either-false a b e = ground arith

serve_ws-opened :
    (c : Crypto) (cfg : Config) (origin : Text) (cookie : Option Text) (accepts : Bool)
    (i : Identity) (id : ℕ) (w : World)
    → (serve_ws c cfg origin cookie accepts w).0 ≡ opened i id
    → (allows_origin cfg origin ≡ true) × ((with_cookie c accepts cookie w).0 ≡ opened i id)
unfolding serve_ws
serve_ws-opened c cfg origin cookie accepts i id w e =
    elim (Bool-cases (is_empty origin || not (allows_origin cfg origin))) [
      | inl bad ↦ absurd (cc (rw bad at e))
      | inr good ↦ (either-false (is_empty origin) _ good, rw good at e)
    ]

-- A connection is opened only for a page of an origin that stands in the allowlist, character for
-- character, and only with the cookie of a session of the table that is neither revoked nor
-- expired; the connection is that of the session's user.
pub serve_ws-admits :
    (c : Crypto) (cfg : Config) (origin : Text) (cookie : Option Text) (accepts : Bool)
    (i : Identity) (id : ℕ) (w : World)
    → (serve_ws c cfg origin cookie accepts w).0 ≡ opened i id
    → Memᴰ origin cfg.http.allowed_origins
      × (token : Text) × (cookie ≡ some token)
      × (s : Session) × Memᴰ s w.tables.sessions
      × Opens c token (w.env.clock w.tick) s
      × (i.session_id ≡ s.id)
      × (i.user_id ≡ s.user_id)
serve_ws-admits c cfg origin cookie accepts i id w e =
    let (allowed, e') = serve_ws-opened c cfg origin cookie accepts i id w e in
    let (token, given, authentic) = with_cookie-opened c accepts cookie i id w e' in
    let (s, stored, opens, sid, uid) = authenticate_sound c token w i authentic in
    ((allows_origin_iff cfg origin).0 allowed, token, given, s, stored, opens, sid, uid)
