-- ===== src/Auth/Limited.antt =====
-- internal/auth/handler.go: signup and login behind their rate limiter, which the two handlers share
-- and of which Reset forgets a client that has logged in.
use billiards_online.Base.{
  ℕ, ◌≡◌, refl, ap, ◌∙◌, Bool, true, false, ◌&&◌, Option, List, [], ◌∷◌, ◌++◌, All, Text, codes,
  text_eq, if◌then◌else◌, Bool-cases, inl, inr,
}
use billiards_online.Security.Crypto.{Crypto}
use billiards_online.Security.RateLimit.{Float, Limits, Buckets, allow_at, consume, reset, put}
use billiards_online.Auth.Http.{Reply, SignupRequest, LoginRequest, signup, login}
use billiards_online.Postgres.{World}

pub data Action : Type 0 where
  signup_action login_action : Action

unfoldable pub limit_key : Action → Text → Text
limit_key signup_action client = codes "signup" ++ (codes "|" ++ client)
limit_key login_action client = codes "login" ++ (codes "|" ++ client)

-- What was posted, with the body as it was parsed.
pub data Form : Type 0 where
  signup_form : Option SignupRequest → Form
  login_form : Option LoginRequest → Form

abbrev pub action_of : Form → Action
action_of (signup_form b) = signup_action
action_of (login_form b) = login_action

-- A request with its ClientIP, and the time at which the limiter sees it.
pub record Request : Type 0 where
  pub client : Text
  pub now : ℕ
  pub form : Form

unfoldable pub same_action : Action → Action → Bool
same_action signup_action signup_action = true
same_action login_action login_action = true
same_action _ _ = false

-- A request of this client for this action.
abbrev pub is_of : Action → Text → Request → Bool
is_of action client r = same_action action (action_of r.form) && text_eq client r.client

limit_key-apart :
    (a b : Action) (client other : Text)
    → text_eq (limit_key a client) (limit_key b other) ≡ (same_action a b && text_eq client other)
unfolding limit_key same_action text_eq
limit_key-apart signup_action signup_action client other = refl
limit_key-apart signup_action login_action client other = refl
limit_key-apart login_action signup_action client other = refl
limit_key-apart login_action login_action client other = refl

module _ (fl : Float) (lim : Limits fl) (c : Crypto) (secure : Bool) (sql_lower : Text → Text) where
  -- The limiter's buckets and the rest of the world.
  pub record Served : Type 0 where
    pub buckets : Buckets fl
    pub world : World

  unfoldable pub respond : Form → Bool → World → Reply × World
  respond (signup_form body) allowed = signup c secure sql_lower allowed body
  respond (login_form body) allowed = login c secure allowed body

  unfoldable pub settle : Text → Buckets fl → Reply × World → Reply × Served
  settle key bs (reply, w) =
      (reply, record { buckets = if reply.reset then reset fl lim key bs else bs; world = w })

  unfoldable pub post : Request → Served → Reply × Served
  unfolding respond settle limit_key
  post r s =
      let key = limit_key (action_of r.form) r.client in
      let (allowed, bs) = allow_at fl lim key r.now s.buckets in
      settle key bs (respond r.form allowed s.world)

  unfoldable pub post_all : List Request → Served → Served
  unfolding post
  post_all [] s = s
  post_all (r ∷ rs) s = post_all rs (post r s).1

  settle-other :
      (key k : Text) (bs : Buckets fl) (x : Reply × World)
      → text_eq k key ≡ false
      → (settle key bs x).1.buckets k ≡ bs k
  unfolding settle reset put
  settle-other key k bs (reply, w) h = elim (Bool-cases reply.reset) [
    | inl done ↦ rw (done, h) refl
    | inr kept ↦ rw kept refl
  ]

  allow_at-other :
      (key k : Text) (now : ℕ) (bs : Buckets fl)
      → text_eq k key ≡ false
      → (allow_at fl lim key now bs).1 k ≡ bs k
  unfolding allow_at put
  allow_at-other key k now bs h = rw h refl

  post-other :
      (action : Action) (client : Text) (r : Request) (s : Served)
      → is_of action client r ≡ false
      → (post r s).1.buckets (limit_key action client) ≡ s.buckets (limit_key action client)
  unfolding post
  post-other action client r s h =
      let key = limit_key (action_of r.form) r.client in
      let k = limit_key action client in
      let apart : text_eq k key ≡ false =
        limit_key-apart action (action_of r.form) client r.client ∙ h in
      let tried = allow_at fl lim key r.now s.buckets in
      settle-other key k tried.1 (respond r.form tried.0 s.world) apart
      ∙ allow_at-other key k r.now s.buckets apart

  post_all-other :
      (action : Action) (client : Text) (rs : List Request) (s : Served)
      → All (λ r. is_of action client r ≡ false) rs
      → (post_all rs s).buckets (limit_key action client) ≡ s.buckets (limit_key action client)
  unfolding post_all
  post_all-other action client [] s h = refl
  post_all-other action client (r ∷ rs) s (h, hs) =
      post_all-other action client rs (post r s).1 hs ∙ post-other action client r s h

  -- Nobody locks anybody else out: whatever signups and logins come from other clients, and whatever
  -- the client itself tries of the other action, whether the limiter lets the client through to an
  -- action is decided as if none of it had come.
  pub allow_at_unmoved :
      (action : Action) (client : Text) (rs : List Request) (s : Served) (now : ℕ)
      → All (λ r. is_of action client r ≡ false) rs
      → (allow_at fl lim (limit_key action client) now (post_all rs s).buckets).0
        ≡ (allow_at fl lim (limit_key action client) now s.buckets).0
  unfolding allow_at
  allow_at_unmoved action client rs s now h =
      ap (λ b. (consume fl lim b now).0) (post_all-other action client rs s h)
