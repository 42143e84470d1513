-- ===== src/Auth/Http.antt =====
-- internal/auth/handler.go: what each route answers, with the cookie that it sets. The framework's part is given: the cookie and the body that it parsed, each `none` when
-- absent or malformed, and the rate limiter's verdict. Messages and logs are left out.
use billiards_online.Base.{
  ℕ, ◌-◌, ◌/◌, Bool, true, false, Option, none, some, [], Text, ℤ, pos, negsuc, leb, if◌then◌else◌,
  ok, err,
}
use billiards_online.Users.Model as Users
use billiards_online.Users.Model.{User}
use billiards_online.Users.Service as UserService
use billiards_online.Security.Crypto.{Crypto}
use billiards_online.Security.Password as Password
use billiards_online.Auth.Model.{
  Error, invalid_credentials, users_error, password_error, Identity, Login,
}
use billiards_online.Auth.Service as Service
use billiards_online.Http.{answer}
use billiards_online.Postgres.{World, M}

-- The code of an error's body.
pub data Code : Type 0 where
  auth_required auth_rate_limited auth_invalid_request auth_invalid_credentials : Code
  auth_email_taken auth_handle_taken auth_invalid_email auth_invalid_handle : Code
  auth_invalid_password code_internal : Code

-- `sessionResponse`; it has no token.
pub record SessionResponse : Type 0 where
  pub user : Users.Public
  pub email : Text
  pub expires_at : ℕ

pub data Body : Type 0 where
  no_content : Body
  error_code : Code → Body
  session_body : SessionResponse → Body
  revoked : ℕ → Body

-- The attributes that differ from cookie to cookie.
pub record Cookie : Type 0 where
  pub value : Text
  pub expires : Option ℕ
  pub max_age : ℤ
  pub secure : Bool

-- A reply, and whether the attempts of this client are forgotten.
pub record Reply : Type 0 where
  pub status : ℕ
  pub body : Body
  pub cookie : Option Cookie
  pub reset : Bool

abbrev pub plain : ℕ → Body → Reply
plain s b = record { status = s; body = b; cookie = none; reset = false }

abbrev pub internal_error : Reply
internal_error = plain 500 (error_code code_internal)

abbrev pub bad_request : Code → Reply
bad_request c = plain 400 (error_code c)

abbrev pub unauthorized : Reply
unauthorized = plain 401 (error_code auth_required)

abbrev pub Handler : Type 0
Handler = World → Reply × World

-- `int(d.Seconds())` of the time from `now` to `t`
unfoldable pub minus : ℕ → ℤ
minus ℕ.zero = pos 0
minus (ℕ.suc n) = negsuc n

unfoldable pub seconds_until : ℕ → ℕ → ℤ
unfolding minus
seconds_until now t = if leb now t then pos ((t - now) / 1000000) else minus ((now - t) / 1000000)

unfoldable pub session_cookie : Bool → Login → ℕ → Cookie
unfolding seconds_until
session_cookie secure res now = record {
  value = res.token;
  expires = some res.expires_at;
  max_age = seconds_until now res.expires_at;
  secure = secure;
}

abbrev pub cleared_cookie : Bool → Cookie
cleared_cookie secure = record { value = []; expires = none; max_age = negsuc 0; secure = secure }

unfoldable pub session_response : User → ℕ → SessionResponse
session_response user expires_at = record {
  user = Users.public_user user;
  email = user.email;
  expires_at = expires_at;
}

-- The reply to a completed authentication; the cookie's age counts from the clock's next reading.
unfoldable pub logged_in : ℕ → Bool → Bool → Login → World → Reply × World
unfolding session_cookie session_response
logged_in status reset secure res w = (
  record {
    status = status;
    body = session_body (session_response res.user res.expires_at);
    cookie = some (session_cookie secure res (w.env.clock w.tick));
    reset = reset;
  },
  record w { tick = ℕ.suc w.tick },
)

-- The cases of `writeSignupError`.
unfoldable pub write_user_error : Users.Error → Reply
write_user_error Users.Error.email_taken = plain 409 (error_code auth_email_taken)
write_user_error Users.Error.handle_taken = plain 409 (error_code auth_handle_taken)
write_user_error Users.Error.invalid_email = bad_request auth_invalid_email
write_user_error Users.Error.invalid_handle = bad_request auth_invalid_handle
write_user_error _ = internal_error

unfoldable pub write_password_error : Password.Error → Reply
write_password_error Password.Error.too_short = bad_request auth_invalid_password
write_password_error Password.Error.too_long = bad_request auth_invalid_password
write_password_error _ = internal_error

unfoldable pub write_signup_error : Error → Reply
unfolding write_user_error write_password_error
write_signup_error (users_error e) = write_user_error e
write_signup_error (password_error e) = write_password_error e
write_signup_error _ = internal_error

unfoldable pub write_login_error : Error → Reply
write_login_error invalid_credentials = plain 401 (error_code auth_invalid_credentials)
write_login_error _ = internal_error

-- Run an authentication and set its cookie, or write its error.
unfoldable pub authenticated : ℕ → Bool → Bool → (Error → Reply) → M Error Login → Handler
unfolding logged_in
authenticated status reset secure failed m w =
    let (r, w') = m w in
    elim r [ ok res ↦ logged_in status reset secure res w' | err e ↦ (failed e, w') ]

-- The rate limiter's verdict and the body that was parsed.
unfoldable pub admitted : {B : Type 0} → Bool → Option B → (B → Handler) → Handler
admitted false body f w = (plain 429 (error_code auth_rate_limited), w)
admitted true none f w = (bad_request auth_invalid_request, w)
admitted true (some b) f w = f b w

pub record SignupRequest : Type 0 where
  pub email : Text
  pub handle : Text
  pub password : Text

pub record LoginRequest : Type 0 where
  pub email : Text
  pub password : Text

module _ (c : Crypto) (secure : Bool) where
  unfoldable pub signup : (Text → Text) → Bool → Option SignupRequest → Handler
  unfolding admitted authenticated write_signup_error
  signup sql_lower allowed body = admitted allowed body λ req.
      authenticated 201 false secure write_signup_error
        (Service.signup c sql_lower req.email req.handle req.password)

  unfoldable pub login : Bool → Option LoginRequest → Handler
  unfolding admitted authenticated write_login_error
  login allowed body = admitted allowed body λ req.
      authenticated 200 true secure write_login_error (Service.login c req.email req.password)

  abbrev pub logged_out : Reply
  logged_out = record {
    status = 204;
    body = no_content;
    cookie = some (cleared_cookie secure);
    reset = false;
  }

  unfoldable pub logout : Option Identity → Handler
  unfolding answer
  logout none w = (logged_out, w)
  logout (some id) w =
      answer (Service.logout id.session_id) (λ _. logged_out) (λ _. internal_error) w

  abbrev pub all_revoked : ℕ → Reply
  all_revoked n = record {
    status = 200;
    body = revoked n;
    cookie = some (cleared_cookie secure);
    reset = false;
  }

  unfoldable pub logout_all : Option Identity → Handler
  unfolding answer
  logout_all none w = (internal_error, w)
  logout_all (some id) w =
      answer (Service.logout_all id.user_id) all_revoked (λ _. internal_error) w

unfoldable pub session : Option Identity → Handler
unfolding answer session_response
session none w = (internal_error, w)
session (some id) w =
    answer (UserService.by_id id.user_id)
      (λ user. plain 200 (session_body (session_response user id.expires_at))) (λ _. internal_error)
      w
