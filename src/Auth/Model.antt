-- ===== src/Auth/Model.antt =====
-- internal/auth/model.go. Times are in microseconds, which is what the database keeps.
use billiards_online.Base.{ℕ, ◌*◌, Text}
use billiards_online.Users.Model as Users
use billiards_online.Users.Model.{User}
use billiards_online.Security.Password as Password

abbrev pub hour : ℕ
hour = 3600000000

abbrev pub session_ttl : ℕ
session_ttl = 14 * 24 * hour

abbrev pub session_renew_threshold : ℕ
session_renew_threshold = 7 * 24 * hour

-- The errors that this package names, those of users and of security, passed on, and `internal`
-- for any other, wrapped one.
pub data Error : Type 0 where
  invalid_credentials unauthenticated rate_limited internal : Error
  users_error : Users.Error → Error
  password_error : Password.Error → Error

pub record Identity : Type 0 where
  pub user_id : ℕ
  pub session_id : ℕ
  pub handle : Text
  pub expires_at : ℕ

-- `Result` of service.go
pub record Login : Type 0 where
  pub user : User
  pub token : Text
  pub expires_at : ℕ
