-- ===== src/Users/Service.antt =====
-- internal/users/service.go. The database's lower() is a parameter of `create`, and the
-- service's DB, which `WithDB` binds to a transaction, an argument of it.
use billiards_online.Base.{ℕ, Option, none, some, [], ◌∷◌, Text, trim_space, ok, err}
use billiards_online.Users.Model.{
  User, Account, PublicProfile, UpdateProfileInput, Error, internal, Checked, normalize_email,
  validate_email, validate_handle, validate_display_name, validate_avatar_ref,
}
use billiards_online.Users.Statements.{q_user_by_id, q_user_by_email}
use billiards_online.Users.Repository.{
  insert_user, select_user, insert_profile, select_account, select_public_profile,
}
use billiards_online.Users.Repository as Repository
use billiards_online.Postgres.{M, Handle, pool, ◌>>=◌, ◌>>◌, pure, lift, asks, in_tx, new_uuid}

unfoldable pub create_in_tx : (Text → Text) → ℕ → Text → Text → Handle → M Error User
create_in_tx sql_lower id email handle db = do
  user ← insert_user sql_lower db id email handle
  insert_profile db user.id
  pure user

unfoldable pub create : (Text → Text) → Handle → Text → Text → M Error User
unfolding create_in_tx normalize_email
create sql_lower db raw handle = do
  lower ← asks (λ env. env.lower)
  let email = normalize_email lower raw
  lift (validate_email email)
  lift (validate_handle handle)
  id ← new_uuid internal
  in_tx internal db (create_in_tx sql_lower id email handle)

unfoldable pub by_id : ℕ → M Error User
by_id id = select_user pool (q_user_by_id id)

unfoldable pub by_email : Text → M Error User
unfolding normalize_email
by_email raw = do
  lower ← asks (λ env. env.lower)
  select_user pool (q_user_by_email (normalize_email lower raw))

unfoldable pub account : ℕ → M Error Account
account id = select_account pool id

unfoldable pub public : ℕ → M Error PublicProfile
public id = select_public_profile pool id

-- The checks on a trimmed text: an empty one passes.
unfoldable pub check_trimmed : (Text → Checked (Unit {0})) → Text → Checked (Option Text)
check_trimmed validate [] = ok (some [])
check_trimmed validate (c ∷ cs) = elim (validate (c ∷ cs)) [
  | err e ↦ err e
  | ok _ ↦ ok (some (c ∷ cs))
]

unfoldable pub normalize_tri_state :
    Option Text → (Text → Checked (Unit {0})) → Checked (Option Text)
unfolding check_trimmed
normalize_tri_state none validate = ok none
normalize_tri_state (some v) validate = check_trimmed validate (trim_space v)

unfoldable pub update_profile : ℕ → UpdateProfileInput → M Error Account
unfolding normalize_tri_state
update_profile id input = do
  display_name ← lift (normalize_tri_state input.display_name validate_display_name)
  avatar_ref ← lift (normalize_tri_state input.avatar_ref validate_avatar_ref)
  Repository.update_profile pool id display_name avatar_ref
  account id
