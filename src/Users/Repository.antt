-- ===== src/Users/Repository.antt =====
-- The functions of internal/users/repository.go.
use billiards_online.Base.{ℕ, Bool, true, false, Option, none, some, [], Text, ◌==◌, if◌then◌else◌}
use billiards_online.Users.Model.{
  User, Account, PublicProfile, Error, not_found, email_taken, handle_taken, internal,
}
use billiards_online.Users.Statements.{
  q_insert_user, q_insert_profile, q_account_by_id, q_public_profile_by_id, q_update_profile,
  PublicRow,
}
use billiards_online.Schema.{
  PgError, unique_violation, no_rows, users_email_key, users_handle_lower_key,
}
use billiards_online.Postgres.{M, Handle, Statement, ◌>>=◌, pure, guard, map_err, exec, query}

-- `mapUserError`
unfoldable pub map_user_error : PgError → Error
map_user_error (unique_violation users_email_key) = email_taken
map_user_error (unique_violation users_handle_lower_key) = handle_taken
map_user_error _ = internal

abbrev pub wrapped : PgError → Error
wrapped e = internal

abbrev pub no_rows_as : Error → PgError → Error
no_rows_as e no_rows = e
no_rows_as e _ = internal

unfoldable pub insert_user : (Text → Text) → Handle → ℕ → Text → Text → M Error User
unfolding map_user_error
insert_user lower db id email handle =
    query map_user_error map_user_error db (q_insert_user lower id email handle)

unfoldable pub select_user : Handle → Statement User → M Error User
select_user = query wrapped (no_rows_as not_found)

unfoldable pub insert_profile : Handle → ℕ → M Error (Unit {0})
insert_profile db uid = map_err wrapped (exec db (q_insert_profile uid))

unfoldable pub select_account : Handle → ℕ → M Error Account
select_account db uid = query wrapped (no_rows_as not_found) db (q_account_by_id uid)

unfoldable pub to_public_profile : PublicRow → PublicProfile
to_public_profile r = record {
  id = r.id;
  handle = r.handle;
  display_name = elim r.display_name [ none ↦ r.handle | some name ↦ name ];
  avatar_ref = r.avatar_ref;
  matches_played = r.matches_played;
  wins = r.wins;
  losses = r.losses;
  created_at = r.created_at;
}

unfoldable pub select_public_profile : Handle → ℕ → M Error PublicProfile
unfolding to_public_profile
select_public_profile db uid = do
  r ← query wrapped (no_rows_as not_found) db (q_public_profile_by_id uid)
  pure (to_public_profile r)

-- `providedValue`
unfoldable pub provided_value : Option Text → Bool × Text
provided_value none = (false, [])
provided_value (some s) = (true, s)

unfoldable pub update_profile : Handle → ℕ → Option Text → Option Text → M Error (Unit {0})
unfolding provided_value
update_profile db uid display_name avatar_ref = do
  let (d, dv) = provided_value display_name
  let (a, av) = provided_value avatar_ref
  rows ← map_err wrapped (exec db (q_update_profile uid d dv a av))
  guard (if rows == 0 then false else true) not_found
