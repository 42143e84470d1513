-- ===== src/Users/Statements.antt =====
-- The SQL of internal/users/repository.go, over the tables and constraints of
-- migrations/000001_users.up.sql and migrations/000003_player_profiles.up.sql. SQL's lower() is
-- a parameter, since it follows the locale of the database.
use billiards_online.Base.{
  ℕ, Bool, true, false, not, ◌&&◌, ◌||◌, Option, none, some, List, [], ◌∷◌, Text, text_eq, ltb, leb,
  ◌==◌, if◌then◌else◌, length, any, find, update, Result, ok, err,
}
use billiards_online.Users.Model.{User, Profile, Account}
use billiards_online.Schema.{
  Tables, PgError, unique_violation, check_violation, foreign_key_violation, no_rows, users_pkey,
  users_email_key, users_handle_lower_key, player_profiles_pkey, has_user,
}
use billiards_online.Postgres.{Statement}

-- LIKE '%._%'
unfoldable pub dot_later : Text → Bool
dot_later [] = false
dot_later (c ∷ cs) = ((c == b'.') && ltb 0 (length cs)) || dot_later cs

-- LIKE '_%._%'
unfoldable pub domain_shape : Text → Bool
unfolding dot_later
domain_shape [] = false
domain_shape (c ∷ cs) = dot_later cs

-- LIKE '%@_%._%'
unfoldable pub at_later : Text → Bool
unfolding domain_shape
at_later [] = false
at_later (c ∷ cs) = ((c == b'@') && domain_shape cs) || at_later cs

-- users_email_shape: LIKE '_%@_%._%', and its length
unfoldable pub email_shape : Text → Bool
unfolding at_later
email_shape [] = false
email_shape (c ∷ cs) = at_later cs && leb (length (c ∷ cs)) 254

-- One character of the bracket of users_handle_shape, '^[A-Za-z0-9_]+$', as ranges of code points.
unfoldable pub handle_char : ℕ → Bool
handle_char c =
    any (λ (range : ℕ × ℕ). leb range.0 c && leb c range.1)
      ((65, 90) ∷ (97, 122) ∷ (48, 57) ∷ (95, 95) ∷ [])

-- Repeated at least once.
unfoldable pub handle_chars : Text → Bool
unfolding handle_char
handle_chars [] = false
handle_chars (c ∷ []) = handle_char c
handle_chars (c ∷ d ∷ cs) = handle_char c && handle_chars (d ∷ cs)

-- users_handle_length and users_handle_shape
unfoldable pub handle_shape : Text → Bool
unfolding handle_chars
handle_shape h = leb 3 (length h) && (leb (length h) 24 && handle_chars h)

unfoldable pub user_checks : (Text → Text) → User → Bool
unfolding email_shape handle_shape
user_checks lower u =
    text_eq u.email (lower u.email) && (email_shape u.email && handle_shape u.handle)

unfoldable pub has_email : Text → List User → Bool
has_email e = any (λ u. text_eq e u.email)

unfoldable pub has_handle : (Text → Text) → Text → List User → Bool
has_handle lower h = any (λ u. text_eq (lower h) (lower u.handle))

abbrev pub new_user : ℕ → Text → Text → ℕ → User
new_user id email handle now = record {
  id = id;
  email = email;
  handle = handle;
  created_at = now;
  updated_at = now;
}

-- qInsertUser
unfoldable pub q_insert_user : (Text → Text) → ℕ → Text → Text → Statement User
unfolding user_checks has_user has_email has_handle
q_insert_user lower id email handle ts t =
    let u = new_user id email handle ts.now in
    if not (user_checks lower u)
    then err check_violation
    else if has_user id t.users
    then err (unique_violation users_pkey)
    else if has_email email t.users
    then err (unique_violation users_email_key)
    else if has_handle lower handle t.users
    then err (unique_violation users_handle_lower_key)
    else ok (u, record t { users = u ∷ t.users })

unfoldable pub has_profile : ℕ → List Profile → Bool
has_profile uid = any (λ p. p.user_id == uid)

abbrev pub new_profile : ℕ → ℕ → Profile
new_profile uid now = record {
  user_id = uid;
  display_name = none;
  avatar_ref = none;
  matches_played = 0;
  wins = 0;
  losses = 0;
  updated_at = now;
}

-- qInsertProfile
unfoldable pub q_insert_profile : ℕ → Statement (Unit {0})
unfolding has_profile has_user
q_insert_profile uid ts t =
    if has_profile uid t.profiles
    then err (unique_violation player_profiles_pkey)
    else if not (has_user uid t.users)
    then err foreign_key_violation
    else ok (tt, record t { profiles = new_profile uid ts.now ∷ t.profiles })

unfoldable pub user_is : ℕ → User → Bool
user_is uid u = u.id == uid

unfoldable pub profile_of : ℕ → Profile → Bool
profile_of uid p = p.user_id == uid

abbrev pub one : {A : Type 0} → Option A → Tables → Result PgError (A × Tables)
one none t = err no_rows
one (some a) t = ok (a, t)

-- qUserByID
unfoldable pub q_user_by_id : ℕ → Statement User
unfolding user_is
q_user_by_id uid ts t = one (find (user_is uid) t.users) t

-- qUserByEmail
unfoldable pub q_user_by_email : Text → Statement User
q_user_by_email email ts t = one (find (λ u. text_eq email u.email) t.users) t

-- The inner join of a user and a profile.
unfoldable pub joined :
    {A : Type 0} → (User → Profile → A) → Option User → Option Profile → Option A
joined f (some u) (some p) = some (f u p)
joined f _ _ = none

-- qAccountByID, and what `toAccount` makes of its row
unfoldable pub q_account_by_id : ℕ → Statement Account
unfolding joined user_is profile_of
q_account_by_id uid ts t =
    one
      (joined (λ u p. record { user = u; profile = p }) (find (user_is uid) t.users)
        (find (profile_of uid) t.profiles))
      t

-- `publicProfileRow`
pub record PublicRow : Type 0 where
  pub id : ℕ
  pub handle : Text
  pub created_at : ℕ
  pub display_name : Option Text
  pub avatar_ref : Option Text
  pub matches_played : ℕ
  pub wins : ℕ
  pub losses : ℕ

abbrev pub public_row : User → Profile → PublicRow
public_row u p = record {
  id = u.id;
  handle = u.handle;
  created_at = u.created_at;
  display_name = p.display_name;
  avatar_ref = p.avatar_ref;
  matches_played = p.matches_played;
  wins = p.wins;
  losses = p.losses;
}

-- qPublicProfileByID
unfoldable pub q_public_profile_by_id : ℕ → Statement PublicRow
unfolding joined user_is profile_of
q_public_profile_by_id uid ts t =
    one (joined public_row (find (user_is uid) t.users) (find (profile_of uid) t.profiles)) t

-- NULLIF(v, '')
unfoldable pub null_if_empty : Text → Option Text
null_if_empty [] = none
null_if_empty (c ∷ cs) = some (c ∷ cs)

-- A column that is assigned only if the edit provides it.
unfoldable pub edited : Bool → Text → Option Text → Option Text
unfolding null_if_empty
edited provided value old = if provided then null_if_empty value else old

abbrev pub within : ℕ → ℕ → Option Text → Bool
within m n none = true
within m n (some s) = leb m (length s) && leb (length s) n

-- player_profiles_display_name_length and player_profiles_avatar_ref_length
unfoldable pub profile_checks : Profile → Bool
profile_checks p = within 1 40 p.display_name && within 0 512 p.avatar_ref

abbrev pub edit : Bool → Text → Bool → Text → ℕ → Profile → Profile
edit d dv a av now p = record p {
  display_name = edited d dv p.display_name;
  avatar_ref = edited a av p.avatar_ref;
  updated_at = now;
}

-- qUpdateProfile, with the number of rows affected
unfoldable pub q_update_profile : ℕ → Bool → Text → Bool → Text → Statement ℕ
unfolding profile_of profile_checks edited
q_update_profile uid d dv a av ts t = elim (find (profile_of uid) t.profiles) [
  | none ↦ ok (0, t)
  | some p ↦
      if not (profile_checks (edit d dv a av ts.now p))
      then err check_violation
      else ok
          (1, record t { profiles = update (profile_of uid) (edit d dv a av ts.now) t.profiles })
]
