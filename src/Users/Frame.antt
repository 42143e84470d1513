-- ===== src/Users/Frame.antt =====
-- Which tables registering a user touches: `Create` of internal/users/service.go.
use billiards_online.Base.{Option, some, ℕ, List, ◌∷◌, none, Text, arith}
use billiards_online.Users.Model.{User, Profile}
use billiards_online.Users.Statements.{one, q_insert_user, q_insert_profile}
use billiards_online.Users.Repository.{insert_user, insert_profile}
use billiards_online.Users.Service.{create, create_in_tx}
use billiards_online.Schema.{Tables}
use billiards_online.Postgres.{Handle, Times}
use billiards_online.Postgres.Laws.{
  Triple, Keeps, Outcome, >>=-Triple, >>=-Keeps, query-Triple, exec-Triple, map_err-Triple,
  in_tx-Keeps, pure-Triple, lift-Keeps, asks-Keeps, new_uuid-Keeps,
}

-- A fact that does not speak of users and profiles.
abbrev pub IgnoresUsers : (Tables → Type 0) → Type 0
IgnoresUsers P =
    (t : Tables) (us : List User) (ps : List Profile)
    → P t
    → P (record t { users = us; profiles = ps })

module _ {P : Tables → Type 0} (frame : IgnoresUsers P) where
  q_insert_user-P :
      (lower : Text → Text) (id : ℕ) (email handle : Text) (ts : Times) (t : Tables)
      → P t
      → Outcome (λ _. P) (q_insert_user lower id email handle ts t)
  unfolding q_insert_user
  q_insert_user-P lower id email handle ts t h = ground (
    arith,
    frame t
        (record {
          id = id;
          email = email;
          handle = handle;
          created_at = ts.now;
          updated_at = ts.now;
        }
          ∷ t.users)
        t.profiles h,
  )

  q_insert_profile-P :
      (uid : ℕ) (ts : Times) (t : Tables) → P t → Outcome (λ _. P) (q_insert_profile uid ts t)
  unfolding q_insert_profile
  q_insert_profile-P uid ts t h = ground (
    arith,
    frame t t.users
        (record {
          user_id = uid;
          display_name = none;
          avatar_ref = none;
          matches_played = 0;
          wins = 0;
          losses = 0;
          updated_at = ts.now;
        }
          ∷ t.profiles)
        h,
  )

  create_in_tx-P :
      (lower : Text → Text) (id : ℕ) (email handle : Text) (db : Handle)
      → Triple P (create_in_tx lower id email handle db) (λ _. P)
  unfolding create_in_tx insert_user insert_profile
  create_in_tx-P lower id email handle db =
      >>=-Triple (λ _. P) (query-Triple _ _ db _ (q_insert_user-P lower id email handle))
        λ (u : User).
          >>=-Triple (λ _. P) (map_err-Triple _ (exec-Triple db _ (q_insert_profile-P u.id)))
            λ _. pure-Triple u

  pub create-P :
      (lower : Text → Text) (db : Handle) (raw handle : Text) → Keeps P (create lower db raw handle)
  unfolding create
  create-P lower db raw handle = >>=-Keeps (asks-Keeps _) λ f. >>=-Keeps (lift-Keeps _) λ _.
      >>=-Keeps (lift-Keeps _) λ _.
        >>=-Keeps (new_uuid-Keeps _)
          λ id. in_tx-Keeps _ _ _ λ tx. create_in_tx-P lower id _ handle tx

-- Reading one row changes nothing.
pub one-Outcome :
    {A : Type 0} (P : Tables → Type 0) (o : Option A) (t : Tables)
    → P t
    → Outcome (λ _. P) (one o t)
one-Outcome P none t h = tt
one-Outcome P (some a) t h = h
