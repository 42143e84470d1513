-- ===== src/Users/Invariant.antt =====
-- What holds of the accounts between calls, and `Create` of internal/users/service.go.
use billiards_online.Base.{ℕ, ◌≡◌, refl, false, ◌||◌, List, [], ◌∷◌, Text, arith, ◌==◌, any, ok}
use billiards_online.Users.Model.{User, Profile}
use billiards_online.Users.Statements.{
  has_email, has_handle, has_profile, new_user, new_profile, q_insert_user, q_insert_profile,
}
use billiards_online.Users.Repository.{insert_user, insert_profile}
use billiards_online.Users.Service.{create, create_in_tx}
use billiards_online.Schema.{Tables, has_user}
use billiards_online.Postgres.{World, Handle, Times}
use billiards_online.Postgres.Laws.{
  Triple, Keeps, >>=-Triple, >>=-Keeps, query-Triple, exec-Triple, map_err-Triple, in_tx-Keeps,
  pure-Triple, lift-Keeps, asks-Keeps, new_uuid-Keeps, Outcome-ok,
}

module _ (lower : Text → Text) where
  abbrev pub UsersDistinct : List User → Type 0
  UsersDistinct [] = Unit {0}
  UsersDistinct (u ∷ us) =
      (has_user u.id us ≡ false)
      × (has_email u.email us ≡ false)
      × (has_handle lower u.handle us ≡ false)
      × UsersDistinct us

abbrev pub ProfilesDistinct : List Profile → Type 0
ProfilesDistinct [] = Unit {0}
ProfilesDistinct (p ∷ ps) = (has_profile p.user_id ps ≡ false) × ProfilesDistinct ps

-- Ids, addresses and handles are unique, and each user has one profile, no one else any.
pub record Accounts (lower : Text → Text) (t : Tables) : Type 0 where
  pub users_distinct : UsersDistinct lower t.users
  pub profiles_distinct : ProfilesDistinct t.profiles
  pub one_profile : (uid : ℕ) → has_profile uid t.profiles ≡ has_user uid t.users

-- The same, while the user of an id has no profile yet.
record Half (lower : Text → Text) (id : ℕ) (t : Tables) : Type 0 where
  half_users : UsersDistinct lower t.users
  half_profiles : ProfilesDistinct t.profiles
  others : (uid : ℕ) → ((id == uid) || has_profile uid t.profiles) ≡ has_user uid t.users

insert_user_ok :
    (lower : Text → Text) (id : ℕ) (email handle : Text) (ts : Times) (t t' : Tables) {u : User}
    → q_insert_user lower id email handle ts t ≡ ok (u, t')
    → (u ≡ new_user id email handle ts.now)
      × (has_user id t.users ≡ false)
      × (has_email email t.users ≡ false)
      × (has_handle lower handle t.users ≡ false)
      × (t' ≡ record t { users = new_user id email handle ts.now ∷ t.users })
unfolding q_insert_user
insert_user_ok lower id email handle ts t t' h = ground arith

insert_user-Half :
    (lower : Text → Text) (u : User) (t : Tables)
    → Accounts lower t
    → has_user u.id t.users ≡ false
    → has_email u.email t.users ≡ false
    → has_handle lower u.handle t.users ≡ false
    → Half lower u.id (record t { users = u ∷ t.users })
unfolding has_user any
insert_user-Half lower u t a new mail name = record {
  half_users = (new, mail, name, a.users_distinct);
  half_profiles = a.profiles_distinct;
  others = λ uid. rw (a.one_profile uid) refl;
}

insert_profile_ok :
    (uid : ℕ) (ts : Times) (t t' : Tables) {x : Unit {0}}
    → q_insert_profile uid ts t ≡ ok (x, t')
    → (has_profile uid t.profiles ≡ false)
      × (t' ≡ record t { profiles = new_profile uid ts.now ∷ t.profiles })
unfolding q_insert_profile
insert_profile_ok uid ts t t' h = ground arith

insert_profile-Accounts :
    (lower : Text → Text) (id now : ℕ) (t : Tables)
    → Half lower id t
    → has_profile id t.profiles ≡ false
    → Accounts lower (record t { profiles = new_profile id now ∷ t.profiles })
unfolding has_profile any
insert_profile-Accounts lower id now t h new = record {
  users_distinct = h.half_users;
  profiles_distinct = (new, h.half_profiles);
  one_profile = h.others;
}

create_in_tx-Triple :
    (lower : Text → Text) (id : ℕ) (email handle : Text) (db : Handle)
    → Triple (Accounts lower) (create_in_tx lower id email handle db) (λ _. Accounts lower)
unfolding create_in_tx insert_user insert_profile
create_in_tx-Triple lower id email handle db =
    >>=-Triple (λ (u : User). Half lower u.id)
      (query-Triple _ _ db _ λ ts t a.
        Outcome-ok (λ (u : User). Half lower u.id) _
          λ u t' e.
            let (same, new, mail, name, after) = insert_user_ok lower id email handle ts t t' e in
            rw (same, after)
              (insert_user-Half lower (new_user id email handle ts.now) t a new mail name))
      λ (u : User).
        >>=-Triple (λ _. Accounts lower)
          (map_err-Triple _ (
            exec-Triple db _ λ ts t h.
              Outcome-ok (λ _. Accounts lower) _
                λ x t' e.
                  let (new, after) = insert_profile_ok u.id ts t t' e in
                  rw after (insert_profile-Accounts lower u.id ts.now t h new)))
          λ _. pure-Triple u

pub create-Keeps :
    (lower : Text → Text) (db : Handle) (raw handle : Text)
    → Keeps (Accounts lower) (create lower db raw handle)
unfolding create
create-Keeps lower db raw handle = >>=-Keeps (asks-Keeps _) λ f. >>=-Keeps (lift-Keeps _) λ _.
    >>=-Keeps (lift-Keeps _) λ _.
      >>=-Keeps (new_uuid-Keeps _)
        λ id. in_tx-Keeps _ _ _ λ tx. create_in_tx-Triple lower id _ handle tx

-- Registering an account, whatever its outcome, keeps the accounts sound: ids, addresses and
-- handles (up to the database's lower()) are unique, and every user has exactly one profile.
pub create-Accounts :
    (lower : Text → Text) (db : Handle) (email handle : Text) (w : World)
    → Accounts lower w.tables
    → Accounts lower (create lower db email handle w).1.tables
create-Accounts lower db email handle w a = (create-Keeps lower db email handle).at w a
