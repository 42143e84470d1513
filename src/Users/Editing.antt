-- ===== src/Users/Editing.antt =====
-- Whose data an edit of the own profile touches: `updateMe` of internal/users/handler.go and
-- `UpdateProfile` of internal/users/service.go.
use billiards_online.Base.{
  ℕ, subst, sym, inl, inr, ◌≡◌, refl, ◌∙◌, Bool, false, Option, none, some, List, [], ◌∷◌, Text,
  arith, ◌==◌, find, update,
}
use billiards_online.Users.Model.{Account, Profile, UpdateProfileInput}
use billiards_online.Users.Statements.{edit, q_update_profile, profile_of, q_account_by_id}
use billiards_online.Users.Repository as Repository
use billiards_online.Users.Repository.{select_account}
use billiards_online.Users.Service as Service
use billiards_online.Users.Frame.{one-Outcome}
use billiards_online.Users.Http.{update_me}
use billiards_online.Http.{answer, Result-cases}
use billiards_online.Schema.{Tables}
use billiards_online.Postgres.{World, M, Times, pool}
use billiards_online.Postgres.Laws.{
  Keeps, Outcome, >>=-Keeps, lift-Keeps, guard-Keeps, map_err-Keeps, exec-Keeps, query-Keeps,
}

-- The tables differ from those before at most in one user's profile.
pub record OthersAsBefore (uid : ℕ) (before t : Tables) : Type 0 where
  pub profiles :
      (other : ℕ)
      → (uid == other) ≡ false
      → find (profile_of other) t.profiles ≡ find (profile_of other) before.profiles
  pub users : t.users ≡ before.users

find-update :
    (uid other : ℕ) (f : Profile → Profile) (ps : List Profile)
    → ((p : Profile) → (f p).user_id ≡ p.user_id)
    → (uid == other) ≡ false
    → find (profile_of other) (update (profile_of uid) f ps) ≡ find (profile_of other) ps
unfolding find update profile_of
find-update uid other f [] ids apart = refl
find-update uid other f (p ∷ ps) ids apart =
    ground (arith, find-update uid other f ps ids apart, ids p)

module _ (uid : ℕ) (before : Tables) where
  q_update_profile-OthersAsBefore :
      (d : Bool) (dv : Text) (a : Bool) (av : Text) (ts : Times) (t : Tables)
      → OthersAsBefore uid before t
      → Outcome (λ _. OthersAsBefore uid before) (q_update_profile uid d dv a av ts t)
  unfolding q_update_profile
  q_update_profile-OthersAsBefore d dv a av ts t h =
      let edited_row : OthersAsBefore uid before
          (record t { profiles = update (profile_of uid) (edit d dv a av ts.now) t.profiles }) =
        record {
          profiles = λ other apart.
              find-update uid other _ t.profiles (λ p. refl) apart ∙ h.profiles other apart;
          users = h.users;
        } in
      ground (arith, edited_row)

  q_account_by_id-OthersAsBefore :
      (x : ℕ) (ts : Times) (t : Tables)
      → OthersAsBefore uid before t
      → Outcome (λ _. OthersAsBefore uid before) (q_account_by_id x ts t)
  unfolding q_account_by_id
  q_account_by_id-OthersAsBefore x ts t h =
      one-Outcome {A = Account} (OthersAsBefore uid before) _ t h

  update_profile-Keeps :
      (input : UpdateProfileInput)
      → Keeps (OthersAsBefore uid before) (Service.update_profile uid input)
  unfolding Service.update_profile Service.account select_account Repository.update_profile
  update_profile-Keeps input = >>=-Keeps (lift-Keeps _) λ name. >>=-Keeps (lift-Keeps _) λ avatar.
      >>=-Keeps
        (>>=-Keeps (map_err-Keeps _ (exec-Keeps pool _ (q_update_profile-OthersAsBefore _ _ _ _)))
          λ rows. guard-Keeps _ _)
        λ _. query-Keeps _ _ pool _ (q_account_by_id-OthersAsBefore uid)

answer-tables :
    {E A R : Type 0} (m : M E A) (done : A → R) (failed : E → R) (w : World)
    → (answer m done failed w).1.tables ≡ (m w).1.tables
unfolding answer
answer-tables m done failed w = elim (Result-cases (m w).0) [
  | inl (a, e) ↦ rw (e, answer) refl
  | inr (x, e) ↦ rw (e, answer) refl
]

-- A player edits the own profile only: whatever the body of the request and whatever fails, no
-- account and no other player's profile is another than before.
pub update_me-OthersAsBefore :
    (uid : ℕ) (body : Option UpdateProfileInput) (w : World)
    → OthersAsBefore uid w.tables (update_me (some uid) body w).1.tables
unfolding update_me
update_me-OthersAsBefore uid none w = record { profiles = λ other apart. refl; users = refl }
update_me-OthersAsBefore uid (some input) w =
    subst (OthersAsBefore uid w.tables)
      (sym (answer-tables (Service.update_profile uid input) _ _ w))
      ((update_profile-Keeps uid w.tables input).at w
        (record { profiles = λ other apart. refl; users = refl }))
