-- ===== src/Users/Profiles.antt =====
-- What others see of an account: `Account` and `Public` of internal/users/service.go.
use billiards_online.Base.{
  ℕ, ◌≡◌, refl, ap, sym, ◌∙◌, Bool, true, false, Option, none, some, arith, find, Result,
  Bool-cases, inl, inr, ok, err,
}
use billiards_online.Users.Model as Model
use billiards_online.Users.Model.{User, Profile, Account, PublicProfile, Error, UpdateProfileInput}
use billiards_online.Users.Statements.{
  PublicRow, one, user_is, profile_of, joined, q_account_by_id, q_public_profile_by_id, public_row,
}
use billiards_online.Users.Repository.{
  select_account, select_public_profile, to_public_profile, wrapped, no_rows_as,
}
use billiards_online.Users.Service.{account, public}
use billiards_online.Schema.{Tables, PgError, broken}
use billiards_online.Postgres.{
  World, settle, Statement, Times, times, pool, next, map_err, exec, query, ◌>>=◌,
}

-- A result seen through a function.
abbrev pub seen : {A B : Type 0} → (A → B) → Result Error A → Result Error B
seen f (ok a) = ok (f a)
seen f (err e) = err e

-- How a query ends that sends nothing but rows back.
abbrev ran : {A : Type 0} → Bool → Option A → World → Result Error A × World
ran true o w = (err Model.internal, next w)
ran false none w = (err Model.not_found, next w)
ran false (some a) w = (ok a, next w)

-- The two rows of a user, joined.
abbrev rows_of : {A : Type 0} → (User → Profile → A) → ℕ → Times → Tables → Option A
rows_of f id ts t = joined f (find (user_is id) t.users) (find (profile_of id) t.profiles)

abbrev account_of : User → Profile → Account
account_of u p = record { user = u; profile = p }

abbrev Reads : {A : Type 0} → Statement A → (Times → Tables → Option A) → Type 0
Reads s o = (ts : Times) (t : Tables) → s ts t ≡ one (o ts t) t

exec-down :
    {A : Type 0} (s : Statement A) (w : World)
    → w.env.fails w.tick ≡ true
    → exec pool s w ≡ (err broken, next w)
unfolding exec
exec-down s w e = rw (e, exec) refl

exec-up :
    {A : Type 0} (s : Statement A) (w : World)
    → w.env.fails w.tick ≡ false
    → exec pool s w ≡ settle w (s (times pool w) w.tables)
unfolding exec
exec-up s w e = rw (e, exec) refl

abbrev caught : {A : Type 0} → Result PgError A × World → Result Error A × World
caught x = elim x.0 [
  | ok a ↦ (ok a, x.1)
  | err e ↦
      (err (elim e [ broken ↦ wrapped broken | other ↦ no_rows_as Model.not_found other ]), x.1)
]

caught-one :
    {A : Type 0} (o : Option A) (w : World) → caught (settle w (one o w.tables)) ≡ ran false o w
caught-one none w = refl
caught-one (some a) w = refl

query-ran :
    {A : Type 0} (s : Statement A) (o : Times → Tables → Option A) (w : World)
    → Reads s o
    → query wrapped (no_rows_as Model.not_found) pool s w
      ≡ ran (w.env.fails w.tick) (o (times pool w) w.tables) w
unfolding query map_err
query-ran s o w h = elim (Bool-cases (w.env.fails w.tick)) [
  | inl e ↦ ap caught (exec-down s w e) ∙ rw e refl
  | inr e ↦
      ap caught (exec-up s w e)
      ∙ ap (λ x. caught (settle w x)) (h (times pool w) w.tables)
      ∙ caught-one (o (times pool w) w.tables) w
      ∙ rw e refl
]

abbrev shown : Result Error PublicRow × World → Result Error PublicProfile × World
shown x = elim x.0 [ ok r ↦ (ok (to_public_profile r), x.1) | err e ↦ (err e, x.1) ]

shown-seen :
    (b : Bool) (u : Option User) (p : Option Profile) (w : World)
    → shown (ran b (joined public_row u p) w)
      ≡ (seen Model.public (ran b (joined account_of u p) w).0, (ran b (joined account_of u p) w).1)
unfolding joined to_public_profile Model.public
shown-seen true u p w = refl
shown-seen false none p w = refl
shown-seen false (some u) none w = refl
shown-seen false (some u) (some p) w = ground arith

-- The public profile of a user is what the account of the same moment shows of itself, error
-- for error, though the two are read by queries of their own.
pub public-account :
    (id : ℕ) (w : World) → public id w ≡ (seen Model.public (account id w).0, (account id w).1)
unfolding public account select_account select_public_profile ◌>>=◌ q_account_by_id
    q_public_profile_by_id
public-account id w =
    ap shown (query-ran (q_public_profile_by_id id) (rows_of public_row id) w (λ ts t. refl))
    ∙ shown-seen (w.env.fails w.tick) (find (user_is id) w.tables.users)
        (find (profile_of id) w.tables.profiles) w
    ∙ sym (
        ap (λ x. (seen Model.public x.0, x.1))
          (query-ran (q_account_by_id id) (rows_of account_of id) w (λ ts t. refl)))
