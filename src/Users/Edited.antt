-- ===== src/Users/Edited.antt =====
-- What an edit of the own profile stores and shows: `UpdateProfile` of internal/users/service.go.
use billiards_online.Base.{
  ℕ, ◌≡◌, inl, inr, refl, sym, ap, ◌∙◌, subst, true, false, Option, none, some, List, [], ◌∷◌, Text,
  arith, ◌==◌, find, update, trim_space, Option-cases, if◌then◌else◌, ok,
}
use billiards_online.Users.Model.{
  Account, Profile, UpdateProfileInput, Checked, not_found, validate_display_name,
  validate_avatar_ref,
}
use billiards_online.Users.Statements.{
  edit, edited, null_if_empty, q_update_profile, profile_of, user_is, joined, q_account_by_id,
}
use billiards_online.Users.Repository as Repository
use billiards_online.Users.Repository.{select_account, provided_value}
use billiards_online.Users.Service.{update_profile, account, normalize_tri_state, check_trimmed}
use billiards_online.Schema.{Tables}
use billiards_online.Postgres.{World, Times, pool}
use billiards_online.Postgres.Laws.{
  Triple, >>=-Triple, query-Triple, exec-Triple, map_err-Triple, guard-Triple, weaken, Outcome-ok,
  Post-ok, with_fact, lift-fact, assume,
}

-- A field after a request that may name it: the trimmed text, none if that is empty.
abbrev pub asked : Option Text → Option Text → Option Text
asked none old = old
asked (some v) old = null_if_empty (trim_space v)

check_trimmed-value :
    (validate : Text → Checked (Unit {0})) (x : Text) (v : Option Text)
    → check_trimmed validate x ≡ ok v
    → v ≡ some x
unfolding check_trimmed
check_trimmed-value validate [] v h = ground arith
check_trimmed-value validate (c ∷ cs) v h = ground arith

edited-asked :
    (validate : Text → Checked (Unit {0})) (given v old : Option Text)
    → normalize_tri_state given validate ≡ ok v
    → edited (provided_value v).0 (provided_value v).1 old ≡ asked given old
unfolding normalize_tri_state edited provided_value
edited-asked validate none v old h = let nothing : v ≡ none = cc in rw nothing refl
edited-asked validate (some x) v old h = rw (check_trimmed-value validate (trim_space x) v h) refl

find-update_own :
    (uid : ℕ) (f : Profile → Profile) (ps : List Profile) (p : Profile)
    → ((p : Profile) → (f p).user_id ≡ p.user_id)
    → find (profile_of uid) ps ≡ some p
    → find (profile_of uid) (update (profile_of uid) f ps) ≡ some (f p)
unfolding find update profile_of
find-update_own uid f [] p ids h = ground arith
find-update_own uid f (x ∷ ps) p ids h = ground (arith, find-update_own uid f ps p ids, ids x)

q_account_by_id-rows :
    (uid : ℕ) (ts : Times) (t t' : Tables) (a : Account)
    → q_account_by_id uid ts t ≡ ok (a, t')
    → (t' ≡ t)
      × (find (user_is uid) t.users ≡ some a.user)
      × (find (profile_of uid) t.profiles ≡ some a.profile)
unfolding q_account_by_id joined
q_account_by_id-rows uid ts t t' a h = ground arith

-- An account that an edit has made of the one in the tables before, and what it left in them.
pub record EditedFrom (uid : ℕ) (input : UpdateProfileInput) (before : Tables) (a : Account)
    (t : Tables) : Type 0 where
  pub old : Profile
  pub found : find (profile_of uid) before.profiles ≡ some old
  pub user : find (user_is uid) before.users ≡ some a.user
  pub stored : find (profile_of uid) t.profiles ≡ some a.profile
  pub display_name : a.profile.display_name ≡ asked input.display_name old.display_name
  pub avatar_ref : a.profile.avatar_ref ≡ asked input.avatar_ref old.avatar_ref
  pub matches_played : a.profile.matches_played ≡ old.matches_played
  pub wins : a.profile.wins ≡ old.wins
  pub losses : a.profile.losses ≡ old.losses

-- The row after the UPDATE.
abbrev row_after : Option Text → Option Text → ℕ → Profile → Profile
row_after name avatar now p =
    edit (provided_value name).0 (provided_value name).1 (provided_value avatar).0
      (provided_value avatar).1 now p

record Changed (uid : ℕ) (name avatar : Option Text) (before t : Tables) : Type 0 where
  old : Profile
  found : find (profile_of uid) before.profiles ≡ some old
  now : ℕ
  row : find (profile_of uid) t.profiles ≡ some (row_after name avatar now old)
  users : t.users ≡ before.users

q_update_profile-Changed :
    (uid : ℕ) (name avatar : Option Text) (ts : Times) (t t' : Tables) (rows : ℕ)
    → q_update_profile uid
        (provided_value name).0
        (provided_value name).1
        (provided_value avatar).0
        (provided_value avatar).1
        ts
        t
      ≡ ok (rows, t')
    → (if rows == 0 then false else true) ≡ true
    → Changed uid name avatar t t'
unfolding q_update_profile
q_update_profile-Changed uid name avatar ts t t' rows h g =
    elim (Option-cases (find (profile_of uid) t.profiles)) [
      | inl missing ↦ absurd (ground arith)
      | inr (p, found) ↦
          let after : t' ≡ record t {
            profiles = update (profile_of uid) (row_after name avatar ts.now) t.profiles;
          } =
            ground arith in
          record {
            old = p;
            found = found;
            now = ts.now;
            row =
                subst
                  (λ b. find (profile_of uid) b.profiles ≡ some (row_after name avatar ts.now p))
                  (sym after)
                  (find-update_own uid (row_after name avatar ts.now) t.profiles p (λ p. refl)
                    found);
            users = ap (λ b. b.users) after;
          }
    ]

module _ (uid : ℕ) (T : Tables) where
  update-Changed :
      (name avatar : Option Text)
      → Triple
          (λ t. t ≡ T)
          (Repository.update_profile pool uid name avatar)
          (λ _ t. Changed uid name avatar T t)
  unfolding Repository.update_profile
  update-Changed name avatar =
      >>=-Triple
        (λ rows t. (if rows == 0 then false else true) ≡ true → Changed uid name avatar T t)
        (map_err-Triple _ (
          exec-Triple pool _ λ ts t h.
            Outcome-ok
              (λ rows t. (if rows == 0 then false else true) ≡ true → Changed uid name avatar T t) _
              λ rows t' e g.
                subst (λ b. Changed uid name avatar b t') h
                  (q_update_profile-Changed uid name avatar ts t t' rows e g)))
        λ rows. weaken (λ _ t h. h.0 h.1) (guard-Triple _ not_found)

  shown :
      (input : UpdateProfileInput) (name avatar : Option Text) (a : Account) (t : Tables)
      → normalize_tri_state input.display_name validate_display_name ≡ ok name
      → normalize_tri_state input.avatar_ref validate_avatar_ref ≡ ok avatar
      → Changed uid name avatar T t
      → find (user_is uid) t.users ≡ some a.user
      → find (profile_of uid) t.profiles ≡ some a.profile
      → EditedFrom uid input T a t
  shown input name avatar a t n v c user profile =
      let same : a.profile ≡ row_after name avatar c.now c.old = ground (arith, c.row) in
      record {
        old = c.old;
        found = c.found;
        user = subst (λ us. find (user_is uid) us ≡ some a.user) c.users user;
        stored = profile;
        display_name =
            ap (λ (p : Profile). p.display_name) same
            ∙ edited-asked validate_display_name input.display_name name c.old.display_name n;
        avatar_ref =
            ap (λ (p : Profile). p.avatar_ref) same
            ∙ edited-asked validate_avatar_ref input.avatar_ref avatar c.old.avatar_ref v;
        matches_played = ap (λ (p : Profile). p.matches_played) same;
        wins = ap (λ (p : Profile). p.wins) same;
        losses = ap (λ (p : Profile). p.losses) same;
      }

  update_profile_establishes :
      (input : UpdateProfileInput)
      → Triple (λ t. t ≡ T) (update_profile uid input) (λ a t. EditedFrom uid input T a t)
  unfolding update_profile account select_account
  update_profile_establishes input =
      >>=-Triple _ (lift-fact (normalize_tri_state input.display_name validate_display_name))
        λ name.
          >>=-Triple _ (lift-fact (normalize_tri_state input.avatar_ref validate_avatar_ref))
            λ avatar.
              >>=-Triple
                (λ _ t.
                  Changed uid name avatar T t
                  × ((normalize_tri_state input.display_name validate_display_name ≡ ok name)
                      × (normalize_tri_state input.avatar_ref validate_avatar_ref ≡ ok avatar)))
                (with_fact (λ t h. (h.0.1, h.1))
                  (assume (λ t h. h.0.0) (update-Changed name avatar)))
                λ _. query-Triple _ _ pool _ λ ts t h.
                  Outcome-ok (λ a t. EditedFrom uid input T a t) _
                    λ a t' e.
                      let (same, user, profile) = q_account_by_id-rows uid ts t t' a e in
                      subst (EditedFrom uid input T a) (sym same)
                        (shown input name avatar a t h.1.0 h.1.1 h.0 user profile)

-- An edit that succeeds has done what was asked and nothing else: each field that the request names
-- is its text without spaces around it, or none if that is empty, and each other field and the
-- counters are as before; the account that is returned is the user with the profile that is stored.
pub update_profile-EditedFrom :
    (uid : ℕ) (input : UpdateProfileInput) (w : World) (a : Account)
    → (update_profile uid input w).0 ≡ ok a
    → EditedFrom uid input w.tables a (update_profile uid input w).1.tables
update_profile-EditedFrom uid input w a h =
    Post-ok (EditedFrom uid input w.tables) (update_profile uid input w).0
      (update_profile uid input w).1 ((update_profile_establishes uid w.tables input).at w refl) h
