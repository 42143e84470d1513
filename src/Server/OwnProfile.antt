-- ===== src/Server/OwnProfile.antt =====
-- Whose profile a request to PATCH /api/v1/users/me edits: the router of
-- apps/server/cmd/server/main.go, with its bridge between auth and users, and the handler behind it.
use mathlib.Core.List.{Memᴰ}
use billiards_online.Base.{
  ℕ, ◌≡◌, refl, ap, ◌∙◌, ◌⊎◌, inl, inr, Bool, Option, some, Text, find, arith,
}
use billiards_online.Security.Crypto.{Crypto}
use billiards_online.Config.{Config}
use billiards_online.Users.Model.{UpdateProfileInput}
use billiards_online.Users.Statements.{profile_of}
use billiards_online.Users.Editing.{OthersAsBefore, update_me-OthersAsBefore}
use billiards_online.Auth.Model.{Identity}
use billiards_online.Auth.Service.{authenticate}
use billiards_online.Auth.Access.{Opens}
use billiards_online.Auth.Statements.{q_touch_session}
use billiards_online.Auth.Kept.{Steady, authenticate-Keeps}
use billiards_online.Rooms.Listing.{Codec}
use billiards_online.Server.Routes.{update_me, Reply, handle, carrying, serve}
use billiards_online.Server.Guarding.{serve-required}
use billiards_online.Schema.{Session, Tables}
use billiards_online.Postgres.{World}

abbrev SamePlayers : Tables → Tables → Type 0
SamePlayers before t = (t.users ≡ before.users) × (t.profiles ≡ before.profiles)

touch-Steady :
    (before : Tables) (sid expires : ℕ) → Steady (SamePlayers before) (q_touch_session sid expires)
unfolding q_touch_session
touch-Steady before sid expires ts t h = ground arith

authenticate-SamePlayers :
    (c : Crypto) (token : Text) (w : World) → SamePlayers w.tables (authenticate c token w).1.tables
authenticate-SamePlayers c token w =
    (authenticate-Keeps (touch-Steady w.tables) c token).at w (refl, refl)

OthersAsBefore-after :
    (uid : ℕ) (before middle t : Tables)
    → SamePlayers before middle
    → OthersAsBefore uid middle t
    → OthersAsBefore uid before t
OthersAsBefore-after uid before middle t same o = record {
  profiles = λ other apart. o.profiles other apart ∙ ap (find (profile_of other)) same.1;
  users = o.users ∙ same.0;
}

module _ (c : Crypto) (cfg : Config) (codec : Codec) (sql_lower : Text → Text) (allowed : Bool)
    (body : Option UpdateProfileInput) (cookie : Option Text) where
  handle-OthersAsBefore :
      (i : Identity) (w : World)
      → OthersAsBefore i.user_id w.tables
          (handle c cfg codec sql_lower allowed
            (update_me body)
            cookie
            (carrying (some i))
            w).1.tables
  unfolding handle
  handle-OthersAsBefore i w = update_me-OthersAsBefore i.user_id body w

  edited :
      (w : World) (token : Text) (i : Identity) (uid : ℕ)
      → i.user_id ≡ uid
      → (r : Reply × World)
      → r
        ≡ handle c cfg codec sql_lower allowed
            (update_me body)
            cookie
            (carrying (some i))
            (authenticate c token w).1
      → OthersAsBefore uid w.tables r.1.tables
  edited w token i uid e r runs = rw (← e) (
      rw runs (
        OthersAsBefore-after i.user_id w.tables (authenticate c token w).1.tables _
          (authenticate-SamePlayers c token w)
          (handle-OthersAsBefore i (authenticate c token w).1)))

  -- A request to edit one's profile changes no table, or it has the cookie of a live session, and
  -- then, whatever its body and whatever fails on the way, no account and nobody's profile but that
  -- of the session's user is another than before.
  pub serve-OthersAsBefore :
      (w : World)
      → ((serve c cfg codec sql_lower allowed (update_me body) cookie w).1.tables ≡ w.tables)
        ⊎ ((token : Text) × (cookie ≡ some token)
            × (s : Session) × Memᴰ s w.tables.sessions
            × Opens c token (w.env.clock w.tick) s
            × OthersAsBefore s.user_id w.tables
                (serve c cfg codec sql_lower allowed (update_me body) cookie w).1.tables)
  serve-OthersAsBefore w =
      elim (serve-required c cfg codec sql_lower allowed (update_me body) cookie w (λ h. h)) [
        | inl (_, same) ↦ inl same
        | inr (token, given, s, stored, opens, i, sid, uid, runs) ↦
            inr (token, given, s, stored, opens, edited w token i s.user_id uid _ runs)
      ]
