-- ===== src/Schema.antt =====
-- The tables of migrations/ that the modelled code reads and writes, each a list of rows in no
-- particular order, and the constraints that an INSERT or an UPDATE of them can violate.
use billiards_online.Base.{
  ℕ, Bool, true, false, not, ◌&&◌, Option, none, some, List, Text, ℤ, pos, ltb_ℤ, leb, ◌==◌,
  text_eq, any,
}
use billiards_online.Users.Model.{User, Profile}
use billiards_online.Rooms.Model.{Room, Member, Visibility, public, private, visibility_valid}
use billiards_online.Rooms.Model as RoomModel
use billiards_online.Matches.Model as MatchModel

-- A row of `matches`; `turn_side` and `turn_player_idx` are nullable columns.
pub record MatchRow : Type 0 where
  pub id : ℕ
  pub room_id : ℕ
  pub state : MatchModel.State
  pub mode : MatchModel.Mode
  pub ranked : Bool
  pub rules : MatchModel.Ruleset
  pub shot_timer_seconds : ℤ
  pub turn_side : Option ℕ
  pub turn_player_idx : Option ℕ
  pub turn_started_at : Option ℕ
  pub started_at : Option ℕ
  pub completed_at : Option ℕ
  pub created_at : ℕ
  pub updated_at : ℕ

pub record MatchSide : Type 0 where
  pub match_id : ℕ
  pub side : ℕ

pub record Participant : Type 0 where
  pub match_id : ℕ
  pub user_id : ℕ
  pub side : ℕ
  pub slot : ℕ

pub record Credential : Type 0 where
  pub user_id : ℕ
  pub password_hash : Text

pub record Session : Type 0 where
  pub id : ℕ
  pub user_id : ℕ
  pub token_hash : List ℕ
  pub created_at : ℕ
  pub last_seen_at : ℕ
  pub expires_at : ℕ
  pub revoked_at : Option ℕ

pub record Tables : Type 0 where
  pub users : List User
  pub profiles : List Profile
  pub credentials : List Credential
  pub sessions : List Session
  pub rooms : List Room
  pub members : List Member
  pub matches : List MatchRow
  pub match_sides : List MatchSide
  pub participants : List Participant

-- The unique indexes, by the names that the driver reports.
pub data Constraint : Type 0 where
  users_pkey users_email_key users_handle_lower_key player_profiles_pkey : Constraint
  credentials_pkey sessions_pkey sessions_token_hash_key : Constraint
  rooms_pkey rooms_join_code_key room_members_pkey room_members_seat_key : Constraint
  matches_pkey match_sides_pkey match_participants_pkey match_participants_seat_key : Constraint

-- Why a statement failed: a constraint, or the connection, the server or a cancelled context.
pub data PgError : Type 0 where
  unique_violation : Constraint → PgError
  check_violation foreign_key_violation no_rows broken : PgError

-- rooms_join_code_matches_visibility
unfoldable pub code_matches_visibility : Visibility → Option Text → Bool
code_matches_visibility private (some code) = true
code_matches_visibility public none = true
code_matches_visibility _ _ = false

-- The CHECK constraints of `rooms`.
unfoldable pub room_checks : Room → Bool
unfolding code_matches_visibility
room_checks r =
    visibility_valid r.visibility
    && RoomModel.mode_valid r.mode
    && not (ltb_ℤ r.shot_timer_seconds (pos 15))
    && not (ltb_ℤ (pos 120) r.shot_timer_seconds)
    && not (ltb_ℤ r.wager_amount (pos 0))
    && code_matches_visibility r.visibility r.join_code

-- The CHECK constraints of `room_members`, and of `match_participants`.
unfoldable pub seat_checks : ℕ → ℕ → Bool
seat_checks side slot = leb side 1 && leb slot 1

unfoldable pub same_code : Option Text → Option Text → Bool
same_code (some c) (some d) = text_eq c d
same_code _ _ = false

unfoldable pub has_user : ℕ → List User → Bool
has_user uid = any (λ u. u.id == uid)

unfoldable pub has_room : ℕ → List Room → Bool
has_room rid = any (λ r. r.id == rid)

unfoldable pub is_member : ℕ → ℕ → List Member → Bool
is_member rid uid = any (λ m. (m.room_id == rid) && (m.user_id == uid))

unfoldable pub seat_taken : ℕ → ℕ → ℕ → List Member → Bool
seat_taken rid side slot = any (λ m. (m.room_id == rid) && ((m.side == side) && (m.slot == slot)))
