-- ===== src/Rooms/Model.antt =====
-- internal/rooms/model.go: rooms, their members, and the checks on a create request.
-- A uuid is a number, and a time a number of clock ticks. The two text enums have a constructor
-- for any text but their constants.
use billiards_online.Base.{
  ℕ, ◌*◌, String, Bool, true, false, not, ◌||◌, Option, none, some, List, [], ◌∷◌, Text, ℤ, pos,
  ltb_ℤ, if◌then◌else◌, Result, ok, err,
}
use billiards_online.Matches.Model as MatchModel

pub data Visibility : Type 0 where
  public private : Visibility
  unknown : String → Visibility

pub data Mode : Type 0 where
  one_v_one two_v_two : Mode
  unknown : String → Mode

unfoldable pub players_per_side : Mode → ℕ
players_per_side two_v_two = 2
players_per_side one_v_one = 1
players_per_side (Mode.unknown s) = 1

unfoldable pub capacity : Mode → ℕ
unfolding players_per_side
capacity m = 2 * players_per_side m

-- A seat is a side and a slot on it.
unfoldable pub seat_order : Mode → List (ℕ × ℕ)
seat_order two_v_two = (0, 0) ∷ (1, 0) ∷ (0, 1) ∷ (1, 1) ∷ []
seat_order one_v_one = (0, 0) ∷ (1, 0) ∷ []
seat_order (Mode.unknown s) = (0, 0) ∷ (1, 0) ∷ []

pub data State : Type 0 where
  open_state closed_state : State

unfoldable pub is_open : State → Bool
is_open open_state = true
is_open closed_state = false

-- The column `ruleset` always holds its default, '8ball', which is left out.
pub record Room : Type 0 where
  pub id : ℕ
  pub visibility : Visibility
  pub mode : Mode
  pub ranked : Bool
  pub shot_timer_seconds : ℤ
  pub wager_amount : ℤ
  pub spectators_allowed : Bool
  pub state : State
  pub host_user_id : ℕ
  pub join_code : Option Text
  pub created_at : ℕ
  pub updated_at : ℕ

pub record Member : Type 0 where
  pub room_id : ℕ
  pub user_id : ℕ
  pub side : ℕ
  pub slot : ℕ
  pub ready : Bool
  pub joined_at : ℕ

pub record MemberView : Type 0 where
  pub user_id : ℕ
  pub handle : Text
  pub side : ℕ
  pub slot : ℕ
  pub ready : Bool
  pub joined_at : ℕ

pub record Detail : Type 0 where
  pub room : Room
  pub members : List MemberView

pub record Summary : Type 0 where
  pub id : ℕ
  pub mode : Mode
  pub ranked : Bool
  pub shot_timer_seconds : ℤ
  pub wager_amount : ℤ
  pub spectators_allowed : Bool
  pub member_count : ℕ
  pub capacity : ℕ
  pub created_at : ℕ

-- A nil pointer is `none`.
pub record CreateInput : Type 0 where
  pub visibility : Visibility
  pub mode : Mode
  pub ranked : Bool
  pub shot_timer_seconds : Option ℤ
  pub wager_amount : Option ℤ
  pub spectators_allowed : Option Bool

abbrev pub default_shot_timer_seconds : ℤ
default_shot_timer_seconds = pos 30

abbrev pub min_shot_timer_seconds : ℤ
min_shot_timer_seconds = pos 15

abbrev pub max_shot_timer_seconds : ℤ
max_shot_timer_seconds = pos 120

abbrev pub default_spectators_allowed : Bool
default_spectators_allowed = true

abbrev pub join_code_length : ℕ
join_code_length = 8

abbrev pub default_page_size : ℕ
default_page_size = 20

abbrev pub max_page_size : ℕ
max_page_size = 50

unfoldable pub visibility_valid : Visibility → Bool
visibility_valid public = true
visibility_valid private = true
visibility_valid (Visibility.unknown s) = false

unfoldable pub mode_valid : Mode → Bool
mode_valid one_v_one = true
mode_valid two_v_two = true
mode_valid (Mode.unknown s) = false

-- The errors that this package names; those of package matches, passed on; and `internal` for
-- any other, wrapped one.
pub data Error : Type 0 where
  not_found room_closed room_full already_member not_member : Error
  invalid_visibility invalid_mode invalid_shot_timer invalid_wager : Error
  invalid_join_code wrong_join_path not_host room_not_full not_all_ready : Error
  join_code_collision invalid_cursor internal : Error
  match_error : MatchModel.Error → Error

-- A create request with every default filled in.
pub record NormalInput : Type 0 where
  pub visibility : Visibility
  pub mode : Mode
  pub ranked : Bool
  pub shot_timer_seconds : ℤ
  pub wager_amount : ℤ
  pub spectators_allowed : Bool

abbrev pub Checked : Type 0 → Type 0
Checked = Result Error

unfoldable pub normalize_shot_timer : Option ℤ → Checked ℤ
normalize_shot_timer none = ok default_shot_timer_seconds
normalize_shot_timer (some n) =
    if ltb_ℤ n min_shot_timer_seconds || ltb_ℤ max_shot_timer_seconds n
    then err invalid_shot_timer
    else ok n

unfoldable pub normalize_wager : Option ℤ → Checked ℤ
normalize_wager none = ok (pos 0)
normalize_wager (some n) = if ltb_ℤ n (pos 0) then err invalid_wager else ok n

unfoldable pub normalize_spectators : Option Bool → Bool
normalize_spectators none = default_spectators_allowed
normalize_spectators (some b) = b

infixl 5 ◌>>=◌
abbrev ◌>>=◌ : {A B : Type 0} → Checked A → (A → Checked B) → Checked B
ok a >>= f = f a
err e >>= f = err e

unfoldable pub normalize : CreateInput → Checked NormalInput
unfolding visibility_valid mode_valid normalize_shot_timer normalize_wager normalize_spectators
normalize input =
    if not (visibility_valid input.visibility)
    then err invalid_visibility
    else if not (mode_valid input.mode)
    then err invalid_mode
    else do
      timer ← normalize_shot_timer input.shot_timer_seconds
      wager ← normalize_wager input.wager_amount
      ok (record {
        visibility = input.visibility;
        mode = input.mode;
        ranked = input.ranked;
        shot_timer_seconds = timer;
        wager_amount = wager;
        spectators_allowed = normalize_spectators input.spectators_allowed;
      })
