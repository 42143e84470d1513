-- ===== src/Matches/Model.antt =====
-- internal/matches/model.go: matches, the legal state changes, and the checks on a new match.
-- A uuid is a number, `uuid.Nil` is 0; a nil pointer is `none`.
use billiards_online.Base.{
  ℕ, String, Bool, true, false, not, ◌||◌, Option, none, some, List, [], ◌∷◌, ℤ, pos, ltb_ℤ, ◌==◌,
  if◌then◌else◌, Result, ok, err, length, any,
}

pub data Mode : Type 0 where
  one_v_one two_v_two : Mode
  unknown : String → Mode

unfoldable pub players_per_side : Mode → ℕ
players_per_side two_v_two = 2
players_per_side one_v_one = 1
players_per_side (Mode.unknown s) = 1

unfoldable pub mode_valid : Mode → Bool
mode_valid one_v_one = true
mode_valid two_v_two = true
mode_valid (Mode.unknown s) = false

pub data State : Type 0 where
  waiting starting in_progress paused completed cancelled abandoned : State

unfoldable pub terminal : State → Bool
terminal completed = true
terminal cancelled = true
terminal abandoned = true
terminal _ = false

-- `legalTransitions`, where a missing key reads as false, and `Transition`'s test of it.
unfoldable pub legal : State → State → Bool
legal waiting starting = true
legal starting in_progress = true
legal starting cancelled = true
legal starting abandoned = true
legal in_progress completed = true
legal in_progress paused = true
legal in_progress cancelled = true
legal in_progress abandoned = true
legal paused in_progress = true
legal paused cancelled = true
legal paused abandoned = true
legal _ _ = false

pub record Side : Type 0 where
  pub id : ℕ
  pub players : List ℕ

pub record TurnRef : Type 0 where
  pub side : ℕ
  pub player_idx : ℕ

-- The text of a ruleset: empty, "8ball", or any other.
pub data Ruleset : Type 0 where
  empty eight_ball : Ruleset
  unknown : String → Ruleset

pub record Match : Type 0 where
  pub id : ℕ
  pub room_id : ℕ
  pub state : State
  pub mode : Mode
  pub ranked : Bool
  pub rules : Ruleset
  pub shot_timer_seconds : ℤ
  pub side_a : Side
  pub side_b : Side
  pub turn : Option TurnRef
  pub turn_started_at : Option ℕ
  pub started_at : Option ℕ
  pub completed_at : Option ℕ
  pub created_at : ℕ
  pub updated_at : ℕ

pub record CreateInput : Type 0 where
  pub room_id : ℕ
  pub mode : Mode
  pub ranked : Bool
  pub rules : Ruleset
  pub shot_timer_seconds : ℤ
  pub side_a : Side
  pub side_b : Side

-- The errors that this package names, and `internal` for any other, wrapped one.
pub data Error : Type 0 where
  not_found invalid_mode invalid_sides invalid_ruleset invalid_shot_time invalid_cursor internal :
      Error

abbrev pub Checked : Type 0 → Type 0
Checked = Result Error

unfoldable pub normalize_ruleset : Ruleset → Checked Ruleset
normalize_ruleset empty = ok eight_ball
normalize_ruleset eight_ball = ok eight_ball
normalize_ruleset (Ruleset.unknown s) = err invalid_ruleset

-- One side's players against those seen before; `none` is a nil or a repeated player.
unfoldable pub check_players : List ℕ → List ℕ → Option (List ℕ)
unfolding any
check_players seen [] = some seen
check_players seen (p ∷ ps) =
    let rest = check_players (p ∷ seen) ps in
    if (p == 0) || any (λ q. q == p) seen then none else rest

unfoldable pub check_side : ℕ → ℕ → List ℕ → Side → Option (List ℕ)
unfolding check_players
check_side want i seen side =
    if not (side.id == i)
    then none
    else if not (length side.players == want)
    then none
    else check_players seen side.players

-- The loop over the two sides.
unfoldable pub sides_valid : ℕ → Side → Side → Bool
unfolding check_side
sides_valid want a b = elim (check_side want 0 [] a) [
  | none ↦ false
  | some seen ↦ elim (check_side want 1 seen b) [ none ↦ false | some _ ↦ true ]
]

unfoldable pub normalize : CreateInput → Checked CreateInput
unfolding mode_valid normalize_ruleset players_per_side sides_valid
normalize input =
    if not (mode_valid input.mode) then err invalid_mode else elim (normalize_ruleset input.rules) [
      | err e ↦ err e
      | ok rules ↦
          if not (ltb_ℤ (pos 0) input.shot_timer_seconds)
          then err invalid_shot_time
          else if sides_valid (players_per_side input.mode) input.side_a input.side_b
          then ok (record input { rules = rules })
          else err invalid_sides
    ]

pub State-discrete : Discrete State
State-discrete = hlevel
