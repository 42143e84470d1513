-- ===== src/Matches/Turn.antt =====
-- internal/matches/turn.go: whose clock runs next. A side index and a player index are the
-- non-negative ints that the code keeps them at.
use billiards_online.Base.{ℕ, ◌+◌, ◌*◌, ◌/◌, ◌%◌, length, if◌then◌else◌, ◌==◌}
use billiards_online.Matches.Model.{Side, TurnRef}

unfoldable pub first_turn : TurnRef
first_turn = record { side = 0; player_idx = 0 }

-- `sides[side]`
unfoldable pub side_at : Side → Side → ℕ → Side
side_at a b i = if i == 0 then a else b

unfoldable pub next_turn : Side → Side → TurnRef → TurnRef
unfolding side_at
next_turn a b current =
    let n = current.player_idx * 2 + current.side + 1 in
    let side = n % 2 in
    record { side = side; player_idx = n / 2 % length (side_at a b side).players }
