-- ===== src/Matches/Created.antt =====
-- What `CreateInTx` of internal/matches/service.go makes of its input.
use billiards_online.Base.{ℕ, ◌≡◌, ◌∙◌, sym, subst, true, pos, ltb_ℤ, ok, arith}
use billiards_online.Matches.Model.{Match, waiting, CreateInput, normalize}
use billiards_online.Matches.Service.{create_in_tx}
use billiards_online.Matches.Repository.{insert_match, to_match}
use billiards_online.Matches.Statements.{q_insert_match}
use billiards_online.Schema.{Tables, MatchRow}
use billiards_online.Postgres.{Handle, Times}
use billiards_online.Postgres.Laws.{
  Triple, >>=-Triple, query-Triple, weaken, plain-Triple, pure-establishes, Outcome-ok, with_fact,
  lift-fact,
}

-- What a creation makes of its input.
abbrev pub Made : CreateInput → Match → Type 0
Made input m =
    (m.state ≡ waiting)
    × (m.room_id ≡ input.room_id)
    × (m.mode ≡ input.mode)
    × (m.ranked ≡ input.ranked)
    × (m.shot_timer_seconds ≡ input.shot_timer_seconds)
    × (m.side_a ≡ input.side_a)
    × (m.side_b ≡ input.side_b)
    × (ltb_ℤ (pos 0) m.shot_timer_seconds ≡ true)

normalize-Made :
    (input normal : CreateInput)
    → normalize input ≡ ok normal
    → (normal.room_id ≡ input.room_id)
      × (normal.mode ≡ input.mode)
      × (normal.ranked ≡ input.ranked)
      × (normal.shot_timer_seconds ≡ input.shot_timer_seconds)
      × (normal.side_a ≡ input.side_a)
      × (normal.side_b ≡ input.side_b)
      × (ltb_ℤ (pos 0) normal.shot_timer_seconds ≡ true)
unfolding normalize
normalize-Made input normal h = ground arith

-- What the statement makes of it.
abbrev Inserted : CreateInput → MatchRow → Type 0
Inserted input row =
    (row.state ≡ waiting)
    × (row.room_id ≡ input.room_id)
    × (row.mode ≡ input.mode)
    × (row.ranked ≡ input.ranked)
    × (row.shot_timer_seconds ≡ input.shot_timer_seconds)

q_insert_match-Inserted :
    (id : ℕ) (input : CreateInput) (ts : Times) (t t' : Tables) (row : MatchRow)
    → q_insert_match id input.room_id input.mode input.ranked input.rules input.shot_timer_seconds
        ts t
      ≡ ok (row, t')
    → Inserted input row
unfolding q_insert_match
q_insert_match-Inserted id input ts t t' row h = ground arith

pub create_in_tx-Made :
    (db : Handle) (input : CreateInput)
    → Triple (λ _. Unit {0}) (create_in_tx db input) (λ m _. Made input m)
unfolding create_in_tx insert_match to_match
create_in_tx-Made db input =
    >>=-Triple (λ normal _. normalize input ≡ ok normal)
      (weaken (λ normal t h. h.1) (lift-fact (normalize input)))
      λ (normal : CreateInput).
        >>=-Triple (λ _ _. normalize input ≡ ok normal) (plain-Triple _ (λ t h. h))
          λ id.
            >>=-Triple (λ row _. Inserted normal row × (normalize input ≡ ok normal))
              (with_fact (λ t h. h)
                (query-Triple _ _ db _ λ ts t h.
                  Outcome-ok (λ row _. Inserted normal row) _
                    λ row t' e. q_insert_match-Inserted id normal ts t t' row e))
              λ row. >>=-Triple _ (plain-Triple _ (λ t h. h)) λ _.
                >>=-Triple _ (plain-Triple _ (λ t h. h)) λ _. pure-establishes _ λ t h.
                  let (state, room, mode, ranked, timer) = h.0 in
                  let (room', mode', ranked', timer', a, b, positive) =
                    normalize-Made input normal h.1 in
                  (
                    state,
                    room ∙ room',
                    mode ∙ mode',
                    ranked ∙ ranked',
                    timer ∙ timer',
                    a,
                    b,
                    subst (λ n. ltb_ℤ (pos 0) n ≡ true) (sym timer) positive,
                  )
