-- ===== src/Matches/Frame.antt =====
-- Which tables the creation of a match touches: internal/matches/repository.go and service.go.
use billiards_online.Base.{ℕ, ◌+◌, ◌≡◌, Bool, List, [], ◌∷◌, ℤ, arith, ok}
use billiards_online.Matches.Model.{Side, CreateInput, Mode, Ruleset}
use billiards_online.Matches.Statements.{q_insert_match, q_insert_side, q_insert_participant}
use billiards_online.Matches.Repository.{insert_participants, insert_side, insert_match}
use billiards_online.Matches.Service.{create_in_tx}
use billiards_online.Schema.{Tables, MatchRow, MatchSide, Participant}
use billiards_online.Postgres.{Handle, Times}
use billiards_online.Postgres.Laws.{
  Triple, Outcome, >>=-Triple, map_err-Triple, exec-Triple, query-Triple, lift-Keeps,
  new_uuid-Keeps, Keeps-Triple, pure-Triple, Outcome-ok,
}

-- A fact that does not speak of the matches.
abbrev pub IgnoresMatches : (Tables → Type 0) → Type 0
IgnoresMatches P =
    (t : Tables) (ms : List MatchRow) (ss : List MatchSide) (ps : List Participant)
    → P t
    → P (record t { matches = ms; match_sides = ss; participants = ps })

inserted :
    (id room : ℕ) (mode : Mode) (ranked : Bool) (rules : Ruleset) (timer : ℤ) (ts : Times)
    (t t' : Tables) (row : MatchRow)
    → q_insert_match id room mode ranked rules timer ts t ≡ ok (row, t')
    → t' ≡ record t { matches = row ∷ t.matches }
unfolding q_insert_match
inserted id room mode ranked rules timer ts t t' row h = ground arith

module _ {P : Tables → Type 0} (frame : IgnoresMatches P) where
  q_insert_participant-P :
      (mid uid side slot : ℕ) (ts : Times) (t : Tables)
      → P t
      → Outcome (λ _. P) (q_insert_participant mid uid side slot ts t)
  unfolding q_insert_participant
  q_insert_participant-P mid uid side slot ts t h = ground (
    arith,
    frame t t.matches t.match_sides
        (record { match_id = mid; user_id = uid; side = side; slot = slot } ∷ t.participants) h,
  )

  insert_participants-Triple :
      (db : Handle) (mid side slot : ℕ) (uids : List ℕ)
      → Triple P (insert_participants db mid side slot uids) (λ _. P)
  unfolding insert_participants
  insert_participants-Triple db mid side slot [] = pure-Triple tt
  insert_participants-Triple db mid side slot (uid ∷ uids) =
      >>=-Triple (λ _. P)
        (map_err-Triple _ (exec-Triple db _ (q_insert_participant-P mid uid side slot)))
        λ _. insert_participants-Triple db mid side (slot + 1) uids

  q_insert_side-P :
      (mid side : ℕ) (ts : Times) (t : Tables)
      → P t
      → Outcome (λ _. P) (q_insert_side mid side ts t)
  unfolding q_insert_side
  q_insert_side-P mid side ts t h = ground (
    arith,
    frame t t.matches (record { match_id = mid; side = side } ∷ t.match_sides) t.participants h,
  )

  insert_side-Triple :
      (db : Handle) (mid : ℕ) (side : Side) → Triple P (insert_side db mid side) (λ _. P)
  unfolding insert_side
  insert_side-Triple db mid side =
      >>=-Triple (λ _. P) (map_err-Triple _ (exec-Triple db _ (q_insert_side-P mid side.id)))
        λ _. insert_participants-Triple db mid side.id 0 side.players

  q_insert_match-P :
      (id room : ℕ) (mode : Mode) (ranked : Bool) (rules : Ruleset) (timer : ℤ) (ts : Times)
      (t : Tables)
      → P t
      → Outcome (λ _. P) (q_insert_match id room mode ranked rules timer ts t)
  q_insert_match-P id room mode ranked rules timer ts t h =
      Outcome-ok (λ _. P) _
        λ row t' e.
          rw (inserted id room mode ranked rules timer ts t t' row e)
            (frame t (row ∷ t.matches) t.match_sides t.participants h)

  pub create_in_tx-Triple :
      (db : Handle) (input : CreateInput) → Triple P (create_in_tx db input) (λ _. P)
  unfolding create_in_tx insert_match
  create_in_tx-Triple db input =
      >>=-Triple (λ _. P) (Keeps-Triple (lift-Keeps _))
        λ normal.
          >>=-Triple (λ _. P) (Keeps-Triple (new_uuid-Keeps _))
            λ id.
              >>=-Triple (λ _. P)
                (query-Triple _ _ db _ (
                  q_insert_match-P id normal.room_id normal.mode normal.ranked normal.rules
                    normal.shot_timer_seconds))
                λ row.
                  >>=-Triple (λ _. P) (insert_side-Triple db id normal.side_a)
                    λ _.
                      >>=-Triple (λ _. P) (insert_side-Triple db id normal.side_b)
                        λ _. pure-Triple _
