-- ===== src/Rooms/Starting.antt =====
-- The start of a match: the invariant of the lobby, and the tables after an error.
use billiards_online.Base.{ℕ, ◌≡◌, refl, inl, inr, Option-cases, ok, err}
use billiards_online.Rooms.Model.{Error, match_error, internal}
use billiards_online.Rooms.Statements.{q_members_by_room}
use billiards_online.Rooms.Repository.{select_members, close_room}
use billiards_online.Rooms.Start.{start, start_in_tx, match_input}
use billiards_online.Rooms.Invariant.{Inv}
use billiards_online.Rooms.Seating.{select_room_for_update-FoundAt}
use billiards_online.Rooms.Leaving.{q_close_room-Inv}
use billiards_online.Matches.Model.{Match}
use billiards_online.Matches.Service.{start_actor}
use billiards_online.Matches.Frame.{IgnoresMatches, create_in_tx-Triple}
use billiards_online.Schema.{Tables}
use billiards_online.Postgres.{World, Handle, pool, in_tx, ◌>>=◌, ◌>>◌, pure}
use billiards_online.Postgres.Laws.{
  Triple, Keeps, >>=-Triple, >>=-Keeps, in_tx-Keeps, exec-Triple, query-Triple, map_err-Triple,
  guard-Keeps, lift-Keeps, Keeps-Triple, pure-Triple, pure-Keeps, weaken, in_tx-atomic, >>=-err,
}

Inv-frame : IgnoresMatches Inv
Inv-frame t ms ss ps inv = (
  record {
    rooms_distinct = inv.0.rooms_distinct;
    members_distinct = inv.0.members_distinct;
    fits = inv.0.fits;
    known = inv.0.known;
  },
  inv.1,
)

start_in_tx-Triple : (rid uid : ℕ) (db : Handle) → Triple Inv (start_in_tx rid uid db) (λ _. Inv)
unfolding start_in_tx select_members q_members_by_room close_room
start_in_tx-Triple rid uid db =
    >>=-Triple (λ _. Inv) (weaken (λ room t h. h.0) (select_room_for_update-FoundAt db rid))
      λ room.
        >>=-Triple (λ _. Inv) (Keeps-Triple (guard-Keeps _ _))
          λ _.
            >>=-Triple (λ _. Inv) (Keeps-Triple (guard-Keeps _ _))
              λ _.
                >>=-Triple (λ _. Inv) (query-Triple _ _ db _ λ ts t h. h)
                  λ ms.
                    >>=-Triple (λ _. Inv) (Keeps-Triple (guard-Keeps _ _))
                      λ _.
                        >>=-Triple (λ _. Inv) (Keeps-Triple (guard-Keeps _ _))
                          λ _.
                            >>=-Triple (λ _. Inv) (Keeps-Triple (lift-Keeps _))
                              λ sides.
                                >>=-Triple (λ _. Inv)
                                  (map_err-Triple match_error
                                    (create_in_tx-Triple Inv-frame db (match_input room sides)))
                                  λ m.
                                    >>=-Triple (λ _. Inv)
                                      (map_err-Triple _ (exec-Triple db _ (q_close_room-Inv rid)))
                                      λ _. pure-Triple m

start_actor-Keeps : {P : Tables → Type 0} (m : Match) → Keeps P (start_actor {E = Error} m)
unfolding start_actor
start_actor-Keeps m = record {
  at = λ w h. elim (Option-cases w.registry) [
    | inl e ↦ rw (e, start_actor) h
    | inr (ms, e) ↦ rw (e, start_actor) h
  ];
}

pub start-Keeps : (rid uid : ℕ) → Keeps Inv (start rid uid)
unfolding start
start-Keeps rid uid =
    >>=-Keeps (in_tx-Keeps _ _ _ λ db. start_in_tx-Triple rid uid db)
      λ m. >>=-Keeps (start_actor-Keeps m) λ _. pure-Keeps m

announce-total : (m : Match) (w : World) → ((start_actor {E = Error} m >> pure m) w).0 ≡ ok m
unfolding start_actor ◌>>=◌
announce-total m w = elim (Option-cases w.registry) [
  | inl e ↦ rw (e, start_actor) refl
  | inr (ms, e) ↦ rw (e, start_actor) refl
]

-- A start that returns an error, for whatever reason, leaves all tables as they were.
pub start_atomic :
    (rid uid : ℕ) (w : World) (e : Error)
    → (start rid uid w).0 ≡ err e
    → (start rid uid w).1.tables ≡ w.tables
unfolding start
start_atomic rid uid w e h =
    let (failed, same) =
      >>=-err (in_tx internal pool (start_in_tx rid uid)) (λ m. start_actor m >> pure m) w
        announce-total h in
    rw same (in_tx-atomic internal pool (start_in_tx rid uid) w e failed)
