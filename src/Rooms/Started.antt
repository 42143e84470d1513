-- ===== src/Rooms/Started.antt =====
-- What it takes to start a match, and who plays where in it: `Start` of internal/rooms/service.go.
use billiards_online.Base.{
  ℕ, ◌≡◌, refl, ap, ◌∙◌, subst, true, not, pos, ltb_ℤ, some, List, [], ◌∷◌, All, ◌==◌, any, find,
  length, ok, arith,
}
use billiards_online.Rooms.Model.{
  Room, Member, Error, capacity, is_open, not_host, room_closed, room_not_full, not_all_ready,
  internal, match_error,
}
use billiards_online.Rooms.Statements.{room_is, members_of, q_room, q_members_by_room}
use billiards_online.Rooms.Repository.{select_room_for_update, select_members, scan_room}
use billiards_online.Rooms.Invariant.{MembersDistinct, Inv}
use billiards_online.Rooms.Rows.{find-id}
use billiards_online.Rooms.Start.{start, start_in_tx, build_match_sides, match_input, to_match_mode}
use billiards_online.Rooms.Seats.{members_of-Elsewhere}
use billiards_online.Matches.Created.{Made, create_in_tx-Made}
use billiards_online.Rooms.Sides.{SitsIn, build_match_sides-SitsIn}
use billiards_online.Matches.Model.{Match, Side, waiting}
use billiards_online.Schema.{Tables}
use billiards_online.Postgres.{World, Handle, Times, M, pool, ◌>>=◌, ◌>>◌, guard}
use billiards_online.Postgres.Laws.{
  Triple, >>=-Triple, in_tx-Triple, query-Triple, map_err-Triple, guard-Triple, weaken,
  plain-Triple, pure-establishes, Outcome-ok, Post-ok, with_fact, lift-fact, assume,
}

-- A room that may be started by a user, with the match that it has become.
pub record StartedFrom (rid uid : ℕ) (t : Tables) (m : Match) : Type 0 where
  pub room : Room
  pub found : find (room_is rid) t.rooms ≡ some room
  pub by_host : room.host_user_id ≡ uid
  pub was_open : is_open room.state ≡ true
  pub full : length (members_of rid t.members) ≡ capacity room.mode
  pub all_ready : All (λ (x : Member). x.ready ≡ true) (members_of rid t.members)
  pub mode : m.mode ≡ to_match_mode room.mode
  pub ranked : m.ranked ≡ room.ranked
  pub of_room : m.room_id ≡ rid
  pub waits : m.state ≡ waiting
  pub timer : m.shot_timer_seconds ≡ room.shot_timer_seconds
  pub timer_positive : ltb_ℤ (pos 0) m.shot_timer_seconds ≡ true
  pub seats : All (SitsIn (m.side_a, m.side_b)) (members_of rid t.members)

none-unready :
    (ms : List Member)
    → not (any (λ m. not m.ready) ms) ≡ true
    → All (λ (x : Member). x.ready ≡ true) ms
unfolding any
none-unready [] h = tt
none-unready (m ∷ ms) h = (ground arith, none-unready ms (ground arith))

q_room-found :
    (rid : ℕ) (ts : Times) (t t' : Tables) (room : Room)
    → q_room rid ts t ≡ ok (room, t')
    → (t' ≡ t) × (find (room_is rid) t.rooms ≡ some room)
unfolding q_room
q_room-found rid ts t t' room e = ground arith

module _ (rid uid : ℕ) (T : Tables) (d : MembersDistinct T.members) where
  abbrev Found : Room → Type 0
  Found room = find (room_is rid) T.rooms ≡ some room

  -- The room that the transaction has read and let through, and its host.
  abbrev Admitted : Room → Type 0
  Admitted room = Found room × ((room.host_user_id == uid) ≡ true) × (is_open room.state ≡ true)

  -- The members that it has let through, with their places.
  abbrev Placed : Room → List Member → Side × Side → Type 0
  Placed room ms sides =
      (ms ≡ members_of rid T.members)
      × ((length ms == capacity room.mode) ≡ true)
      × (not (any (λ m. not m.ready) ms) ≡ true)
      × (build_match_sides room.mode ms ≡ ok sides)

  started :
      (room : Room) (ms : List Member) (sides : Side × Side) (m : Match)
      → Admitted room
      → Placed room ms sides
      → Made (match_input room sides) m
      → StartedFrom rid uid T m
  started room ms (a, b) m (found, host, free) (read, full, ready, placed) made =
      let (state, from, mode, ranked, timer, on_a, on_b, positive) = made in
      record {
        room = room;
        found = found;
        by_host = ground arith;
        was_open = free;
        full = subst (λ l. length l ≡ capacity room.mode) read (ground arith);
        all_ready = subst (All (λ (x : Member). x.ready ≡ true)) read (none-unready ms ready);
        mode = mode;
        ranked = ranked;
        waits = state;
        timer = timer;
        timer_positive = positive;
        of_room = from ∙ find-id rid T.rooms found;
        seats =
            rw (on_a, on_b)
              (build_match_sides-SitsIn room.mode (members_of rid T.members) (a, b)
                (members_of-Elsewhere rid T.members d)
                (subst (λ l. build_match_sides room.mode l ≡ ok (a, b)) read placed));
      }

  admit-Triple :
      (db : Handle)
      → {B : Type 0} {R : B → Tables → Type 0} (f : Room → M Error B)
      → ((room : Room) → Triple (λ t. (t ≡ T) × Admitted room) (f room) R)
      → Triple
          (λ t. t ≡ T)
          (do
            room ← select_room_for_update db rid
            guard (room.host_user_id == uid) not_host
            guard (is_open room.state) room_closed
            f room)
          R
  unfolding select_room_for_update scan_room
  admit-Triple db f hf =
      >>=-Triple (λ room t. (t ≡ T) × Found room)
        (query-Triple _ _ db _ λ ts t h.
          Outcome-ok (λ room t. (t ≡ T) × Found room) _
            λ room t' e.
              let (same, found) = q_room-found rid ts t t' room e in
              (same ∙ h, subst (λ t. find (room_is rid) t.rooms ≡ some room) h found))
        λ room. >>=-Triple _ (guard-Triple _ not_host) λ _.
          >>=-Triple (λ _ t. (t ≡ T) × Admitted room)
            (weaken (λ _ t h. (h.0.0.0, (h.0.0.1, h.0.1, h.1))) (guard-Triple _ room_closed))
            λ _. hf room

  start_in_tx-StartedFrom :
      (db : Handle) → Triple (λ t. t ≡ T) (start_in_tx rid uid db) (λ m _. StartedFrom rid uid T m)
  unfolding start_in_tx select_members q_members_by_room
  start_in_tx-StartedFrom db = admit-Triple db _ λ room.
      >>=-Triple (λ ms t. (ms ≡ members_of rid T.members) × Admitted room)
        (with_fact (λ t h. h.1)
          (query-Triple _ _ db _ λ ts t h. ap (λ t. members_of rid t.members) h.0))
        λ ms. >>=-Triple _ (guard-Triple _ room_not_full) λ _.
          >>=-Triple _ (guard-Triple _ not_all_ready) λ _.
            >>=-Triple _ (lift-fact (build_match_sides room.mode ms)) λ (sides : Side × Side).
              >>=-Triple (λ m _. StartedFrom rid uid T m)
                (map_err-Triple match_error (
                  weaken
                    (λ m t h.
                      let (made, ((((read, ok_room), full), ready), placed)) = h in
                      started room ms sides m ok_room (read, full, ready, placed) made)
                    (with_fact (λ t h. h)
                      (assume (λ t h. tt) (create_in_tx-Made db (match_input room sides))))))
                λ m. >>=-Triple _ (plain-Triple _ (λ t h. h)) λ _. pure-establishes m λ t h. h

-- A match that `start` returns was started by the room's host, from an open room with as many
-- members as its mode takes, all of them ready; it is that room's match and waits, it has the
-- room's mode, ranking and shot timer, which is positive, and every member plays in the side and slot
-- that they sat in. The lobby's tables are supposed
-- to meet their invariant before the call.
pub start-StartedFrom :
    (rid uid : ℕ) (w : World) (m : Match)
    → Inv w.tables
    → (start rid uid w).0 ≡ ok m
    → StartedFrom rid uid w.tables m
unfolding start
start-StartedFrom rid uid w m inv h =
    let run : Triple (λ t. t ≡ w.tables) (start rid uid) (λ m _. StartedFrom rid uid w.tables m) =
      >>=-Triple (λ m _. StartedFrom rid uid w.tables m)
        (in_tx-Triple internal pool (start_in_tx rid uid)
          (start_in_tx-StartedFrom rid uid w.tables inv.0.members_distinct))
        λ m. >>=-Triple _ (plain-Triple _ (λ t h. h)) λ _. pure-establishes m λ t h. h in
    Post-ok (λ m _. StartedFrom rid uid w.tables m) _ _ (run.at w refl) h
