-- ===== src/Rooms/Leaving.antt =====
-- The invariant of the lobby across `leave`: the room may close or change hands.
use mathlib.Core.Option
use billiards_online.Base.{
  subst, ℕ, ◌≡◌, ◌≢◌, refl, sym, ◌∙◌, ap, Bool, true, false, ◌&&◌, Option, none, some, inl, inr,
  Bool-cases, List, [], ◌∷◌, arith, ltb, ◌==◌, if◌then◌else◌, ok, any, find, update, any-sort,
  any-select,
}
use billiards_online.Rooms.Model.{Room, Member, closed_state, not_member}
use billiards_online.Rooms.Statements.{
  room_is, in_room, members_of, q_members_by_room, q_delete_member, q_set_host, q_close_room,
}
use billiards_online.Rooms.Rows.{find-update, is_member-others, in_room-others}
use billiards_online.Rooms.Repository.{select_members, delete_member, set_host, close_room}
use billiards_online.Rooms.Service.{earliest, hand_over, leave_in_tx}
use billiards_online.Rooms.Invariant.{Sound, HostSeated, HostedBut, Inv}
use billiards_online.Rooms.Sound.{update_rooms-Sound, q_delete_member-Sound}
use billiards_online.Rooms.Seating.{select_room_for_update-FoundAt}
use billiards_online.Schema.{Tables, is_member}
use billiards_online.Postgres.{Handle, Times}
use billiards_online.Postgres.Laws.{
  Triple, Outcome, >>=-Triple, map_err-Triple, exec-Triple, query-Triple, guard-Triple, pure-Triple,
  Outcome-ok, weaken, assume,
}

-- The members of a room are those whose rows name it.
any-members_of :
    (p : Member → Bool) (rid : ℕ) (ms : List Member)
    → any p (members_of rid ms) ≡ any (λ m. in_room rid m && p m) ms
unfolding members_of
any-members_of p rid ms = any-sort p _ _ ∙ any-select p (in_room rid) ms

pub is_member-members_of :
    (rid uid : ℕ) (ms : List Member)
    → is_member rid uid ms ≡ any (λ m. m.user_id == uid) (members_of rid ms)
unfolding is_member in_room
is_member-members_of rid uid ms = sym (any-members_of (λ m. m.user_id == uid) rid ms)

any-and_true : (q : Member → Bool) (ms : List Member) → any (λ m. q m && true) ms ≡ any q ms
unfolding any
any-and_true q [] = refl
any-and_true q (m ∷ ms) = ground (arith, any-and_true q ms)

members_of_nil :
    (rid : ℕ) (ms : List Member) → members_of rid ms ≡ [] → any (in_room rid) ms ≡ false
unfolding any
members_of_nil rid ms e =
    sym (any-members_of (λ _. true) rid ms ∙ any-and_true (in_room rid) ms) ∙ ap (any (λ _. true)) e

earliest_among :
    (m : Member) (ms : List Member)
    → any (λ x. x.user_id == (earliest m ms).user_id) (m ∷ ms) ≡ true
unfolding earliest any
earliest_among m [] = ground arith
earliest_among m (x ∷ ms) = ground (arith, earliest_among m ms, earliest_among x ms)

-- The lobby after a user's row of room `rid` has gone, whose host has not been looked at yet.
record Left (rid uid : ℕ) (room : Room) (t : Tables) : Type 0 where
  sound : Sound t
  elsewhere : HostedBut rid t
  found : find (room_is rid) t.rooms ≡ some room
  stays : room.host_user_id ≢ uid → HostSeated rid room t

q_delete_member-Left :
    (rid uid : ℕ) (room : Room) (ts : Times) (t : Tables)
    → Inv t × (find (room_is rid) t.rooms ≡ some room)
    → Outcome (λ _. Left rid uid room) (q_delete_member rid uid ts t)
unfolding q_delete_member
q_delete_member-Left rid uid room ts t (inv, found) = record {
  sound = q_delete_member-Sound rid uid ts t inv.0;
  elsewhere = λ r x ne e. ground (
    arith,
    inv.1 r x e,
    is_member-others rid uid r x.host_user_id t.members,
    in_room-others rid uid r t.members,
  );
  found = found;
  stays = λ ne. ground (
    arith,
    inv.1 rid room found,
    is_member-others rid uid rid room.host_user_id t.members,
    in_room-others rid uid rid t.members,
  );
}

-- An UPDATE of the room itself, after which its host is seated, completes the invariant.
module _ (rid uid : ℕ) (room : Room) (t : Tables) (l : Left rid uid room t) (f : Room → Room)
    (keeps_id : (r : Room) → (f r).id ≡ r.id) (keeps_mode : (r : Room) → (f r).mode ≡ r.mode) where
  found_after :
      (r : ℕ) (x : Room) (b : Bool)
      → (r == rid) ≡ b
      → (if b then Option.map f (find (room_is r) t.rooms) else find (room_is r) t.rooms) ≡ some x
      → HostSeated rid (f room) t
      → HostSeated r x t
  found_after r x true h e seated = ground (arith, l.found)
  found_after r x false h e seated = l.elsewhere r x (ground arith) e

  completed : HostSeated rid (f room) t → Inv (record t { rooms = update (room_is rid) f t.rooms })
  completed seated = (
    update_rooms-Sound rid f keeps_id keeps_mode t l.sound,
    λ r x e.
        found_after r x (r == rid) refl (sym (find-update rid f keeps_id r t.rooms) ∙ e) seated,
  )

-- Where the host stays, nothing needs to be done.
unchanged :
    (rid uid : ℕ) (room : Room) (t : Tables) → Left rid uid room t → room.host_user_id ≢ uid → Inv t
unchanged rid uid room t l ne = (
  l.sound,
  λ r x e. elim (Bool-cases (r == rid)) [
    | inl h ↦ ground (arith, l.found, l.stays ne)
    | inr h ↦ l.elsewhere r x (ground arith) e
  ],
)

closed_hosted :
    (now rid : ℕ) (x : Room) (t : Tables) (b : Bool) (o : Option Room)
    → (if b
        then Option.map (λ (r : Room). record r { state = closed_state; updated_at = now }) o
        else o)
      ≡ some x
    → ((y : Room) → o ≡ some y → HostSeated rid y t)
    → HostSeated rid x t
closed_hosted now rid x t false o e h = h x e
closed_hosted now rid x t true none e h = cc
closed_hosted now rid x t true (some y) e h = ground (arith, h y refl)

-- A room that is closed with its members still there, as a match does it, stays hosted.
pub q_close_room-Inv :
    (rid : ℕ) (ts : Times) (t : Tables) → Inv t → Outcome (λ _. Inv) (q_close_room rid ts t)
unfolding q_close_room
q_close_room-Inv rid ts t inv =
    let close = λ (r : Room). record r { state = closed_state; updated_at = ts.now } in
    (
      update_rooms-Sound rid close (λ r. refl) (λ r. refl) t inv.0,
      λ r x e.
          closed_hosted ts.now r x t (r == rid) (find (room_is r) t.rooms)
            (sym (find-update rid close (λ r. refl) r t.rooms) ∙ e) (λ y f. inv.1 r y f),
    )

close_room-Triple :
    (db : Handle) (rid uid : ℕ) (room : Room)
    → Triple
        (λ t. Left rid uid room t × ([] ≡ members_of rid t.members))
        (close_room db rid)
        (λ _. Inv)
unfolding close_room q_close_room
close_room-Triple db rid uid room = map_err-Triple _ (
    exec-Triple db _ λ ts t h.
      completed rid uid room t h.0 (λ r. record r { state = closed_state; updated_at = ts.now })
        (λ r. refl) (λ r. refl) (inr (refl, members_of_nil rid t.members (sym h.1))))

q_set_host_ok :
    (rid uid : ℕ) (ts : Times) (t t' : Tables) {u : Unit {0}}
    → q_set_host rid uid ts t ≡ ok (u, t')
    → t' ≡ record t {
      rooms =
          update (room_is rid) (λ r. record r { host_user_id = uid; updated_at = ts.now }) t.rooms;
    }
unfolding q_set_host
q_set_host_ok rid uid ts t t' h = ground arith

set_host-Triple :
    (db : Handle) (rid uid next : ℕ) (room : Room)
    → Triple
        (λ t. Left rid uid room t × (is_member rid next t.members ≡ true))
        (set_host db rid next)
        (λ _. Inv)
unfolding set_host
set_host-Triple db rid uid next room = map_err-Triple _ (
    exec-Triple db _ λ ts t h.
      Outcome-ok (λ _. Inv) _
        λ u t' e. rw (q_set_host_ok rid next ts t t' e) (
          completed rid uid room t h.0 (λ r. record r { host_user_id = next; updated_at = ts.now })
            (λ r. refl) (λ r. refl) (inl h.1)))

hand_over-Triple :
    (db : Handle) (rid uid : ℕ) (room : Room) (ms : List Member)
    → Triple
        (λ t. Left rid uid room t × (ms ≡ members_of rid t.members))
        (hand_over db rid room.host_user_id uid ms)
        (λ _. Inv)
unfolding hand_over
hand_over-Triple db rid uid room [] = close_room-Triple db rid uid room
hand_over-Triple db rid uid room (m ∷ ms) = elim (Bool-cases (room.host_user_id == uid)) [
  | inl leaves ↦ rw leaves (
      assume
        (λ t h. (
          h.0,
          is_member-members_of rid (earliest m ms).user_id t.members
              ∙ subst (λ xs. any (λ x. x.user_id == (earliest m ms).user_id) xs ≡ true) h.1
                  (earliest_among m ms),
        ))
        (set_host-Triple db rid uid (earliest m ms).user_id room))
  | inr remains ↦
      rw remains (weaken (λ _ t h. unchanged rid uid room t h.0 (ground arith)) (pure-Triple tt))
]

pub leave_in_tx-Triple :
    (rid uid : ℕ) (db : Handle) → Triple Inv (leave_in_tx rid uid db) (λ _. Inv)
unfolding leave_in_tx delete_member select_members q_members_by_room
leave_in_tx-Triple rid uid db = >>=-Triple _ (select_room_for_update-FoundAt db rid) λ room.
    >>=-Triple (λ _. Left rid uid room)
      (>>=-Triple (λ _. Left rid uid room)
        (map_err-Triple _ (exec-Triple db _ (q_delete_member-Left rid uid room)))
        λ rows. pure-Triple (ltb 0 rows))
      λ deleted.
        >>=-Triple (λ _. Left rid uid room)
          (weaken (λ _ t h. h.0) (guard-Triple deleted not_member))
          λ _.
            >>=-Triple (λ ms t. Left rid uid room t × (ms ≡ members_of rid t.members))
              (query-Triple _ _ db _ λ ts t l. (l, refl)) λ ms. hand_over-Triple db rid uid room ms
