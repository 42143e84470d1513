-- ===== src/Rooms/Seating.antt =====
-- The invariant of the lobby across `seat_member` and the two ways to join.
use billiards_online.Base.{
  eq_of_some, subst, ℕ, ◌≡◌, ◌≢◌, refl, sym, ◌∙◌, true, false, Option, none, some, ◌⊎◌, inl, List,
  [], ◌∷◌, arith, ok, any, find,
}
use billiards_online.Rooms.Model.{
  Room, Member, is_open, room_full, seat_order, room_closed, already_member, wrong_join_path,
}
use billiards_online.Rooms.Statements.{
  room_is, in_room, one_row, new_member, q_insert_member, q_room, q_members_by_room,
}
use billiards_online.Rooms.Repository.{
  insert_member, select_room_for_update, select_members, scan_room,
}
use billiards_online.Rooms.Service.{first_free, sit, seat_member, join_in_tx}
use billiards_online.Rooms.Invariant.{
  Sound, HostSeated, HostedBut, Inv, seat_in, seat_fits, fits_room,
}
use billiards_online.Rooms.Sound.{insert_member-Sound}
use billiards_online.Rooms.Rows.{find-id}
use billiards_online.Schema.{Tables, has_user, is_member, seat_taken}
use billiards_online.Postgres.{Handle, Times}
use billiards_online.Postgres.Laws.{
  Triple, Outcome, >>=-Triple, map_err-Triple, exec-Triple, query-Triple, guard-Triple,
  raise-Triple, Outcome-ok, weaken,
}

first_free-seat_in :
    (seats : List (ℕ × ℕ)) (ms : List Member) {side slot : ℕ}
    → first_free seats ms ≡ some (side, slot)
    → seat_in side slot seats ≡ true
unfolding first_free any
first_free-seat_in [] ms h = cc
first_free-seat_in (seat ∷ seats) ms {side} {slot} h =
    ground (arith, first_free-seat_in seats ms {side = side} {slot = slot})

-- The room's host has a seat, or is the user who comes.
abbrev pub HostHere : ℕ → Room → ℕ → Tables → Type 0
HostHere rid r uid t = (is_member rid r.host_user_id t.members ≡ true) ⊎ (uid ≡ r.host_user_id)

-- A row for a user who sits where the host sits, or who is the host, leaves every room hosted.
HostSeated-cons :
    (m : Member) (t : Tables) (rid : ℕ) (r : Room)
    → (rid ≢ m.room_id → HostSeated rid r t)
    → (rid ≡ m.room_id → HostHere rid r m.user_id t)
    → HostSeated rid r (record t { members = m ∷ t.members })
unfolding is_member any in_room
HostSeated-cons m t rid r other same = ground arith

-- What lets a user into a room: its seats fit, and its host is there or comes now.
pub record Opening (t : Tables) (rid uid side slot : ℕ) : Type 0 where
  pub sound : Sound t
  pub elsewhere : HostedBut rid t
  pub here : (r : Room) → find (room_is rid) t.rooms ≡ some r → HostHere rid r uid t
  pub fit : seat_fits rid side slot t.rooms ≡ true

q_insert_member_ok :
    (rid uid side slot : ℕ) (ts : Times) (t t' : Tables) {u : Unit {0}}
    → q_insert_member rid uid side slot ts t ≡ ok (u, t')
    → (is_member rid uid t.members ≡ false)
      × (seat_taken rid side slot t.members ≡ false)
      × (has_user uid t.users ≡ true)
      × (t' ≡ record t { members = new_member rid uid side slot ts ∷ t.members })
unfolding q_insert_member
q_insert_member_ok rid uid side slot ts t t' h = ground arith

pub q_insert_member-Inv :
    (rid uid side slot : ℕ) (ts : Times) (t : Tables)
    → Opening t rid uid side slot
    → Outcome (λ _. Inv) (q_insert_member rid uid side slot ts t)
q_insert_member-Inv rid uid side slot ts t o =
    Outcome-ok (λ _. Inv) _
      λ u t' e.
        let (new, free, user, same) = q_insert_member_ok rid uid side slot ts t t' e in
        rw same (
          insert_member-Sound (new_member rid uid side slot ts) t o.sound new free user o.fit,
          λ r room found.
              HostSeated-cons (new_member rid uid side slot ts) t r room
                (λ ne. o.elsewhere r room ne found)
                (λ eq.
                  subst (λ x. HostHere x room uid t) (sym eq)
                    (o.here room (subst (λ x. find (room_is x) t.rooms ≡ some room) eq found))),
        )

pub insert_member-Triple :
    {P : Tables → Type 0} (db : Handle) (rid uid side slot : ℕ)
    → ((t : Tables) → P t → Opening t rid uid side slot)
    → Triple P (insert_member db rid uid side slot) (λ _. Inv)
unfolding insert_member
insert_member-Triple db rid uid side slot opens =
    map_err-Triple _
      (exec-Triple db _ λ ts t h. q_insert_member-Inv rid uid side slot ts t (opens t h))

-- The room as a query found it, with the invariant.
abbrev pub Found : Room → Tables → Type 0
Found room t = Inv t × (find (room_is room.id) t.rooms ≡ some room)

open_hosted :
    (t : Tables) (rid : ℕ) (room : Room)
    → is_open room.state ≡ true
    → HostSeated rid room t
    → is_member rid room.host_user_id t.members ≡ true
unfolding is_open
open_hosted t rid room o h = ground arith

Found-Opening :
    (room : Room) (uid side slot : ℕ) (t : Tables)
    → Found room t
    → is_open room.state ≡ true
    → seat_in side slot (seat_order room.mode) ≡ true
    → Opening t room.id uid side slot
unfolding seat_fits fits_room
Found-Opening room uid side slot t (inv, found) o fit = record {
  sound = inv.0;
  elsewhere = λ r x ne e. inv.1 r x e;
  here = λ r e.
      let same : some room ≡ some r = sym found ∙ e in
      inl (
        subst (λ (x : Room). is_member room.id x.host_user_id t.members ≡ true) (eq_of_some same)
          (open_hosted t room.id room o (inv.1 room.id room found)));
  fit = rw found fit;
}

sit-Triple :
    {P : Tables → Type 0} (db : Handle) (rid uid : ℕ) (seat : Option (ℕ × ℕ))
    → ((t : Tables) (side slot : ℕ) → seat ≡ some (side, slot) → P t → Opening t rid uid side slot)
    → Triple P (sit db rid uid seat) (λ _. Inv)
unfolding sit
sit-Triple db rid uid none opens = raise-Triple room_full
sit-Triple db rid uid (some (side, slot)) opens =
    insert_member-Triple db rid uid side slot (λ t h. opens t side slot refl h)

pub seat_member-Triple :
    (db : Handle) (room : Room) (uid : ℕ) → Triple (Found room) (seat_member db room uid) (λ _. Inv)
unfolding seat_member select_members q_members_by_room
seat_member-Triple db room uid = >>=-Triple _ (guard-Triple _ room_closed) λ _.
    >>=-Triple (λ _ t. Found room t × (is_open room.state ≡ true))
      (query-Triple _ _ db _ λ ts t h. h)
      λ ms. >>=-Triple _ (guard-Triple _ already_member) λ _.
        sit-Triple db room.id uid _ λ t side slot e h.
          Found-Opening room uid side slot t h.0.0 h.0.1
            (first_free-seat_in (seat_order room.mode) ms e)

pub one_row-ok :
    {A : Type 0} (o : Option A) (t t' : Tables) {a : A}
    → one_row o t ≡ ok (a, t')
    → (t' ≡ t) × (o ≡ some a)
one_row-ok none t t' h = cc
one_row-ok (some b) t t' h = (cc, cc)

-- The room with the id that was asked for.
abbrev pub FoundAt : ℕ → Room → Tables → Type 0
FoundAt rid room t = Inv t × (find (room_is rid) t.rooms ≡ some room)

pub select_room_for_update-FoundAt :
    (db : Handle) (rid : ℕ) → Triple Inv (select_room_for_update db rid) (FoundAt rid)
unfolding select_room_for_update scan_room q_room
select_room_for_update-FoundAt db rid = query-Triple _ _ db _ λ ts t inv.
    Outcome-ok (FoundAt rid) _ λ room t' e.
      let (same, found) = one_row-ok (find (room_is rid) t.rooms) t t' e in rw same (inv, found)

FoundAt-Found : (rid : ℕ) (room : Room) (t : Tables) → FoundAt rid room t → Found room t
FoundAt-Found rid room t (inv, found) =
    (inv, subst (λ x. find (room_is x) t.rooms ≡ some room) (sym (find-id rid t.rooms found)) found)

pub select_room_for_update-Found :
    (db : Handle) (rid : ℕ) → Triple Inv (select_room_for_update db rid) Found
select_room_for_update-Found db rid =
    weaken (FoundAt-Found rid) (select_room_for_update-FoundAt db rid)

pub join_in_tx-Triple : (rid uid : ℕ) (db : Handle) → Triple Inv (join_in_tx rid uid db) (λ _. Inv)
unfolding join_in_tx
join_in_tx-Triple rid uid db = >>=-Triple _ (select_room_for_update-Found db rid) λ room.
    >>=-Triple (λ _. Found room) (weaken (λ _ t h. h.0) (guard-Triple _ wrong_join_path))
      λ _. seat_member-Triple db room uid
