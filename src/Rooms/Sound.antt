-- ===== src/Rooms/Sound.antt =====
-- The structural part of the invariant across each statement of the lobby.
use mathlib.Core.Option
use billiards_online.Base.{
  ℕ, ◌≡◌, refl, sym, ◌∙◌, Bool, true, false, Option, none, some, List, [], ◌∷◌, arith, ◌==◌,
  if◌then◌else◌, any, find, select, update,
}
use billiards_online.Rooms.Model.{Room, Member}
use billiards_online.Rooms.Statements.{room_is}
use billiards_online.Rooms.Rows.{
  find-update, has_room-update, others, is_member-others, seat_taken-others, marked,
  is_member-marked, seat_taken-marked,
}
use billiards_online.Rooms.Invariant.{RoomsDistinct, MembersDistinct, seat_fits, fits_room, Sound}
use billiards_online.Users.Model.{User}
use billiards_online.Schema.{Tables, has_user, is_member, seat_taken}
use billiards_online.Postgres.{Times}

module _ (x : ℕ) (f : Room → Room) (keeps_id : (r : Room) → (f r).id ≡ r.id)
    (keeps_mode : (r : Room) → (f r).mode ≡ r.mode) where
  RoomsDistinct-update :
      (rs : List Room) → RoomsDistinct rs → RoomsDistinct (update (room_is x) f rs)
  unfolding update room_is
  RoomsDistinct-update [] h = tt
  RoomsDistinct-update (r ∷ rs) h =
      ground (arith, keeps_id r, has_room-update x f keeps_id r.id rs, RoomsDistinct-update rs h.1)

  fits_room-map :
      (side slot : ℕ) (b : Bool) (o : Option Room)
      → fits_room side slot (if b then Option.map f o else o) ≡ fits_room side slot o
  unfolding fits_room
  fits_room-map side slot false o = refl
  fits_room-map side slot true none = refl
  fits_room-map side slot true (some r) = rw (keeps_mode r)

  seat_fits-update :
      (rid side slot : ℕ) (rs : List Room)
      → seat_fits rid side slot (update (room_is x) f rs) ≡ seat_fits rid side slot rs
  unfolding seat_fits
  seat_fits-update rid side slot rs =
      rw (find-update x f keeps_id rid rs)
        (fits_room-map side slot (rid == x) (find (room_is rid) rs))

  pub update_rooms-Sound :
      (t : Tables) → Sound t → Sound (record t { rooms = update (room_is x) f t.rooms })
  update_rooms-Sound t s = record {
    rooms_distinct = RoomsDistinct-update t.rooms s.rooms_distinct;
    members_distinct = s.members_distinct;
    fits = λ rid side slot h. seat_fits-update rid side slot t.rooms ∙ s.fits rid side slot h;
    known = s.known;
  }

MembersDistinct-others :
    (rid uid : ℕ) (ms : List Member) → MembersDistinct ms → MembersDistinct (others rid uid ms)
unfolding select
MembersDistinct-others rid uid [] h = tt
MembersDistinct-others rid uid (m ∷ ms) h = ground (
  arith,
  MembersDistinct-others rid uid ms h.2,
  is_member-others rid uid m.room_id m.user_id ms,
  seat_taken-others rid uid m.room_id m.side m.slot ms,
)

pub q_delete_member-Sound :
    (rid uid : ℕ) (ts : Times) (t : Tables)
    → Sound t
    → Sound (record t { members = others rid uid t.members })
q_delete_member-Sound rid uid ts t s = record {
  rooms_distinct = s.rooms_distinct;
  members_distinct = MembersDistinct-others rid uid t.members s.members_distinct;
  fits = λ r side slot h. s.fits r side slot (seat_taken-others rid uid r side slot t.members h);
  known = λ r u h. ground (arith, s.known r u, is_member-others rid uid r u t.members);
}

MembersDistinct-marked :
    (rid uid : ℕ) (b : Bool) (ms : List Member)
    → MembersDistinct ms
    → MembersDistinct (marked rid uid b ms)
unfolding update
MembersDistinct-marked rid uid b [] h = tt
MembersDistinct-marked rid uid b (m ∷ ms) h = ground (
  arith,
  MembersDistinct-marked rid uid b ms h.2,
  is_member-marked rid uid b m.room_id m.user_id ms,
  seat_taken-marked rid uid b m.room_id m.side m.slot ms,
)

pub marked-Sound :
    (rid uid : ℕ) (b : Bool) (t : Tables)
    → Sound t
    → Sound (record t { members = marked rid uid b t.members })
marked-Sound rid uid b t s = record {
  rooms_distinct = s.rooms_distinct;
  members_distinct = MembersDistinct-marked rid uid b t.members s.members_distinct;
  fits = λ r side slot h.
      s.fits r side slot (sym (seat_taken-marked rid uid b r side slot t.members) ∙ h);
  known = λ r u h. s.known r u (sym (is_member-marked rid uid b r u t.members) ∙ h);
}

module _ (m : Member) where
  seat_taken-cons :
      (rid side slot : ℕ) (ms : List Member) (rooms : List Room)
      → seat_fits m.room_id m.side m.slot rooms ≡ true
      → (seat_taken rid side slot ms ≡ true → seat_fits rid side slot rooms ≡ true)
      → seat_taken rid side slot (m ∷ ms) ≡ true
      → seat_fits rid side slot rooms ≡ true
  unfolding seat_taken any
  seat_taken-cons rid side slot ms rooms fit old h = ground arith

  is_member-cons :
      (rid uid : ℕ) (ms : List Member) (users : List User)
      → has_user m.user_id users ≡ true
      → (is_member rid uid ms ≡ true → has_user uid users ≡ true)
      → is_member rid uid (m ∷ ms) ≡ true
      → has_user uid users ≡ true
  unfolding is_member any
  is_member-cons rid uid ms users user old h = ground arith

-- A new row is checked against the indexes; that its seat fits is the caller's part.
pub insert_member-Sound :
    (m : Member) (t : Tables)
    → Sound t
    → is_member m.room_id m.user_id t.members ≡ false
    → seat_taken m.room_id m.side m.slot t.members ≡ false
    → has_user m.user_id t.users ≡ true
    → seat_fits m.room_id m.side m.slot t.rooms ≡ true
    → Sound (record t { members = m ∷ t.members })
insert_member-Sound m t s new free user fit = record {
  rooms_distinct = s.rooms_distinct;
  members_distinct = (new, free, s.members_distinct);
  fits =
      λ rid side slot. seat_taken-cons m rid side slot t.members t.rooms fit (s.fits rid side slot);
  known = λ rid uid. is_member-cons m rid uid t.members t.users user (s.known rid uid);
}
