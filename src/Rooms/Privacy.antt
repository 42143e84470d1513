-- ===== src/Rooms/Privacy.antt =====
-- Who sees a private room: `Detail` of internal/rooms/service.go.
use billiards_online.Base.{
  ℕ, ◌≡◌, refl, sym, ◌∙◌, ap, subst, Bool, true, not, ◌||◌, ◌&&◌, List, [], ◌∷◌, arith, ◌==◌, any,
  select, any-sort, any-select, Result, ok, err,
}
use billiards_online.Users.Model.{User}
use billiards_online.Rooms.Model.{Room, Member, MemberView, Detail, Error, not_found}
use billiards_online.Rooms.Statements.{
  join_users, members_of, in_room, q_room, q_member_views_by_room,
}
use billiards_online.Rooms.Repository.{select_room, scan_room, select_member_views}
use billiards_online.Rooms.Service.{detail, views_have, is_private}
use billiards_online.Schema.{Tables, is_member}
use billiards_online.Postgres.{World, Times, pool, pure}
use billiards_online.Postgres.Laws.{
  Triple, Post, >>=-Triple, query-Triple, guard-Triple, weaken, Outcome-ok,
}

abbrev user_seat : ℕ → Member → Bool
user_seat uid m = m.user_id == uid

join_users-has :
    (uid : ℕ) (us : List User) (ms : List Member)
    → views_have uid (join_users us ms) ≡ true
    → any (user_seat uid) ms ≡ true
unfolding join_users views_have any
join_users-has uid us [] h = h
join_users-has uid us (m ∷ ms) h = ground (arith, join_users-has uid us ms)

any-both :
    (rid uid : ℕ) (ms : List Member)
    → any (λ m. in_room rid m && user_seat uid m) ms ≡ is_member rid uid ms
unfolding is_member any in_room
any-both rid uid [] = refl
any-both rid uid (m ∷ ms) = ground (arith, any-both rid uid ms)

members_of-has :
    (rid uid : ℕ) (ms : List Member)
    → any (user_seat uid) (members_of rid ms) ≡ is_member rid uid ms
unfolding members_of
members_of-has rid uid ms =
    any-sort (user_seat uid) _ (select (in_room rid) ms)
    ∙ any-select (user_seat uid) (in_room rid) ms
    ∙ any-both rid uid ms

q_room-same :
    (rid : ℕ) (ts : Times) (t t' : Tables) {room : Room} → q_room rid ts t ≡ ok (room, t') → t' ≡ t
unfolding q_room
q_room-same rid ts t t' e = ground arith

module _ (rid viewer : ℕ) (T : Tables) where
  abbrev Seen : Room → Type 0
  Seen room = is_private room.visibility ≡ true → is_member rid viewer T.members ≡ true

  views-Seen :
      (room : Room) (views : List MemberView)
      → views ≡ join_users T.users (members_of rid T.members)
      → (not (is_private room.visibility) || views_have viewer views) ≡ true
      → Seen room
  views-Seen room views e h p =
      sym (members_of-has rid viewer T.members)
      ∙ join_users-has viewer T.users (members_of rid T.members)
          (subst (λ v. views_have viewer v ≡ true) e (ground arith))

  shown-Triple :
      (room : Room) (views : List MemberView)
      → Triple {E = Error}
          (λ _. Seen room)
          (pure (record { room = room; members = views }))
          (λ (d : Detail) _. Seen d.room)
  unfolding pure
  shown-Triple room views = record { at = λ w h. h }

  detail-Triple : Triple (λ t. t ≡ T) (detail rid viewer) (λ d _. Seen d.room)
  unfolding detail select_room scan_room select_member_views q_member_views_by_room
  detail-Triple =
      >>=-Triple (λ (room : Room) t. t ≡ T)
        (query-Triple _ _ pool _
          λ ts t h. Outcome-ok (λ room t. t ≡ T) _ λ room t' e. q_room-same rid ts t t' e ∙ h)
        λ (room : Room).
          >>=-Triple (λ views t. views ≡ join_users T.users (members_of rid T.members))
            (query-Triple _ _ pool _
              λ ts t h. ap (λ t. join_users t.users (members_of rid t.members)) h)
            λ views.
              >>=-Triple (λ _ t. Seen room)
                (weaken (λ u t h. views-Seen room views h.0 h.1) (guard-Triple _ not_found))
                λ _. shown-Triple room views

ok-inj : {A : Type 0} {a b : A} → ◌≡◌ {A = Result Error A} (ok a) (ok b) → a ≡ b
ok-inj e = cc

ok-Post :
    {A : Type 0} (Q : A → Tables → Type 0) (r : Result Error A) (w : World) (a : A)
    → Post Q r w
    → r ≡ ok a
    → Q a w.tables
ok-Post Q (ok b) w a q e = subst (λ x. Q x w.tables) (ok-inj e) q
ok-Post Q (err x) w a q e = ground arith

-- A private room is shown to its members only: if the detail of a room is returned and the room
-- is private, the viewer is one of its members.
pub detail-private :
    (rid viewer : ℕ) (w : World) (d : Detail)
    → (detail rid viewer w).0 ≡ ok d
    → is_private d.room.visibility ≡ true
    → is_member rid viewer w.tables.members ≡ true
detail-private rid viewer w d h =
    ok-Post (λ d _. Seen rid viewer w.tables d.room) (detail rid viewer w).0 (detail rid viewer w).1
      d ((detail-Triple rid viewer w.tables).at w refl) h
