-- ===== src/Matches/Registry/Entries.antt =====
-- What an entry of the map says, in internal/matches/registry.go.
use mathlib.Core.List.{Memᴰ}
use billiards_online.Base.{ℕ, ◌<◌, ◌≡◌, ◌≢◌, sym, ap, ◌∙◌, none, some, arith}
use billiards_online.Matches.Registry.{
  Running, Registry, other_match, other_actor, start, exit, get, starts, exits, Reach, initially,
  later,
}
use billiards_online.Matches.Registry.Members.{
  Mem-select, select-Mem, neq-true, true-neq, find_Mem, find-none, find-some,
}

-- An entry is a running actor's, and running actors are told apart by their numbers.
pub record Live (r : Registry) : Type 0 where
  pub entries : (a : Running) → Memᴰ a r.actors → Memᴰ a r.running
  pub numbers : (a b : Running) → Memᴰ a r.running → Memᴰ b r.running → a.number ≡ b.number → a ≡ b
  pub below : (a : Running) → Memᴰ a r.running → a.number < r.started

start-Live : (id : ℕ) (r : Registry) → Live r → Live (start id r)
unfolding start
start-Live id r live = record { entries = entries; numbers = numbers; below = below }
  where
    entries : (a : Running) → Memᴰ a (start id r).actors → Memᴰ a (start id r).running
    entries a (Memᴰ.head e) = Memᴰ.head e
    entries a (Memᴰ.tail m) =
        Memᴰ.tail (live.entries a (Mem-select (other_match id) a r.actors m).0)

    fresh : (a : Running) → Memᴰ a r.running → a.number ≢ r.started
    fresh a m e = ground (arith, live.below a m)

    numbers :
        (a b : Running)
        → Memᴰ a (start id r).running
        → Memᴰ b (start id r).running
        → a.number ≡ b.number
        → a ≡ b
    numbers a b (Memᴰ.head e) (Memᴰ.head f) h = e ∙ sym f
    numbers a b (Memᴰ.head e) (Memᴰ.tail n) h =
        absurd (fresh b n (sym h ∙ ap (λ (x : Running). x.number) e))
    numbers a b (Memᴰ.tail m) (Memᴰ.head f) h =
        absurd (fresh a m (h ∙ ap (λ (x : Running). x.number) f))
    numbers a b (Memᴰ.tail m) (Memᴰ.tail n) h = live.numbers a b m n h

    below : (a : Running) → Memᴰ a (start id r).running → a.number < (start id r).started
    below a (Memᴰ.head e) = ground (arith, ap (λ (x : Running). x.number) e)
    below a (Memᴰ.tail m) = ground (arith, live.below a m)

exit-Live : (a : Running) (r : Registry) → Memᴰ a r.running → Live r → Live (exit a r)
unfolding exit other_match other_actor
exit-Live a r member live = record {
  entries = λ b m.
      let (old, apart) = Mem-select (other_match a.match_id) b r.actors m in
      select-Mem (other_actor a.number) b r.running (live.entries b old) (
        true-neq λ same.
          neq-true apart
            (ap (λ (x : Running). x.match_id) (live.numbers b a (live.entries b old) member same)));
  numbers = λ b c m n h.
      live.numbers b c (Mem-select (other_actor a.number) b r.running m).0
        (Mem-select (other_actor a.number) c r.running n).0 h;
  below = λ b m. live.below b (Mem-select (other_actor a.number) b r.running m).0;
}

reach-Live : {May : ℕ → Registry → Type 0} (r : Registry) → Reach May r → Live r
reach-Live r initially = record {
  entries = λ a m. elim m [ ];
  numbers = λ a b m n h. elim m [ ];
  below = λ a m. elim m [ ];
}
reach-Live r (later {r = q} reached (starts id may)) = start-Live id q (reach-Live q reached)
reach-Live r (later {r = q} reached (exits a m)) = exit-Live a q m (reach-Live q reached)

-- No stale entry: whatever actors were started and have ended, and however often a match was
-- started, an actor that Get finds has not ended, and runs the match that was asked for.
pub get-running :
    {May : ℕ → Registry → Type 0} (r : Registry) (id : ℕ) (a : Running)
    → Reach May r
    → get id r ≡ some a
    → Memᴰ a r.running × (a.match_id ≡ id)
unfolding get
get-running r id a reached found =
    let (m, e) = find_Mem id r.actors a found in ((reach-Live r reached).entries a m, e)

-- As the service calls it: a match is started when no entry of it is there.
abbrev pub Vacant : ℕ → Registry → Type 0
Vacant id r = get id r ≡ none

-- Every running actor has its entry, and no other actor runs its match.
pub record Complete (r : Registry) : Type 0 where
  pub listed : (a : Running) → Memᴰ a r.running → Memᴰ a r.actors
  pub single : (a b : Running) → Memᴰ a r.actors → Memᴰ b r.actors → a.match_id ≡ b.match_id → a ≡ b

start-Complete : (id : ℕ) (r : Registry) → Vacant id r → Complete r → Complete (start id r)
unfolding start get
start-Complete id r vacant full = record { listed = listed; single = single }
  where
    listed : (a : Running) → Memᴰ a (start id r).running → Memᴰ a (start id r).actors
    listed a (Memᴰ.head e) = Memᴰ.head e
    listed a (Memᴰ.tail m) = Memᴰ.tail (
        select-Mem (other_match id) a r.actors (full.listed a m)
          (true-neq (find-none id r.actors a vacant (full.listed a m))))

    single :
        (a b : Running)
        → Memᴰ a (start id r).actors
        → Memᴰ b (start id r).actors
        → a.match_id ≡ b.match_id
        → a ≡ b
    single a b (Memᴰ.head e) (Memᴰ.head f) h = e ∙ sym f
    single a b (Memᴰ.head e) (Memᴰ.tail n) h = absurd (
        neq-true (Mem-select (other_match id) b r.actors n).1
          (sym h ∙ ap (λ (x : Running). x.match_id) e))
    single a b (Memᴰ.tail m) (Memᴰ.head f) h = absurd (
        neq-true (Mem-select (other_match id) a r.actors m).1
          (h ∙ ap (λ (x : Running). x.match_id) f))
    single a b (Memᴰ.tail m) (Memᴰ.tail n) h =
        full.single a b (Mem-select (other_match id) a r.actors m).0
          (Mem-select (other_match id) b r.actors n).0 h

exit-Complete : (a : Running) (r : Registry) → Memᴰ a r.running → Complete r → Complete (exit a r)
unfolding exit other_match other_actor
exit-Complete a r member full = record {
  listed = λ b m.
      let (old, apart) = Mem-select (other_actor a.number) b r.running m in
      select-Mem (other_match a.match_id) b r.actors (full.listed b old) (
        true-neq λ same. neq-true apart (
          ap (λ (x : Running). x.number)
            (full.single b a (full.listed b old) (full.listed a member) same)));
  single = λ b c m n h.
      full.single b c (Mem-select (other_match a.match_id) b r.actors m).0
        (Mem-select (other_match a.match_id) c r.actors n).0 h;
}

reach-Complete : (r : Registry) → Reach Vacant r → Complete r
reach-Complete r initially = record { listed = λ a m. elim m [ ]; single = λ a b m n h. elim m [ ] }
reach-Complete r (later {r = q} reached (starts id may)) =
    start-Complete id q may (reach-Complete q reached)
reach-Complete r (later {r = q} reached (exits a m)) =
    exit-Complete a q m (reach-Complete q reached)

-- No actor is lost: as long as a match is started only when it has no entry, Get finds every actor
-- that has not ended, under the id of its match.
pub running-get :
    (r : Registry) (a : Running) → Reach Vacant r → Memᴰ a r.running → get a.match_id r ≡ some a
unfolding get
running-get r a reached m =
    let full = reach-Complete r reached in
    find-some r.actors a (full.listed a m) λ b n same. full.single b a n (full.listed a m) same
