-- ===== src/Matches/Listing/Played.antt =====
-- Which matches `ListForUser` of internal/matches/service.go returns.
use billiards_online.Base.{
  length-take, All-take, All-select, All-sort, ℕ, ◌+◌, ◌≤◌, ◌≡◌, refl, sym, ap, ◌∙◌, Bool, true,
  ◌&&◌, Option, List, [], ◌∷◌, All, Text, ℤ, pos, negsuc, arith, length, Bool-cases, inl, inr, ok,
  ltb,
}
use billiards_online.Rooms.Listing.{Codec, Cursor}
use billiards_online.Matches.Model.{Match}
use billiards_online.Matches.Repository.{to_match, add_player, add_players, select_participants}
use billiards_online.Matches.Statements.{q_participants_by_match}
use billiards_online.Matches.Listing.{
  took_part, newer, q_matches_by_user, with_players, select_matches_by_user, page_size, page,
  max_page_size, list_for_user,
}
use billiards_online.Schema.{Tables, MatchRow, Participant}
use billiards_online.Postgres.{World, Handle, Times, pool}
use billiards_online.Postgres.Laws.{
  Triple, Outcome, >>=-Triple, query-Triple, Keeps-Triple, lift-Keeps, pure-establishes, Post-ok,
}

add_players-id : (m : Match) (ps : List Participant) → (add_players m ps).id ≡ m.id
unfolding add_players add_player
add_players-id m [] = refl
add_players-id m (p ∷ ps) = add_players-id (add_player m p) ps ∙ added
  where
    added : (add_player m p).id ≡ m.id
    added = ground arith

module _ (uid : ℕ) (ps : List Participant) where
  abbrev Same : Tables → Type 0
  Same t = t.participants ≡ ps

  abbrev pub Played : Match → Type 0
  Played m = took_part uid ps m.id ≡ true

  abbrev PlayedRow : MatchRow → Type 0
  PlayedRow r = took_part uid ps r.id ≡ true

  q_matches_by_user-Played :
      (cursor : Option Cursor) (limit : ℕ) (ts : Times) (t : Tables)
      → Same t
      → Outcome (λ rows t. Same t × All PlayedRow rows) (q_matches_by_user uid cursor limit ts t)
  unfolding q_matches_by_user
  q_matches_by_user-Played cursor limit ts t same = (
    same,
    All-take PlayedRow limit _ (
        All-sort PlayedRow newer _ (
          All-select PlayedRow _ t.matches
            λ r kept. ap (λ qs. took_part uid qs r.id) (sym same) ∙ both _ _ kept)),
  )
    where
      both : (a b : Bool) → (a && b) ≡ true → a ≡ true
      both a b h = ground arith

  with_players-Played :
      (db : Handle) (rs : List MatchRow)
      → All PlayedRow rs
      → Triple Same (with_players db rs) (λ items t. Same t × All Played items)
  unfolding with_players select_participants q_participants_by_match
  with_players-Played db [] h = pure-establishes [] λ t same. (same, tt)
  with_players-Played db (r ∷ rs) (p, h) =
      >>=-Triple (λ _. Same) (query-Triple _ _ db _ λ ts t same. same)
        λ qs.
          >>=-Triple (λ items t. Same t × All Played items) (with_players-Played db rs h)
            λ rest.
              pure-establishes _ λ t k.
                (k.0, (ap (λ i. took_part uid ps i) (add_players-id (to_match r) qs) ∙ p, k.1))

  select_matches_by_user-Played :
      (db : Handle) (cursor : Option Cursor) (limit : ℕ)
      → Triple Same
          (select_matches_by_user db uid cursor limit)
          (λ items t. Same t × All Played items)
  unfolding select_matches_by_user
  select_matches_by_user-Played db cursor limit =
      >>=-Triple (λ rows t. Same t × All PlayedRow rows)
        (query-Triple _ _ db _ (q_matches_by_user-Played cursor limit)) λ rows. recall rows
    where
      recall :
          (rows : List MatchRow)
          → Triple
              (λ t. Same t × All PlayedRow rows)
              (with_players db rows)
              (λ items t. Same t × All Played items)
      recall rows = record { at = λ w k. (with_players-Played db rows k.1).at w k.0 }

  -- What is true of a page: it is short, and its matches are the player's.
  abbrev Sound : List Match × Text → Type 0
  Sound p = All Played p.0 × (length p.0 ≤ max_page_size)

  page-Sound :
      (codec : Codec) (n : ℕ) (fetched : List Match)
      → n ≤ max_page_size
      → All Played fetched
      → Sound (page codec n fetched)
  unfolding page
  page-Sound codec n fetched small h = elim (Bool-cases (ltb n (length fetched))) [
    | inl long ↦ rw long (All-take Played n fetched h, ground (arith, length-take n fetched))
    | inr short ↦ rw short (h, ground arith)
  ]

page_size-small : (limit : ℤ) → page_size limit ≤ max_page_size
unfolding page_size
page_size-small (pos n) = ground arith
page_size-small (negsuc n) = ground arith

list_for_user-Triple :
    (codec : Codec) (uid : ℕ) (ps : List Participant) (cursor : Text) (limit : ℤ)
    → Triple (Same uid ps) (list_for_user codec uid cursor limit) (λ p _. Sound uid ps p)
unfolding list_for_user
list_for_user-Triple codec uid ps cursor limit =
    >>=-Triple (λ _. Same uid ps) (Keeps-Triple (lift-Keeps _))
      λ c.
        >>=-Triple (λ items t. Same uid ps t × All (Played uid ps) items)
          (select_matches_by_user-Played uid ps pool c (page_size limit + 1))
          λ fetched.
            pure-establishes _
              λ t k. page-Sound uid ps codec (page_size limit) fetched (page_size-small limit) k.1

-- A page of a player's history, whatever cursor and limit are asked for and whatever fails, holds
-- only matches that the player took part in, and no more than fifty.
pub list_for_user-Played :
    (codec : Codec) (uid : ℕ) (cursor : Text) (limit : ℤ) (w : World) (items : List Match)
    (next : Text)
    → (list_for_user codec uid cursor limit w).0 ≡ ok (items, next)
    → All (Played uid w.tables.participants) items × (length items ≤ max_page_size)
list_for_user-Played codec uid cursor limit w items next e =
    Post-ok (λ p _. Sound uid w.tables.participants p) _ _
      ((list_for_user-Triple codec uid w.tables.participants cursor limit).at w refl) e
