-- ===== src/Rooms/Listing/Complete.antt =====
-- What a client sees that follows the cursors of `ListPublicOpen` to the end.
use mathlib.Core.List.{append_assoc}
use billiards_online.Base.{
  ℕ, suc, ◌+◌, ◌-◌, ◌<◌, ◌≡◌, inl, inr, refl, sym, ap, ◌∙◌, subst, false, Option, none, some, List,
  [], ◌∷◌, ◌++◌, map, Text, ℤ, Pairwise, take, length, select, sort, Result, ok, err, arith,
}
use billiards_online.Rooms.Model.{Room, Summary, Error, internal}
use billiards_online.Rooms.Invariant.{RoomsDistinct}
use billiards_online.Rooms.Listing.{
  Codec, Cursor, before, newer, listed, summary_of, encode_cursor, decode_cursor, page_size, page,
  q_public_open_rooms, select_public_open_rooms, list_public_open,
}
use billiards_online.Rooms.Listing.Pages.{Faithful, decode-encode, page_size-bounds}
use billiards_online.Rooms.Listing.Cuts.{
  cut, joined, encode-nonempty, page_at_end, page_before_rest,
}
use billiards_online.Rooms.Listing.Order.{
  Follows, cursor_of, all_listed, all_listed-Follows, select-after, listed-from,
}
use billiards_online.Postgres.{World, pool, lift, pure, next}
use billiards_online.Postgres.Laws.{query-calm, >>=-calm}

-- Read a page, and go on with its cursor if it has one.
unfoldable pub follow :
    (Text → World → Result Error (List Summary))
    → Result Error (List Summary × Text)
    → World
    → Result Error (List Summary)
follow rest (err e) w = err e
follow rest (ok (items, [])) w = ok items
follow rest (ok (items, c ∷ cs)) w = elim (rest (c ∷ cs) w) [
  | ok more ↦ ok (items ++ more)
  | err e ↦ err e
]

-- At most so many pages, beginning at a cursor.
unfoldable pub read_pages : Codec → ℤ → ℕ → Text → World → Result Error (List Summary)
unfolding follow
read_pages codec limit ℕ.zero cursor w = err internal
read_pages codec limit (suc n) cursor w =
    let (r, w') = list_public_open codec cursor limit w in follow (read_pages codec limit n) r w'

module _ (codec : Codec) (limit : ℤ) where
  abbrev left_by : World → World
  left_by w = record (next w) { tables = w.tables }

  -- A page that is asked for while the database answers.
  list_public_open-calm :
      (text : Text) (c : Option Cursor) (w : World)
      → decode_cursor codec text ≡ ok c
      → w.env.fails w.tick ≡ false
      → list_public_open codec text limit w ≡ (
        ok (
            page codec (page_size limit) (
              map
                (summary_of w.tables.members)
                (take (page_size limit + 1) (sort newer (select (listed c) w.tables.rooms))))),
        left_by w,
      )
  unfolding list_public_open select_public_open_rooms q_public_open_rooms lift pure
  list_public_open-calm text c w d up =
      >>=-calm (lift (decode_cursor codec text)) _ w c w (ap (λ r. (r, w)) d)
      ∙ >>=-calm (select_public_open_rooms pool c (page_size limit + 1)) _ w _ (left_by w)
          (query-calm _ _ pool (q_public_open_rooms c (page_size limit + 1)) w _ w.tables up refl)

  page_size-suc : (k : ℕ) × (page_size limit ≡ suc k)
  page_size-suc = (page_size limit - 1, omega (arith, page_size-bounds limit))

  follow-end :
      (rest : Text → World → Result Error (List Summary)) (items : List Summary) (w : World)
      → follow rest (ok (items, [])) w ≡ ok items
  unfolding follow
  follow-end rest items w = refl

  follow-more :
      (rest : Text → World → Result Error (List Summary)) (items more : List Summary) (text : Text)
      (w : World)
      → ¬ (text ≡ [])
      → rest text w ≡ ok more
      → follow rest (ok (items, text)) w ≡ ok (items ++ more)
  unfolding follow
  follow-more rest items more [] w n e = absurd (n refl)
  follow-more rest items more (c ∷ cs) w n e = rw (e, follow) refl

  paged :
      (text : Text) (c : Option Cursor) (xs : List Room) (w : World) (k : ℕ)
      → decode_cursor codec text ≡ ok c
      → w.env.fails w.tick ≡ false
      → select (before c) (all_listed w.tables.rooms) ≡ xs
      → page_size limit ≡ suc k
      → list_public_open codec text limit w ≡ (
        ok (page codec (suc k) (map (summary_of w.tables.members) (take (suc (suc k)) xs))),
        left_by w,
      )
  paged text c xs w k d up s size =
      let shown = map (summary_of w.tables.members) in
      let one : suc k + 1 ≡ suc (suc k) = omega arith in
      list_public_open-calm text c w d up
      ∙ ap
          (λ ys.
            (ok (page codec (page_size limit) (shown (take (page_size limit + 1) ys))), left_by w))
          (listed-from c w.tables.rooms ∙ s)
      ∙ ap (λ n. (ok (page codec n (shown (take (n + 1) xs))), left_by w)) size
      ∙ ap (λ n. (ok (page codec (suc k) (shown (take n xs))), left_by w)) one

  selected :
      (whole pre : List Room) (r : Room) (rest : List Room)
      → whole ≡ pre ++ r ∷ rest
      → Pairwise Follows whole
      → select (before (some (cursor_of r))) whole ≡ rest
  selected whole pre r rest e o =
      subst (λ a. Pairwise Follows a → select (before (some (cursor_of r))) a ≡ rest) (sym e)
        (select-after pre r rest) o

  -- From any place in the list the client reads the rest of it.
  read_pages-rest :
      (f : ℕ) (text : Text) (c : Option Cursor) (pre xs : List Room) (w : World)
      → Faithful codec
      → ((n : ℕ) → w.env.fails n ≡ false)
      → Pairwise Follows (all_listed w.tables.rooms)
      → decode_cursor codec text ≡ ok c
      → all_listed w.tables.rooms ≡ pre ++ xs
      → select (before c) (all_listed w.tables.rooms) ≡ xs
      → length xs < f
      → read_pages codec limit f text w ≡ ok (map (summary_of w.tables.members) xs)
  unfolding read_pages
  read_pages-rest ℕ.zero text c pre xs w fa up o d e s h = absurd (omega arith)
  read_pages-rest (suc f) text c pre xs w fa up o d e s h =
      let (k, size) = page_size-suc in
      let ms = w.tables.members in
      let go_on = λ (p : Result Error (List Summary × Text) × World).
        follow (read_pages codec limit f) p.0 p.1 in
      let asked = paged text c xs w k d (up w.tick) s size in
      elim (cut (summary_of ms) k xs) [
        | inl ends ↦
            ap go_on (asked ∙ ap (λ q. (ok q, left_by w)) (page_at_end codec k ms xs ends))
            ∙ follow-end (read_pages codec limit f) (map (summary_of ms) xs) (left_by w)
        | inr y ↦
            let place =
              e ∙ ap (λ ys. pre ++ ys) y.whole ∙ sym (append_assoc pre y.front (y.last ∷ y.rest)) in
            ap go_on (asked ∙ ap (λ q. (ok q, left_by w)) (page_before_rest codec k ms xs y))
            ∙ follow-more (read_pages codec limit f) (map (summary_of ms) (y.front ++ y.last ∷ []))
                (map (summary_of ms) y.rest) (encode_cursor codec y.last.created_at y.last.id)
                (left_by w) (encode-nonempty codec y.last.created_at y.last.id fa)
                (read_pages-rest f (encode_cursor codec y.last.created_at y.last.id)
                  (some (cursor_of y.last)) ((pre ++ y.front) ++ y.last ∷ []) y.rest (left_by w) fa
                  up o (decode-encode codec y.last.created_at y.last.id fa)
                  (place ∙ sym (append_assoc (pre ++ y.front) (y.last ∷ []) y.rest))
                  (selected (all_listed w.tables.rooms) (pre ++ y.front) y.last y.rest place o)
                  (omega (arith, y.shorter)))
            ∙ ap ok (
                joined (summary_of ms) y.front y.last y.rest
                ∙ ap (map (summary_of ms)) (sym y.whole))
      ]

  -- A client that reads the list of public rooms page by page, whatever size of page it asks for,
  -- gets every room that is public and open exactly once, newest first, and reaches the end after
  -- at most one request more than there are such rooms, if the database answers and nobody writes
  -- in between.
  pub read_pages-all :
      (w : World)
      → Faithful codec
      → ((n : ℕ) → w.env.fails n ≡ false)
      → RoomsDistinct w.tables.rooms
      → read_pages codec limit (suc (length (all_listed w.tables.rooms))) [] w
        ≡ ok (map (summary_of w.tables.members) (all_listed w.tables.rooms))
  unfolding decode_cursor
  read_pages-all w fa up distinct =
      let o = all_listed-Follows w.tables.rooms distinct in
      read_pages-rest (suc (length (all_listed w.tables.rooms))) [] none []
        (all_listed w.tables.rooms) w fa up o refl refl (sym (listed-from none w.tables.rooms))
        (omega arith)
