-- ===== src/Matches/Listing.antt =====
-- internal/matches/pagination.go, and `ListForUser` of service.go with its repository: the matches
-- of a player, page by page, newest first. The cursors are, word for word, those of
-- internal/rooms/pagination.go, and so they are read and written by the same definitions.
pub mod Played
use billiards_online.Base.{
  ℕ, ◌+◌, ◌-◌, Bool, true, not, ◌&&◌, ◌||◌, Option, none, some, List, [], ◌∷◌, Text, ℤ, pos, negsuc,
  ltb, ◌==◌, if◌then◌else◌, length, take, get_elem?, any, select, sort, Result, ok, err,
}
use billiards_online.Rooms.Model.{Error as RoomsError}
use billiards_online.Rooms.Listing as Rooms
use billiards_online.Rooms.Listing.{Codec, Cursor, encode_cursor}
use billiards_online.Matches.Model.{Match, Error, invalid_cursor, Checked}
use billiards_online.Matches.Repository.{wrapped, to_match, add_players, select_participants}
use billiards_online.Schema.{MatchRow, Participant}
use billiards_online.Postgres.{M, Handle, pool, Statement, ◌>>=◌, pure, lift, query}

abbrev pub default_page_size : ℕ
default_page_size = 20

abbrev pub max_page_size : ℕ
max_page_size = 50

abbrev pub renamed : Result RoomsError (Option Cursor) → Checked (Option Cursor)
renamed (ok c) = ok c
renamed (err e) = err invalid_cursor

-- `decodeCursor`, whose only error is errInvalidCursor
unfoldable pub decode_cursor : Codec → Text → Checked (Option Cursor)
decode_cursor codec s = renamed (Rooms.decode_cursor codec s)

-- The row comparison (m.created_at, m.id) < ($2, $3); no cursor is above every row.
unfoldable pub before : Option Cursor → MatchRow → Bool
before none r = true
before (some c) r =
    ltb r.created_at c.created_at || ((r.created_at == c.created_at) && ltb r.id c.id)

-- ORDER BY created_at DESC, id DESC
unfoldable pub newer : MatchRow → MatchRow → Bool
newer r s = ltb s.created_at r.created_at || ((s.created_at == r.created_at) && not (ltb r.id s.id))

-- The join with match_participants, of which a match has at most one row for a user.
unfoldable pub took_part : ℕ → List Participant → ℕ → Bool
took_part uid ps mid = any (λ p. (p.match_id == mid) && (p.user_id == uid)) ps

-- qMatchesByUser, and qMatchesByUserFirstPage without a cursor
unfoldable pub q_matches_by_user : ℕ → Option Cursor → ℕ → Statement (List MatchRow)
unfolding before newer took_part
q_matches_by_user uid cursor limit ts t = ok (
  take limit
      (sort newer (select (λ r. took_part uid t.participants r.id && before cursor r) t.matches)),
  t,
)

-- The loop of `selectMatchesByUser`.
unfoldable pub with_players : Handle → List MatchRow → M Error (List Match)
unfolding to_match add_players select_participants
with_players db [] = pure []
with_players db (r ∷ rs) = do
  ps ← select_participants db r.id
  rest ← with_players db rs
  pure (add_players (to_match r) ps ∷ rest)

unfoldable pub select_matches_by_user : Handle → ℕ → Option Cursor → ℕ → M Error (List Match)
unfolding with_players
select_matches_by_user db uid cursor limit = do
  found ← query wrapped wrapped db (q_matches_by_user uid cursor limit)
  with_players db found

unfoldable pub page_size : ℤ → ℕ
page_size (pos n) = if (n == 0) || ltb max_page_size n then default_page_size else n
page_size (negsuc n) = default_page_size

-- One row more than the page holds says that there is a next page.
unfoldable pub page : Codec → ℕ → List Match → List Match × Text
unfolding encode_cursor
page codec n fetched =
    if ltb n (length fetched)
    then (
      take n fetched,
      elim (get_elem? fetched (n - 1)) [
        | none ↦ []
        | some last ↦ encode_cursor codec last.created_at last.id
      ],
    )
    else (fetched, [])

unfoldable pub list_for_user : Codec → ℕ → Text → ℤ → M Error (List Match × Text)
unfolding decode_cursor page_size select_matches_by_user page
list_for_user codec uid cursor_text limit = do
  let n = page_size limit
  cursor ← lift (decode_cursor codec cursor_text)
  fetched ← select_matches_by_user pool uid cursor (n + 1)
  pure (page codec n fetched)
