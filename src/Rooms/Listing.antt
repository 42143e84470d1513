-- ===== src/Rooms/Listing.antt =====
-- internal/rooms/pagination.go and service.go's `ListPublicOpen`: the public rooms that can be
-- joined, page by page, newest first. How base64, times and uuids are written is the library's,
-- a parameter.
pub mod Pages
pub mod Order
pub mod Cuts
pub mod Complete
use billiards_online.Base.{
  ℕ, suc, ◌+◌, ◌-◌, Bool, true, false, not, ◌&&◌, ◌||◌, Option, none, some, List, [], ◌∷◌, ◌++◌,
  map, Text, ℤ, pos, negsuc, ltb, ◌==◌, if◌then◌else◌, length, take, get_elem?, count, select, sort,
  Result, ok, err,
}
use billiards_online.Rooms.Model.{
  Room, Member, Mode, Summary, Error, invalid_cursor, Checked, capacity, is_open, default_page_size,
  max_page_size,
}
use billiards_online.Rooms.Statements.{in_room}
use billiards_online.Rooms.Repository.{wrapped}
use billiards_online.Rooms.Service.{is_public}
use billiards_online.Postgres.{M, Handle, pool, Statement, ◌>>=◌, pure, lift, query}

-- encoding/base64, time and uuid
pub record Codec : Type 0 where
  pub base64_encode : Text → Text
  pub base64_decode : Text → Option Text
  pub format_time : ℕ → Text
  pub parse_time : Text → Option ℕ
  pub format_uuid : ℕ → Text
  pub parse_uuid : Text → Option ℕ

pub record Cursor : Type 0 where
  pub created_at : ℕ
  pub id : ℕ

-- `strings.SplitN(s, "|", 2)`, if there are two parts
unfoldable pub split_bar : Text → Option (Text × Text)
split_bar [] = none
split_bar (c ∷ cs) =
    let rest = split_bar cs in
    if c == b'|' then some ([], cs) else elim rest [ none ↦ none | some (a, b) ↦ some (c ∷ a, b) ]

module _ (codec : Codec) where
  unfoldable pub encode_cursor : ℕ → ℕ → Text
  encode_cursor created_at id =
      codec.base64_encode (codec.format_time created_at ++ b'|' ∷ codec.format_uuid id)

  -- The parts of a cursor.
  unfoldable pub parse_parts : Option (Text × Text) → Checked Cursor
  parse_parts none = err invalid_cursor
  parse_parts (some (a, b)) = elim (codec.parse_time a) [
    | none ↦ err invalid_cursor
    | some t ↦ elim (codec.parse_uuid b) [
      | none ↦ err invalid_cursor
      | some id ↦ ok (record { created_at = t; id = id })
    ]
  ]

  unfoldable pub parse_raw : Option Text → Checked (Option Cursor)
  unfolding parse_parts split_bar
  parse_raw none = err invalid_cursor
  parse_raw (some raw) = elim (parse_parts (split_bar raw)) [ err e ↦ err e | ok c ↦ ok (some c) ]

  -- An empty cursor is that of the first page.
  unfoldable pub decode_cursor : Text → Checked (Option Cursor)
  unfolding parse_raw
  decode_cursor [] = ok none
  decode_cursor (c ∷ cs) = parse_raw (codec.base64_decode (c ∷ cs))

-- The row comparison (r.created_at, r.id) < ($1, $2); no cursor is above every row.
unfoldable pub before : Option Cursor → Room → Bool
before none r = true
before (some c) r =
    ltb r.created_at c.created_at || ((r.created_at == c.created_at) && ltb r.id c.id)

-- ORDER BY created_at DESC, id DESC
unfoldable pub newer : Room → Room → Bool
newer r s = ltb s.created_at r.created_at || ((s.created_at == r.created_at) && not (ltb r.id s.id))

unfoldable pub listed : Option Cursor → Room → Bool
unfolding before is_public is_open
listed cursor r = is_public r.visibility && (is_open r.state && before cursor r)

-- `summaryRow` with what `toSummary` adds, the capacity
unfoldable pub summary_of : List Member → Room → Summary
unfolding in_room
summary_of ms r = record {
  id = r.id;
  mode = r.mode;
  ranked = r.ranked;
  shot_timer_seconds = r.shot_timer_seconds;
  wager_amount = r.wager_amount;
  spectators_allowed = r.spectators_allowed;
  member_count = count (in_room r.id) ms;
  capacity = capacity r.mode;
  created_at = r.created_at;
}

-- qPublicOpenRooms, and qPublicOpenRoomsFirstPage without a cursor
unfoldable pub q_public_open_rooms : Option Cursor → ℕ → Statement (List Summary)
unfolding listed newer summary_of
q_public_open_rooms cursor limit ts t =
    ok (map (summary_of t.members) (take limit (sort newer (select (listed cursor) t.rooms))), t)

unfoldable pub select_public_open_rooms : Handle → Option Cursor → ℕ → M Error (List Summary)
select_public_open_rooms db cursor limit =
    query wrapped wrapped db (q_public_open_rooms cursor limit)

-- The size of a page for the limit that is asked for.
unfoldable pub page_size : ℤ → ℕ
page_size (pos n) = if (n == 0) || ltb max_page_size n then default_page_size else n
page_size (negsuc n) = default_page_size

-- One row more than the page holds says that there is a next page.
unfoldable pub page : Codec → ℕ → List Summary → List Summary × Text
unfolding encode_cursor
page codec n fetched =
    if ltb n (length fetched)
    then (
      take n fetched,
      elim (get_elem? fetched (n - 1)) [
        | none ↦ []
        | some last ↦ encode_cursor codec last.created_at last.id
      ],
    )
    else (fetched, [])

unfoldable pub list_public_open : Codec → Text → ℤ → M Error (List Summary × Text)
unfolding decode_cursor page_size page
list_public_open codec cursor_text limit = do
  let n = page_size limit
  cursor ← lift (decode_cursor codec cursor_text)
  fetched ← select_public_open_rooms pool cursor (n + 1)
  pure (page codec n fetched)
