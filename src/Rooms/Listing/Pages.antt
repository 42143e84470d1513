-- ===== src/Rooms/Listing/Pages.antt =====
-- About internal/rooms/pagination.go and `ListPublicOpen`: cursors and the sizes of pages.
use billiards_online.Base.{
  length-take, ℕ, ◌+◌, ◌≤◌, ◌≡◌, refl, ap, sym, ◌∙◌, false, Option, some, List, [], ◌∷◌, ◌++◌, Text,
  ℤ, pos, negsuc, arith, ◌==◌, length, any, Result, ok, err,
}
use billiards_online.Rooms.Model.{Summary, Error, Checked, max_page_size}
use billiards_online.Rooms.Listing.{
  Codec, Cursor, split_bar, encode_cursor, decode_cursor, parse_parts, parse_raw, page_size, page,
  list_public_open, select_public_open_rooms,
}
use billiards_online.Postgres.{World, ◌>>=◌, pool, lift, pure}

-- What the libraries promise: what they write they read back, no time has a bar in it, and a
-- text that is not empty is not written as the empty one.
pub record Faithful (codec : Codec) : Type 0 where
  pub base64 : (s : Text) → codec.base64_decode (codec.base64_encode s) ≡ some s
  pub base64_nonempty : (c : ℕ) (cs : Text) → ¬ (codec.base64_encode (c ∷ cs) ≡ [])
  pub time : (t : ℕ) → codec.parse_time (codec.format_time t) ≡ some t
  pub time_no_bar : (t : ℕ) → any (λ c. c == b'|') (codec.format_time t) ≡ false
  pub uuid : (id : ℕ) → codec.parse_uuid (codec.format_uuid id) ≡ some id

split_bar-append :
    (a b : Text) → any (λ c. c == b'|') a ≡ false → split_bar (a ++ b'|' ∷ b) ≡ some (a, b)
unfolding split_bar any
split_bar-append [] b h = refl
split_bar-append (c ∷ a) b h = ground (arith, split_bar-append a b)

append-nonempty : (a b : Text) (c : ℕ) → ¬ (a ++ c ∷ b ≡ [])
append-nonempty [] b c h = ground arith
append-nonempty (x ∷ a) b c h = ground arith

decode-nonempty :
    (codec : Codec) (s e : Text)
    → Faithful codec
    → codec.base64_encode s ≡ e
    → ¬ (s ≡ [])
    → decode_cursor codec e ≡ parse_raw codec (some s)
unfolding decode_cursor
decode-nonempty codec [] e f h n = elim (n refl) [ ]
decode-nonempty codec (c ∷ cs) [] f h n = elim (f.base64_nonempty c cs h) [ ]
decode-nonempty codec (c ∷ cs) (x ∷ xs) f h n =
    ap (λ y. parse_raw codec (codec.base64_decode y)) (sym h)
    ∙ ap (parse_raw codec) (f.base64 (c ∷ cs))

-- A cursor that the server has handed out is read back as the position that it was made from, if
-- the libraries read back what they write.
pub decode-encode :
    (codec : Codec) (t id : ℕ)
    → Faithful codec
    → decode_cursor codec (encode_cursor codec t id)
      ≡ ok (some (record { created_at = t; id = id }))
unfolding encode_cursor parse_raw parse_parts
decode-encode codec t id f =
    decode-nonempty codec (codec.format_time t ++ b'|' ∷ codec.format_uuid id) _ f refl
      (append-nonempty (codec.format_time t) (codec.format_uuid id) b'|')
    ∙ rw
        (split_bar-append (codec.format_time t) (codec.format_uuid id) (f.time_no_bar t), parse_raw)
        (rw (f.time t, parse_parts) (rw (f.uuid id) refl))

pub page_size-bounds : (limit : ℤ) → (1 ≤ page_size limit) × (page_size limit ≤ max_page_size)
unfolding page_size
page_size-bounds (pos n) = ground arith
page_size-bounds (negsuc n) = ground arith

page-length : (codec : Codec) (n : ℕ) (fetched : List Summary) → length (page codec n fetched).0 ≤ n
unfolding page
page-length codec n fetched = ground (arith, length-take n fetched)

module _ (codec : Codec) (n : ℕ) (items : List Summary) (next : Text) where
  abbrev paged : Result Error (List Summary) → Result Error (List Summary × Text)
  paged (ok fetched) = ok (page codec n fetched)
  paged (err e) = err e

  paged-length : (r : Result Error (List Summary)) → paged r ≡ ok (items, next) → length items ≤ n
  paged-length (ok fetched) h = ground (arith, page-length codec n fetched)
  paged-length (err e) h = ground arith

  listed-length :
      (c : Checked (Option Cursor)) (w : World)
      → ((lift c >>= λ cursor. select_public_open_rooms pool cursor (n + 1) >>= λ fetched.
            pure {E = Error} (page codec n fetched))
          w).0
        ≡ ok (items, next)
      → length items ≤ n
  unfolding ◌>>=◌
  listed-length (err e) w h = ground arith
  listed-length (ok cursor) w h =
      paged-length (select_public_open_rooms pool cursor (n + 1) w).0 (ground arith)

-- A page that is returned has no more than fifty rooms, whatever limit is asked for.
pub list_public_open-length :
    (codec : Codec) (cursor : Text) (limit : ℤ) (w : World) (items : List Summary) (next : Text)
    → (list_public_open codec cursor limit w).0 ≡ ok (items, next)
    → length items ≤ max_page_size
unfolding list_public_open
list_public_open-length codec cursor limit w items next h = omega (
  arith,
  page_size-bounds limit,
  listed-length codec (page_size limit) items next (decode_cursor codec cursor) w h,
)
