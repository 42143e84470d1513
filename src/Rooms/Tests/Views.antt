-- ===== src/Rooms/Tests/Views.antt =====
-- What players see of the lobby, and what requests answer, at concrete inputs.
use billiards_online.Base.{
  ℕ, ◌≡◌, refl, true, false, some, List, [], ◌∷◌, arith, pos, find, any, ◌==◌,
}
use billiards_online.Rooms.Model.{Room, capacity}
use billiards_online.Schema.{is_member}
use billiards_online.Postgres.{World}
use billiards_online.Postgres.{◌>>=◌, query}
use billiards_online.Rooms.Statements.{q_room}
use billiards_online.Base.{sort, select, insert_sorted}
use billiards_online.Rooms.Model.{Summary}
use billiards_online.Base.{zero, suc, length, replicate, ok}
use billiards_online.Rooms.Listing.{
  Codec, encode_cursor, decode_cursor, summary_of, q_public_open_rooms, select_public_open_rooms,
  list_public_open,
}
use billiards_online.Rooms.Invariant.{RoomsDistinct}
use billiards_online.Schema.{has_room}
use billiards_online.Rooms.Listing.Order.{all_listed}
use billiards_online.Rooms.Listing.Complete.{read_pages, read_pages-all}
use billiards_online.Rooms.Listing.Pages.{Faithful, decode-encode}
use billiards_online.Rooms.Model.{Detail, private}
use billiards_online.Rooms.Statements.{join_users, members_of, q_member_views_by_room}
use billiards_online.Rooms.Repository.{select_room, select_member_views}
use billiards_online.Rooms.Service.{detail, is_private}
use billiards_online.Rooms.Privacy.{detail-private}
use billiards_online.Base.{map}
use billiards_online.Rooms.Tests.{steady, hall, hall_room, in_hall}

-- Numbers in unary notation, and no encoding: a codec that reads back what it writes.
abbrev unary : Codec
unary = record {
  base64_encode = λ s. s;
  base64_decode = λ s. some s;
  format_time = λ t. replicate t 0;
  parse_time = λ s. some (length s);
  format_uuid = λ t. replicate t 0;
  parse_uuid = λ s. some (length s);
}

length-replicate : (n : ℕ) → some (length {A = ℕ} (replicate n 0)) ≡ some n
length-replicate zero = refl
length-replicate (suc n) = ground (arith, length-replicate n)

any-replicate : (n : ℕ) → any (λ c. c == b'|') (replicate n 0) ≡ false
unfolding any
any-replicate zero = refl
any-replicate (suc n) = any-replicate n

unary-Faithful : Faithful unary
unary-Faithful = record {
  base64 = λ s. refl;
  base64_nonempty = λ c cs h. ground arith;
  time = length-replicate;
  time_no_bar = any-replicate;
  uuid = length-replicate;
}

decode-encode_example :
    decode_cursor unary (encode_cursor unary 5 7) ≡ ok (some (record { created_at = 5; id = 7 }))
decode-encode_example = decode-encode unary 5 7 unary-Faithful

-- Two rooms, of which a page of one shows the newer.
abbrev two_rooms : World
two_rooms = record in_hall {
  tables = record hall { rooms = hall_room ∷ record hall_room { id = 8 } ∷ [] };
}

abbrev first_page : List Summary
first_page = summary_of hall.members (record hall_room { id = 8 }) ∷ []

one_listed :
    (list_public_open unary [] (pos 1) two_rooms).0 ≡ ok (first_page, encode_cursor unary 0 8)
unfolding list_public_open ◌>>=◌ select_public_open_rooms query q_public_open_rooms sort select
    insert_sorted capacity
one_listed = refl

-- The second player of a private room looks at it.
abbrev secret_room : Room
secret_room = record hall_room { visibility = private; join_code = some (50 ∷ []) }

abbrev in_secret : World
in_secret = record in_hall { tables = record hall { rooms = secret_room ∷ [] } }

abbrev secret_detail : Detail
secret_detail = record {
  room = secret_room;
  members = join_users hall.users (members_of 7 hall.members);
}

secret_seen : (detail 7 2 in_secret).0 ≡ ok secret_detail
unfolding detail ◌>>=◌ select_room query q_room find select_member_views q_member_views_by_room sort
    select insert_sorted any
secret_seen = refl

detail-private_example : is_member 7 2 hall.members ≡ true
unfolding is_private
detail-private_example = detail-private 7 2 in_secret secret_detail secret_seen refl

two_distinct : RoomsDistinct two_rooms.tables.rooms
unfolding has_room any
two_distinct = (refl, (refl, tt))

abbrev calm_rooms : World
calm_rooms = record two_rooms { env = steady }

-- Pages of one room each.
read_pages-all_example :
    read_pages unary (pos 1) (suc (length (all_listed calm_rooms.tables.rooms))) [] calm_rooms
    ≡ ok (map (summary_of hall.members) (all_listed calm_rooms.tables.rooms))
read_pages-all_example =
    read_pages-all unary (pos 1) calm_rooms unary-Faithful (λ n. refl) two_distinct
