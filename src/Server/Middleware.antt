-- ===== src/Server/Middleware.antt =====
-- apps/server/cmd/server/middleware.go: what surrounds every handler of the public listener.
-- Given: how a time is written (package time), slog's default logger, and the size of a body.

use billiards_online.Base.{
  ℕ, ◌+◌, ◌-◌, ◌/◌, ◌%◌, Bool, ◌&&◌, ◌||◌, Option, none, some, List, [], ◌∷◌, ◌++◌, Text, ℤ, pos,
  negsuc, codes, text_eq, byte_len, ltb, leb, if◌then◌else◌, Result, ok, err,
}
use billiards_online.Logging.{
  Logger, Level, debug, info, warn, error, Line, Attr, text, number, with_logger, with_attrs, emit,
}
use billiards_online.Logging as Logging
use billiards_online.Postgres.{World, rand_read, time_now}

-- http.Header, by the canonical names: `Set` replaces, `Get` of what is absent is empty.
abbrev pub Headers : Type 0
Headers = List (Text × Text)

unfoldable pub get_header : Text → Headers → Text
get_header k [] = []
get_header k ((j, v) ∷ hs) = if text_eq k j then v else get_header k hs

unfoldable pub set_header : Text → Text → Headers → Headers
set_header k v [] = (k, v) ∷ []
set_header k v ((j, u) ∷ hs) = if text_eq k j then (k, v) ∷ hs else (j, u) ∷ set_header k v hs

pub record Request : Type 0 where
  pub method : Text
  pub path : Text
  pub client_ip : Text
  pub request_id : Text

pub record Deps (B : Type 0) : Type 0 where
  pub format_time : ℕ → Text
  pub default : Logger
  pub bytes : List B → ℕ
  pub internal_error : B

abbrev pub header_request_id : Text
header_request_id = codes "X-Request-Id"

-- hex.EncodeToString
unfoldable pub hex_digit : ℕ → ℕ
hex_digit n = if ltb n 10 then b'0' + n else b'a' + (n - 10)

unfoldable pub hex : List ℕ → Text
unfolding hex_digit
hex [] = []
hex (b ∷ bs) = hex_digit (b / 16) ∷ hex_digit (b % 16) ∷ hex bs

-- `newRequestID`: the clock stands in for random bytes that cannot be had.
unfoldable pub random_id : (ℕ → Text) → Result (Unit {0}) (List ℕ) → World → Text × World
unfolding hex
random_id format_time (ok bs) w = (hex bs, w)
random_id format_time (err e) w =
    (codes "ts-" ++ format_time (w.env.clock w.tick), (time_now {E = Unit {0}} w).1)

unfoldable pub new_request_id : (ℕ → Text) → World → Text × World
unfolding random_id
new_request_id format_time w = let (r, w') = rand_read tt 12 w in random_id format_time r w'

unfoldable pub chosen_id : (ℕ → Text) → Text → World → Text × World
unfolding new_request_id
chosen_id format_time id w =
    if ltb 0 (byte_len id) && leb (byte_len id) 64 then (id, w) else new_request_id format_time w

unfoldable pub is_probe : Text → Bool
is_probe path =
    text_eq path (codes "/health")
    || text_eq path (codes "/ready")
    || text_eq path (codes "/api/v1/health")

-- The level and the message of a request's line.
unfoldable pub severity : ℕ → Text → Level × Text
unfolding is_probe
severity status path =
    if leb 500 status
    then (error, codes "request failed")
    else if leb 400 status
    then (warn, codes "request rejected")
    else if is_probe path
    then (debug, codes "request")
    else (info, codes "request")

unfoldable pub secured : Headers → Headers
unfolding set_header
secured hs =
    set_header (codes "Content-Security-Policy")
      (codes "default-src 'none'; frame-ancestors 'none'")
      (set_header (codes "Referrer-Policy") (codes "no-referrer") (
        set_header (codes "X-Frame-Options") (codes "DENY")
          (set_header (codes "X-Content-Type-Options") (codes "nosniff") hs)))

-- gin.Context: the request's context, and the response as far as it is written.
pub record Exchange (B : Type 0) : Type 0 where
  pub request : Request
  pub context : Logging.Context
  pub headers : Headers
  pub status : Option ℕ
  pub bodies : List B
  pub log : List Line

-- A handler returns or panics.
pub data Outcome (B : Type 0) : Type 0 where
  returned : Exchange B → Outcome B
  panicked : Text → Exchange B → Outcome B

abbrev pub Handler : Type 0 → Type 0
Handler B = Exchange B → World → Outcome B × World

-- `c.JSON`: the first status that is written stays.
unfoldable pub first_status : Option ℕ → ℕ → ℕ
first_status none s = s
first_status (some s) _ = s

unfoldable pub client_attrs : ℕ → Request → List Attr
client_attrs status r = if leb 400 status then (codes "clientIp", text r.client_ip) ∷ [] else []

module _ {B : Type 0} where
  unfoldable pub write : ℕ → B → Exchange B → Exchange B
  unfolding first_status
  write s b x = record x { status = some (first_status x.status s); bodies = x.bodies ++ b ∷ [] }

  -- gin's `Writer.Size`
  unfoldable pub size : Deps B → Exchange B → ℤ
  size d x = elim x.bodies [ [] ↦ negsuc 0 | b ∷ bs ↦ pos (d.bytes (b ∷ bs)) ]

  unfoldable pub request_id : Deps B → Handler B → Handler B
  unfolding chosen_id set_header
  request_id d next x w =
      let (id, w') = chosen_id d.format_time x.request.request_id w in
      next
        (record x {
          headers = set_header header_request_id id x.headers;
          context = Logging.with d.default x.context ((Logging.key_request_id, text id) ∷ []);
        })
        w'

  unfoldable pub line_attrs : Deps B → Text → ℕ → Exchange B → ℕ → ℕ → List Attr
  unfolding size client_attrs
  line_attrs d path status x started ended =
      (codes "method", text x.request.method)
      ∷ (codes "path", text path)
      ∷ (codes "status", number (pos status))
      ∷ (codes "durationMs", number (pos ((ended - started) / 1000000)))
      ∷ (codes "bytes", number (size d x))
      ∷ client_attrs status x.request

  -- The part of `requestLogger` after `c.Next()`.
  unfoldable pub log_request : Deps B → Text → ℕ → Exchange B → ℕ → Exchange B
  unfolding severity first_status line_attrs
  log_request d path started x ended =
      let status = first_status x.status 200 in
      let (level, message) = severity status path in
      record x {
        log =
            x.log
            ++ emit (Logging.logger d.default x.context) level message
                (line_attrs d path status x started ended);
      }

  unfoldable pub logged : Deps B → Text → ℕ → Outcome B → World → Outcome B × World
  unfolding log_request
  logged d path started (returned x) w =
      (returned (log_request d path started x (w.env.clock w.tick)), (time_now {E = Unit {0}} w).1)
  logged d path started (panicked v x) w = (panicked v x, w)

  unfoldable pub request_logger : Deps B → Logger → Handler B → Handler B
  unfolding logged get_header
  request_logger d l next x w =
      let (r, w') =
        next
          (record x {
            context = with_logger x.context (
                with_attrs l
                  ((Logging.key_request_id, text (get_header header_request_id x.headers)) ∷ []));
          })
          (time_now {E = Unit {0}} w).1 in
      logged d x.request.path (w.env.clock w.tick) r w'

  -- The line and the reply of a panic; the stack is left out.
  unfoldable pub recovered : Deps B → Outcome B → Outcome B
  unfolding write
  recovered d (returned x) = returned x
  recovered d (panicked v x) = returned (
      write 500 d.internal_error (record x {
        log =
            x.log
            ++ emit (Logging.logger d.default x.context) error (codes "panic recovered") (
                (codes "panic", text v)
                ∷ (codes "method", text x.request.method)
                ∷ (codes "path", text x.request.path)
                ∷ []);
      }))

  unfoldable pub recovery : Deps B → Handler B → Handler B
  unfolding recovered
  recovery d next x w = let (r, w') = next x w in (recovered d r, w')

  unfoldable pub secure_headers : Handler B → Handler B
  unfolding secured
  secure_headers next x w = next (record x { headers = secured x.headers }) w

  -- The order of `r.Use` in newRouter.
  unfoldable pub chain : Deps B → Logger → Handler B → Handler B
  unfolding request_id request_logger recovery secure_headers
  chain d l h = request_id d (request_logger d l (recovery d (secure_headers h)))
