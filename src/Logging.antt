-- ===== src/Logging.antt =====
-- platform/logging/logging.go, with what it uses of log/slog: a logger has a least level, a handler
-- and attributes, and a context may carry a logger.
use billiards_online.Base.{
  ℕ, ◌≡◌, refl, Option, none, some, List, [], ◌∷◌, ◌++◌, Text, ℤ, codes, to_lower, text_eq, leb,
  if◌then◌else◌,
}

pub data Level : Type 0 where
  debug info warn error : Level

-- The numbers of slog, from -4 up in steps of four.
unfoldable pub rank : Level → ℕ
rank debug = 0
rank info = 4
rank warn = 8
rank error = 12

pub data Format : Type 0 where
  text_handler json_handler : Format

pub data Value : Type 0 where
  text : Text → Value
  number : ℤ → Value

abbrev pub Attr : Type 0
Attr = Text × Value

pub record Logger : Type 0 where
  pub level : Level
  pub handler : Format
  pub attrs : List Attr

pub record Line : Type 0 where
  pub level : Level
  pub message : Text
  pub attrs : List Attr

abbrev pub key_request_id : Text
key_request_id = codes "requestId"

abbrev pub key_user_id : Text
key_user_id = codes "userId"

abbrev pub key_session_id : Text
key_session_id = codes "sessionId"

-- `parseLevel`; `lower` is Unicode's table above ASCII.
unfoldable pub parse_level : (ℕ → ℕ) → Text → Level
parse_level lower level =
    let l = to_lower lower level in
    if text_eq l (codes "debug")
    then debug
    else if text_eq l (codes "warn")
    then warn
    else if text_eq l (codes "error")
    then error
    else info

-- `New`
unfoldable pub new : (ℕ → ℕ) → Text → Text → Logger
unfolding parse_level
new lower level format = record {
  level = parse_level lower level;
  handler = if text_eq format (codes "text") then text_handler else json_handler;
  attrs = [];
}

-- slog's `Logger.With`
unfoldable pub with_attrs : Logger → List Attr → Logger
with_attrs l attrs = record l { attrs = l.attrs ++ attrs }

-- slog's `Logger.Log`: nothing below the least level.
unfoldable pub emit : Logger → Level → Text → List Attr → List Line
unfolding rank
emit l level message attrs =
    if leb (rank l.level) (rank level)
    then record { level = level; message = message; attrs = l.attrs ++ attrs } ∷ []
    else []

-- What a context holds under `ctxKey`: nothing, or a pointer that may be nil.
abbrev pub Context : Type 0
Context = Option (Option Logger)

-- `WithLogger`
abbrev pub with_logger : Context → Logger → Context
with_logger ctx l = some (some l)

-- `Logger`, with slog's default logger
unfoldable pub logger : Logger → Context → Logger
logger default none = default
logger default (some none) = default
logger default (some (some l)) = l

-- `With`
unfoldable pub with : Logger → Context → List Attr → Context
unfolding logger with_attrs
with default ctx args = with_logger ctx (with_attrs (logger default ctx) args)

-- A line of the highest level is written by every logger.
pub emit-error :
    (l : Logger) (message : Text) (attrs : List Attr)
    → emit l error message attrs
      ≡ record { level = error; message = message; attrs = l.attrs ++ attrs } ∷ []
unfolding emit rank
emit-error l message attrs = go l.level l
  where
    go :
        (k : Level) (l : Logger)
        → ◌≡◌ {A = List Line}
            (if leb (rank k) (rank error)
              then record { level = error; message = message; attrs = l.attrs ++ attrs } ∷ []
              else [])
            (record { level = error; message = message; attrs = l.attrs ++ attrs } ∷ [])
    go debug l = refl
    go info l = refl
    go warn l = refl
    go error l = refl
