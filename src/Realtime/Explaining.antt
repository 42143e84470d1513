-- ===== src/Realtime/Explaining.antt =====
-- What a client is told of each frame: `handle` of internal/realtime/router.go over the queue and the
-- pump of platform/websocket/conn.go.
use billiards_online.Base.{
  ℕ, ◌+◌, ◌≡◌, Bool, false, Option, none, some, List, [], ◌∷◌, ◌++◌, Text, codes, if◌then◌else◌,
}
use billiards_online.Protocol.{
  Json, Envelope, ErrorPayload, is_version, decode, envelope, type_error, err_code_malformed,
  err_code_version, err_code_unknown_type,
}
use billiards_online.Websocket.{Conn, Socket, Frame, text_frame, close_frame}
use billiards_online.Websocket.Follows.{run}
use billiards_online.Websocket.Drain.{drain}
use billiards_online.Realtime.Router.{
  handle_decoded, status_unsupported_data, status_protocol_error,
}
use billiards_online.Realtime.Numbering.{Reliable}

-- docs/protocol.md: the code of the answer to a frame, and the close that follows it, if any.
unfoldable pub answer_code : Option Envelope → Text
answer_code none = err_code_malformed
answer_code (some env) = if is_version env.v then err_code_unknown_type else err_code_version

unfoldable pub closed_by : Option Envelope → List Frame
closed_by none = close_frame status_unsupported_data (codes "malformed frame") ∷ []
closed_by (some env) =
    if is_version env.v
    then []
    else close_frame status_protocol_error (codes "unsupported protocol version") ∷ []

-- The bytes of an error with a code and a number.
abbrev pub Explains : Json → Text → ℕ → List ℕ → Type 0
Explains json code seq bytes =
    (p : ErrorPayload) × (raw : List ℕ) × (p.code ≡ code)
    × (json.marshal_error p ≡ some raw)
    × (decode json bytes ≡ some (envelope type_error seq [] raw))

-- A connection with an empty queue, whose pump runs.
abbrev idle : Socket → Bool → Conn
idle ws full = record { ws = ws; outbound = []; full = full; done = false }

-- The reaction to a frame, on the wire.
module _ (json : Json) (reliable : Reliable json) where
  abbrev OnWire : Option Envelope → ℕ → Socket → Bool → Type 0
  OnWire frame seq ws full =
      (bytes : List ℕ) × Explains json (answer_code frame) (seq + 1) bytes
      × ((drain 2 (run (handle_decoded json frame seq) (idle ws full)).1).ws.frames
          ≡ ws.frames ++ (text_frame bytes ∷ closed_by frame))
