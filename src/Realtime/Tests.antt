-- ===== src/Realtime/Tests.antt =====
-- The router over a small instance of encoding/json.
use mathlib.Core.List.{Memᴰ}
use billiards_online.Security.Tests as Security
use billiards_online.Config.Tests.{loaded}
use billiards_online.Config.{allows_origin}
use billiards_online.Auth.Tests.{house, at_house, a_token, as_alice}
use billiards_online.Auth.Access.{Opens}
use billiards_online.Auth.Service.{authenticate, resolve, renew}
use billiards_online.Auth.Repository.{select_live_session}
use billiards_online.Auth.Statements.{q_live_session_by_token}
use billiards_online.Security.Token.{hash_token}
use billiards_online.Schema.{Session}
use billiards_online.Postgres.{◌>>=◌, query, time_now, new_uuid}
use billiards_online.Base.{find, text_eq}
use billiards_online.Realtime.Gateway.{serve_ws, number, serve_ws-admits}
use billiards_online.Base.{
  ℕ, ◌==◌, if◌then◌else◌, ◌≡◌, refl, true, false, Option, none, some, List, [], ◌∷◌, Text, codes,
  length, arith,
}
use billiards_online.Protocol.{
  Json, Envelope, envelope, type_error, type_auth_success, encode, decode,
}
use billiards_online.Websocket.{accept, Socket}
use billiards_online.Websocket.Follows.{run}
use billiards_online.Realtime.Router.{Connection, serve, handle}
use billiards_online.Websocket.{Arrival, binary_message, text_message}
use billiards_online.Realtime.Numbering.{frames_read, Reliable}
use billiards_online.Realtime.Rising.{Rising, spoken, serve-Rising}
use billiards_online.Websocket.{item}
use billiards_online.Websocket.Follows.{Op, send_op, close_after_drain_op, wake, texts}
use billiards_online.Protocol.{new_auth_success, new_error}
use billiards_online.Realtime.Router.{
  read_loop, send_if, send, next_seq, handle_decoded, handle_envelope, report,
}
use billiards_online.Base.{map}

-- A type is told by the length of its name, and no payload holds anything.
abbrev name : ℕ → Text
name k = if k == 12 then type_auth_success else type_error

abbrev read : List ℕ → Option Envelope
read (k ∷ seq ∷ []) = some (envelope (name k) seq [] [])
read _ = none

abbrev toy : Json
toy = record {
  marshal_envelope = λ e. some (length e.type_name ∷ e.seq ∷ []);
  marshal_error = λ p. some [];
  marshal_auth_success = λ p. some [];
  marshal_match_lifecycle = λ p. some [];
  marshal_turn_started = λ p. some [];
  unmarshal_envelope = read;
}

toy-Reliable : Reliable toy
unfolding encode decode
toy-Reliable = record {
  errors = λ p seq small. (5 ∷ seq ∷ [], refl, refl);
  successes = λ p seq small. (12 ∷ seq ∷ [], refl, refl);
}

-- A malformed frame, one of an unknown type, and a binary one, after which nothing is read.
abbrev inputs : List Arrival
inputs = text_message [] ∷ text_message (5 ∷ 9 ∷ []) ∷ binary_message [] ∷ text_message [] ∷ []

-- The greeting goes out, then the malformed frame is answered and closes the queue, so the answer to
-- the next frame is not written.
abbrev opening : Connection
opening = record { user_id = []; conn_id = []; seq = 0 }

abbrev history : List Op
history =
    send_op (12 ∷ 1 ∷ [])
    ∷ wake (item true)
    ∷ send_op (5 ∷ 2 ∷ [])
    ∷ close_after_drain_op 1003 (codes "malformed frame")
    ∷ wake (item true)
    ∷ wake (item true)
    ∷ send_op (5 ∷ 3 ∷ [])
    ∷ wake (item true)
    ∷ []

history-spoken : spoken history ≡ (serve toy inputs opening).0
unfolding spoken serve read_loop new_auth_success send_if send encode next_seq handle decode
    handle_decoded handle_envelope report new_error
history-spoken = refl

serve-Rising_example : Rising 0 3 (map (decode toy) (texts (run history accept).1.ws.frames))
unfolding frames_read
serve-Rising_example =
    serve-Rising toy toy-Reliable [] [] inputs history (ground arith) history-spoken

abbrev on : Connection
on = record { user_id = []; conn_id = []; seq = 6 }

abbrev fresh : Socket
fresh = record { frames = []; closed = false }

serve_ws-admits_example :
    Memᴰ (codes "http://b") loaded.http.allowed_origins
    × (token : Text) × (◌≡◌ {A = Option Text} (some a_token) (some token))
    × (s : Session) × Memᴰ s house.sessions
    × Opens Security.toy token 0 s
    × (5 ≡ s.id)
    × (1 ≡ s.user_id)
unfolding serve_ws allows_origin text_eq number new_uuid authenticate resolve select_live_session
    q_live_session_by_token renew ◌>>=◌ query hash_token find time_now
serve_ws-admits_example =
    serve_ws-admits Security.toy loaded (codes "http://b") (some a_token) true as_alice 502 at_house
      refl
