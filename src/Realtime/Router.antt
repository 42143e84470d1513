-- ===== src/Realtime/Router.antt =====
-- internal/realtime/router.go. Nothing that a handler does depends on what Send reports, so it is
-- given as the calls that it makes of its connection, in order; the pump may take a turn between
-- any two of them. Only logs are left out.
use billiards_online.Base.{
  ℕ, ◌+◌, ◌%◌, ◌^◌, Option, none, some, List, [], ◌∷◌, ◌++◌, Text, codes, if◌then◌else◌,
}
use billiards_online.Protocol.{
  Json, Envelope, is_version, decode, encode, new_error, new_auth_success, err_code_malformed,
  err_code_version, err_code_unknown_type,
}
use billiards_online.Websocket.{Conn, status_slow_client, Arrival, read}
use billiards_online.Websocket.Follows.{Op, send_op, close_after_drain_op, close_op}

-- `connection`: the ids, as text, and the counter, an unsigned number of 64 bits.
pub record Connection : Type 0 where
  pub user_id : Text
  pub conn_id : Text
  pub seq : ℕ

-- The counter after `nextSeq`, which is also the number it gives.
unfoldable pub next_seq : ℕ → ℕ
next_seq seq = (seq + 1) % 2 ^ 64

-- websocket.StatusUnsupportedData and websocket.StatusProtocolError
abbrev pub status_unsupported_data : ℕ
status_unsupported_data = 1003

abbrev pub status_protocol_error : ℕ
status_protocol_error = 1002

module _ (json : Json) where
  unfoldable pub send : Envelope → List Op
  unfolding encode
  send env = elim (encode json env) [ none ↦ [] | some bytes ↦ send_op bytes ∷ [] ]

  -- An envelope that may not have been built.
  unfoldable pub send_if : Option Envelope → List Op
  unfolding send
  send_if none = []
  send_if (some env) = send env

  -- The answers take the next number whether or not they can be encoded.
  unfoldable pub report : Text → Text → Text → ℕ → List Op
  unfolding new_error send_if
  report code message request_id seq =
      send_if (new_error json (next_seq seq) code message request_id)

  unfoldable pub handle_envelope : Envelope → ℕ → List Op
  unfolding report
  handle_envelope env seq =
      if is_version env.v
      then report err_code_unknown_type (codes "Unrecognized message type.") env.request_id seq
      else report err_code_version (codes "Unsupported protocol version.") env.request_id seq
        ++ (close_after_drain_op status_protocol_error (codes "unsupported protocol version") ∷ [])

  unfoldable pub handle_decoded : Option Envelope → ℕ → List Op
  unfolding handle_envelope
  handle_decoded none seq =
      report err_code_malformed (codes "Message could not be parsed.") [] seq
      ++ (close_after_drain_op status_unsupported_data (codes "malformed frame") ∷ [])
  handle_decoded (some env) seq = handle_envelope env seq

  unfoldable pub handle : List ℕ → Connection → List Op × Connection
  unfolding handle_decoded decode next_seq
  handle frame c = (handle_decoded (decode json frame) c.seq, record c { seq = next_seq c.seq })

  -- The loop of `serve`, over what its reads meet.
  unfoldable pub read_loop : List Arrival → Connection → List Op × Connection
  unfolding read handle
  read_loop [] c = ([], c)
  read_loop (a ∷ arrivals) c = elim (read a) [
    | none ↦ ([], c)
    | some frame ↦
        let (ops, c') = handle frame c in
        let (rest, end) = read_loop arrivals c' in (ops ++ rest, end)
  ]

  unfoldable pub serve : List Arrival → Connection → List Op × Connection
  unfolding new_auth_success send_if read_loop next_seq
  serve arrivals c =
      let greeting = send_if (new_auth_success json (next_seq c.seq) c.user_id c.conn_id) in
      let (ops, end) = read_loop arrivals (record c { seq = next_seq c.seq }) in
      (greeting ++ ops, end)

-- The watcher that `serve` starts.
unfoldable pub watch : Conn → List Op
watch c = if c.full then close_op status_slow_client (codes "slow client") ∷ [] else []
