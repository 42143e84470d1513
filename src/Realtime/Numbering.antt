-- ===== src/Realtime/Numbering.antt =====
-- The numbers of the messages that internal/realtime/router.go sends.
use mathlib.Core.List.{append-nil}
use billiards_online.Base.{
  subst, Bool-cases, inl, inr, ℕ, ◌+◌, ◌<◌, ◌^◌, ◌≡◌, refl, sym, ap, ◌∙◌, Option, none, some, List,
  [], ◌∷◌, ◌++◌, Text, length, arith, pos,
}
use billiards_online.Protocol.{
  Json, Envelope, ErrorPayload, AuthSuccessPayload, encode, decode, new_error, new_auth_success,
  is_version, envelope, type_error, type_auth_success, wrap, version,
}
use billiards_online.Websocket.{Arrival, read_failed, binary_message, text_message, read}
use billiards_online.Websocket.Follows.{Op, send_op, close_after_drain_op, close_op, wake}
use billiards_online.Realtime.Router.{
  Connection, next_seq, send, send_if, report, handle_envelope, handle_decoded, handle, read_loop,
  serve,
}

-- A message of a type with a payload is encoded, and read back as it was.
abbrev pub ReadBack : Json → Text → ℕ → Option (List ℕ) → Type 0
ReadBack json name seq none = ⊥
ReadBack json name seq (some raw) =
    (bytes : List ℕ) × (encode json (envelope name seq [] raw) ≡ some bytes)
    × (decode json bytes ≡ some (envelope name seq [] raw))

-- encoding/json encodes strings and numbers of 64 bits without an error, and reads back what it
-- wrote.
pub record Reliable (json : Json) : Type 0 where
  pub errors :
      (p : ErrorPayload) (seq : ℕ)
      → seq < 2 ^ 64
      → ReadBack json type_error seq (json.marshal_error p)
  pub successes :
      (p : AuthSuccessPayload) (seq : ℕ)
      → seq < 2 ^ 64
      → ReadBack json type_auth_success seq (json.marshal_auth_success p)

-- The text frames before the first binary one or the first failure.
unfoldable pub frames_read : List Arrival → List (List ℕ)
frames_read (text_message frame ∷ arrivals) = frame ∷ frames_read arrivals
frames_read _ = []

-- What is handed to Send, as a client would read it. Not all of it need reach the client.
unfoldable pub offered : Json → List Op → List (Option Envelope)
unfolding decode
offered json [] = []
offered json (send_op bytes ∷ os) = decode json bytes ∷ offered json os
offered json (_ ∷ os) = offered json os

-- A message with the number and of this version.
abbrev pub Numbered : ℕ → Option Envelope → Type 0
Numbered n none = ⊥
Numbered n (some env) = (env.seq ≡ n) × (env.v ≡ pos version)

-- One message for each number, from the one after `n`, and no other.
abbrev pub CountUp : ℕ → List (Option Envelope) → Type 0
CountUp n [] = Unit {0}
CountUp n (m ∷ ms) = Numbered (n + 1) m × CountUp (n + 1) ms

pub next_seq-small : (seq : ℕ) → seq + 1 < 2 ^ 64 → next_seq seq ≡ seq + 1
unfolding next_seq
next_seq-small seq h = ground arith

offered-append :
    (json : Json) (os ps : List Op) → offered json (os ++ ps) ≡ offered json os ++ offered json ps
unfolding offered
offered-append json [] ps = refl
offered-append json (send_op bytes ∷ os) ps = ap (decode json bytes ∷◌) (offered-append json os ps)
offered-append json (close_after_drain_op code reason ∷ os) ps = offered-append json os ps
offered-append json (close_op code reason ∷ os) ps = offered-append json os ps
offered-append json (wake w ∷ os) ps = offered-append json os ps

-- One message of a number and nothing else.
abbrev Single : ℕ → List (Option Envelope) → Type 0
Single n ms = (m : Option Envelope) × (ms ≡ m ∷ []) × Numbered n m

pub send-encoded :
    (json : Json) (env : Envelope) (bytes : List ℕ)
    → encode json env ≡ some bytes
    → send json env ≡ send_op bytes ∷ []
unfolding send encode
send-encoded json env bytes e =
    let e' : json.marshal_envelope env ≡ some bytes = e in rw (e', send) refl

single :
    (json : Json) (name : Text) (seq : ℕ) (payload : Option (List ℕ))
    → ReadBack json name seq payload
    → Single seq (offered json (send_if json (wrap name seq [] payload)))
unfolding offered send_if wrap send
single json name seq none h = elim h [ ]
single json name seq (some raw) (bytes, sent, back) = (
  some (envelope name seq [] raw),
  ap (offered json) (send-encoded json _ bytes sent) ∙ ap (λ m. m ∷ []) back,
  (refl, refl),
)

module _ (json : Json) (reliable : Reliable json) where
  report-Single :
      (code message request_id : Text) (seq : ℕ)
      → seq + 1 < 2 ^ 64
      → Single (seq + 1) (offered json (report json code message request_id seq))
  unfolding report new_error
  report-Single code message request_id seq small =
      subst
        (λ n.
          Single (seq + 1) (offered json (send_if json (new_error json n code message request_id))))
        (sym (next_seq-small seq small))
        (single json type_error (seq + 1) _ (reliable.errors _ (seq + 1) small))

  -- A close that is queued behind is no message.
  closed-Single :
      (n code : ℕ) (reason : Text) (os : List Op)
      → Single n (offered json os)
      → Single n (offered json (os ++ (close_after_drain_op code reason ∷ [])))
  unfolding offered
  closed-Single n code reason os (m, e, numbered) =
      (m, offered-append json os _ ∙ append-nil _ ∙ e, numbered)

  handle_decoded-Single :
      (frame : Option Envelope) (seq : ℕ)
      → seq + 1 < 2 ^ 64
      → Single (seq + 1) (offered json (handle_decoded json frame seq))
  unfolding handle_decoded
  handle_decoded-Single none seq small = closed-Single _ _ _ _ (report-Single _ _ _ seq small)
  handle_decoded-Single (some env) seq small = elim (Bool-cases (is_version env.v)) [
    | inl current ↦ rw (current, handle_envelope) (report-Single _ _ _ seq small)
    | inr other ↦
        rw (other, handle_envelope) (closed-Single _ _ _ _ (report-Single _ _ _ seq small))
  ]

  -- Messages numbered from the one after `n`, one for each frame.
  abbrev OneEach : ℕ → ℕ → List (Option Envelope) → Type 0
  OneEach n k ms = CountUp n ms × (length ms ≡ k)

  put_first :
      (n k : ℕ) (first ms : List (Option Envelope))
      → Single (n + 1) first
      → OneEach (n + 1) k ms
      → OneEach n (ℕ.suc k) (first ++ ms)
  put_first n k first ms (m, e, numbered) (counted, all) =
      subst (λ f. OneEach n (ℕ.suc k) (f ++ ms)) (sym e) ((numbered, counted), ap ℕ.suc all)

  read_loop-OneEach :
      (arrivals : List Arrival) (c : Connection)
      → c.seq + length (frames_read arrivals) < 2 ^ 64
      → OneEach c.seq (length (frames_read arrivals)) (offered json (read_loop json arrivals c).0)
  unfolding read_loop offered handle read frames_read
  read_loop-OneEach [] c small = (tt, refl)
  read_loop-OneEach (read_failed ∷ arrivals) c small = (tt, refl)
  read_loop-OneEach (binary_message d ∷ arrivals) c small = (tt, refl)
  read_loop-OneEach (text_message frame ∷ arrivals) c small =
      let fits : c.seq + 1 < 2 ^ 64 = ground arith in
      let c' = record c { seq = next_seq c.seq } in
      let next : c'.seq ≡ c.seq + 1 = next_seq-small c.seq fits in
      let rest =
        subst
          (λ n.
            OneEach n (length (frames_read arrivals)) (offered json (read_loop json arrivals c').0))
          next (read_loop-OneEach arrivals c' (ground (arith, next))) in
      subst (OneEach c.seq (ℕ.suc (length (frames_read arrivals))))
        (sym (
          offered-append json (handle_decoded json (decode json frame) c.seq)
            (read_loop json arrivals c').0))
        (put_first c.seq _ _ _ (handle_decoded-Single (decode json frame) c.seq fits) rest)

  -- Whatever text frames a client sends, valid or not, what is handed to Send is one greeting and then
  -- one answer to each of them up to the first binary frame or failure, all of the current version
  -- and numbered 1, 2, 3 and so on without a gap, as long as fewer than 2^64 of them are needed.
  pub serve-CountUp :
      (user_id conn_id : Text) (arrivals : List Arrival)
      → length (frames_read arrivals) + 1 < 2 ^ 64
      → let ops =
          (serve json arrivals (record { user_id = user_id; conn_id = conn_id; seq = 0 })).0 in
        CountUp 0 (offered json ops)
        × (length (offered json ops) ≡ length (frames_read arrivals) + 1)
  unfolding serve new_auth_success next_seq
  serve-CountUp user_id conn_id arrivals small =
      let c : Connection = record { user_id = user_id; conn_id = conn_id; seq = 1 } in
      let greeting = single json type_auth_success 1 _ (
        reliable.successes (record { user_id = user_id; connection_id = conn_id }) 1
          (ground arith)) in
      let (counted, all) =
        subst (OneEach 0 (ℕ.suc (length (frames_read arrivals))))
          (sym (
            offered-append json (send_if json (new_auth_success json 1 user_id conn_id))
              (read_loop json arrivals c).0))
          (put_first 0 _ _ _ greeting (read_loop-OneEach arrivals c (ground arith))) in
      (counted, all ∙ ground arith)
