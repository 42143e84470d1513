-- ===== src/Realtime/Rising.antt =====
-- The numbers that a client sees: `serve` of internal/realtime/router.go over the queue and the write
-- pump of platform/websocket/conn.go, which may refuse a message or stop before it is written.
use billiards_online.Base.{
  subst, ℕ, ◌+◌, ◌<◌, ◌≤◌, ◌^◌, ◌≡◌, refl, sym, ap, ◌∙◌, Bool, true, false, Option, none, some,
  List, [], ◌∷◌, ◌++◌, Text, length, map, arith, pos,
}
use billiards_online.Protocol.{Json, Envelope, decode, version}
use billiards_online.Websocket.{
  Arrival, Conn, OutboundItem, accept, send, close_after_drain, close, pump, message, closing,
}
use billiards_online.Websocket.Follows.{
  Op, send_op, close_after_drain_op, close_op, wake, taken, apply, run, messages, texts,
}
use billiards_online.Websocket.Order.{run-refines}
use billiards_online.Realtime.Router.{serve}
use billiards_online.Realtime.Numbering.{
  Reliable, frames_read, offered, Numbered, CountUp, serve-CountUp,
}

-- Messages of the current version whose numbers rise, above `n` and up to `top`.
abbrev pub Rising : ℕ → ℕ → List (Option Envelope) → Type 0
Rising n top [] = Unit {0}
Rising n top (m ∷ ms) =
    (env : Envelope) × (m ≡ some env)
    × (n < env.seq)
    × (env.seq ≤ top)
    × (env.v ≡ pos version)
    × Rising env.seq top ms

-- What the reading goroutine asks of its connection; a `close_op` is the watcher's.
unfoldable pub spoken : List Op → List Op
spoken [] = []
spoken (send_op bytes ∷ os) = send_op bytes ∷ spoken os
spoken (close_after_drain_op code reason ∷ os) = close_after_drain_op code reason ∷ spoken os
spoken (close_op code reason ∷ os) = spoken os
spoken (wake w ∷ os) = spoken os

offered-spoken : (json : Json) (os : List Op) → offered json os ≡ offered json (spoken os)
unfolding offered spoken
offered-spoken json [] = refl
offered-spoken json (send_op bytes ∷ os) = ap (decode json bytes ∷◌) (offered-spoken json os)
offered-spoken json (close_after_drain_op code reason ∷ os) = offered-spoken json os
offered-spoken json (close_op code reason ∷ os) = offered-spoken json os
offered-spoken json (wake w ∷ os) = offered-spoken json os

Rising-lower :
    (n above top : ℕ) (ms : List (Option Envelope))
    → n ≤ above
    → Rising above top ms
    → Rising n top ms
Rising-lower n above top [] h r = tt
Rising-lower n above top (m ∷ ms) h (env, e, low, high, v, rest) =
    (env, e, omega (arith, low), high, v, rest)

Rising-cons :
    (n top : ℕ) (m : Option Envelope) (ms : List (Option Envelope))
    → Numbered (n + 1) m
    → n + 1 ≤ top
    → Rising (n + 1) top ms
    → Rising n top (m ∷ ms)
Rising-cons n top none ms h k r = elim h [ ]
Rising-cons n top (some env) ms (number, v) k r = (
  env,
  refl,
  omega (arith, number),
  omega (arith, number),
  v,
  subst (λ i. Rising i top ms) (sym number) r,
)

Rising-front :
    (json : Json) (n top : ℕ) (xs ys : List (List ℕ))
    → Rising n top (map (decode json) (xs ++ ys))
    → Rising n top (map (decode json) xs)
Rising-front json n top [] ys r = tt
Rising-front json n top (x ∷ xs) ys (env, e, low, high, v, rest) =
    (env, e, low, high, v, Rising-front json env.seq top xs ys rest)

module _ (json : Json) (os : List Op) (n top : ℕ) where
  -- What is accepted of the operations, with what an operation before them has accepted.
  abbrev RisingAfter : OutboundItem → Bool × Conn → Type 0
  RisingAfter i r =
      Rising n top (map (decode json) (messages ((taken i r).0 ++ (run os (taken i r).1).0)))

  send-Rising :
      (msg : List ℕ) (r : Bool × Conn)
      → Numbered (n + 1) (decode json msg)
      → n + 1 ≤ top
      → ((c : Conn) → Rising (n + 1) top (map (decode json) (messages (run os c).0)))
      → RisingAfter (message msg) r
  unfolding messages
  send-Rising msg (true, c) first h rest = Rising-cons n top (decode json msg) _ first h (rest c)
  send-Rising msg (false, c) first h rest = Rising-lower n (n + 1) top _ (omega arith) (rest c)

  close-Rising :
      (code : ℕ) (reason : Text) (r : Bool × Conn)
      → ((c : Conn) → Rising n top (map (decode json) (messages (run os c).0)))
      → RisingAfter (closing code reason) r
  unfolding messages
  close-Rising code reason (true, c) rest = tt
  close-Rising code reason (false, c) rest = rest c

-- Whatever is refused and whenever the queue is closed, what is accepted before that rises.
run-Rising :
    (json : Json) (os : List Op) (c : Conn) (n top : ℕ)
    → CountUp n (offered json os)
    → n + length (offered json os) ≤ top
    → Rising n top (map (decode json) (messages (run os c).0))
unfolding run apply messages offered
run-Rising json [] c n top h k = tt
run-Rising json (send_op msg ∷ os) c n top (first, h) k =
    send-Rising json os n top msg (send msg c) first (omega (arith, k))
      λ c'. run-Rising json os c' (n + 1) top h (omega (arith, k))
run-Rising json (close_after_drain_op code reason ∷ os) c n top h k =
    close-Rising json os n top code reason (close_after_drain code reason c)
      λ c'. run-Rising json os c' n top h k
run-Rising json (close_op code reason ∷ os) c n top h k =
    run-Rising json os (close code reason c) n top h k
run-Rising json (wake w ∷ os) c n top h k = run-Rising json os (pump w c) n top h k

module _ (json : Json) (reliable : Reliable json) where
  -- The client never sees a number twice or out of order: whatever it sends, however the calls of
  -- `serve` interleave with the pump and with closes by the watcher, whatever the full queue refuses
  -- and whatever the socket does, the messages that are written to it are of the current version, and
  -- their numbers rise and are at most one more than the text frames that were read, as long as
  -- fewer than 2^64 numbers are needed.
  pub serve-Rising :
      (user_id conn_id : Text) (arrivals : List Arrival) (os : List Op)
      → length (frames_read arrivals) + 1 < 2 ^ 64
      → spoken os
        ≡ (serve json arrivals (record { user_id = user_id; conn_id = conn_id; seq = 0 })).0
      → Rising 0
          (length (frames_read arrivals) + 1)
          (map (decode json) (texts (run os accept).1.ws.frames))
  serve-Rising user_id conn_id arrivals os small said =
      let top = length (frames_read arrivals) + 1 in
      let same = offered-spoken json os ∙ ap (offered json) said in
      let (counted, all) = serve-CountUp json reliable user_id conn_id arrivals small in
      let (rest, e, waiting, bound) = run-refines os in
      Rising-front json 0 top (texts (run os accept).1.ws.frames) rest (
        subst (λ ms. Rising 0 top (map (decode json) ms)) e
          (run-Rising json os accept 0 top (subst (CountUp 0) (sym same) counted)
            (omega (arith, ap length same, all))))
