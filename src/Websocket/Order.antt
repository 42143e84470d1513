-- ===== src/Websocket/Order.antt =====
-- What the peer receives of what was accepted: Send, CloseAfterDrain and writePump of
-- platform/websocket/conn.go, over any sequence of their turns.
use mathlib.Core.List.{append-nil, append_assoc}
use billiards_online.Base.{
  subst, ℕ, ◌≤◌, ◌≡◌, refl, sym, ap, ◌∙◌, Bool, true, false, not, ◌&&◌, List, [], ◌∷◌, ◌++◌,
  if◌then◌else◌, length, arith, Bool-cases, Option-cases, inl, inr,
}
use billiards_online.Websocket.{
  OutboundItem, Conn, accept, message, closing, send, close_after_drain, Wake, cancelled, item,
  ping, write_item, turn, pump, outbound_queue_size,
}
use billiards_online.Websocket.Follows.{
  Op, send_op, close_after_drain_op, close_op, wake, apply, run, messages, texts, Follows,
  FollowsOn, returned, wrote, offer-Follows, close-Follows, unchanged, texts-ws_close,
}

write_item-Follows :
    (log : List OutboundItem) (works : Bool) (c : Conn) (i : OutboundItem) (is : List OutboundItem)
    → Follows log c
    → c.done ≡ false
    → c.outbound ≡ i ∷ is
    → Follows log (write_item works i (record c { outbound = is }))
unfolding write_item
write_item-Follows log works c i is f going some_item =
    let fewer : length is ≤ length c.outbound = ground (arith, ap length some_item) in
    elim (Option-cases i.bytes) [
      | inl none_given ↦
          rw none_given
            (returned log c _ is f (texts-ws_close i.close_code i.close_reason c.ws) fewer)
      | inr (d, given) ↦ rw given (elim (Bool-cases (works && not c.ws.closed)) [
        | inl can ↦ rw can (wrote log c i is d false f going some_item given)
        | inr cannot ↦ rw cannot (returned log c c.ws is f refl fewer)
      ])
    ]

turn-Follows :
    (log : List OutboundItem) (w : Wake) (c : Conn)
    → Follows log c
    → c.done ≡ false
    → Follows log (turn w c)
unfolding turn
turn-Follows log cancelled c f going = returned log c c.ws c.outbound f refl (ground arith)
turn-Follows log (ping works) c f going = elim (Bool-cases (works && not c.ws.closed)) [
  | inl answered ↦ rw answered f
  | inr silent ↦ rw silent (returned log c c.ws c.outbound f refl (ground arith))
]
turn-Follows log (item works) c f going = go c.outbound refl
  where
    go :
        (q : List OutboundItem)
        → c.outbound ≡ q
        → Follows log (elim q [ [] ↦ c | i ∷ is ↦ write_item works i (record c { outbound = is }) ])
    go [] e = f
    go (i ∷ is) e = write_item-Follows log works c i is f going e

pump-Follows :
    (log : List OutboundItem) (w : Wake) (c : Conn) → Follows log c → Follows log (pump w c)
unfolding pump
pump-Follows log w c f = go c.done refl
  where
    go : (b : Bool) → c.done ≡ b → Follows log (if b then c else turn w c)
    go true e = f
    go false e = turn-Follows log w c f e

apply-Follows :
    (log : List OutboundItem) (o : Op) (c : Conn) → Follows log c → FollowsOn log (apply o c)
unfolding apply send close_after_drain
apply-Follows log (send_op msg) c f = offer-Follows log (message msg) c f
apply-Follows log (close_after_drain_op code reason) c f =
    offer-Follows log (closing code reason) c f
apply-Follows log (close_op code reason) c f = unchanged (close-Follows log code reason c f)
apply-Follows log (wake w) c f = unchanged (pump-Follows log w c f)

run-Follows :
    (log : List OutboundItem) (os : List Op) (c : Conn) → Follows log c → FollowsOn log (run os c)
unfolding run
run-Follows log [] c f = unchanged f
run-Follows log (o ∷ os) c f =
    subst (λ l. Follows l (run os (apply o c).1).1)
      (append_assoc log (apply o c).0 (run os (apply o c).1).0)
      (run-Follows (log ++ (apply o c).0) os (apply o c).1 (apply-Follows log o c f))

accept-Follows : Follows [] accept
unfolding texts messages
accept-Follows = record {
  running = λ going more. refl;
  written = ([], refl);
  bounded = ground arith;
}

in_queue :
    (log : List OutboundItem) (c : Conn)
    → Follows log c
    → (rest : List (List ℕ)) × (messages log ≡ texts c.ws.frames ++ rest)
      × (c.done ≡ false → rest ≡ messages c.outbound)
in_queue log c f = elim (Bool-cases c.done) [
  | inl over ↦ let (rest, e) = f.written in (rest, e, λ going. absurd (cc (sym over ∙ going)))
  | inr going ↦ (
    messages c.outbound,
    ap messages (sym (append-nil log))
        ∙ f.running going []
        ∙ ap (λ q. texts c.ws.frames ++ messages q) (append-nil c.outbound),
    λ _. refl,
  )
]

-- A connection is a queue that loses nothing in the middle and reorders nothing: after any
-- sequence of sends, closes and turns of the write pump, whatever the socket does, the messages
-- on the wire are the first of the messages that were accepted before the first queued close, in
-- the order in which they were accepted; while the pump runs, the others are those in the queue,
-- in that order; and never more than 64 items wait.
pub run-refines :
    (os : List Op)
    → let (log, c) = run os accept in
      (rest : List (List ℕ)) × (messages log ≡ texts c.ws.frames ++ rest)
      × (c.done ≡ false → rest ≡ messages c.outbound)
      × (length c.outbound ≤ outbound_queue_size)
run-refines os =
    let f = run-Follows [] os accept accept-Follows in
    let (rest, e, q) = in_queue (run os accept).0 (run os accept).1 f in (rest, e, q, f.bounded)
