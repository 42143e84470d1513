-- ===== src/Websocket/Follows.antt =====
-- What was accepted beside what was written: Send, CloseAfterDrain and the pump's writes of
-- platform/websocket/conn.go.
use mathlib.Core.List.{append-nil, append_assoc}
use billiards_online.Base.{
  subst, ℕ, ◌+◌, ◌≤◌, ◌≡◌, refl, sym, ap, ◌∙◌, Bool, true, false, none, some, List, [], ◌∷◌, ◌++◌,
  Text, ltb, length, length-snoc, arith, Bool-cases, Option-cases, inl, inr,
}
use billiards_online.Websocket.{
  OutboundItem, Frame, text_frame, close_frame, Socket, Conn, offer, message, closing, send,
  close_after_drain, close, ws_close, Wake, pump, outbound_queue_size,
}

pub data Op : Type 0 where
  send_op : List ℕ → Op
  close_after_drain_op close_op : ℕ → Text → Op
  wake : Wake → Op

-- What one turn leaves, and the items that it got accepted.
abbrev pub taken : OutboundItem → Bool × Conn → List OutboundItem × Conn
taken i (true, c) = (i ∷ [], c)
taken i (false, c) = ([], c)

unfoldable pub apply : Op → Conn → List OutboundItem × Conn
apply (send_op msg) c = taken (message msg) (send msg c)
apply (close_after_drain_op code reason) c =
    taken (closing code reason) (close_after_drain code reason c)
apply (close_op code reason) c = ([], close code reason c)
apply (wake w) c = ([], pump w c)

-- All the items that were accepted, in order, and the connection afterwards.
unfoldable pub run : List Op → Conn → List OutboundItem × Conn
unfolding apply
run [] c = ([], c)
run (o ∷ os) c = let (log, c') = apply o c in let (rest, end) = run os c' in (log ++ rest, end)

-- The specification: the messages that come before the first close, in order.
unfoldable pub messages : List OutboundItem → List (List ℕ)
messages [] = []
messages (i ∷ is) = elim i.bytes [ none ↦ [] | some d ↦ d ∷ messages is ]

unfoldable pub texts : List Frame → List (List ℕ)
texts [] = []
texts (text_frame d ∷ fs) = d ∷ texts fs
texts (close_frame code reason ∷ fs) = texts fs

-- A connection that has accepted a log. While the pump runs, what is not yet written is in the
-- queue, whatever is accepted later; after it has returned, what was written stays a beginning.
pub record Follows (log : List OutboundItem) (c : Conn) : Type 0 where
  pub running :
      c.done ≡ false
      → (more : List OutboundItem)
      → messages (log ++ more) ≡ texts c.ws.frames ++ messages (c.outbound ++ more)
  pub written : (rest : List (List ℕ)) × (messages log ≡ texts c.ws.frames ++ rest)
  pub bounded : length c.outbound ≤ outbound_queue_size

messages-append :
    (log is : List OutboundItem)
    → (rest : List (List ℕ)) × (messages (log ++ is) ≡ messages log ++ rest)
unfolding messages
messages-append [] is = (messages is, refl)
messages-append (i ∷ log) is = elim (Option-cases i.bytes) [
  | inl none_given ↦ rw none_given ([], refl)
  | inr (d, given) ↦ let (rest, e) = messages-append log is in rw given (rest, ap (d ∷◌) e)
]

texts-append : (fs gs : List Frame) → texts (fs ++ gs) ≡ texts fs ++ texts gs
unfolding texts
texts-append [] gs = refl
texts-append (text_frame d ∷ fs) gs = ap (d ∷◌) (texts-append fs gs)
texts-append (close_frame k r ∷ fs) gs = texts-append fs gs

pub texts-ws_close :
    (code : ℕ) (reason : Text) (s : Socket) → texts (ws_close code reason s).frames ≡ texts s.frames
unfolding ws_close texts
texts-ws_close code reason s = elim (Bool-cases s.closed) [
  | inl shut ↦ rw shut refl
  | inr unshut ↦ rw unshut (texts-append s.frames _ ∙ append-nil _)
]

-- An item that is accepted.
accepted :
    (log : List OutboundItem) (i : OutboundItem) (c : Conn)
    → Follows log c
    → length c.outbound + 1 ≤ outbound_queue_size
    → Follows (log ++ (i ∷ [])) (record c { outbound = c.outbound ++ (i ∷ []) })
accepted log i c f room = record {
  running = λ going more.
      ap messages (append_assoc log (i ∷ []) more)
      ∙ f.running going (i ∷ more)
      ∙ ap (λ is. texts c.ws.frames ++ messages is) (sym (append_assoc c.outbound (i ∷ []) more));
  written =
      let (rest, e) = f.written in
      let (rest', e') = messages-append log (i ∷ []) in
      (rest ++ rest', e' ∙ ap (λ ms. ms ++ rest') e ∙ append_assoc (texts c.ws.frames) rest rest');
  bounded = ground (arith, length-snoc c.outbound i);
}

abbrev pub FollowsOn : List OutboundItem → List OutboundItem × Conn → Type 0
FollowsOn log r = Follows (log ++ r.0) r.1

pub unchanged : {log : List OutboundItem} {c : Conn} → Follows log c → Follows (log ++ []) c
unchanged {log} {c} f = subst (λ l. Follows l c) (sym (append-nil log)) f

pub offer-Follows :
    (log : List OutboundItem) (i : OutboundItem) (c : Conn)
    → Follows log c
    → FollowsOn log (taken i (offer i c))
unfolding offer
offer-Follows log i c f = elim (Bool-cases (ltb (length c.outbound) outbound_queue_size)) [
  | inl room ↦ rw room (accepted log i c f (ground arith))
  | inr none_left ↦
      rw none_left
        (unchanged (record { running = f.running; written = f.written; bounded = f.bounded }))
]

pub close-Follows :
    (log : List OutboundItem) (code : ℕ) (reason : Text) (c : Conn)
    → Follows log c
    → Follows log (close code reason c)
unfolding close
close-Follows log code reason c f = record {
  running = λ going more.
      f.running going more
      ∙ ap (λ ts. ts ++ messages (c.outbound ++ more)) (sym (texts-ws_close code reason c.ws));
  written =
      let (rest, e) = f.written in
      (rest, e ∙ ap (λ ts. ts ++ rest) (sym (texts-ws_close code reason c.ws)));
  bounded = f.bounded;
}

-- A close instruction ends the messages.
messages-close :
    (i : OutboundItem) (is : List OutboundItem) → i.bytes ≡ none → messages (i ∷ is) ≡ []
unfolding messages
messages-close i is e = rw e refl

messages-data :
    (i : OutboundItem) (is : List OutboundItem) (d : List ℕ)
    → i.bytes ≡ some d
    → messages (i ∷ is) ≡ d ∷ messages is
unfolding messages
messages-data i is d e = rw e refl

-- Whatever the connection accepted, what is on the wire begins it.
so_far :
    {log : List OutboundItem} {c : Conn}
    → Follows log c
    → (w : Socket) → texts w.frames ≡ texts c.ws.frames
    → (rest : List (List ℕ)) × (messages log ≡ texts w.frames ++ rest)
so_far f w same = let (rest, e) = f.written in (rest, e ∙ ap (λ ts. ts ++ rest) (sym same))

-- The pump returns.
pub returned :
    (log : List OutboundItem) (c : Conn) (w : Socket) (is : List OutboundItem)
    → Follows log c
    → texts w.frames ≡ texts c.ws.frames
    → length is ≤ length c.outbound
    → Follows log (record c { ws = w; outbound = is; done = true })
returned log c w is f same fewer = record {
  running = λ going. absurd (cc going);
  written = so_far f w same;
  bounded = ground (arith, f.bounded);
}

pub wrote :
    (log : List OutboundItem) (c : Conn) (i : OutboundItem) (is : List OutboundItem) (d : List ℕ)
    (shut : Bool)
    → Follows log c
    → c.done ≡ false
    → c.outbound ≡ i ∷ is
    → i.bytes ≡ some d
    → Follows log (record c {
      ws = record { frames = c.ws.frames ++ (text_frame d ∷ []); closed = shut };
      outbound = is;
    })
unfolding texts
wrote log c i is d shut f going some_item given =
    let step : (more : List OutboundItem)
        → messages (log ++ more)
          ≡ texts (c.ws.frames ++ (text_frame d ∷ [])) ++ messages (is ++ more) =
      λ more.
        f.running going more
        ∙ ap (λ q. texts c.ws.frames ++ messages (q ++ more)) some_item
        ∙ ap (λ ms. texts c.ws.frames ++ ms) (messages-data i (is ++ more) d given)
        ∙ sym (append_assoc (texts c.ws.frames) (d ∷ []) (messages (is ++ more)))
        ∙ ap (λ ts. ts ++ messages (is ++ more))
            (sym (texts-append c.ws.frames (text_frame d ∷ []))) in
    record {
      running = λ going' more. step more;
      written = (messages (is ++ []), ap messages (sym (append-nil log)) ∙ step []);
      bounded = ground (arith, f.bounded, ap length some_item);
    }
