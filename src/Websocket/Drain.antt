-- ===== src/Websocket/Drain.antt =====
-- The explanation and then the close: what a queue comes to when its socket works, in
-- platform/websocket/conn.go.
use mathlib.Core.List.{append-nil, append_assoc}
use billiards_online.Base.{
  ℕ, ◌⊎◌, Text, ◌≤◌, ◌≡◌, refl, sym, ap, ◌∙◌, Bool, true, false, none, some, List, [], ◌∷◌, ◌++◌,
  if◌then◌else◌, length, arith, Option-cases, inl, inr,
}
use billiards_online.Websocket.{
  OutboundItem, Frame, text_frame, close_frame, Conn, ws_close, Wake, item, write_item, turn, pump,
}

-- The frames that a queue stands for: each message, up to the first close and with it.
unfoldable pub frames_of : List OutboundItem → List Frame
frames_of [] = []
frames_of (i ∷ is) = elim i.bytes [
  | none ↦ close_frame i.close_code i.close_reason ∷ []
  | some d ↦ text_frame d ∷ frames_of is
]

-- The pump takes this many times from the queue, and the socket works.
unfoldable pub drain : ℕ → Conn → Conn
drain ℕ.zero c = c
drain (ℕ.suc n) c = drain n (pump (item true) c)

pump-if : (w : Wake) (c : Conn) (b : Bool) → c.done ≡ b → pump w c ≡ (if b then c else turn w c)
unfolding pump
pump-if w c b e = go c.done b e
  where
    go : (a b : Bool) → a ≡ b → (if a then c else turn w c) ≡ (if b then c else turn w c)
    go a b e = ap (λ x. if x then c else turn w c) e

drain-done : (n : ℕ) (c : Conn) → c.done ≡ true → drain n c ≡ c
unfolding drain
drain-done ℕ.zero c over = refl
drain-done (ℕ.suc n) c over = ap (drain n) (pump-if _ c true over) ∙ drain-done n c over

-- A turn by what stands first in the queue.
turn-none :
    (c : Conn) (i : OutboundItem) (is : List OutboundItem)
    → c.outbound ≡ i ∷ is
    → i.bytes ≡ none
    → turn (item true) c
      ≡ record c { ws = ws_close i.close_code i.close_reason c.ws; outbound = is; done = true }
unfolding turn write_item
turn-none c i is e given = rw e (rw given refl)

turn-some :
    (c : Conn) (i : OutboundItem) (is : List OutboundItem) (d : List ℕ)
    → c.outbound ≡ i ∷ is
    → i.bytes ≡ some d
    → c.ws.closed ≡ false
    → turn (item true) c ≡ record c {
      ws = record { frames = c.ws.frames ++ (text_frame d ∷ []); closed = false };
      outbound = is;
    }
unfolding turn write_item
turn-some c i is d e given works = rw e (rw given (rw works refl))

frames_of-none :
    (i : OutboundItem) (is : List OutboundItem)
    → i.bytes ≡ none
    → frames_of (i ∷ is) ≡ close_frame i.close_code i.close_reason ∷ []
unfolding frames_of
frames_of-none i is e = rw e refl

frames_of-some :
    (i : OutboundItem) (is : List OutboundItem) (d : List ℕ)
    → i.bytes ≡ some d
    → frames_of (i ∷ is) ≡ text_frame d ∷ frames_of is
unfolding frames_of
frames_of-some i is d e = rw e refl

closed-frames :
    (c : Conn) (code : ℕ) (reason : Text)
    → c.ws.closed ≡ false
    → (ws_close code reason c.ws).frames ≡ c.ws.frames ++ (close_frame code reason ∷ [])
unfolding ws_close
closed-frames c code reason works = rw works refl

List-cases :
    (q : List OutboundItem)
    → (q ≡ []) ⊎ ((i : OutboundItem) × (is : List OutboundItem) × (q ≡ i ∷ is))
List-cases [] = inl refl
List-cases (i ∷ is) = inr (i, is, refl)

turn-empty : (c : Conn) → c.outbound ≡ [] → turn (item true) c ≡ c
unfolding turn
turn-empty c e = rw e refl

drain-empty : (n : ℕ) (c : Conn) → c.done ≡ false → c.outbound ≡ [] → drain n c ≡ c
unfolding drain
drain-empty ℕ.zero c going e = refl
drain-empty (ℕ.suc n) c going e =
    ap (drain n) (pump-if _ c false going ∙ turn-empty c e) ∙ drain-empty n c going e

-- The first turn of a drain.
drain-turn :
    (n : ℕ) (c c' : Conn)
    → c.done ≡ false
    → turn (item true) c ≡ c'
    → drain (ℕ.suc n) c ≡ drain n c'
unfolding drain
drain-turn n c c' going e = ap (drain n) (pump-if _ c false going ∙ e)

nothing_left :
    (n : ℕ) (c : Conn)
    → c.done ≡ false
    → c.outbound ≡ []
    → (drain n c).ws.frames ≡ c.ws.frames ++ frames_of c.outbound
unfolding frames_of
nothing_left n c going e =
    ap (λ (d : Conn). d.ws.frames) (drain-empty n c going e)
    ∙ sym (append-nil c.ws.frames)
    ∙ ap (λ q. c.ws.frames ++ frames_of q) (sym e)

length-zero : (q : List OutboundItem) → length q ≤ 0 → q ≡ []
length-zero [] h = refl
length-zero (i ∷ is) h = ground arith

-- What was said is delivered before the connection is closed: as long as the socket works, a
-- pump that runs needs no more turns than the queue has items to put on the wire, in order, every
-- message of the queue up to the first queued close, and then the frame of that close.
pub drain-delivers :
    (n : ℕ) (c : Conn)
    → c.done ≡ false
    → c.ws.closed ≡ false
    → length c.outbound ≤ n
    → (drain n c).ws.frames ≡ c.ws.frames ++ frames_of c.outbound
drain-delivers ℕ.zero c going works enough =
    nothing_left 0 c going (ground (arith, length-zero c.outbound))
drain-delivers (ℕ.suc n) c going works enough = elim (List-cases c.outbound) [
  | inl e ↦ nothing_left (ℕ.suc n) c going e
  | inr (i, is, e) ↦ elim (Option-cases i.bytes) [
    | inl given ↦
        let after = ws_close i.close_code i.close_reason c.ws in
        ap (λ (d : Conn). d.ws.frames)
          (drain-turn n c _ going (turn-none c i is e given)
            ∙ drain-done n (record c { ws = after; outbound = is; done = true }) refl)
        ∙ closed-frames c i.close_code i.close_reason works
        ∙ ap (λ fs. c.ws.frames ++ fs) (sym (ap frames_of e ∙ frames_of-none i is given))
    | inr (d, given) ↦
        let c' = record c {
          ws = record { frames = c.ws.frames ++ (text_frame d ∷ []); closed = false };
          outbound = is;
        } in
        ap (λ (d : Conn). d.ws.frames) (drain-turn n c c' going (turn-some c i is d e given works))
        ∙ drain-delivers n c' going refl (ground (arith, enough, ap length e))
        ∙ append_assoc c.ws.frames (text_frame d ∷ []) (frames_of is)
        ∙ ap (λ fs. c.ws.frames ++ fs) (sym (ap frames_of e ∙ frames_of-some i is d given))
  ]
]
