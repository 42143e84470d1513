-- ===== src/Websocket.antt =====
-- platform/websocket/conn.go: the bounded queue of a connection, and the pump that writes it to the
-- socket. The socket is that of coder/websocket: Close may be called again without effect, and
-- a Write or a Ping on a closed socket fails; whether they fail otherwise is given, as is what a
-- Read gives. An accepted message is one that is not nil, as are those that Encode returns.
pub mod Follows
pub mod Order
pub mod Drain
mod Tests
use billiards_online.Base.{
  ℕ, Bool, true, false, not, ◌&&◌, Option, none, some, List, [], ◌∷◌, ◌++◌, Text, ltb,
  if◌then◌else◌, length,
}

abbrev pub outbound_queue_size : ℕ
outbound_queue_size = 64

abbrev pub status_slow_client : ℕ
status_slow_client = 3000

-- `data` is `none`, Go's nil, for an instruction to close.
pub record OutboundItem : Type 0 where
  pub bytes : Option (List ℕ)
  pub close_code : ℕ
  pub close_reason : Text

abbrev pub is_close : OutboundItem → Bool
is_close i = elim i.bytes [ none ↦ true | some d ↦ false ]

-- What the peer gets.
pub data Frame : Type 0 where
  text_frame : List ℕ → Frame
  close_frame : ℕ → Text → Frame

pub record Socket : Type 0 where
  pub frames : List Frame
  pub closed : Bool

pub record Conn : Type 0 where
  pub ws : Socket
  pub outbound : List OutboundItem
  -- channels that are only ever closed
  pub full : Bool
  pub done : Bool

-- Accept
abbrev pub accept : Conn
accept = record {
  ws = record { frames = []; closed = false };
  outbound = [];
  full = false;
  done = false;
}

-- The non-blocking send on the channel, with `fullOnce`.
unfoldable pub offer : OutboundItem → Conn → Bool × Conn
offer i c =
    if ltb (length c.outbound) outbound_queue_size
    then (true, record c { outbound = c.outbound ++ (i ∷ []) })
    else (false, record c { full = true })

abbrev pub message : List ℕ → OutboundItem
message msg = record { bytes = some msg; close_code = 0; close_reason = [] }

abbrev pub closing : ℕ → Text → OutboundItem
closing code reason = record { bytes = none; close_code = code; close_reason = reason }

unfoldable pub send : List ℕ → Conn → Bool × Conn
unfolding offer
send msg c = offer (message msg) c

unfoldable pub close_after_drain : ℕ → Text → Conn → Bool × Conn
unfolding offer
close_after_drain code reason c = offer (closing code reason) c

-- The socket's own Close and Write.
unfoldable pub ws_close : ℕ → Text → Socket → Socket
ws_close code reason s =
    if s.closed
    then s
    else record { frames = s.frames ++ (close_frame code reason ∷ []); closed = true }

unfoldable pub close : ℕ → Text → Conn → Conn
unfolding ws_close
close code reason c = record c { ws = ws_close code reason c.ws }

-- What the socket's Read gives.
pub data Arrival : Type 0 where
  read_failed : Arrival
  binary_message text_message : List ℕ → Arrival

-- Read; its errors are not told apart.
unfoldable pub read : Arrival → Option (List ℕ)
read read_failed = none
read (binary_message d) = none
read (text_message d) = some d

-- What wakes the pump: the context's end, an item of the queue, or the ticker; with whether
-- the call of the socket works.
pub data Wake : Type 0 where
  cancelled : Wake
  item ping : Bool → Wake

-- One item taken from the queue.
unfoldable pub write_item : Bool → OutboundItem → Conn → Conn
unfolding ws_close
write_item works i c = elim i.bytes [
  | none ↦ record c { ws = ws_close i.close_code i.close_reason c.ws; done = true }
  | some d ↦
      if works && not c.ws.closed
      then record c { ws = record { frames = c.ws.frames ++ (text_frame d ∷ []); closed = false } }
      else record c { done = true }
]

-- A turn of `writePump`'s loop; with an empty queue there is nothing to take.
unfoldable pub turn : Wake → Conn → Conn
unfolding write_item
turn cancelled c = record c { done = true }
turn (ping works) c = if works && not c.ws.closed then c else record c { done = true }
turn (item works) c = elim c.outbound [
  | [] ↦ c
  | i ∷ is ↦ write_item works i (record c { outbound = is })
]

-- The pump, which has returned once `done` is closed.
unfoldable pub pump : Wake → Conn → Conn
unfolding turn
pump w c = if c.done then c else turn w c
