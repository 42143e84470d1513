-- ===== src/Websocket/Tests.antt =====
-- A connection at concrete inputs.
use billiards_online.Base.{ℕ, ◌≤◌, ◌≡◌, refl, true, false, List, [], ◌∷◌, ◌++◌, length, arith}
use billiards_online.Websocket.{
  Conn, accept, message, closing, text_frame, close_frame, item, send, close_after_drain, offer,
  pump,
}
use billiards_online.Websocket.Follows.{
  Op, send_op, close_after_drain_op, wake, run, messages, texts,
}
use billiards_online.Websocket.Order.{run-refines}
use billiards_online.Websocket.Drain.{drain, frames_of, drain-delivers}

-- Two messages, a turn of the pump, a close, a message after it, and a failing write.
abbrev story : List Op
story =
    send_op (1 ∷ [])
    ∷ send_op (2 ∷ [])
    ∷ wake (item true)
    ∷ close_after_drain_op 1003 []
    ∷ send_op (3 ∷ [])
    ∷ wake (item false)
    ∷ []

story_log : messages (run story accept).0 ≡ (1 ∷ []) ∷ (2 ∷ []) ∷ []
unfolding messages run send close_after_drain pump offer
story_log = refl

story_wire : texts (run story accept).1.ws.frames ≡ (1 ∷ []) ∷ []
unfolding texts run send close_after_drain pump offer
story_wire = refl

run-refines_example :
    (rest : List (List ℕ)) × (messages (run story accept).0
      ≡ texts (run story accept).1.ws.frames ++ rest)
    × ((run story accept).1.done ≡ false → rest ≡ messages (run story accept).1.outbound)
    × (length (run story accept).1.outbound ≤ 64)
run-refines_example = run-refines story

abbrev explained : Conn
explained = record accept { outbound = message (7 ∷ []) ∷ closing 1003 [] ∷ message (8 ∷ []) ∷ [] }

drain-delivers_example :
    (drain 3 explained).ws.frames ≡ text_frame (7 ∷ []) ∷ close_frame 1003 [] ∷ []
unfolding frames_of
drain-delivers_example = drain-delivers 3 explained refl refl (ground arith)
