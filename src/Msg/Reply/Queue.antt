-- ===== src/Msg/Reply/Queue.antt =====
-- When a client's connection is done (`req_recv_next` and `client_active`).
use gfwproxy.Base.{◌≡◌, ◌↔◌, ◌⊎◌, Bool, true, false, none, [], arith}
use gfwproxy.Msg.{World, Conn, Sys, msg_get}
use gfwproxy.Msg.Reply.{client_active, req_recv_next}

-- Nobody waits for anything on the connection.
abbrev pub Idle : Conn → Type 0
Idle c = (c.eof ≡ true) × (c.omsg_q ≡ []) × (c.smsg ≡ none)

-- After `req_recv_next` a client's connection is done exactly if it was done before, or its input has
-- ended and neither a request nor an answer that is being sent is outstanding; and at the end of the
-- input no message is read into or left half read.
pub req_recv_next-done :
    (sys : Sys) (alloc : Bool) (c : Conn) (w : World)
    → (((req_recv_next sys alloc c w).1.done ≡ true) ↔ ((c.done ≡ true) ⊎ Idle c))
      × ((c.eof ≡ false)
          ⊎ (((req_recv_next sys alloc c w).0 ≡ none)
              × ((req_recv_next sys alloc c w).1.rmsg ≡ none)))
unfolding req_recv_next client_active msg_get
req_recv_next-done sys alloc c w = (ground arith, ground arith)
