-- ===== src/Stream/Tests.antt =====
-- Messages on their way to a server, for the witnesses: message 1 has two buffers, the first of them
-- partly sent, and message 2 has one.
use gfwproxy.Base.{
  ℕ, ◌^◌, ◌≡◌, refl, inl, inr, true, false, none, some, List, [], ◌∷◌, ◌++◌, ltb, leb, ◌==◌,
  if◌then◌else◌, ltb→lt, leb→le, Bool-cases, length, take,
}
use gfwproxy.Status.{Status, gf_ok}
use gfwproxy.Mbuf.{Mbuf, mbuf_init}
use gfwproxy.Msg.{Msg, World, Conn, Sys, no_msg}
use gfwproxy.Msg.Send.Order.{ready}
use gfwproxy.Conns.{no_conn}
use gfwproxy.Msg.Send.{req_send_next, req_send_done}
use gfwproxy.Msg.Reply.{rsp_recv_next}
use gfwproxy.Stream.{Answer, did, interrupted, moved, Handlers, parse_again, conn_sendv, conn_recv}
use gfwproxy.Stream.Send.{
  Sendv, gather, gather_mbufs, set_mhdr, send_out, settle, adjust, msg_send_chain, nothing,
}
use gfwproxy.Stream.Cuts.{flat}
use gfwproxy.Stream.Gather.{Fits}
use gfwproxy.Stream.Pending.{Ready, pending}
use gfwproxy.Stream.Sent.{msg_send_chain-stream}
use gfwproxy.Stream.ToServer.{ToServer, ToServer-Quiet, msg_send_chain-returns}
use gfwproxy.Stream.Parse.{Second, msg_parsed-Second}

abbrev sys : Sys
sys = record { epoll_ctl = none; alloc = some 9; has_memory = true; errno = 12 }

abbrev stay : Conn → World → Conn × World
stay c w = (c, w)

abbrev handlers : Handlers
handlers = record {
  recv_next = λ alloc c w. some (rsp_recv_next sys alloc c w);
  recv_done = λ m n c w. some (c, w);
  send_next = λ c w. some (req_send_next stay sys c w);
  send_done = λ m c w. some (req_send_done m c w);
  parser = λ m w. (parse_again, w);
}

abbrev buffer : ℕ → List ℕ → Mbuf
buffer pos bytes = record { bytes = bytes; pos = pos; size = 8 }

abbrev message : ℕ → Msg
message j =
    if j == 1
    then record no_msg {
      mlen = 6;
      mhdr = buffer 1 (1 ∷ 2 ∷ 3 ∷ []) ∷ buffer 0 (4 ∷ 5 ∷ 6 ∷ []) ∷ [];
      pos = 2;
    }
    else record no_msg { mlen = 2; mhdr = buffer 0 (7 ∷ 8 ∷ []) ∷ [] }

abbrev world : World
world = record { msg = message; tmo_rbt = []; free_msgq = []; bufs = mbuf_init 48 56 }

abbrev conn : Conn
conn = record (no_conn 3 true) {
  imsg_q = 1 ∷ 2 ∷ [];
  smsg = some 1;
  connected = true;
  send_ready = true;
}

to_server : ToServer stay sys handlers
to_server = record { next = λ c w. refl; done = λ m c w. refl; connects = λ c w. refl }

short_buffer :
    (pos : ℕ) (bytes : List ℕ)
    → leb pos (length bytes) ≡ true
    → ltb (length bytes) (2 ^ 32) ≡ true
    → Fits (buffer pos bytes)
short_buffer pos bytes o s = record {
  ordered = leb→le pos (length bytes) o;
  short = ltb→lt (length bytes) (2 ^ 32) s;
}

message-Ready : (j : ℕ) → Ready world j
message-Ready j = elim (Bool-cases (j == 1)) [
  | inl e ↦ record {
    fits = rw e (
      short_buffer 1 (1 ∷ 2 ∷ 3 ∷ []) refl refl,
      (short_buffer 0 (4 ∷ 5 ∷ 6 ∷ []) refl refl, tt),
    );
    alone = rw e refl;
    sized = rw e (leb→le 5 6 refl);
  }
  | inr e ↦ record {
    fits = rw e (short_buffer 0 (7 ∷ 8 ∷ []) refl refl, tt);
    alone = rw e refl;
    sized = rw e (leb→le 2 2 refl);
  }
]

-- The system takes six of the seven bytes.
abbrev answers : List (Answer ℕ)
answers = interrupted ∷ did 6 ∷ []

msg_send_chain-returns_example :
    (r : Status × Conn × World) × (msg_send_chain 2 handlers answers 1
        (ready conn (1 ∷ 2 ∷ []) (some 1))
        world
      ≡ some r)
msg_send_chain-returns_example =
    msg_send_chain-returns stay sys handlers to_server 1 answers conn world [] (2 ∷ [])
      (refl, (refl, tt)) refl

abbrev vector : Sendv
vector = record { iov = (2 ∷ 3 ∷ []) ∷ (4 ∷ 5 ∷ 6 ∷ []) ∷ (7 ∷ 8 ∷ []) ∷ []; nsend = 7 }

abbrev written : Conn
written = record conn { smsg = none; send_ready = false; send_bytes = 6 }

gathers :
    gather 2 handlers 1 [] nothing conn world
    ≡ some (1 ∷ 2 ∷ [], vector, record conn { smsg = none }, world)
unfolding gather gather_mbufs req_send_next
gathers = refl

sends : send_out answers vector (record conn { smsg = none }) ≡ some (moved 6, written)
unfolding send_out conn_sendv
sends = refl

-- Message 1 has been sent, and message 2 has lost its first byte.
abbrev later : World
later =
    set_mhdr 2 (buffer 1 (7 ∷ 8 ∷ []) ∷ [])
      (set_mhdr 1 (buffer 3 (1 ∷ 2 ∷ 3 ∷ []) ∷ buffer 3 (4 ∷ 5 ∷ 6 ∷ []) ∷ []) world)

abbrev result : Status × Conn × World
result = (gf_ok, record written { imsg_q = 2 ∷ []; omsg_q = 1 ∷ [] }, later)

sends_chain : msg_send_chain 2 handlers answers 1 conn world ≡ some result
unfolding msg_send_chain gather gather_mbufs req_send_next send_out conn_sendv settle adjust
    req_send_done
sends_chain = refl

msg_send_chain-stream_example :
    (take 6 (flat vector.iov) ++ pending (1 ∷ 2 ∷ []) later ≡ pending (1 ∷ 2 ∷ []) world)
    × (gf_ok ≡ gf_ok)
msg_send_chain-stream_example =
    msg_send_chain-stream handlers (ToServer-Quiet stay sys handlers to_server) 2 1 answers conn
      world (1 ∷ 2 ∷ []) vector (record conn { smsg = none }) world (moved 6) written result
      (λ j. (message-Ready j).fits) gathers (refl, (refl, tt))
      (message-Ready 1, (message-Ready 2, tt)) sends (leb→le 6 7 refl) sends_chain

abbrev parsing : World
parsing = record world { msg = λ j. record (message j) { mlen = if j == 1 then 5 else 2 } }

-- Message 1 holds two messages, which its parser has found.
msg_parsed-Second_example : Second handlers sys 1 conn parsing (buffer 0 (4 ∷ 5 ∷ 6 ∷ []))
msg_parsed-Second_example =
    msg_parsed-Second handlers sys 1 9 conn parsing (buffer 0 (4 ∷ 5 ∷ 6 ∷ [])) refl refl refl refl
      refl (leb→le 0 2 refl) refl (record { counted = refl; short = ltb→lt 5 (2 ^ 32) refl })

full :
    conn_recv (interrupted ∷ did (1 ∷ 2 ∷ []) ∷ []) 2 (record conn { recv_ready = true })
    ≡ some (moved (1 ∷ 2 ∷ []), record conn { recv_ready = true; recv_bytes = 2 })
unfolding conn_recv
full = refl
