-- ===== src/Msg/Tests.antt =====
-- Requests in queues, for the witnesses.
use gfwproxy.Base.{
  ℕ, ◌≡◌, ◌↔◌, ◌⊎◌, refl, true, false, none, some, List, [], ◌∷◌, ◌++◌, arith, ◌==◌, if◌then◌else◌,
  take, drop, All,
}
use gfwproxy.Mbuf.{mbuf_init}
use gfwproxy.Msg.{Msg, World, Conn, Sys}
use gfwproxy.Msg.Accept.{Replied, req_make_reply, req_make_reply-Replied}
use gfwproxy.Msg.Done.{req_error, others}
use gfwproxy.Msg.Done.Failed.{req_error-fragments}
use gfwproxy.Msg.Send.Order.{ready, gathered, finish, replying, sends-order}
use gfwproxy.Msg.Reply.{req_recv_next, rsp_make_error}
use gfwproxy.Msg.Reply.Queue.{Idle, req_recv_next-done}
use gfwproxy.Msg.Reply.Errors.{first_err, rsp_make_error-fragments}

-- Messages 1, 2 and 3 are the fragments of request 5, all answered, the third with error 7; 4 is
-- another request, which wants no answer.
abbrev fragment : Msg
fragment = record {
  peer = none;
  owner = 0;
  mlen = 10;
  frag_id = 5;
  frag_owner = some 1;
  nfrag = 2;
  nfrag_done = 2;
  err = 0;
  error = false;
  ferror = false;
  noreply = false;
  done = true;
  fdone = false;
  swallow = false;
  quit = false;
  noforward = false;
  mhdr = [];
  pos = 0;
}

abbrev messages : ℕ → Msg
messages j =
    if j == 3
    then record fragment { err = 7; error = true }
    else if j == 4
    then record fragment { frag_id = 0; noreply = true; done = false }
    else fragment

abbrev world : World
world = record { msg = messages; tmo_rbt = []; free_msgq = []; bufs = mbuf_init 48 512 }

abbrev queue : List ℕ
queue = 1 ∷ 2 ∷ 3 ∷ 4 ∷ []

abbrev conn : Conn
conn = record {
  self = 0;
  imsg_q = [];
  omsg_q = queue;
  rmsg = none;
  smsg = none;
  err = 0;
  eof = true;
  done = false;
  connecting = false;
  connected = true;
  send_active = false;
  recv_ready = true;
  send_ready = true;
  recv_bytes = 0;
  send_bytes = 0;
  timed = true;
  owner = some 0;
  sd = some 9;
  client = true;
  proxy = false;
  redis = true;
  authenticated = false;
  recv_active = true;
}

abbrev sys : Sys
sys = record { epoll_ctl = none; alloc = some 8; has_memory = true; errno = 12 }

req_error-fragments_example :
    ((req_error queue 2 world).0 ≡ true)
    × All
        (λ c.
          (q' : List ℕ)
          → req_error q' c (req_error queue 2 world).1 ≡ (true, (req_error queue 2 world).1))
        (2 ∷ others queue 2 world)
req_error-fragments_example = req_error-fragments queue 2 world (omega arith) refl refl refl

sends-order_example :
    (gathered (λ c w. (c, w)) sys 3 (ready conn queue none) world ≡ take 3 queue)
    × ((finish (take 3 queue) (ready conn queue none) world).0.imsg_q ≡ drop 3 queue)
    × ((finish (take 3 queue) (ready conn queue none) world).0.omsg_q
        ≡ queue ++ replying world (take 3 queue))
sends-order_example =
    sends-order (λ c w. (c, w)) sys 3 conn world queue (refl, (refl, (refl, (refl, tt))))

rsp_make_error-fragments_example :
    ((rsp_make_error 1 conn world).0 ≡ first_err 0 world (2 ∷ 3 ∷ []))
    × ((rsp_make_error 1 conn world).1.omsg_q ≡ 1 ∷ 4 ∷ [])
rsp_make_error-fragments_example =
    rsp_make_error-fragments [] (2 ∷ 3 ∷ []) (4 ∷ []) 1 conn world refl
      (refl, (refl, (refl, (refl, tt)))) (omega arith) ((refl, (refl, tt)), refl)

req_make_reply-Replied_example : Replied 4 conn world (req_make_reply sys 4 conn world)
req_make_reply-Replied_example = req_make_reply-Replied sys 4 8 conn world refl refl refl refl

-- The input has ended, and four requests are outstanding.
req_recv_next-done_example :
    (((req_recv_next sys true conn world).1.done ≡ true) ↔ ((conn.done ≡ true) ⊎ Idle conn))
    × ((conn.eof ≡ false)
        ⊎ (((req_recv_next sys true conn world).0 ≡ none)
            × ((req_recv_next sys true conn world).1.rmsg ≡ none)))
req_recv_next-done_example = req_recv_next-done sys true conn world
