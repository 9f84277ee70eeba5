-- ===== src/Msg.antt =====
-- Messages (src/gf_message.h, and of src/gf_message.c and src/gf_request.c what puts a message
-- away), connections (src/gf_connection.h) and the queues of requests. A pointer to a message is a
-- number, and NULL is `none`. `mhdr` is a message's queue of buffers and `pos` the parser's marker, an
-- offset in the last of them. The keys of a request and the statistics are left out.
pub mod Fields
pub mod Fresh
pub mod Done
pub mod Send
pub mod Reply
pub mod Forward
pub mod Accept
mod Tests
use gfwproxy.Base.{
  ℕ, zero, suc, ◌+◌, Bool, true, false, ◌||◌, Option, none, some, List, [], ◌∷◌, ◌++◌, map, arith,
  ◌==◌, if◌then◌else◌,
}
use mathlib.Core.Option
use gfwproxy.Mbuf.{Mbuf, Bufs, mbuf_put}

pub record Msg : Type 0 where
  pub peer : Option ℕ
  pub owner : ℕ
  pub mlen : ℕ
  pub frag_id : ℕ
  pub frag_owner : Option ℕ
  pub nfrag : ℕ
  pub nfrag_done : ℕ
  pub err : ℕ
  pub error : Bool
  pub ferror : Bool
  pub noreply : Bool
  pub done : Bool
  pub fdone : Bool
  pub swallow : Bool
  pub quit : Bool
  pub noforward : Bool
  pub mhdr : List Mbuf
  pub pos : ℕ

-- All messages, those in the tree of timeouts, the queue of free ones, and the free buffers.
pub record World : Type 0 where
  pub msg : ℕ → Msg
  pub tmo_rbt : List ℕ
  pub free_msgq : List ℕ
  pub bufs : Bufs

-- `self` is the connection's own number, `imsg_q` holds what is to be sent to a server, `omsg_q` what is outstanding. `timed` says
-- whether the pool of a server has a timeout.
pub record Conn : Type 0 where
  pub self : ℕ
  pub imsg_q : List ℕ
  pub omsg_q : List ℕ
  pub rmsg : Option ℕ
  pub smsg : Option ℕ
  pub err : ℕ
  pub eof : Bool
  pub done : Bool
  pub connecting : Bool
  pub connected : Bool
  pub send_active : Bool
  pub recv_ready : Bool
  pub send_ready : Bool
  pub recv_bytes : ℕ
  pub send_bytes : ℕ
  pub timed : Bool
  pub owner : Option ℕ
  pub sd : Option ℕ
  pub client : Bool
  pub proxy : Bool
  pub redis : Bool
  pub authenticated : Bool
  pub recv_active : Bool

-- The answers of the system in one call: the error of `epoll_ctl`, if it fails; the message that
-- an allocation gives, if there is memory; whether the other allocations succeed; and `errno` where one
-- fails.
pub record Sys : Type 0 where
  pub epoll_ctl : Option ℕ
  pub alloc : Option ℕ
  pub has_memory : Bool
  pub errno : ℕ

abbrev pub set_msg : ℕ → Msg → World → World
set_msg m v w = record w { msg = λ j. if j == m then v else w.msg j }

abbrev pub mem : ℕ → List ℕ → Bool
mem x [] = false
mem x (y ∷ ys) = (y == x) || mem x ys

-- `TAILQ_REMOVE`.
abbrev pub remove : ℕ → List ℕ → List ℕ
remove m [] = []
remove m (x ∷ q) = if x == m then q else x ∷ remove m q

-- The messages behind `m` in a queue, in the order in which `TAILQ_NEXT` walks.
abbrev pub after : ℕ → List ℕ → List ℕ
after m [] = []
after m (x ∷ q) = if x == m then q else after m q

-- Those in front of `m`, in the queue's order.
abbrev pub before : ℕ → List ℕ → List ℕ
before m [] = []
before m (x ∷ q) = if x == m then [] else x ∷ before m q

-- Each buffer of the message goes to the free ones.
pub put_mbufs : List Mbuf → Bufs → Bufs
put_mbufs [] b = b
put_mbufs (v ∷ mhdr) b = put_mbufs mhdr (mbuf_put b)

pub msg_put : ℕ → World → World
unfolding put_mbufs
msg_put m w =
    let u = set_msg m (record (w.msg m) { mhdr = [] }) w in
    record u { free_msgq = m ∷ w.free_msgq; bufs = put_mbufs (w.msg m).mhdr w.bufs }

-- A message as `_msg_get` leaves it, but for its owner.
abbrev pub no_msg : Msg
no_msg = record {
  peer = none;
  owner = 0;
  mlen = 0;
  frag_id = 0;
  frag_owner = none;
  nfrag = 0;
  nfrag_done = 0;
  err = 0;
  error = false;
  ferror = false;
  noreply = false;
  done = false;
  fdone = false;
  swallow = false;
  quit = false;
  noforward = false;
  mhdr = [];
  pos = 0;
}

-- The first free message, or a new one.
unfoldable pub take_msg : Sys → World → Option (ℕ × World)
take_msg sys w = elim w.free_msgq [
  | m ∷ ms ↦ some (m, record w { free_msgq = ms })
  | [] ↦ Option.map (λ m. (m, w)) sys.alloc
]

-- `_msg_get` and `msg_get`. Where the array of keys cannot be had, the message is gone.
unfoldable pub msg_get : Sys → ℕ → World → Option ℕ × World
unfolding take_msg
msg_get sys owner w = elim (take_msg sys w) [
  | none ↦ (none, w)
  | some (m, u) ↦
      if sys.has_memory then (some m, set_msg m (record no_msg { owner = owner }) u) else (none, u)
]

unfoldable pub rsp_put : ℕ → World → World
unfolding msg_put put_mbufs
rsp_put m w = msg_put m w

pub msg_tmo_insert : ℕ → Conn → World → World
msg_tmo_insert m c w = if c.timed then record w { tmo_rbt = m ∷ w.tmo_rbt } else w

unfoldable pub msg_tmo_delete : ℕ → World → World
msg_tmo_delete m w = record w { tmo_rbt = remove m w.tmo_rbt }

unfoldable pub req_put : ℕ → World → World
unfolding rsp_put msg_put put_mbufs msg_tmo_delete
req_put m w = elim (w.msg m).peer [
  | none ↦ msg_put m (msg_tmo_delete m w)
  | some r ↦
      let u = set_msg m (record (w.msg m) { peer = none }) w in
      let v = set_msg r (record (u.msg r) { peer = none }) u in
      msg_put m (msg_tmo_delete m (rsp_put r v))
]

-- `event_add_out`, and what its callers do where it fails.
unfoldable pub event_add_out : Sys → Conn → Conn
event_add_out sys c = if c.send_active then c else elim sys.epoll_ctl [
  | none ↦ record c { send_active = true }
  | some e ↦ record c { err = e }
]

unfoldable pub event_del_out : Sys → Conn → Conn
event_del_out sys c =
    if c.send_active
    then elim sys.epoll_ctl [
      | none ↦ record c { send_active = false }
      | some e ↦ record c { err = e }
    ]
    else c

unfoldable pub req_server_enqueue_imsgq : ℕ → Conn → World → Conn × World
unfolding msg_tmo_insert
req_server_enqueue_imsgq m c w = (
  record c { imsg_q = c.imsg_q ++ (m ∷ []) },
  if (w.msg m).noreply then w else msg_tmo_insert m c w,
)

unfoldable pub req_server_enqueue_imsgq_head : ℕ → Conn → World → Conn × World
unfolding msg_tmo_insert
req_server_enqueue_imsgq_head m c w =
    (record c { imsg_q = m ∷ c.imsg_q }, if (w.msg m).noreply then w else msg_tmo_insert m c w)

abbrev pub req_server_dequeue_imsgq : ℕ → Conn → Conn
req_server_dequeue_imsgq m c = record c { imsg_q = remove m c.imsg_q }

abbrev pub req_client_enqueue_omsgq : ℕ → Conn → Conn
req_client_enqueue_omsgq m c = record c { omsg_q = c.omsg_q ++ (m ∷ []) }

abbrev pub req_server_enqueue_omsgq : ℕ → Conn → Conn
req_server_enqueue_omsgq m c = record c { omsg_q = c.omsg_q ++ (m ∷ []) }

abbrev pub req_client_dequeue_omsgq : ℕ → Conn → Conn
req_client_dequeue_omsgq m c = record c { omsg_q = remove m c.omsg_q }

unfoldable pub req_server_dequeue_omsgq : ℕ → Conn → World → Conn × World
unfolding msg_tmo_delete
req_server_dequeue_omsgq m c w = (record c { omsg_q = remove m c.omsg_q }, msg_tmo_delete m w)
