-- ===== src/Stream.antt =====
-- The bytes on a connection: `conn_recv` and `conn_sendv` of src/gf_connection.c, and what
-- src/gf_message.c does with a message's buffers: msg_append and msg_prepend, and the way from the
-- socket (msg_recv) and to it (msg_send).
pub mod Cuts
pub mod Edge
pub mod Recv
pub mod Parse
pub mod Send
pub mod Gather
pub mod Settle
pub mod Pending
pub mod Sent
pub mod ToServer
mod Tests
use gfwproxy.Base.{
  ℕ, zero, suc, ◌+◌, ◌%◌, ◌^◌, Bool, true, false, Option, none, some, List, [], ◌∷◌, map, arith,
  ltb, leb, if◌then◌else◌, length,
}
use mathlib.Core.Option
use gfwproxy.Status.{Status, gf_ok, gf_error, gf_enomem}
use gfwproxy.Mbuf.{Mbuf, Bufs, mbuf_get, mbuf_insert, mbuf_copy, mbuf_size, last_mbuf, set_last}
use gfwproxy.Msg.{Msg, World, Conn, set_msg}

-- What one call of `read` or `writev` gives: the bytes, or their number, and else EINTR, EAGAIN or
-- another error.
pub data Answer (A : Type 0) : Type 0 where
  did : A → Answer A
  interrupted again : Answer A
  failed : ℕ → Answer A

-- Not only interruptions.
abbrev pub heard : {A : Type 0} → List (Answer A) → Bool
heard [] = false
heard (interrupted ∷ answers) = heard answers
heard (again ∷ answers) = true
heard (failed e ∷ answers) = true
heard (did x ∷ answers) = true

-- The results of `conn_recv` and `conn_sendv`.
pub data Io (A : Type 0) : Type 0 where
  moved : A → Io A
  is_eagain is_error : Io A

-- The system's answers stand in a list; `none` is a loop that is still interrupted at its end.
unfoldable pub conn_recv : List (Answer (List ℕ)) → ℕ → Conn → Option (Io (List ℕ) × Conn)
conn_recv [] size c = none
conn_recv (interrupted ∷ answers) size c = conn_recv answers size c
conn_recv (again ∷ answers) size c = some (is_eagain, record c { recv_ready = false })
conn_recv (failed e ∷ answers) size c = some (is_error, record c { recv_ready = false; err = e })
conn_recv (did bytes ∷ answers) size c =
    let n = length bytes in
    if ltb 0 n
    then some (
      moved bytes,
      record c {
        recv_ready = if ltb n size then false else c.recv_ready;
        recv_bytes = (c.recv_bytes + n) % 2 ^ 64;
      },
    )
    else some (moved bytes, record c { recv_ready = false; eof = true })

unfoldable pub conn_sendv : List (Answer ℕ) → ℕ → Conn → Option (Io ℕ × Conn)
conn_sendv [] nsend c = none
conn_sendv (interrupted ∷ answers) nsend c = conn_sendv answers nsend c
conn_sendv (again ∷ answers) nsend c = some (is_eagain, record c { send_ready = false })
conn_sendv (failed e ∷ answers) nsend c = some (is_error, record c { send_ready = false; err = e })
conn_sendv (did n ∷ answers) nsend c =
    if ltb 0 n
    then some (
      moved n,
      record c {
        send_ready = if ltb n nsend then false else c.send_ready;
        send_bytes = (c.send_bytes + n) % 2 ^ 64;
      },
    )
    else some (moved 0, record c { send_ready = false })

-- A message's queue of buffers after `msg_ensure_mbuf`, whose last buffer is the one to write to.
pub msg_ensure_mbuf : Bool → ℕ → List Mbuf → Bufs → Option (List Mbuf × Mbuf × Bufs)
unfolding mbuf_get
msg_ensure_mbuf has_memory len mhdr b = elim (last_mbuf mhdr) [
  | none ↦ Option.map (λ r. (mbuf_insert mhdr r.0, r.0, r.1)) (mbuf_get has_memory b)
  | some m ↦
      if ltb (mbuf_size m) len
      then Option.map (λ r. (mbuf_insert mhdr r.0, r.0, r.1)) (mbuf_get has_memory b)
      else some (mhdr, m, b)
]

-- A message with `n` more bytes; `mlen` is a `uint32_t`.
abbrev grown : Msg → List Mbuf → ℕ → Msg
grown v mhdr n = record v { mhdr = mhdr; mlen = (v.mlen + n) % 2 ^ 32 }

unfoldable pub msg_append : Bool → ℕ → List ℕ → World → Status × World
unfolding msg_ensure_mbuf
msg_append has_memory m bytes w =
    elim (msg_ensure_mbuf has_memory (length bytes) (w.msg m).mhdr w.bufs) [
      | none ↦ (gf_enomem, w)
      | some (mhdr, b, bufs) ↦ (
        gf_ok,
        set_msg m (grown (w.msg m) (set_last mhdr (mbuf_copy b bytes)) (length bytes))
            (record w { bufs = bufs }),
      )
    ]

unfoldable pub msg_prepend : Bool → ℕ → List ℕ → World → Status × World
unfolding mbuf_get
msg_prepend has_memory m bytes w = elim (mbuf_get has_memory w.bufs) [
  | none ↦ (gf_enomem, w)
  | some (b, bufs) ↦ (
    gf_ok,
    set_msg m (grown (w.msg m) (mbuf_copy b bytes ∷ (w.msg m).mhdr) (length bytes))
        (record w { bufs = bufs }),
  )
]

-- `text` is what the format gives. Where it does not fit, the buffer is not put back.
unfoldable pub msg_prepend_format : Bool → ℕ → List ℕ → World → Status × World
unfolding mbuf_get
msg_prepend_format has_memory m text w = elim (mbuf_get has_memory w.bufs) [
  | none ↦ (gf_enomem, w)
  | some (b, bufs) ↦
      if leb (mbuf_size b) (length text) then (gf_error, record w { bufs = bufs }) else (
        gf_ok,
        set_msg m (grown (w.msg m) (mbuf_copy b text ∷ (w.msg m).mhdr) (length text))
            (record w { bufs = bufs }),
      )
]

-- What the parser of a protocol says: MSG_PARSE_OK, _REPAIR, _AGAIN or an error.
pub data Parsed : Type 0 where
  parse_ok parse_repair parse_again : Parsed
  parse_error : ℕ → Parsed

-- The functions that a connection points to, and its messages' parser. `none` is a use of a NULL
-- pointer.
pub record Handlers : Type 0 where
  pub recv_next : Bool → Conn → World → Option (Option ℕ × Conn × World)
  pub recv_done : ℕ → Option ℕ → Conn → World → Option (Conn × World)
  pub send_next : Conn → World → Option (Option ℕ × Conn × World)
  pub send_done : ℕ → Conn → World → Option (Conn × World)
  pub parser : ℕ → World → Parsed × World
