-- ===== src/Stream/Edge.antt =====
-- Reading and writing with events that come once: when a connection still counts as ready.
use gfwproxy.Base.{
  ℕ, ◌≤◌, ◌<◌, ◌≡◌, sym, ap, inl, inr, Bool, true, false, some, List, [], ◌∷◌, arith, ltb, ltb→lt,
  Bool-cases, length, some_inj,
}
use gfwproxy.Msg.{Conn}
use gfwproxy.Stream.{Answer, did, interrupted, again, failed, Io, moved, conn_recv, conn_sendv}

not_ready : {b : Bool} → false ≡ b → b ≡ true → ⊥
not_ready e f = cc

at_least : (n size : ℕ) → ltb n size ≡ false → size ≤ n
at_least n size h = ground arith

module _ (bytes : List ℕ) (answers : List (Answer (List ℕ))) (size : ℕ) (c : Conn)
    (r : Io (List ℕ) × Conn) where
  recv_edge :
      conn_recv (did bytes ∷ answers) size c ≡ some r
      → r.1.recv_ready ≡ true
      → (b : List ℕ) × (r.0 ≡ moved b) × (0 < length b) × (size ≤ length b)
  unfolding conn_recv
  recv_edge = elim (Bool-cases (ltb 0 (length bytes))) [
    | inr z ↦ rw z (λ e ready. absurd (not_ready (ap (λ t. t.1.recv_ready) (some_inj e)) ready))
    | inl p ↦ elim (Bool-cases (ltb (length bytes) size)) [
      | inl short ↦
          rw (p, short)
            (λ e ready. absurd (not_ready (ap (λ t. t.1.recv_ready) (some_inj e)) ready))
      | inr filled ↦
          rw (p, filled)
            (λ e ready. (
              bytes,
              ap (λ t. t.0) (sym (some_inj e)),
              ltb→lt 0 (length bytes) p,
              at_least (length bytes) size filled,
            ))
    ]
  ]

module _ (n : ℕ) (answers : List (Answer ℕ)) (nsend : ℕ) (c : Conn) (r : Io ℕ × Conn) where
  sendv_edge :
      conn_sendv (did n ∷ answers) nsend c ≡ some r
      → r.1.send_ready ≡ true
      → (k : ℕ) × (r.0 ≡ moved k) × (0 < k) × (nsend ≤ k)
  unfolding conn_sendv
  sendv_edge = elim (Bool-cases (ltb 0 n)) [
    | inr z ↦ rw z (λ e ready. absurd (not_ready (ap (λ t. t.1.send_ready) (some_inj e)) ready))
    | inl p ↦ elim (Bool-cases (ltb n nsend)) [
      | inl short ↦
          rw (p, short)
            (λ e ready. absurd (not_ready (ap (λ t. t.1.send_ready) (some_inj e)) ready))
      | inr all ↦
          rw (p, all)
            (λ e ready. (n, ap (λ t. t.0) (sym (some_inj e)), ltb→lt 0 n p, at_least n nsend all))
    ]
  ]

-- After a read, the connection counts as ready only if the bytes that came filled the buffer: short
-- reads, the end of the input, EAGAIN and errors wait for the next event, and EINTR is tried again.
pub conn_recv-edge :
    (answers : List (Answer (List ℕ))) (size : ℕ) (c : Conn) (r : Io (List ℕ) × Conn)
    → conn_recv answers size c ≡ some r
    → r.1.recv_ready ≡ true
    → (bytes : List ℕ) × (r.0 ≡ moved bytes) × (0 < length bytes) × (size ≤ length bytes)
unfolding conn_recv
conn_recv-edge [] size c r e ready = absurd (cc)
conn_recv-edge (interrupted ∷ answers) size c r e ready = conn_recv-edge answers size c r e ready
conn_recv-edge (again ∷ answers) size c r e ready =
    absurd (not_ready (ap (λ t. t.1.recv_ready) (some_inj e)) ready)
conn_recv-edge (failed k ∷ answers) size c r e ready =
    absurd (not_ready (ap (λ t. t.1.recv_ready) (some_inj e)) ready)
conn_recv-edge (did bytes ∷ answers) size c r e ready = recv_edge bytes answers size c r e ready

-- After a write, the connection counts as ready only if all the bytes were taken.
pub conn_sendv-edge :
    (answers : List (Answer ℕ)) (nsend : ℕ) (c : Conn) (r : Io ℕ × Conn)
    → conn_sendv answers nsend c ≡ some r
    → r.1.send_ready ≡ true
    → (n : ℕ) × (r.0 ≡ moved n) × (0 < n) × (nsend ≤ n)
unfolding conn_sendv
conn_sendv-edge [] nsend c r e ready = absurd (cc)
conn_sendv-edge (interrupted ∷ answers) nsend c r e ready =
    conn_sendv-edge answers nsend c r e ready
conn_sendv-edge (again ∷ answers) nsend c r e ready =
    absurd (not_ready (ap (λ t. t.1.send_ready) (some_inj e)) ready)
conn_sendv-edge (failed k ∷ answers) nsend c r e ready =
    absurd (not_ready (ap (λ t. t.1.send_ready) (some_inj e)) ready)
conn_sendv-edge (did n ∷ answers) nsend c r e ready = sendv_edge n answers nsend c r e ready
