-- ===== src/Stream/ToServer.antt =====
-- `msg_send_chain` on a connection to a server, where `req_send_next` and `req_send_done` are the
-- functions that the connection points to.
use gfwproxy.Base.{
  ℕ, zero, suc, ◌<◌, ◌≡◌, refl, sym, ap, ◌∙◌, subst, inl, inr, true, false, none, some, List, [],
  ◌∷◌, ◌++◌, append_assoc, arith, ltb, ◌==◌, Bool-cases, length, some_inj,
}
use gfwproxy.Status.{Status}
use gfwproxy.Mbuf.Chain.{contents}
use gfwproxy.Msg.{World, Conn, Sys, req_put}
use gfwproxy.Msg.Fields.{req_put-others, req_put-mhdr}
use gfwproxy.Msg.Send.{req_send_next, req_send_done, head}
use gfwproxy.Msg.Send.Order.{Distinct, mem_middle, ready, send_next-middle}
use gfwproxy.Stream.{Answer, Io, conn_sendv, interrupted, again, failed, did, heard, Handlers}
use gfwproxy.Stream.Send.{
  Sendv, has_room, gather_mbufs, gather, settle, nothing, send_out, nsent, sent_status, adjust,
  set_mhdr, msg_send_chain,
}
use gfwproxy.Stream.Pending.{Kept, Kept-refl, Quiet}

req_put-Kept :
    (m : ℕ) (w : World)
    → (w.msg m).peer ≡ none
    → (j : ℕ) → (m == j) ≡ false
    → Kept w (req_put m w) j
req_put-Kept m w alone j ne = record {
  same_mhdr = req_put-others (λ v. v.mhdr) m w alone j ne;
  same_peer = req_put-others (λ v. v.peer) m w alone j ne;
  same_mlen = req_put-others (λ v. v.mlen) m w alone j ne;
}

req_send_done-Kept :
    (m : ℕ) (c : Conn) (w : World)
    → (w.msg m).peer ≡ none
    → (j : ℕ) → (m == j) ≡ false
    → Kept w (req_send_done m c w).1 j
unfolding req_send_done
req_send_done-Kept m c w alone j ne = elim (Bool-cases (w.msg m).noreply) [
  | inl e ↦ rw e (req_put-Kept m w alone j ne)
  | inr e ↦ rw e (Kept-refl w j)
]

req_send_done-cleared :
    (m : ℕ) (c : Conn) (w : World)
    → (w.msg m).peer ≡ none
    → contents (w.msg m).mhdr ≡ []
    → contents ((req_send_done m c w).1.msg m).mhdr ≡ []
unfolding req_send_done
req_send_done-cleared m c w alone nil = elim (Bool-cases (w.msg m).noreply) [
  | inl e ↦ rw e (ap contents (req_put-mhdr m w alone))
  | inr e ↦ rw e nil
]

-- The functions of a connection to a server.
pub record ToServer (post_connect : Conn → World → Conn × World) (sys : Sys) (h : Handlers)
    : Type 0 where
  pub next : (c : Conn) (w : World) → h.send_next c w ≡ some (req_send_next post_connect sys c w)
  pub done : (m : ℕ) (c : Conn) (w : World) → h.send_done m c w ≡ some (req_send_done m c w)
  -- What the protocol does once the connection stands has no effect on the messages.
  pub connects : (c : Conn) (w : World) → (post_connect c w).1 ≡ w

conn_sendv-returns :
    (answers : List (Answer ℕ)) (n : ℕ) (c : Conn)
    → heard answers ≡ true
    → (r : Io ℕ × Conn) × (conn_sendv answers n c ≡ some r)
unfolding conn_sendv
conn_sendv-returns [] n c e = absurd (cc)
conn_sendv-returns (interrupted ∷ answers) n c e = conn_sendv-returns answers n c e
conn_sendv-returns (again ∷ answers) n c e = (_, refl)
conn_sendv-returns (failed k ∷ answers) n c e = (_, refl)
conn_sendv-returns (did k ∷ answers) n c e = elim (Bool-cases (ltb 0 k)) [
  | inl p ↦ rw p (_, refl)
  | inr p ↦ rw p (_, refl)
]

send_out-returns :
    (answers : List (Answer ℕ)) (v : Sendv) (c : Conn)
    → heard answers ≡ true
    → (r : Io ℕ × Conn) × (send_out answers v c ≡ some r)
unfolding send_out
send_out-returns answers v c e = elim (Bool-cases (v.nsend == 0)) [
  | inl z ↦ rw (z, send_out) (_, refl)
  | inr z ↦ rw (z, send_out) (conn_sendv-returns answers v.nsend c e)
]

module _ (post_connect : Conn → World → Conn × World) (sys : Sys) (h : Handlers)
    (to : ToServer post_connect sys h) where
  req_send_next-world : (c : Conn) (w : World) → (req_send_next post_connect sys c w).2 ≡ w
  unfolding req_send_next
  req_send_next-world c w = elim (Bool-cases c.connecting) [
    | inl e ↦
        rw (e, req_send_next) (to.connects (record c { connecting = false; connected = true }) w)
    | inr e ↦ rw (e, req_send_next) refl
  ]

  pub ToServer-Quiet : Quiet h
  ToServer-Quiet = record {
    next = λ c w r e j.
        subst (λ x. Kept w x j)
          (sym (req_send_next-world c w) ∙ ap (λ t. t.2) (some_inj (sym (to.next c w) ∙ e)))
          (Kept-refl w j);
    done = λ m c w r e alone j ne.
        subst (λ x. Kept w x j) (ap (λ t. t.1) (some_inj (sym (to.done m c w) ∙ e)))
          (req_send_done-Kept m c w alone j ne);
    cleared = λ m c w r e alone nil.
        subst (λ x. contents (x.msg m).mhdr ≡ [])
          (ap (λ t. t.1) (some_inj (sym (to.done m c w) ∙ e)))
          (req_send_done-cleared m c w alone nil);
  }

  settle-returns :
      (n : ℕ) (ms : List ℕ) (c : Conn) (w : World)
      → (r : Conn × World) × (settle h n ms c w ≡ some r)
  unfolding settle
  settle-returns n [] c w = ((c, w), refl)
  settle-returns n (m ∷ ms) c w = elim (Bool-cases (n == 0)) [
    | inl z ↦ elim (Bool-cases ((w.msg m).mlen == 0)) [
      | inl e ↦
          let s = req_send_done m c w in
          rw (z, e, to.done m c w, settle) (settle-returns n ms s.0 s.1)
      | inr e ↦ rw (z, e, settle) (settle-returns n ms c w)
    ]
    | inr z ↦
        let u = set_mhdr m (adjust n (w.msg m).mhdr).0 w in
        let left = (adjust n (w.msg m).mhdr).1 in
        elim (Bool-cases (adjust n (w.msg m).mhdr).2) [
          | inl e ↦
              let s = req_send_done m c u in
              rw (z, e, to.done m c u, settle) (settle-returns left ms s.0 s.1)
          | inr e ↦ rw (z, e, settle) (settle-returns left ms c u)
        ]
  ]

  next_step :
      (m : ℕ) (c : Conn) (w : World) (a b : List ℕ)
      → Distinct (a ++ (m ∷ b))
      → h.send_next (ready c (a ++ (m ∷ b)) (some m)) w
        ≡ some (head b, ready c (a ++ (m ∷ b)) (head b), w)
  next_step m c w a b d =
      to.next (ready c (a ++ (m ∷ b)) (some m)) w
      ∙ ap some (send_next-middle post_connect sys c w a b m (mem_middle a b m d))

  gather-returns :
      (rounds m : ℕ) (q : List ℕ) (v : Sendv) (c : Conn) (w : World) (a b : List ℕ)
      → Distinct (a ++ (m ∷ b))
      → length b < rounds
      → (r : List ℕ × Sendv × Conn × World) × (gather rounds h m q v
            (ready c (a ++ (m ∷ b)) (some m))
            w
          ≡ some r)
  unfolding gather
  gather-returns zero m q v c w a b d enough = absurd (omega arith)
  gather-returns (suc rounds) m q v c w a [] d enough =
      let u = gather_mbufs (w.msg m).mhdr v in
      let queue = a ++ (m ∷ []) in
      elim (Bool-cases (has_room u)) [
        | inr full ↦ ((q ++ (m ∷ []), u, ready c queue (some m), w), rw (full, gather) refl)
        | inl room ↦ (
          (q ++ (m ∷ []), u, ready c queue none, w),
          rw (room, next_step m c w a [] d, gather) refl,
        )
      ]
  gather-returns (suc rounds) m q v c w a (n ∷ b) d enough =
      let u = gather_mbufs (w.msg m).mhdr v in
      let queue = a ++ (m ∷ n ∷ b) in
      let shift : queue ≡ (a ++ (m ∷ [])) ++ (n ∷ b) = sym (append_assoc a (m ∷ []) (n ∷ b)) in
      elim (Bool-cases (has_room u)) [
        | inr full ↦ ((q ++ (m ∷ []), u, ready c queue (some m), w), rw (full, gather) refl)
        | inl room ↦
            rw (room, next_step m c w a (n ∷ b) d, gather)
              (subst
                (λ t.
                  (r : List ℕ × Sendv × Conn × World) × (gather rounds h n (q ++ (m ∷ [])) u
                      (ready c t (some n)) w
                    ≡ some r))
                (sym shift)
                (gather-returns rounds n (q ++ (m ∷ [])) u c w (a ++ (m ∷ [])) b
                  (subst Distinct shift d) (omega arith)))
      ]

  -- With the queue `a ++ (m ∷ b)` of distinct requests, of which `m` is the next, one round for each
  -- request from `m` on is enough for `msg_send_chain` to return, if not all the system's answers
  -- are interruptions.
  pub msg_send_chain-returns :
      (m : ℕ) (answers : List (Answer ℕ)) (c : Conn) (w : World) (a b : List ℕ)
      → Distinct (a ++ (m ∷ b))
      → heard answers ≡ true
      → (r : Status × Conn × World) × (msg_send_chain
            (length (m ∷ b))
            h
            answers
            m
            (ready c (a ++ (m ∷ b)) (some m))
            w
          ≡ some r)
  unfolding msg_send_chain send_out
  msg_send_chain-returns m answers c w a b d enough =
      let (g, gathered) = gather-returns (length (m ∷ b)) m [] nothing c w a b d (omega arith) in
      let (s, out) = send_out-returns answers g.1 (record (g.2) { smsg = none }) enough in
      let (t, end) = settle-returns (nsent s.0) g.0 s.1 g.3 in
      ((sent_status s.0, t.0, t.1), rw (gathered, out, end, msg_send_chain) refl)
