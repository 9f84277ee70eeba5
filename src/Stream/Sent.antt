-- ===== src/Stream/Sent.antt =====
-- What is left of the messages' bytes after `msg_send_chain`, for the next call.
use gfwproxy.Base.{
  ℕ, ◌-◌, ◌≤◌, ◌≡◌, refl, sym, ap, ap₂, ◌∙◌, subst, inl, inr, true, false, Option, none, some, List,
  [], ◌∷◌, ◌++◌, arith, ◌==◌, ==_iff, Bool-cases, Option-cases, length, take, drop,
  take-append-drop, All, some_inj,
}
use gfwproxy.Status.{Status}
use gfwproxy.Mbuf.{Mbuf}
use gfwproxy.Mbuf.Chain.{contents}
use gfwproxy.Msg.{mem, World, Conn}
use gfwproxy.Msg.Send.Order.{Distinct}
use gfwproxy.Stream.{Answer, Io, Handlers}
use gfwproxy.Stream.Recv.{hand_over}
use gfwproxy.Stream.Cuts.{flat, take-take, drop_both, drop_all}
use gfwproxy.Stream.Send.{
  Sendv, gather, adjust, set_mhdr, settle, nothing, send_out, nsent, sent_status, msg_send_chain,
}
use gfwproxy.Stream.Gather.{Fits}
use gfwproxy.Stream.Settle.{adjust-Adjusted}
use gfwproxy.Stream.Pending.{
  pending, Kept, Kept-refl, Kept-trans, Ready, all_Ready, pending-kept, Quiet, gather-Chain,
}

-- The stream has lost its first `n` bytes, and other messages are as they were.
record Settled (n : ℕ) (ms : List ℕ) (w x : World) : Type 0 where
  bytes : pending ms x ≡ drop n (pending ms w)
  others : (j : ℕ) → mem j ms ≡ false → Kept w x j

set_mhdr-Kept :
    (m : ℕ) (mhdr : List Mbuf) (w : World) (j : ℕ) → (m == j) ≡ false → Kept w (set_mhdr m mhdr w) j
set_mhdr-Kept m mhdr w j ne =
    let e : (j == m) ≡ false = ground arith in
    record { same_mhdr = rw e refl; same_peer = rw e refl; same_mlen = rw e refl }

set_mhdr-peer :
    (m : ℕ) (mhdr : List Mbuf) (w : World) → ((set_mhdr m mhdr w).msg m).peer ≡ (w.msg m).peer
set_mhdr-peer m mhdr w = let e : (m == m) ≡ true = ground arith in rw e refl

set_mhdr-mhdr : (m : ℕ) (mhdr : List Mbuf) (w : World) → ((set_mhdr m mhdr w).msg m).mhdr ≡ mhdr
set_mhdr-mhdr m mhdr w = let e : (m == m) ≡ true = ground arith in rw e refl

apart : (m j : ℕ) (ms : List ℕ) → mem m ms ≡ false → mem j ms ≡ true → (m == j) ≡ false
apart m j [] d i = absurd (cc)
apart m j (x ∷ ms) d i = elim (Bool-cases (x == j)) [
  | inl e ↦ ground arith
  | inr e ↦ apart m j ms (ground arith) (ground arith)
]

-- One message, and then those behind it.
onward :
    (n left m : ℕ) (ms : List ℕ) (w u x : World)
    → mem m ms ≡ false
    → ((j : ℕ) → (m == j) ≡ false → Kept w u j)
    → contents (u.msg m).mhdr ≡ drop n (contents (w.msg m).mhdr)
    → left ≡ n - length (contents (w.msg m).mhdr)
    → Settled left ms u x
    → Settled n (m ∷ ms) w x
onward n left m ms w u x d k here l s = record {
  bytes =
      ap (λ t. contents t ++ pending ms x) (s.others m d).same_mhdr
      ∙ ap₂ (λ a b. a ++ b) here
          (s.bytes ∙ ap₂ (λ i t. drop i t) l (pending-kept w u ms (λ j i. k j (apart m j ms d i))))
      ∙ sym (drop_both n (contents (w.msg m).mhdr) (pending ms w));
  others = λ j i. Kept-trans w u x j (k j (ground arith)) (s.others j (ground arith));
}

handed :
    (status : Status) (o : Option (Conn × World)) (r : Status × Conn × World)
    → hand_over status o ≡ some r
    → (s : Conn × World) × (o ≡ some s) × (r ≡ (status, s.0, s.1))
handed status none r h = absurd (cc)
handed status (some s) r h = (s, refl, sym (some_inj h))

module _ (h : Handlers) (quiet : Quiet h) where
  -- `send_done` for a message without bytes.
  done_one :
      (n left m : ℕ) (ms : List ℕ) (c : Conn) (w u : World) (r : Conn × World) (x : World)
      → mem m ms ≡ false
      → ((j : ℕ) → (m == j) ≡ false → Kept w u j)
      → (u.msg m).peer ≡ none
      → contents (u.msg m).mhdr ≡ []
      → length (contents (w.msg m).mhdr) ≤ n
      → left ≡ n - length (contents (w.msg m).mhdr)
      → h.send_done m c u ≡ some r
      → Settled left ms r.1 x
      → Settled n (m ∷ ms) w x
  done_one n left m ms c w u r x d k p e all l en s =
      onward n left m ms w r.1 x d
        (λ j i. Kept-trans w u r.1 j (k j i) (quiet.done m c u r en p j i))
        (quiet.cleared m c u r en p e ∙ sym (drop_all n (contents (w.msg m).mhdr) all)) l s

  settle-Settled :
      (n : ℕ) (ms : List ℕ) (c : Conn) (w : World)
      → All (Ready w) ms
      → Distinct ms
      → (r : Conn × World) → settle h n ms c w ≡ some r
      → Settled n ms w r.1
  unfolding settle
  settle-Settled n [] c w ready d r = λ e.
      subst (λ t. Settled n [] w t.1) (some_inj e)
        (record { bytes = sym (drop_all n [] (omega arith)); others = λ j i. Kept-refl w j })
  settle-Settled n (m ∷ ms) c w ready d r = elim (Bool-cases (n == 0)) [
    | inl z ↦
        let zero_n : n ≡ 0 = (==_iff n 0).0 z in
        let stay : n ≡ n - length (contents (w.msg m).mhdr) = omega arith in
        elim (Bool-cases ((w.msg m).mlen == 0)) [
          | inl e ↦
              let small : length (contents (w.msg m).mhdr) ≤ 0 =
                subst (λ k. length (contents (w.msg m).mhdr) ≤ k) ((==_iff (w.msg m).mlen 0).0 e)
                  ready.0.sized in
              elim (Option-cases (h.send_done m c w)) [
                | inl en ↦ rw (z, e, en, settle) (λ t. absurd (cc))
                | inr (s, en) ↦
                    rw (z, e, en, settle)
                      (λ t.
                        done_one n n m ms c w w s r.1 d.0 (λ j i. Kept-refl w j) ready.0.alone
                          (drop_all 0 (contents (w.msg m).mhdr) small) (omega arith) stay en
                          (settle-Settled n ms s.0 s.1
                            (all_Ready w s.1 ms
                              (λ j i. quiet.done m c w s en ready.0.alone j (apart m j ms d.0 i))
                              ready.1)
                            d.1 r t))
              ]
          | inr e ↦
              rw (z, e, settle)
                (λ t.
                  onward n n m ms w w r.1 d.0 (λ j i. Kept-refl w j)
                    (ap (λ k. drop k (contents (w.msg m).mhdr)) (sym zero_n)) stay
                    (settle-Settled n ms c w ready.1 d.1 r t))
        ]
    | inr z ↦
        let a = adjust-Adjusted n (w.msg m).mhdr ready.0.fits in
        let mhdr = (adjust n (w.msg m).mhdr).0 in
        let left = (adjust n (w.msg m).mhdr).1 in
        let u = set_mhdr m mhdr w in
        let here : contents (u.msg m).mhdr ≡ drop n (contents (w.msg m).mhdr) =
          ap contents (set_mhdr-mhdr m mhdr w) ∙ a.bytes in
        let ku : (j : ℕ) → (m == j) ≡ false → Kept w u j = set_mhdr-Kept m mhdr w in
        let ready_u = all_Ready w u ms (λ j i. ku j (apart m j ms d.0 i)) ready.1 in
        elim (Bool-cases (adjust n (w.msg m).mhdr).2) [
          | inl e ↦ elim (Option-cases (h.send_done m c u)) [
            | inl en ↦ rw (z, e, en, settle) (λ t. absurd (cc))
            | inr (s, en) ↦
                let alone : (u.msg m).peer ≡ none = set_mhdr-peer m mhdr w ∙ ready.0.alone in
                rw (z, e, en, settle)
                  (λ t.
                    done_one n left m ms c w u s r.1 d.0 ku alone
                      (here ∙ drop_all n (contents (w.msg m).mhdr) (a.done e)) (a.done e) a.left en
                      (settle-Settled left ms s.0 s.1
                        (all_Ready u s.1 ms
                          (λ j i. quiet.done m c u s en alone j (apart m j ms d.0 i)) ready_u)
                        d.1 r t))
          ]
          | inr e ↦
              rw (z, e, settle)
                (λ t.
                  onward n left m ms w u r.1 d.0 ku here a.left
                    (settle-Settled left ms c u ready_u d.1 r t))
        ]
  ]

  -- If the messages' buffers are well formed, the gathered messages `q` are distinct and can be sent,
  -- and the system accepts no more bytes than it was handed, then the bytes that it accepted,
  -- followed by those that the messages still hold, are the bytes that the messages held before the
  -- call: none is lost, sent twice or out of order. Only a failed write gives an error.
  pub msg_send_chain-stream :
      (rounds m : ℕ) (answers : List (Answer ℕ)) (c : Conn) (w : World) (q : List ℕ) (v : Sendv)
      (d : Conn) (u : World) (n : Io ℕ) (e : Conn) (r : Status × Conn × World)
      → ((j : ℕ) → All Fits (w.msg j).mhdr)
      → gather rounds h m [] nothing c w ≡ some (q, v, d, u)
      → Distinct q
      → All (Ready w) q
      → send_out answers v (record d { smsg = none }) ≡ some (n, e)
      → nsent n ≤ v.nsend
      → msg_send_chain rounds h answers m c w ≡ some r
      → (take (nsent n) (flat v.iov) ++ pending q r.2 ≡ pending q w) × (r.0 ≡ sent_status n)
  unfolding msg_send_chain
  msg_send_chain-stream rounds m answers c w q v d u n e r fits g distinct ready out few sent =
      let chain = gather-Chain h quiet rounds m [] nothing c w fits (omega arith) (q, v, d, u) g in
      let vector : flat v.iov ≡ take v.nsend (pending q w) =
        chain.vector.bytes
        ∙ ap₂ (λ k t. take k (pending t w)) (omega (arith, chain.vector.sum)) (sym chain.queue) in
      let shape : msg_send_chain rounds h answers m c w
          ≡ hand_over (sent_status n) (settle h (nsent n) q e u) =
        rw (g, out, msg_send_chain) refl in
      let (s, end, same) = handed (sent_status n) (settle h (nsent n) q e u) r (sym shape ∙ sent) in
      let rest =
        settle-Settled (nsent n) q e u (all_Ready w u q (λ j i. chain.kept j) ready) distinct s
          end in
      (
        ap₂ (λ a b. a ++ b)
              (ap (take (nsent n)) vector ∙ take-take (nsent n) v.nsend (pending q w) few)
              (ap (λ t. pending q t.2) same
                ∙ rest.bytes
                ∙ ap (drop (nsent n)) (pending-kept w u q (λ j i. chain.kept j)))
            ∙ take-append-drop (nsent n) (pending q w),
        ap (λ t. t.0) same,
      )
