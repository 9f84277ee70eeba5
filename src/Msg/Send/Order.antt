-- ===== src/Msg/Send/Order.antt =====
-- In which order requests leave for a server, and wait for its answers.
use gfwproxy.Base.{
  ℕ, zero, suc, ◌≡◌, refl, sym, ap, ◌∙◌, subst, inl, inr, true, false, Option, none, some, List, [],
  ◌∷◌, ◌++◌, append-nil, append_assoc, arith, ◌==◌, if◌then◌else◌, Bool-cases, take, drop,
  take-append-drop,
}
use gfwproxy.Msg.{
  mem, World, Conn, Sys, remove, after, req_put, req_server_dequeue_imsgq, req_server_enqueue_omsgq,
}
use gfwproxy.Msg.Fields.{req_put-field}
use gfwproxy.Msg.Send.{head, req_send_next, req_send_done}

abbrev pub Distinct : List ℕ → Type 0
Distinct [] = Unit
Distinct (x ∷ xs) = (mem x xs ≡ false) × Distinct xs

-- The requests among them that want an answer.
abbrev pub replying : World → List ℕ → List ℕ
replying w [] = []
replying w (m ∷ ms) = if (w.msg m).noreply then replying w ms else m ∷ replying w ms

-- `send_done` for each request of a list, in its order.
abbrev pub finish : List ℕ → Conn → World → Conn × World
finish [] c w = (c, w)
finish (m ∷ ms) c w = let (d, u) = req_send_done m c w in finish ms d u

pub mem_middle : (a b : List ℕ) (s : ℕ) → Distinct (a ++ (s ∷ b)) → mem s a ≡ false
mem_middle [] b s d = refl
mem_middle (x ∷ a) b s d = ground (arith, mem_middle a b s d.1, apart a b s x d.0)
  where
    apart : (a b : List ℕ) (s x : ℕ) → mem x (a ++ (s ∷ b)) ≡ false → (x == s) ≡ false
    apart [] b s x h = ground arith
    apart (y ∷ a) b s x h = apart a b s x (ground arith)

pub after_middle : (a b : List ℕ) (s : ℕ) → mem s a ≡ false → after s (a ++ (s ∷ b)) ≡ b
after_middle [] b s h = ground arith
after_middle (x ∷ a) b s h = ground (arith, after_middle a b s)

-- The connection with this queue, and this message as the last one that was gathered.
abbrev pub ready : Conn → List ℕ → Option ℕ → Conn
ready c q s = record c { imsg_q = q; smsg = s; connecting = false }

module _ (post_connect : Conn → World → Conn × World) (sys : Sys) where
  -- What `msg_send_chain` gathers with at most `k` calls of `send_next`.
  abbrev pub gathered : ℕ → Conn → World → List ℕ
  gathered zero c w = []
  gathered (suc k) c w =
      let (m, d, u) = req_send_next post_connect sys c w in
      elim m [ none ↦ [] | some x ↦ x ∷ gathered k d u ]

  pub send_next-middle :
      (c : Conn) (w : World) (a b : List ℕ) (s : ℕ)
      → mem s a ≡ false
      → req_send_next post_connect sys (ready c (a ++ (s ∷ b)) (some s)) w
        ≡ (head b, ready c (a ++ (s ∷ b)) (head b), w)
  unfolding req_send_next
  send_next-middle c w [] b s h =
      ap (λ t. (head t, ready c (s ∷ b) (head t), w)) (after_middle [] b s h)
  send_next-middle c w (x ∷ a) b s h =
      ap (λ t. (head t, ready c (x ∷ a ++ (s ∷ b)) (head t), w)) (after_middle (x ∷ a) b s h)

  abbrev gathered_rest : ℕ → Option ℕ × Conn × World → List ℕ
  gathered_rest k (m, d, u) = elim m [ none ↦ [] | some x ↦ x ∷ gathered k d u ]

  gathered-middle :
      (k : ℕ) (c : Conn) (w : World) (a b : List ℕ) (s : ℕ)
      → Distinct (a ++ (s ∷ b))
      → gathered k (ready c (a ++ (s ∷ b)) (some s)) w ≡ take k b
  gathered-middle zero c w a b s d = refl
  gathered-middle (suc k) c w a [] s d =
      subst (λ (r : Option ℕ × Conn × World). gathered_rest k r ≡ [])
        (sym (send_next-middle c w a [] s (mem_middle a [] s d))) refl
  gathered-middle (suc k) c w a (x ∷ b) s d =
      let e : a ++ (s ∷ x ∷ b) ≡ (a ++ (s ∷ [])) ++ (x ∷ b) =
        sym (append_assoc a (s ∷ []) (x ∷ b)) in
      subst (λ (r : Option ℕ × Conn × World). gathered_rest k r ≡ x ∷ take k b)
        (sym (send_next-middle c w a (x ∷ b) s (mem_middle a (x ∷ b) s d)))
        (ap (λ t. x ∷ t)
          (subst (λ t. gathered k (ready c t (some x)) w ≡ take k b) (sym e)
            (gathered-middle k c w (a ++ (s ∷ [])) b x (subst Distinct e d))))

  gathered-take :
      (k : ℕ) (c : Conn) (w : World) (q : List ℕ)
      → Distinct q
      → gathered k (ready c q none) w ≡ take k q
  unfolding req_send_next
  gathered-take zero c w q d = refl
  gathered-take (suc k) c w [] d = refl
  gathered-take (suc k) c w (x ∷ q) d = ap (λ t. x ∷ t) (gathered-middle k c w [] q x d)

req_put-noreply : (m : ℕ) (w : World) (j : ℕ) → ((req_put m w).msg j).noreply ≡ (w.msg j).noreply
req_put-noreply = req_put-field (λ v. v.noreply) (λ v p. refl) (λ v l. refl)

replying-same :
    (w u : World) (ms : List ℕ)
    → ((j : ℕ) → (u.msg j).noreply ≡ (w.msg j).noreply)
    → replying u ms ≡ replying w ms
replying-same w u [] h = refl
replying-same w u (m ∷ ms) h = rw (h m, replying-same w u ms h) refl

remove_head : (m : ℕ) (q : List ℕ) → remove m (m ∷ q) ≡ q
remove_head m q = ground arith

module _ (m : ℕ) (c : Conn) (w : World) where
  send_done_wants :
      (w.msg m).noreply ≡ false
      → req_send_done m c w ≡ (req_server_enqueue_omsgq m (req_server_dequeue_imsgq m c), w)
  unfolding req_send_done
  send_done_wants h = rw h refl

  send_done_silent :
      (w.msg m).noreply ≡ true → req_send_done m c w ≡ (req_server_dequeue_imsgq m c, req_put m w)
  unfolding req_send_done
  send_done_silent h = rw h refl

abbrev Settled : List ℕ → List ℕ → List ℕ → Conn × World → Type 0
Settled ms rest out (d, u) = ((finish ms d u).0.imsg_q ≡ rest) × ((finish ms d u).0.omsg_q ≡ out)

-- `finish` over the first messages of the queue: they leave it, and those that want an answer
-- stand behind the ones that wait already.
finish-queues :
    (ms rest : List ℕ) (c : Conn) (w : World)
    → c.imsg_q ≡ ms ++ rest
    → ((finish ms c w).0.imsg_q ≡ rest) × ((finish ms c w).0.omsg_q ≡ c.omsg_q ++ replying w ms)
finish-queues [] rest c w e = (e, sym (append-nil c.omsg_q))
finish-queues (m ∷ ms) rest c w e =
    let gone : remove m c.imsg_q ≡ ms ++ rest = ap (remove m) e ∙ remove_head m (ms ++ rest) in
    elim (Bool-cases (w.msg m).noreply) [
      | inr wants ↦
          let d = req_server_enqueue_omsgq m (req_server_dequeue_imsgq m c) in
          let (i, o) = finish-queues ms rest d w gone in
          let s : replying w (m ∷ ms) ≡ m ∷ replying w ms = rw wants refl in
          subst (Settled ms rest (c.omsg_q ++ replying w (m ∷ ms)))
            (sym (send_done_wants m c w wants))
            (
              i,
              o ∙ append_assoc c.omsg_q (m ∷ []) (replying w ms) ∙ ap (λ t. c.omsg_q ++ t) (sym s),
            )
      | inl silent ↦
          let (i, o) = finish-queues ms rest (req_server_dequeue_imsgq m c) (req_put m w) gone in
          let s : replying w (m ∷ ms) ≡ replying w ms = rw silent refl in
          subst (Settled ms rest (c.omsg_q ++ replying w (m ∷ ms)))
            (sym (send_done_silent m c w silent))
            (
              i,
              o
                  ∙ ap (λ t. c.omsg_q ++ t)
                      (replying-same w (req_put m w) ms (req_put-noreply m w) ∙ sym s),
            )
    ]

-- Sending keeps the order: on a connection that stands and has gathered nothing, `k` calls of
-- `req_send_next` give the first `k` requests of the queue, each once, if no request stands in it
-- twice; and when `req_send_done` is through with them, the queue holds the others, and behind the
-- requests that await an answer stand those of them that want one, in the same order.
pub sends-order :
    (post_connect : Conn → World → Conn × World) (sys : Sys) (k : ℕ) (c : Conn) (w : World)
    (q : List ℕ)
    → Distinct q
    → (gathered post_connect sys k (ready c q none) w ≡ take k q)
      × ((finish (take k q) (ready c q none) w).0.imsg_q ≡ drop k q)
      × ((finish (take k q) (ready c q none) w).0.omsg_q ≡ c.omsg_q ++ replying w (take k q))
sends-order post_connect sys k c w q d =
    let (i, o) =
      finish-queues (take k q) (drop k q) (ready c q none) w (sym (take-append-drop k q)) in
    (gathered-take post_connect sys k c w q d, i, o)
