-- ===== src/Msg/Fields.antt =====
-- Which fields of the messages an operation leaves as they are.
use gfwproxy.Base.{
  ℕ, ◌≡◌, refl, sym, ap, ◌∙◌, inl, inr, true, false, Option, none, List, [], arith, ◌==◌,
  Bool-cases, Option-cases,
}
use gfwproxy.Mbuf.{Mbuf}
use gfwproxy.Msg.{mem, Msg, World, set_msg, msg_put, rsp_put, req_put, msg_tmo_delete}

module _ {X : Type 0} (f : Msg → X) where
  pub set_msg-field :
      (m : ℕ) (v : Msg) (w : World)
      → f v ≡ f (w.msg m)
      → (j : ℕ) → f ((set_msg m v w).msg j) ≡ f (w.msg j)
  set_msg-field m v w h j = elim (Bool-cases (j == m)) [
    | inl e ↦ let e' : j ≡ m = ground arith in rw e (h ∙ ap (λ i. f (w.msg i)) (sym e'))
    | inr ne ↦ rw ne refl
  ]

  module _ (peer_free : (v : Msg) (p : Option ℕ) → f (record v { peer = p }) ≡ f v)
      (mhdr_free : (v : Msg) (l : List Mbuf) → f (record v { mhdr = l }) ≡ f v) where
    pub msg_put-field : (m : ℕ) (w : World) (j : ℕ) → f ((msg_put m w).msg j) ≡ f (w.msg j)
    unfolding msg_put
    msg_put-field m w j =
        set_msg-field m (record (w.msg m) { mhdr = [] }) w (mhdr_free (w.msg m) []) j

    -- `req_put` changes peers and buffers only.
    pub req_put-field : (m : ℕ) (w : World) (j : ℕ) → f ((req_put m w).msg j) ≡ f (w.msg j)
    unfolding req_put rsp_put msg_tmo_delete
    req_put-field m w j = elim (Option-cases (w.msg m).peer) [
      | inl e ↦ rw (e, req_put) (msg_put-field m (msg_tmo_delete m w) j)
      | inr (r, e) ↦
          let u = set_msg m (record (w.msg m) { peer = none }) w in
          let v = set_msg r (record (u.msg r) { peer = none }) u in
          rw (e, req_put)
            (msg_put-field m (msg_tmo_delete m (msg_put r v)) j
              ∙ msg_put-field r v j
              ∙ set_msg-field r (record (u.msg r) { peer = none }) u (peer_free (u.msg r) none) j
              ∙ set_msg-field m (record (w.msg m) { peer = none }) w (peer_free (w.msg m) none) j)
    ]

  -- A request without an answer: all other messages are as they were, and its own buffers are gone.
  pub req_put-others :
      (m : ℕ) (w : World)
      → (w.msg m).peer ≡ none
      → (j : ℕ) → (m == j) ≡ false
      → f ((req_put m w).msg j) ≡ f (w.msg j)
  unfolding req_put msg_put msg_tmo_delete
  req_put-others m w alone j ne =
      let e : (j == m) ≡ false = ground arith in rw (alone, req_put, e) refl

pub req_put-mhdr : (m : ℕ) (w : World) → (w.msg m).peer ≡ none → ((req_put m w).msg m).mhdr ≡ []
unfolding req_put msg_put msg_tmo_delete
req_put-mhdr m w alone = let e : (m == m) ≡ true = ground arith in rw (alone, req_put, e) refl

-- A request that is put away is free, and what was free stays so.
pub msg_put-free :
    (m j : ℕ) (w : World) → mem j w.free_msgq ≡ true → mem j (msg_put m w).free_msgq ≡ true
unfolding msg_put
msg_put-free m j w h = ground arith

msg_put_self : (m : ℕ) (w : World) → mem m (msg_put m w).free_msgq ≡ true
unfolding msg_put
msg_put_self m w = ground arith

pub req_put-free :
    (m j : ℕ) (w : World) → mem j w.free_msgq ≡ true → mem j (req_put m w).free_msgq ≡ true
unfolding req_put rsp_put msg_tmo_delete
req_put-free m j w h = elim (Option-cases (w.msg m).peer) [
  | inl e ↦ rw (e, req_put) (msg_put-free m j (msg_tmo_delete m w) h)
  | inr (r, e) ↦
      let u = set_msg m (record (w.msg m) { peer = none }) w in
      let v = set_msg r (record (u.msg r) { peer = none }) u in
      rw (e, req_put) (msg_put-free m j (msg_tmo_delete m (msg_put r v)) (msg_put-free r j v h))
]

pub req_put_self : (m : ℕ) (w : World) → mem m (req_put m w).free_msgq ≡ true
unfolding req_put rsp_put msg_tmo_delete
req_put_self m w = elim (Option-cases (w.msg m).peer) [
  | inl e ↦ rw (e, req_put) (msg_put_self m (msg_tmo_delete m w))
  | inr (r, e) ↦
      let u = set_msg m (record (w.msg m) { peer = none }) w in
      let v = set_msg r (record (u.msg r) { peer = none }) u in
      rw (e, req_put) (msg_put_self m (msg_tmo_delete m (msg_put r v)))
]
