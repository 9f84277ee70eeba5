-- ===== src/Stream/Pending.antt =====
-- The bytes of the messages as one stream, and what `msg_send_chain` gathers of it.
use gfwproxy.Base.{
  ℕ, zero, suc, ◌≤◌, ◌≡◌, refl, sym, ap, ap₂, ◌∙◌, subst, inl, inr, true, false, Option, none, some,
  List, [], ◌∷◌, ◌++◌, append-nil, append_assoc, arith, ◌==◌, Bool-cases, Option-cases, length, All,
  some_inj,
}
use gfwproxy.Mbuf.Chain.{contents}
use gfwproxy.Msg.{mem, World, Conn}
use gfwproxy.Stream.{Handlers}
use gfwproxy.Stream.Send.{limit, has_room, Sendv, gather_mbufs, gather}
use gfwproxy.Stream.Gather.{Fits, Gathered, Gathered-trans, gather_mbufs-Gathered}

abbrev pub pending : List ℕ → World → List ℕ
pending [] w = []
pending (m ∷ ms) w = contents (w.msg m).mhdr ++ pending ms w

-- What an operation must leave of a message that it is not about.
pub record Kept (w x : World) (j : ℕ) : Type 0 where
  pub same_mhdr : (x.msg j).mhdr ≡ (w.msg j).mhdr
  pub same_peer : (x.msg j).peer ≡ (w.msg j).peer
  pub same_mlen : (x.msg j).mlen ≡ (w.msg j).mlen

pub Kept-refl : (w : World) (j : ℕ) → Kept w w j
Kept-refl w j = record { same_mhdr = refl; same_peer = refl; same_mlen = refl }

pub Kept-trans : (w u x : World) (j : ℕ) → Kept w u j → Kept u x j → Kept w x j
Kept-trans w u x j k l = record {
  same_mhdr = l.same_mhdr ∙ k.same_mhdr;
  same_peer = l.same_peer ∙ k.same_peer;
  same_mlen = l.same_mlen ∙ k.same_mlen;
}

-- A message that can be sent: it has no answer yet, and its length counts the bytes that it holds, at least.
pub record Ready (w : World) (m : ℕ) : Type 0 where
  pub fits : All Fits (w.msg m).mhdr
  pub alone : (w.msg m).peer ≡ none
  pub sized : length (contents (w.msg m).mhdr) ≤ (w.msg m).mlen

pub Ready-kept : (w x : World) (m : ℕ) → Kept w x m → Ready w m → Ready x m
Ready-kept w x m k r = record {
  fits = subst (All Fits) (sym k.same_mhdr) r.fits;
  alone = k.same_peer ∙ r.alone;
  sized =
      subst (λ t. length (contents t) ≤ (x.msg m).mlen) (sym k.same_mhdr)
        (subst (λ t. length (contents (w.msg m).mhdr) ≤ t) (sym k.same_mlen) r.sized);
}

pub all_Ready :
    (w x : World) (ms : List ℕ)
    → ((j : ℕ) → mem j ms ≡ true → Kept w x j)
    → All (Ready w) ms
    → All (Ready x) ms
all_Ready w x [] k r = tt
all_Ready w x (m ∷ ms) k r =
    (Ready-kept w x m (k m (ground arith)) r.0, all_Ready w x ms (λ j i. k j (ground arith)) r.1)

pub pending-kept :
    (w x : World) (ms : List ℕ)
    → ((j : ℕ) → mem j ms ≡ true → Kept w x j)
    → pending ms x ≡ pending ms w
pending-kept w x [] k = refl
pending-kept w x (m ∷ ms) k =
    ap₂ (λ s t. s ++ t) (ap contents (k m (ground arith)).same_mhdr)
      (pending-kept w x ms (λ j i. k j (ground arith)))

-- A protocol's functions, as far as messages on their way out depend on them: the next message is
-- looked up, and a message that has been sent is put away, with no effect on the others.
pub record Quiet (h : Handlers) : Type 0 where
  pub next :
      (c : Conn) (w : World) (r : Option ℕ × Conn × World)
      → h.send_next c w ≡ some r
      → (j : ℕ) → Kept w r.2 j
  pub done :
      (m : ℕ) (c : Conn) (w : World) (r : Conn × World)
      → h.send_done m c w ≡ some r
      → (w.msg m).peer ≡ none
      → (j : ℕ) → (m == j) ≡ false
      → Kept w r.1 j
  pub cleared :
      (m : ℕ) (c : Conn) (w : World) (r : Conn × World)
      → h.send_done m c w ≡ some r
      → (w.msg m).peer ≡ none
      → contents (w.msg m).mhdr ≡ []
      → contents (r.1.msg m).mhdr ≡ []

module _ (h : Handlers) (quiet : Quiet h) where
  -- The messages behind `m`, what the vector holds of them, and what became of the store.
  pub record Chain (m : ℕ) (q : List ℕ) (v : Sendv) (w : World) (r : List ℕ × Sendv × Conn × World)
      : Type 0 where
    pub more : List ℕ
    pub queue : r.0 ≡ q ++ (m ∷ more)
    pub vector : Gathered (pending (m ∷ more) w) v r.1
    pub kept : (j : ℕ) → Kept w r.3 j

  single :
      (m : ℕ) (q : List ℕ) (v u : Sendv) (c : Conn) (w x : World)
      → Gathered (contents (w.msg m).mhdr) v u
      → ((j : ℕ) → Kept w x j)
      → Chain m q v w (q ++ (m ∷ []), u, c, x)
  single m q v u c w x g k = record {
    more = [];
    queue = refl;
    vector = subst (λ t. Gathered t v u) (sym (append-nil (contents (w.msg m).mhdr))) g;
    kept = k;
  }

  pub gather-Chain :
      (rounds m : ℕ) (q : List ℕ) (v : Sendv) (c : Conn) (w : World)
      → ((j : ℕ) → All Fits (w.msg j).mhdr)
      → v.nsend ≤ limit
      → (r : List ℕ × Sendv × Conn × World) → gather rounds h m q v c w ≡ some r
      → Chain m q v w r
  unfolding gather
  gather-Chain zero m q v c w fits l r = λ e. absurd (cc)
  gather-Chain (suc rounds) m q v c w fits l r =
      let u = gather_mbufs (w.msg m).mhdr v in
      let g = gather_mbufs-Gathered (w.msg m).mhdr v (fits m) l in
      elim (Bool-cases (has_room u)) [
        | inr full ↦
            rw (full, gather)
              (λ e. subst (Chain m q v w) (some_inj e) (single m q v u c w w g (Kept-refl w)))
        | inl room ↦ elim (Option-cases (h.send_next c w)) [
          | inl e ↦ rw (room, e, gather) (λ e. absurd (cc))
          | inr ((none, d, x), en) ↦
              rw (room, en, gather)
                (λ e.
                  subst (Chain m q v w) (some_inj e)
                    (single m q v u d w x g (quiet.next c w (none, d, x) en)))
          | inr ((some n, d, x), en) ↦
              let k = quiet.next c w (some n, d, x) en in
              rw (room, en, gather)
                (λ e.
                  let next =
                    gather-Chain rounds n (q ++ (m ∷ [])) u d x
                      (λ j. subst (All Fits) (sym (k j).same_mhdr) (fits j)) g.below r e in
                  record {
                    more = n ∷ next.more;
                    queue = next.queue ∙ append_assoc q (m ∷ []) (n ∷ next.more);
                    vector =
                        Gathered-trans (contents (w.msg m).mhdr) (pending (n ∷ next.more) w) v u r.1
                          g room
                          (subst (λ t. Gathered t u r.1)
                            (pending-kept w x (n ∷ next.more) (λ j i. k j)) next.vector);
                    kept = λ j. Kept-trans w x r.3 j (k j) (next.kept j);
                  })
        ]
      ]
