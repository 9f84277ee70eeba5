-- ===== src/Stream/Gather.antt =====
-- What the loops of `msg_send_chain` put into the vector.
use gfwproxy.Base.{
  ℕ, ◌+◌, ◌-◌, ◌%◌, ◌^◌, ◌≤◌, ◌<◌, ◌≡◌, refl, sym, ap, ◌∙◌, subst, inl, inr, true, false, List, [],
  ◌∷◌, ◌++◌, append-nil, append_assoc, arith, ltb, if◌then◌else◌, Bool-cases, length, take,
  length-append, length-drop, take_all, All,
}
use gfwproxy.Mbuf.{Mbuf, last, unread, mbuf_length, mbuf_empty}
use gfwproxy.Mbuf.Chain.{contents}
use gfwproxy.Stream.Cuts.{flat, flat-append, take_past, take_within, drop_all}
use gfwproxy.Stream.Send.{limit, has_room, Sendv, gather_mbufs}

-- A buffer whose markers stand in order, with a length that a `uint32_t` holds.
pub record Fits (b : Mbuf) : Type 0 where
  pub ordered : b.pos ≤ last b
  pub short : last b < 2 ^ 32

small : (n : ℕ) → n < 2 ^ 32 → n % 2 ^ 32 ≡ n
small n h = ground arith

pub length-unread : (b : Mbuf) → Fits b → mbuf_length b ≡ length (unread b)
length-unread b f =
    small (last b - b.pos) (omega (arith, f.short)) ∙ sym (length-drop b.pos b.bytes)

pub unread-empty : (b : Mbuf) → mbuf_empty b ≡ true → unread b ≡ []
unread-empty b e = drop_all b.pos b.bytes (ground arith)

-- The vector `u` has what `v` had, and behind it the first `count` bytes of the buffers; all of
-- them, if there is still room.
pub record Gathered (all : List ℕ) (v u : Sendv) : Type 0 where
  pub count : ℕ
  pub bytes : flat u.iov ≡ flat v.iov ++ take count all
  pub sum : u.nsend ≡ v.nsend + count
  pub most : count ≤ length all
  pub below : u.nsend ≤ limit
  pub whole : has_room u ≡ true → count ≡ length all

pub Gathered-none :
    (all : List ℕ) (v : Sendv)
    → v.nsend ≤ limit
    → (has_room v ≡ true → 0 ≡ length all)
    → Gathered all v v
Gathered-none all v h whole = record {
  count = 0;
  bytes = sym (append-nil (flat v.iov));
  sum = omega arith;
  most = omega arith;
  below = h;
  whole = whole;
}

-- One vector after another.
pub Gathered-trans :
    (a b : List ℕ) (v u t : Sendv)
    → Gathered a v u
    → has_room u ≡ true
    → Gathered b u t
    → Gathered (a ++ b) v t
Gathered-trans a b v u t g r k =
    let full : g.count ≡ length a = g.whole r in
    record {
      count = length a + k.count;
      bytes =
          k.bytes
          ∙ ap (λ x. x ++ take k.count b) (g.bytes ∙ ap (λ n. flat v.iov ++ take n a) full)
          ∙ append_assoc (flat v.iov) (take (length a) a) (take k.count b)
          ∙ ap (λ x. flat v.iov ++ (x ++ take k.count b)) (take_all (length a) a (omega arith))
          ∙ ap (λ x. flat v.iov ++ x) (sym (take_past a b k.count));
      sum = omega (arith, k.sum, g.sum, full);
      most = omega (arith, k.most, length-append a b);
      below = k.below;
      whole = λ h. omega (arith, k.whole h, length-append a b);
    }

no_room : (v : Sendv) → v.nsend ≡ limit → has_room v ≡ false
no_room v e = elim (Bool-cases (has_room v)) [ inl r ↦ absurd (ground arith) | inr r ↦ r ]

-- One buffer, cut where the vector would pass the limit.
abbrev mlen : Mbuf → Sendv → ℕ
mlen b v = if ltb limit (v.nsend + mbuf_length b) then limit - v.nsend else mbuf_length b

abbrev pushed : Mbuf → Sendv → Sendv
pushed b v = record { iov = v.iov ++ (take (mlen b v) (unread b) ∷ []); nsend = v.nsend + mlen b v }

pushed-Gathered :
    (b : Mbuf) (v : Sendv) → Fits b → v.nsend ≤ limit → Gathered (unread b) v (pushed b v)
pushed-Gathered b v f h =
    let same = length-unread b f in
    record {
      count = mlen b v;
      bytes =
          flat-append v.iov (take (mlen b v) (unread b) ∷ [])
          ∙ ap (λ t. flat v.iov ++ t) (append-nil (take (mlen b v) (unread b)));
      sum = refl;
      most = ground arith;
      below = ground arith;
      whole = λ r. elim (Bool-cases (ltb limit (v.nsend + mbuf_length b))) [
        | inl e ↦ absurd (ground arith)
        | inr e ↦ rw e same
      ];
    }

-- Without room, what stands behind is not looked at.
Gathered-more :
    (a b : List ℕ) (v u : Sendv) → has_room u ≡ false → Gathered a v u → Gathered (a ++ b) v u
Gathered-more a b v u r g = record {
  count = g.count;
  bytes = g.bytes ∙ ap (λ t. flat v.iov ++ t) (sym (take_within a b g.count g.most));
  sum = g.sum;
  most = omega (arith, g.most, length-append a b);
  below = g.below;
  whole = λ t. absurd (cc);
}

gather_mbufs-full : (mhdr : List Mbuf) (v : Sendv) → has_room v ≡ false → gather_mbufs mhdr v ≡ v
unfolding gather_mbufs
gather_mbufs-full [] v r = refl
gather_mbufs-full (b ∷ mhdr) v r = rw r refl

behind :
    (a : List ℕ) (mhdr : List Mbuf) (v u : Sendv)
    → Gathered a v u
    → (u.nsend ≤ limit → Gathered (contents mhdr) u (gather_mbufs mhdr u))
    → Gathered (a ++ contents mhdr) v (gather_mbufs mhdr u)
behind a mhdr v u g rest = elim (Bool-cases (has_room u)) [
  | inl r ↦ Gathered-trans a (contents mhdr) v u (gather_mbufs mhdr u) g r (rest g.below)
  | inr r ↦
      subst (λ t. Gathered (a ++ contents mhdr) v t) (sym (gather_mbufs-full mhdr u r))
        (Gathered-more a (contents mhdr) v u r g)
]

pub gather_mbufs-Gathered :
    (mhdr : List Mbuf) (v : Sendv)
    → All Fits mhdr
    → v.nsend ≤ limit
    → Gathered (contents mhdr) v (gather_mbufs mhdr v)
unfolding gather_mbufs
gather_mbufs-Gathered [] v fits h = Gathered-none [] v h (λ r. refl)
gather_mbufs-Gathered (b ∷ mhdr) v fits h = elim (Bool-cases (has_room v)) [
  | inr r ↦ rw r (Gathered-none (contents (b ∷ mhdr)) v h (λ t. absurd (cc)))
  | inl r ↦ elim (Bool-cases (mbuf_empty b)) [
    | inl e ↦
        rw (r, e)
          (subst (λ t. Gathered (t ++ contents mhdr) v (gather_mbufs mhdr v))
            (sym (unread-empty b e)) (gather_mbufs-Gathered mhdr v fits.1 h))
    | inr e ↦
        rw (r, e)
          (behind (unread b) mhdr v (pushed b v) (pushed-Gathered b v fits.0 h)
            (gather_mbufs-Gathered mhdr (pushed b v) fits.1))
  ]
]
