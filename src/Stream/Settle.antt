-- ===== src/Stream/Settle.antt =====
-- What the loops of `msg_send_chain` do to the buffers once the bytes are sent.
use gfwproxy.Base.{
  ℕ, ◌-◌, ◌≤◌, ◌<◌, ◌≡◌, sym, ap, ◌∙◌, subst, inl, inr, Bool, true, false, List, [], ◌∷◌, ◌++◌,
  arith, ltb, ltb→lt, Bool-cases, length, drop, length-append, All,
}
use gfwproxy.Mbuf.{Mbuf, last, unread, mbuf_length, mbuf_empty}
use gfwproxy.Mbuf.Chain.{contents}
use gfwproxy.Stream.Cuts.{drop_both, drop_all, drop-drop}
use gfwproxy.Stream.Send.{adjust}
use gfwproxy.Stream.Gather.{Fits, length-unread, unread-empty}

-- The buffers have lost their first `n` bytes, `left` of which stand behind them; `done` says
-- whether nothing is left in them.
pub record Adjusted (n : ℕ) (all : List ℕ) (r : List Mbuf × ℕ × Bool) : Type 0 where
  pub bytes : contents r.0 ≡ drop n all
  pub left : r.1 ≡ n - length all
  pub done : r.2 ≡ true → length all ≤ n
  pub short : r.2 ≡ false → n < length all

ge_of : (a b : ℕ) → ltb a b ≡ false → b ≤ a
ge_of a b h = ground arith

pub adjust-Adjusted :
    (n : ℕ) (mhdr : List Mbuf) → All Fits mhdr → Adjusted n (contents mhdr) (adjust n mhdr)
unfolding adjust
adjust-Adjusted n [] fits = record {
  bytes = sym (drop_all n [] (omega arith));
  left = omega arith;
  done = λ h. omega arith;
  short = λ h. absurd (cc);
}
adjust-Adjusted n (b ∷ mhdr) fits = elim (Bool-cases (mbuf_empty b)) [
  | inl e ↦
      let ih = adjust-Adjusted n mhdr fits.1 in
      let nothing = unread-empty b e in
      rw e (
        subst
          (λ t.
            Adjusted n (t ++ contents mhdr)
              (b ∷ (adjust n mhdr).0, (adjust n mhdr).1, (adjust n mhdr).2))
          (sym nothing)
          (record {
            bytes = ap (λ t. t ++ contents (adjust n mhdr).0) nothing ∙ ih.bytes;
            left = ih.left;
            done = ih.done;
            short = ih.short;
          }))
  | inr e ↦
      let same = length-unread b fits.0 in
      let both = drop_both n (unread b) (contents mhdr) in
      let total = length-append (unread b) (contents mhdr) in
      elim (Bool-cases (ltb n (mbuf_length b))) [
        | inl lt ↦
            let z : n - length (unread b) ≡ 0 = omega (arith, ltb→lt n (mbuf_length b) lt, same) in
            rw (e, lt)
              (record {
                bytes =
                    ap (λ t. t ++ contents mhdr) (sym (drop-drop b.pos n b.bytes))
                    ∙ ap (λ k. drop n (unread b) ++ drop k (contents mhdr)) (sym z)
                    ∙ sym both;
                left = ground arith;
                done = λ h. absurd (cc);
                short = λ h. ground arith;
              })
        | inr ge ↦
            let ih = adjust-Adjusted (n - mbuf_length b) mhdr fits.1 in
            rw (e, ge)
              (record {
                bytes =
                    ap (λ t. t ++ contents (adjust (n - mbuf_length b) mhdr).0)
                      (drop_all (last b) b.bytes (omega arith))
                    ∙ ih.bytes
                    ∙ ap (λ k. drop k (contents mhdr)) (ap (λ k. n - k) same)
                    ∙ ap (λ t. t ++ drop (n - length (unread b)) (contents mhdr))
                        (sym (drop_all n (unread b) (ground arith)))
                    ∙ sym both;
                left = omega (arith, ih.left, total, same);
                done = λ h. omega (arith, ih.done h, total, same, ge_of n (mbuf_length b) ge);
                short = λ h. omega (arith, ih.short h, total, same);
              })
      ]
]
