-- ===== src/Mbuf/Chain.antt =====
-- The bytes that a queue of buffers holds, as one sequence.
use gfwproxy.Base.{
  ℕ, zero, suc, ◌-◌, ◌≤◌, ◌≡◌, refl, sym, ap, ◌∙◌, inl, inr, Bool, true, some, List, [], ◌∷◌, ◌++◌,
  append-nil, append_assoc, arith, ltb, Bool-cases, take, drop, take-append-drop, some_inj,
}
use gfwproxy.Mbuf.{Mbuf, Bufs, unread, last, mbuf_get, mbuf_take, last_mbuf, set_last, mbuf_split}

-- The markers stand in their order.
pub record Ordered (m : Mbuf) : Type 0 where
  pub pos_last : m.pos ≤ last m
  pub last_end : last m ≤ m.size

abbrev pub contents : List Mbuf → List ℕ
contents [] = []
contents (m ∷ ms) = unread m ++ contents ms

pub contents-append : (xs ys : List Mbuf) → contents (xs ++ ys) ≡ contents xs ++ contents ys
contents-append [] ys = refl
contents-append (x ∷ xs) ys =
    ap (λ t. unread x ++ t) (contents-append xs ys)
    ∙ sym (append_assoc (unread x) (contents xs) (contents ys))

-- What `mbuf_get` gives.
abbrev pub fresh : Bufs → Mbuf
fresh b = record { bytes = []; pos = 0; size = b.mbuf_offset }

drop_split :
    {A : Type 0} (xs : List A) (p q : ℕ) → p ≤ q → drop p (take q xs) ++ drop q xs ≡ drop p xs
drop_split xs zero q h = take-append-drop q xs
drop_split [] (suc p) zero h = refl
drop_split [] (suc p) (suc q) h = refl
drop_split (x ∷ xs) (suc p) zero h = absurd (omega arith)
drop_split (x ∷ xs) (suc p) (suc q) h = drop_split xs p q (omega arith)

pub contents-set_last :
    (mhdr : List Mbuf) (m : Mbuf) (pos : ℕ)
    → last_mbuf mhdr ≡ some m
    → m.pos ≤ pos
    → contents (set_last mhdr (record m { bytes = take pos m.bytes })) ++ drop pos m.bytes
      ≡ contents mhdr
contents-set_last [] m pos e h = absurd (cc)
contents-set_last (x ∷ []) m pos e h =
    let same : x ≡ m = some_inj e in
    append_assoc (drop m.pos (take pos m.bytes)) [] (drop pos m.bytes)
    ∙ drop_split m.bytes m.pos pos h
    ∙ sym (append-nil (drop m.pos m.bytes))
    ∙ ap (λ t. unread t ++ []) (sym same)
contents-set_last (x ∷ y ∷ ms) m pos e h =
    append_assoc (unread x) (contents (set_last (y ∷ ms) (record m { bytes = take pos m.bytes })))
      (drop pos m.bytes)
    ∙ ap (λ t. unread x ++ t) (contents-set_last (y ∷ ms) m pos e h)

pub mbuf_get-fresh :
    (has_memory : Bool) (b : Bufs) {m : Mbuf} {c : Bufs}
    → mbuf_get has_memory b ≡ some (m, c)
    → (m ≡ fresh b) × (c.mbuf_offset ≡ b.mbuf_offset)
unfolding mbuf_get mbuf_take
mbuf_get-fresh has_memory b h = ground arith

pub mbuf_get-memory :
    (b : Bufs)
    → (c : Bufs) × (mbuf_get true b ≡ some (fresh b, c)) × (c.mbuf_offset ≡ b.mbuf_offset)
unfolding mbuf_get mbuf_take
mbuf_get-memory b = elim (Bool-cases (ltb 0 b.nfree_mbufq)) [
  | inl e ↦ (record b { nfree_mbufq = b.nfree_mbufq - 1 }, rw e refl, refl)
  | inr e ↦ (b, rw e refl, refl)
]

-- With memory, `mbuf_split` cuts the last buffer in two.
pub mbuf_split-memory :
    (has_memory : Bool) (pos : ℕ) (mhdr : List Mbuf) (m : Mbuf) (b : Bufs)
    → has_memory ≡ true
    → last_mbuf mhdr ≡ some m
    → (c : Bufs) × (mbuf_split has_memory (λ n. n) pos mhdr b
        ≡ some (
            some (
              set_last mhdr (record m { bytes = take pos m.bytes }),
              record { bytes = drop pos m.bytes; pos = 0; size = b.mbuf_offset },
              c,
            )))
unfolding mbuf_split
mbuf_split-memory has_memory pos mhdr m b memory e =
    let (c, got, size) = mbuf_get-memory b in (c, rw (e, memory, got, mbuf_split) refl)
