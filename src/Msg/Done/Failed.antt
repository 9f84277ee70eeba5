-- ===== src/Msg/Done/Failed.antt =====
-- When a fragment of a request is in error (`req_error`).
use gfwproxy.Base.{
  ℕ, ◌≡◌, refl, sym, ap, ◌∙◌, subst, ◌≢◌, inl, inr, Bool, true, false, not, List, [], ◌∷◌, ◌++◌,
  reverse, arith, ◌==◌, Bool-cases, All,
}
use gfwproxy.Msg.{Msg, World, set_msg, after, before}
use gfwproxy.Msg.Fields.{set_msg-field}
use gfwproxy.Msg.Done.{
  while_frag, others, every, mark, with_ferror, req_error, set_msg_same, All_zip,
}

record Errors (w u : World) : Type 0 where
  error : (j : ℕ) → (u.msg j).error ≡ (w.msg j).error
  frag_id : (j : ℕ) → (u.msg j).frag_id ≡ (w.msg j).frag_id
  ferror : (j : ℕ) → (w.msg j).ferror ≡ true → (u.msg j).ferror ≡ true

ferror-Errors : (c : ℕ) (w : World) → Errors w (set_msg c (with_ferror (w.msg c)) w)
ferror-Errors c w = record {
  error = set_msg-field (λ v. v.error) c (with_ferror (w.msg c)) w refl;
  frag_id = set_msg-field (λ v. v.frag_id) c (with_ferror (w.msg c)) w refl;
  ferror = λ j h. keeps_ferror j h;
}
  where
    keeps_ferror :
        (j : ℕ)
        → (w.msg j).ferror ≡ true
        → ((set_msg c (with_ferror (w.msg c)) w).msg j).ferror ≡ true
    keeps_ferror j h = elim (Bool-cases (j == c)) [ inl e ↦ rw e refl | inr ne ↦ rw ne h ]

mark_ferror-Errors : (cs : List ℕ) (w : World) → Errors w (mark with_ferror cs w)
mark_ferror-Errors [] w = record { error = λ j. refl; frag_id = λ j. refl; ferror = λ j h. h }
mark_ferror-Errors (c ∷ cs) w =
    let f = ferror-Errors c w in
    let g = mark_ferror-Errors cs (set_msg c (with_ferror (w.msg c)) w) in
    record {
      error = λ j. g.error j ∙ f.error j;
      frag_id = λ j. g.frag_id j ∙ f.frag_id j;
      ferror = λ j h. g.ferror j (f.ferror j h);
    }

mark_ferror-All :
    (cs : List ℕ) (w : World) → All (λ c. ((mark with_ferror cs w).msg c).ferror ≡ true) cs
mark_ferror-All [] w = tt
mark_ferror-All (c ∷ cs) w =
    let u = set_msg c (with_ferror (w.msg c)) w in
    let a = mark_ferror-Errors cs u in
    (
      a.ferror c (ap (λ v. v.ferror) (set_msg_same c (with_ferror (w.msg c)) w)),
      mark_ferror-All cs u,
    )

while_frag-frag_id :
    (id : ℕ) (msg : ℕ → Msg) (cs : List ℕ) → All (λ c. (msg c).frag_id ≡ id) (while_frag id msg cs)
while_frag-frag_id id msg [] = tt
while_frag-frag_id id msg (c ∷ cs) = elim (Bool-cases ((msg c).frag_id == id)) [
  | inl e ↦ rw e (ground arith, while_frag-frag_id id msg cs)
  | inr ne ↦ rw ne tt
]

All_append : (P : ℕ → Type 0) (xs ys : List ℕ) → All P xs → All P ys → All P (xs ++ ys)
All_append P [] ys a b = b
All_append P (x ∷ xs) ys a b = (a.0, All_append P xs ys a.1 b)

others-frag_id :
    (q : List ℕ) (m : ℕ) (w : World)
    → All (λ c. (w.msg c).frag_id ≡ (w.msg m).frag_id) (others q m w)
others-frag_id q m w =
    let id = (w.msg m).frag_id in
    All_append (λ c. (w.msg c).frag_id ≡ id) (while_frag id w.msg (reverse (before m q)))
      (while_frag id w.msg (after m q)) (while_frag-frag_id id w.msg (reverse (before m q)))
      (while_frag-frag_id id w.msg (after m q))

marked_error :
    (q : List ℕ) (c : ℕ) (w : World)
    → (w.msg c).frag_id ≢ 0
    → (w.msg c).ferror ≡ true
    → req_error q c w ≡ (true, w)
unfolding req_error
marked_error q c w nz f =
    let nz' : ((w.msg c).frag_id == 0) ≡ false = ground arith in
    elim (Bool-cases (w.msg c).error) [ inl e ↦ rw e refl | inr ne ↦ rw (ne, nz', f) refl ]

found_error :
    (q : List ℕ) (m : ℕ) (w : World)
    → (w.msg m).frag_id ≢ 0
    → (w.msg m).error ≡ false
    → (w.msg m).ferror ≡ false
    → every (λ v. not v.error) w (others q m w) ≡ false
    → req_error q m w ≡ (true, mark with_ferror (m ∷ others q m w) w)
unfolding req_error
found_error q m w nz ne nf bad =
    let nz' : ((w.msg m).frag_id == 0) ≡ false = ground arith in rw (ne, nz', nf, bad) refl

-- Where one fragment of a request is in error, `req_error` says yes for the others, and from then
-- on for each fragment around that one in the queue, whatever the queue is by then, with no more
-- changes.
pub req_error-fragments :
    (q : List ℕ) (m : ℕ) (w : World)
    → (w.msg m).frag_id ≢ 0
    → (w.msg m).error ≡ false
    → (w.msg m).ferror ≡ false
    → every (λ v. not v.error) w (others q m w) ≡ false
    → ((req_error q m w).0 ≡ true)
      × All
          (λ c. (q' : List ℕ) → req_error q' c (req_error q m w).1 ≡ (true, (req_error q m w).1))
          (m ∷ others q m w)
req_error-fragments q m w nz ne nf bad =
    let cs = m ∷ others q m w in
    let u = mark with_ferror cs w in
    let e = found_error q m w nz ne nf bad in
    let kept = mark_ferror-Errors cs w in
    (
      ap (λ (r : Bool × World). r.0) e,
      subst (λ (v : World). All (λ c. (q' : List ℕ) → req_error q' c v ≡ (true, v)) cs)
          (sym (ap (λ (r : Bool × World). r.1) e))
          (All_zip cs
            (λ c is_marked same q'.
              marked_error q' c u (λ z. nz (sym same ∙ sym (kept.frag_id c) ∙ z)) is_marked)
            (mark_ferror-All cs w) (refl, others-frag_id q m w)),
    )
