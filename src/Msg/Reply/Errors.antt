-- ===== src/Msg/Reply/Errors.antt =====
-- What `rsp_make_error` does to the queue of a client.
use gfwproxy.Base.{
  ℕ, ◌≡◌, refl, sym, ap, ◌∙◌, subst, ◌≢◌, inl, inr, true, false, List, [], ◌∷◌, ◌++◌, append_assoc,
  arith, ◌==◌, if◌then◌else◌, Bool-cases, All,
}
use gfwproxy.Msg.{mem, World, Conn, remove, after, req_put, req_client_dequeue_omsgq}
use gfwproxy.Msg.Fields.{req_put-field}
use gfwproxy.Msg.Send.Order.{Distinct, mem_middle, after_middle}
use gfwproxy.Msg.Reply.{make_error_loop, rsp_make_error}

req_put-err :
    (m : ℕ) (w : World) (j : ℕ)
    → (((req_put m w).msg j).frag_id ≡ (w.msg j).frag_id)
      × (((req_put m w).msg j).err ≡ (w.msg j).err)
req_put-err m w j = (
  req_put-field (λ v. v.frag_id) (λ v p. refl) (λ v l. refl) m w j,
  req_put-field (λ v. v.err) (λ v p. refl) (λ v l. refl) m w j,
)

-- The first error number among the messages, or the one that there is.
abbrev pub first_err : ℕ → World → List ℕ → ℕ
first_err err w [] = err
first_err err w (m ∷ ms) = if err == 0 then first_err (w.msg m).err w ms else err

-- The fragments of a request: all carry its number, and the next message does not.
abbrev pub OfRequest : ℕ → World → List ℕ → List ℕ → Type 0
OfRequest id w ms rest =
    All (λ m. ((w.msg m).frag_id == id) ≡ true) ms
    × elim rest [ [] ↦ Unit | m ∷ q ↦ ((w.msg m).frag_id == id) ≡ false ]

remove_middle : (a b : List ℕ) (m : ℕ) → mem m a ≡ false → remove m (a ++ (m ∷ b)) ≡ a ++ b
remove_middle [] b m h = ground arith
remove_middle (x ∷ a) b m h = ground (arith, remove_middle a b m)

mem_append : (a b : List ℕ) (m x : ℕ) → mem x (a ++ (m ∷ b)) ≡ false → mem x (a ++ b) ≡ false
mem_append [] b m x h = ground arith
mem_append (y ∷ a) b m x h = ground (arith, mem_append a b m x)

Distinct-append : (a b : List ℕ) (m : ℕ) → Distinct (a ++ (m ∷ b)) → Distinct (a ++ b)
Distinct-append [] b m d = d.1
Distinct-append (x ∷ a) b m d = (mem_append a b m x d.0, Distinct-append a b m d.1)

module _ (w u : World) (id : ℕ)
    (same : (j : ℕ)
      → ((u.msg j).frag_id ≡ (w.msg j).frag_id) × ((u.msg j).err ≡ (w.msg j).err)) where
  first_err-same : (err : ℕ) (ms : List ℕ) → first_err err u ms ≡ first_err err w ms
  first_err-same err [] = refl
  first_err-same err (m ∷ ms) = elim (Bool-cases (err == 0)) [
    | inl z ↦ rw z (ap (λ e. first_err e u ms) (same m).1 ∙ first_err-same (w.msg m).err ms)
    | inr nz ↦ rw nz refl
  ]

  OfRequest-same : (ms rest : List ℕ) → OfRequest id w ms rest → OfRequest id u ms rest
  OfRequest-same (m ∷ ms) rest (all, stop) =
      let (all', stop') = OfRequest-same ms rest (all.1, stop) in
      ((ap (λ t. t == id) (same m).0 ∙ all.0, all'), stop')
  OfRequest-same [] [] (all, stop) = (tt, tt)
  OfRequest-same [] (m ∷ q) (all, stop) = (tt, ap (λ t. t == id) (same m).0 ∙ stop)

loop_steps :
    (id : ℕ) (m : ℕ) (ms : List ℕ) (err : ℕ) (c : Conn) (w : World)
    → ((w.msg m).frag_id == id) ≡ true
    → make_error_loop id (m ∷ ms) err c w
      ≡ make_error_loop id ms
          (if err == 0 then (w.msg m).err else err)
          (req_client_dequeue_omsgq m c)
          (req_put m w)
unfolding make_error_loop
loop_steps id m ms err c w h =
    rw h
      (ap (λ e. make_error_loop id ms e (req_client_dequeue_omsgq m c) (req_put m w)) ground arith)

abbrev Cleared : List ℕ → ℕ → ℕ × Conn × World → Type 0
Cleared q err (e, d, u) = (e ≡ err) × (d.omsg_q ≡ q)

loop_ends :
    (id : ℕ) (rest : List ℕ) (err : ℕ) (c : Conn) (w : World)
    → OfRequest id w [] rest
    → make_error_loop id rest err c w ≡ (err, c, w)
unfolding make_error_loop
loop_ends id [] err c w of = refl
loop_ends id (m ∷ q) err c w (all, stop) = rw stop refl

make_error_loop-Cleared :
    (id : ℕ) (a ms rest : List ℕ) (err : ℕ) (c : Conn) (w : World)
    → c.omsg_q ≡ a ++ (ms ++ rest)
    → Distinct (a ++ (ms ++ rest))
    → OfRequest id w ms rest
    → Cleared (a ++ rest) (first_err err w ms) (make_error_loop id (ms ++ rest) err c w)
make_error_loop-Cleared id a [] rest err c w e d of =
    subst (Cleared (a ++ rest) err) (sym (loop_ends id rest err c w of)) (refl, e)
make_error_loop-Cleared id a (m ∷ ms) rest err c w e d (all, stop) =
    let u = req_put m w in
    let same = req_put-err m w in
    let err' = if err == 0 then (w.msg m).err else err in
    let out = req_client_dequeue_omsgq m c in
    let gone : out.omsg_q ≡ a ++ (ms ++ rest) =
      ap (remove m) e ∙ remove_middle a (ms ++ rest) m (mem_middle a (ms ++ rest) m d) in
    let (found, left) =
      make_error_loop-Cleared id a ms rest err' out u gone (Distinct-append a (ms ++ rest) m d)
        (OfRequest-same w u id same ms rest (all.1, stop)) in
    let first : first_err err' u ms ≡ first_err err w (m ∷ ms) =
      first_err-same w u id same err' ms ∙ skip err w m ms in
    subst (Cleared (a ++ rest) (first_err err w (m ∷ ms)))
      (sym (loop_steps id m (ms ++ rest) err c w all.0)) (found ∙ first, left)
  where
    stays : (err : ℕ) (w : World) (ms : List ℕ) → (err == 0) ≡ false → first_err err w ms ≡ err
    stays err w [] nz = refl
    stays err w (m ∷ ms) nz = rw nz refl

    skip :
        (err : ℕ) (w : World) (m : ℕ) (ms : List ℕ)
        → first_err (if err == 0 then (w.msg m).err else err) w ms ≡ first_err err w (m ∷ ms)
    skip err w m ms = elim (Bool-cases (err == 0)) [
      | inl z ↦ rw z refl
      | inr nz ↦ rw nz (stays err w ms nz)
    ]

-- For a failed request `m` that stands in the client's queue with other fragments of the same
-- request right behind it, and no message twice, `rsp_make_error` takes exactly those fragments
-- out of the queue, and gives the first error number among them that is not 0.
pub rsp_make_error-fragments :
    (a ms rest : List ℕ) (m : ℕ) (c : Conn) (w : World)
    → c.omsg_q ≡ a ++ (m ∷ ms ++ rest)
    → Distinct (a ++ (m ∷ ms ++ rest))
    → (w.msg m).frag_id ≢ 0
    → OfRequest (w.msg m).frag_id w ms rest
    → ((rsp_make_error m c w).0 ≡ first_err 0 w ms)
      × ((rsp_make_error m c w).1.omsg_q ≡ a ++ (m ∷ rest))
unfolding rsp_make_error
rsp_make_error-fragments a ms rest m c w e d nz of =
    let id = (w.msg m).frag_id in
    let nz' : (id == 0) ≡ false = ground arith in
    let behind : after m c.omsg_q ≡ ms ++ rest =
      ap (after m) e ∙ after_middle a (ms ++ rest) m (mem_middle a (ms ++ rest) m d) in
    let shift : a ++ (m ∷ ms ++ rest) ≡ (a ++ (m ∷ [])) ++ (ms ++ rest) =
      sym (append_assoc a (m ∷ []) (ms ++ rest)) in
    let (err, left) =
      make_error_loop-Cleared id (a ++ (m ∷ [])) ms rest 0 c w (e ∙ shift) (subst Distinct shift d)
        of in
    rw (nz', behind) (err, left ∙ append_assoc a (m ∷ []) rest)
