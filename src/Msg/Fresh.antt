-- ===== src/Msg/Fresh.antt =====
-- The messages that `msg_get` gives.
use gfwproxy.Base.{
  ℕ, ◌≡◌, refl, ap, subst, ◌⊎◌, inl, inr, true, false, some, List, [], ◌∷◌, arith, ◌==◌,
}
use gfwproxy.Msg.{mem, World, Sys, set_msg, no_msg, take_msg, msg_get}

-- The message `n` is new, and no other message has changed.
pub record Fresh (owner : ℕ) (w : World) (m n : ℕ) (x : World) : Type 0 where
  pub new : x.msg n ≡ record no_msg { owner = owner }
  pub others : (j : ℕ) → (j == n) ≡ false → x.msg j ≡ w.msg j
  pub apart : (n == m) ≡ false
  pub same_bufs : x.bufs ≡ w.bufs

List-cases : (q : List ℕ) → (q ≡ []) ⊎ ((n : ℕ) × (ns : List ℕ) × (q ≡ n ∷ ns))
List-cases [] = inl refl
List-cases (n ∷ ns) = inr (n, ns, refl)

first_apart : (m n : ℕ) (ns : List ℕ) → mem m (n ∷ ns) ≡ false → (n == m) ≡ false
first_apart m n ns h = ground arith

set_msg-Fresh :
    (owner : ℕ) (w u : World) (m n : ℕ)
    → u.msg ≡ w.msg
    → u.bufs ≡ w.bufs
    → (n == m) ≡ false
    → Fresh owner w m n (set_msg n (record no_msg { owner = owner }) u)
set_msg-Fresh owner w u m n e b ne =
    let self : (n == n) ≡ true = ground arith in
    record { new = rw self refl; others = λ j i. rw i (ap (λ f. f j) e); apart = ne; same_bufs = b }

pub msg_get-Fresh :
    (sys : Sys) (owner : ℕ) (w : World) (m k : ℕ)
    → sys.has_memory ≡ true
    → sys.alloc ≡ some k
    → (k == m) ≡ false
    → mem m w.free_msgq ≡ false
    → (n : ℕ) × (x : World) × (msg_get sys owner w ≡ (some n, x)) × Fresh owner w m n x
unfolding msg_get take_msg
msg_get-Fresh sys owner w m k memory alloc ne out = elim (List-cases w.free_msgq) [
  | inl e ↦ (k, _, rw (memory, e, alloc) refl, set_msg-Fresh owner w w m k refl refl ne)
  | inr (n, ns, e) ↦
      let u : World = record w { free_msgq = ns } in
      (
        n,
        _,
        rw (memory, e) refl,
        set_msg-Fresh owner w u m n refl refl
            (first_apart m n ns (subst (λ q. mem m q ≡ false) e out)),
      )
]
