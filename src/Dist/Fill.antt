-- ===== src/Dist/Fill.antt =====
-- The writing pass over the servers: which points it writes, and that it stays inside the
-- continuum.
use gfwproxy.Base.{
  ℕ, zero, suc, ◌+◌, ◌-◌, ◌≤◌, ◌≡◌, refl, sym, ap, ap₂, ◌∙◌, inl, inr, Bool, true, false, not, ◌&&◌,
  some, List, [], ◌∷◌, ◌++◌, map, append_assoc, arith, ltb, if◌then◌else◌, ltb→lt, lt→ltb,
  Bool-cases, length, get_elem?, set, take, drop, length-append, take-append-drop, length-take,
  length-drop, get_elem?-append_left, get_elem?-append_right,
}
use gfwproxy.Server.{Continuum, point, Server}
use gfwproxy.Dist.{write_points, fill}
use gfwproxy.Dist.Sweep.{is_live, is_live-revive, revive, live_total}

-- The points of the live servers in the order of the servers, the first of which has index `i`.
pub slots : (Server → List ℕ) → Bool → ℕ → ℕ → List Server → List Continuum
slots points auto_eject now i [] = []
slots points auto_eject now i (s ∷ ss) =
    (if is_live auto_eject now s then map (point i) (points s) else [])
    ++ slots points auto_eject now (i + 1) ss

set-append :
    (pre post : List Continuum) (c d : Continuum)
    → set (pre ++ (d ∷ post)) (length pre) c ≡ pre ++ (c ∷ post)
set-append [] post c d = refl
set-append (x ∷ pre) post c d = ap (λ t. x ∷ t) (set-append pre post c d)

pub length-map-point : (i : ℕ) (vs : List ℕ) → length (map (point i) vs) ≡ length vs
length-map-point i [] = refl
length-map-point i (v ∷ vs) = ap suc (length-map-point i vs)

-- The cells `old` are overwritten, and nothing else is.
write_points_lem :
    (i : ℕ) (vs : List ℕ) (pre old post : List Continuum)
    → length old ≡ length vs
    → write_points i vs (length pre) (pre ++ (old ++ post))
      ≡ some (length pre + length vs, pre ++ (map (point i) vs ++ post))
unfolding write_points
write_points_lem i [] pre [] post h = ap (λ n. some (n, pre ++ post)) (omega arith)
write_points_lem i [] pre (o ∷ old) post h = absurd (omega arith)
write_points_lem i (v ∷ vs) pre [] post h = absurd (omega arith)
write_points_lem i (v ∷ vs) pre (o ∷ old) post h =
    rw
      (lt→ltb (length pre) (length (pre ++ (o ∷ (old ++ post))))
        (omega (arith, length-append pre (o ∷ (old ++ post)))))
      (rw (set-append pre (old ++ post) (point i v) o) (
        cc (
          write_points_lem i vs (pre ++ (point i v ∷ [])) old post (omega arith),
          append_assoc pre (point i v ∷ []) (old ++ post),
          append_assoc pre (point i v ∷ []) (map (point i) vs ++ post),
          next_at,
          all_at,
        )))
  where
    next_at : length (pre ++ (point i v ∷ [])) ≡ length pre + 1
    next_at = omega (arith, length-append pre (point i v ∷ []))

    all_at : length (pre ++ (point i v ∷ [])) + length vs ≡ length pre + suc (length vs)
    all_at = omega (arith, length-append pre (point i v ∷ []))

dead_test :
    (auto_eject : Bool) (now : ℕ) (s : Server)
    → (auto_eject && ltb now s.next_retry) ≡ not (is_live auto_eject now s)
dead_test auto_eject now s = ground arith

module _ (points : Server → List ℕ) (auto_eject : Bool) (now : ℕ) where
  slots-dead :
      (i : ℕ) (s : Server) (ss : List Server)
      → is_live auto_eject now s ≡ false
      → slots points auto_eject now i (s ∷ ss) ≡ slots points auto_eject now (i + 1) ss
  unfolding slots
  slots-dead i s ss dead = rw dead

  slots-live :
      (i : ℕ) (s : Server) (ss : List Server)
      → is_live auto_eject now s ≡ true
      → slots points auto_eject now i (s ∷ ss)
        ≡ map (point i) (points s) ++ slots points auto_eject now (i + 1) ss
  unfolding slots
  slots-live i s ss live = rw live

  -- The slots overwrite as many cells `old` as there are slots, and nothing else is written.
  pub fill-slots :
      (ss : List Server) (i : ℕ) (pre old post : List Continuum)
      → length old ≡ length (slots points auto_eject now i ss)
      → fill points auto_eject now ss i (length pre) (pre ++ (old ++ post))
        ≡ some (
          length pre + length (slots points auto_eject now i ss),
          pre ++ (slots points auto_eject now i ss ++ post),
        )
  unfolding fill slots
  fill-slots [] i pre [] post h = ap (λ n. some (n, pre ++ post)) (omega arith)
  fill-slots [] i pre (o ∷ old) post h = absurd (omega arith)
  fill-slots (s ∷ ss) i pre old post h = elim (Bool-cases (is_live auto_eject now s)) [
    | inr dead ↦
        rw (dead_test auto_eject now s, dead)
          (fill-slots ss (i + 1) pre old post (h ∙ ap length (slots-dead i s ss dead)))
    | inl live ↦
        let m = map (point i) (points s) in
        let r = slots points auto_eject now (i + 1) ss in
        let o1 = take (length (points s)) old in
        let o2 = drop (length (points s)) old in
        let lm = length-map-point i (points s) in
        let total : length old ≡ length m + length r =
          h ∙ ap length (slots-live i s ss live) ∙ length-append m r in
        let split : old ++ post ≡ o1 ++ (o2 ++ post) =
          ap (λ t. t ++ post) (sym (take-append-drop (length (points s)) old))
          ∙ append_assoc o1 o2 post in
        let len1 : length o1 ≡ length (points s) =
          omega (arith, length-take (length (points s)) old) in
        let len2 : length o2 ≡ length r = omega (arith, length-drop (length (points s)) old) in
        let at_next : length (pre ++ m) ≡ length pre + length (points s) =
          omega (arith, length-append pre m) in
        let at_end : length (pre ++ m) + length r ≡ length pre + length (m ++ r) =
          omega (arith, length-append pre m, length-append m r) in
        rw (dead_test auto_eject now s, live, split)
          (rw (write_points_lem i (points s) pre o1 (o2 ++ post) len1) (
            cc (
              fill-slots ss (i + 1) (pre ++ m) o2 post len2,
              append_assoc pre m (o2 ++ post),
              append_assoc pre m (r ++ post),
              append_assoc m r post,
              at_next,
              at_end,
            )))
  ]

get_elem?-map-point :
    (i : ℕ) (vs : List ℕ) (k : ℕ) {c : Continuum}
    → get_elem? (map (point i) vs) k ≡ some c
    → c.index ≡ i
get_elem?-map-point i [] k h = absurd (cc)
get_elem?-map-point i (v ∷ vs) zero h = ground arith
get_elem?-map-point i (v ∷ vs) (suc k) h = get_elem?-map-point i vs k h

-- The server of a point: its index lies in the list, and it is live.
abbrev pub Serves : Bool → ℕ → ℕ → List Server → ℕ → Type 0
Serves auto_eject now i ss j =
    (s : Server) × (i ≤ j) × (get_elem? ss (j - i) ≡ some s) × (is_live auto_eject now s ≡ true)

Serves_suc :
    (auto_eject : Bool) (now i j : ℕ) (s : Server) (ss : List Server)
    → Serves auto_eject now (i + 1) ss j
    → Serves auto_eject now i (s ∷ ss) j
Serves_suc auto_eject now i j s ss (s', le, get, live) =
    let e : j - i ≡ suc (j - (i + 1)) = omega arith in (s', omega arith, rw e get, live)

module _ (points : Server → List ℕ) (auto_eject : Bool) (now : ℕ) where
  pub slots-Serves :
      (i : ℕ) (ss : List Server) (k : ℕ) {c : Continuum}
      → get_elem? (slots points auto_eject now i ss) k ≡ some c
      → Serves auto_eject now i ss c.index
  unfolding slots
  slots-Serves i [] k h = absurd (cc)
  slots-Serves i (s ∷ ss) k {c} h = elim (Bool-cases (is_live auto_eject now s)) [
    | inr dead ↦ Serves_suc auto_eject now i c.index s ss (
        slots-Serves (i + 1) ss k
          (ap (λ l. get_elem? l k) (sym (slots-dead points auto_eject now i s ss dead)) ∙ h))
    | inl live ↦
        let m = map (point i) (points s) in
        let r = slots points auto_eject now (i + 1) ss in
        let h' : get_elem? (m ++ r) k ≡ some c =
          ap (λ l. get_elem? l k) (sym (slots-live points auto_eject now i s ss live)) ∙ h in
        elim (Bool-cases (ltb k (length m))) [
          | inl front ↦
              let e =
                get_elem?-map-point i (points s) k
                  (sym (get_elem?-append_left m r k (ltb→lt k (length m) front)) ∙ h') in
              let z : c.index - i ≡ 0 = omega arith in
              (s, omega arith, ap (get_elem? (s ∷ ss)) z, live)
          | inr back ↦ Serves_suc auto_eject now i c.index s ss (
              slots-Serves (i + 1) ss (k - length m)
                (sym (get_elem?-append_right m r k (ground arith)) ∙ h'))
        ]
  ]

  -- The number of the slots, where reviving a server does not change the number of its points.
  pub length-slots :
      (f : Server → ℕ)
      → ((s : Server) → length (points (revive auto_eject now s)) ≡ f s)
      → (i : ℕ) (ss : List Server)
      → length (slots points auto_eject now i (map (revive auto_eject now) ss))
        ≡ live_total f auto_eject now ss
  unfolding slots
  length-slots f same i [] = refl
  length-slots f same i (s ∷ ss) =
      let rest = slots points auto_eject now (i + 1) (map (revive auto_eject now) ss) in
      let ih = length-slots f same (i + 1) ss in
      elim (Bool-cases (is_live auto_eject now s)) [
        | inl live ↦
            rw (is_live-revive auto_eject now s, live)
              (length-append (map (point i) (points (revive auto_eject now s))) rest
                ∙ ap₂ ◌+◌ (length-map-point i (points (revive auto_eject now s)) ∙ same s) ih)
        | inr dead ↦ rw (is_live-revive auto_eject now s, dead) (ih ∙ omega arith)
      ]
