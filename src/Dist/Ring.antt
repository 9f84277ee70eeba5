-- ===== src/Dist/Ring.antt =====
-- `ketama_dispatch` of src/hashkit/gf_ketama.c: the binary search for the first point at or after
-- a hash, round the ring.
use gfwproxy.Base.{
  ℕ, zero, suc, ◌+◌, ◌-◌, ◌/◌, ◌≤◌, ◌<◌, ◌≡◌, refl, ◌∙◌, inl, inr, true, false, Option, none, some,
  List, [], ◌∷◌, arith, ltb, ◌==◌, if◌then◌else◌, ltb→lt, Bool-cases, length, get_elem?, take,
  length-take, get_elem?_in, get_elem?_out, lt_of_get_elem?, get_elem?-take,
}
use mathlib.Core.Option
use gfwproxy.Server.{Continuum}

-- The loop `while (left < right)`; pointers into the continuum are indices. The range shrinks in
-- each round, so `ncontinuum + 1` rounds are enough; `none` stands for rounds that run out and for
-- a read outside the continuum.
unfoldable pub ketama_search : ℕ → List Continuum → ℕ → ℕ → ℕ → Option ℕ
ketama_search zero continuum hash left right = none
ketama_search (suc rounds) continuum hash left right = elim (ltb left right) [
  | false ↦ some right
  | true ↦
      let middle = left + (right - left) / 2 in
      elim (get_elem? continuum middle) [
        | none ↦ none
        | some point ↦ elim (ltb point.value hash) [
          | true ↦ ketama_search rounds continuum hash (middle + 1) right
          | false ↦ ketama_search rounds continuum hash left middle
        ]
      ]
]

unfoldable pub ketama_dispatch : List Continuum → ℕ → ℕ → Option ℕ
unfolding ketama_search
ketama_dispatch continuum ncontinuum hash =
    elim (ketama_search (ncontinuum + 1) continuum hash 0 ncontinuum) [
      | none ↦ none
      | some right ↦
          Option.map (λ c. c.index) (get_elem? continuum (if right == ncontinuum then 0 else right))
    ]

-- The values do not fall along the list.
abbrev pub Sorted : List Continuum → Type 0
Sorted cells =
    (i j : ℕ) (a b : Continuum)
    → i ≤ j
    → get_elem? cells i ≡ some a
    → get_elem? cells j ≡ some b
    → a.value ≤ b.value

-- The first point at or after the hash, by a walk along the list.
abbrev pub first_from : ℕ → List Continuum → Option Continuum
first_from hash [] = none
first_from hash (c ∷ cells) = if ltb c.value hash then first_from hash cells else some c

-- The owner of a hash on the ring: the server of the first point at or after it, and of the first
-- point of all where there is none.
abbrev pub owner : ℕ → List Continuum → Option ℕ
owner hash cells = elim (first_from hash cells) [
  | none ↦ Option.map (λ c. c.index) (get_elem? cells 0)
  | some c ↦ some c.index
]

-- Where the search ends: all points before are below the hash, and the next one is not.
record Splits (hash : ℕ) (cells : List Continuum) (r : ℕ) : Type 0 where
  inside : r ≤ length cells
  below : (i : ℕ) (c : Continuum) → i < r → get_elem? cells i ≡ some c → c.value < hash
  above : (c : Continuum) → get_elem? cells r ≡ some c → hash ≤ c.value

Splits-tail :
    {hash : ℕ} {c : Continuum} {cells : List Continuum} {r : ℕ}
    → Splits hash (c ∷ cells) (suc r)
    → Splits hash cells r
Splits-tail s = record {
  inside = omega (arith, s.inside);
  below = λ i c h e. s.below (suc i) c (omega arith) e;
  above = λ c e. s.above c e;
}

first_from-Splits :
    (hash : ℕ) (cells : List Continuum) (r : ℕ)
    → Splits hash cells r
    → first_from hash cells ≡ get_elem? cells r
first_from-Splits hash [] r s = refl
first_from-Splits hash (c ∷ cells) zero s = ground (arith, s.above c refl)
first_from-Splits hash (c ∷ cells) (suc r) s =
    ground (arith, s.below 0 c (omega arith) refl, first_from-Splits hash cells r (Splits-tail s))

module _ (cells : List Continuum) (hash rounds left right : ℕ) where
  search_done : right ≤ left → ketama_search (suc rounds) cells hash left right ≡ some right
  unfolding ketama_search
  search_done h = ground arith

  module _ {m : Continuum} (more : left < right)
      (got : get_elem? cells (left + (right - left) / 2) ≡ some m) where
    search_above :
        m.value < hash
        → ketama_search (suc rounds) cells hash left right
          ≡ ketama_search rounds cells hash (left + (right - left) / 2 + 1) right
    unfolding ketama_search
    search_above h = ground arith

    search_below :
        hash ≤ m.value
        → ketama_search (suc rounds) cells hash left right
          ≡ ketama_search rounds cells hash left (left + (right - left) / 2)
    unfolding ketama_search
    search_below h = ground arith

module _ (cells : List Continuum) (hash n : ℕ) (fits : n ≤ length cells)
    (sorted : Sorted (take n cells)) where
  abbrev Below : ℕ → Type 0
  Below left =
      (i : ℕ) (c : Continuum) → i < left → get_elem? (take n cells) i ≡ some c → c.value < hash

  abbrev Above : ℕ → Type 0
  Above right =
      (i : ℕ) (c : Continuum) → right ≤ i → get_elem? (take n cells) i ≡ some c → hash ≤ c.value

  ketama_search-Splits :
      (rounds left right : ℕ)
      → left ≤ right
      → right ≤ n
      → right - left < rounds
      → Below left
      → Above right
      → (r : ℕ) × (ketama_search rounds cells hash left right ≡ some r)
        × Splits hash (take n cells) r
  ketama_search-Splits zero left right lr rn fuel lo hi = absurd (omega arith)
  ketama_search-Splits (suc rounds) left right lr rn fuel lo hi =
      elim (Bool-cases (ltb left right)) [
        | inr done ↦ (
          right,
          search_done cells hash rounds left right (ground arith),
          record {
            inside = omega (arith, length-take n cells);
            below = λ i c h. lo i c (omega (arith, h, ended done));
            above = λ c. hi right c (omega arith);
          },
        )
        | inl more ↦
            let middle = left + (right - left) / 2 in
            let lt = ltb→lt left right more in
            let (m, got) = get_elem?_in cells middle (omega arith) in
            let here : get_elem? (take n cells) middle ≡ some m =
              get_elem?-take n cells middle (omega arith) ∙ got in
            elim (Bool-cases (ltb m.value hash)) [
              | inl small ↦
                  let (r, found, s) =
                    ketama_search-Splits rounds (middle + 1) right (omega arith) rn (omega arith)
                      (λ i c h e. omega (
                        arith,
                        sorted i middle c m (omega arith) e here,
                        ltb→lt m.value hash small,
                      ))
                      hi in
                  (
                    r,
                    search_above cells hash rounds left right lt got (ltb→lt m.value hash small)
                        ∙ found,
                    s,
                  )
              | inr large ↦
                  let ge : hash ≤ m.value = ground arith in
                  let (r, found, s) =
                    ketama_search-Splits rounds left middle (omega arith) (omega arith)
                      (omega arith) lo (λ i c h e. omega (arith, sorted middle i m c h here e)) in
                  (r, search_below cells hash rounds left right lt got ge ∙ found, s)
            ]
      ]
    where
      ended : ltb left right ≡ false → right ≤ left
      ended done = ground arith

  dispatch_found :
      {r : ℕ}
      → ketama_search (n + 1) cells hash 0 n ≡ some r
      → ketama_dispatch cells n hash
        ≡ Option.map (λ c. c.index) (get_elem? cells (if r == n then 0 else r))
  unfolding ketama_dispatch
  dispatch_found found = rw (found, ketama_dispatch)

  -- On a sorted ring with a point, the dispatch finds the owner of the hash: its search ends and
  -- reads nothing outside the points.
  pub ketama_dispatch-owner : 0 < n → ketama_dispatch cells n hash ≡ owner hash (take n cells)
  ketama_dispatch-owner some_point =
      let (r, found, s) =
        ketama_search-Splits (n + 1) 0 n (omega arith) (omega arith) (omega arith)
          (λ i c h e. absurd (omega arith))
          (λ i c h e.
            absurd (omega (arith, lt_of_get_elem? (take n cells) i e, length-take n cells))) in
      let first = first_from-Splits hash (take n cells) r s in
      let start = get_elem?-take n cells 0 some_point in
      elim (Bool-cases (r == n)) [
        | inl last ↦
            let past : get_elem? (take n cells) r ≡ none =
              get_elem?_out (take n cells) r (ground (arith, length-take n cells)) in
            dispatch_found found ∙ rw (last, first, owner) (rw (past, owner) (rw start))
        | inr next ↦
            let inside : r < n = ground (arith, s.inside, length-take n cells) in
            let (c, got) = get_elem?_in cells r (omega arith) in
            dispatch_found found
            ∙ rw (next, first, owner) (rw (get_elem?-take n cells r inside, got))
      ]
