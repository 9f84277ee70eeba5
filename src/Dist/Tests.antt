-- ===== src/Dist/Tests.antt =====
-- Runs of the distributions, with a concrete sort for ketama.
use gfwproxy.Base.{
  ℕ, zero, suc, ◌≤◌, ◌≡◌, refl, sym, ap, ◌∙◌, subst, ◌⊎◌, inl, inr, true, some, List, [], ◌∷◌, ◌++◌,
  arith, leb, if◌then◌else◌, leb→le, ltb→lt, Bool-cases, length, get_elem?, take, replicate,
  some_inj,
}
use gfwproxy.Status.{gf_ok}
use gfwproxy.Server.{Continuum, point, Server, Pool, Env, ketama}
use gfwproxy.Dist.Fill.{Serves}
use gfwproxy.Dist.Modula.{modula_update, modula_dispatch, modula_update-dispatch}
use gfwproxy.Dist.Random.{random_update, random_dispatch, random_update-dispatch}
use gfwproxy.Dist.Ring.{ketama_search, ketama_dispatch, Sorted, owner, ketama_dispatch-owner}
use gfwproxy.Dist.Ketama.{ketama_update}
use gfwproxy.Dist.Ketama.Share.{hashes_of}
use gfwproxy.Dist.Ketama.Update.{Sorts, ring, ketama_update-dispatch}

abbrev insert : Continuum → List Continuum → List Continuum
insert c [] = c ∷ []
insert c (x ∷ xs) = if leb c.value x.value then c ∷ x ∷ xs else x ∷ insert c xs

abbrev pub sort : List Continuum → List Continuum
sort [] = []
sort (c ∷ cs) = insert c (sort cs)

AllGe : ℕ → List Continuum → Type 0
AllGe v xs = (k : ℕ) (c : Continuum) → get_elem? xs k ≡ some c → v ≤ c.value

length-insert : (c : Continuum) (xs : List Continuum) → length (insert c xs) ≡ suc (length xs)
length-insert c [] = refl
length-insert c (x ∷ xs) = ground (arith, length-insert c xs)

length-sort : (xs : List Continuum) → length (sort xs) ≡ length xs
length-sort [] = refl
length-sort (c ∷ cs) = length-insert c (sort cs) ∙ ap suc (length-sort cs)

insert_kept :
    (c : Continuum) (xs : List Continuum) (k : ℕ) {d : Continuum}
    → get_elem? (insert c xs) k ≡ some d
    → (d ≡ c) ⊎ ((j : ℕ) × (get_elem? xs j ≡ some d))
insert_kept c [] zero h = inl (sym (some_inj h))
insert_kept c [] (suc k) h = absurd (cc)
insert_kept c (x ∷ xs) k {d} h = elim (Bool-cases (leb c.value x.value)) [
  | inl le ↦
      front c x xs k
        (subst (λ b. get_elem? (if b then c ∷ x ∷ xs else x ∷ insert c xs) k ≡ some d) le h)
  | inr gt ↦
      back c x xs k (λ j g. insert_kept c xs j g)
        (subst (λ b. get_elem? (if b then c ∷ x ∷ xs else x ∷ insert c xs) k ≡ some d) gt h)
]
  where
    front :
        (c x : Continuum) (xs : List Continuum) (k : ℕ) {d : Continuum}
        → get_elem? (c ∷ x ∷ xs) k ≡ some d
        → (d ≡ c) ⊎ ((j : ℕ) × (get_elem? (x ∷ xs) j ≡ some d))
    front c x xs zero h = inl (sym (some_inj h))
    front c x xs (suc k) h = inr (k, h)

    back :
        (c x : Continuum) (xs : List Continuum) (k : ℕ) {d : Continuum}
        → ((j : ℕ)
            → get_elem? (insert c xs) j ≡ some d
            → (d ≡ c) ⊎ ((i : ℕ) × (get_elem? xs i ≡ some d)))
        → get_elem? (x ∷ insert c xs) k ≡ some d
        → (d ≡ c) ⊎ ((j : ℕ) × (get_elem? (x ∷ xs) j ≡ some d))
    back c x xs zero rest h = inr (0, h)
    back c x xs (suc k) rest h = elim (rest k h) [ inl e ↦ inl e | inr (j, g) ↦ inr (suc j, g) ]

sort_kept :
    (xs : List Continuum) (k : ℕ) (d : Continuum)
    → get_elem? (sort xs) k ≡ some d
    → (j : ℕ) × (get_elem? xs j ≡ some d)
sort_kept [] k d h = absurd (cc)
sort_kept (c ∷ cs) k d h = elim (insert_kept c (sort cs) k h) [
  | inl e ↦ (0, ap some (sym e))
  | inr (j, g) ↦ let (i, f) = sort_kept cs j d g in (suc i, f)
]

Sorted-cons : (c : Continuum) (xs : List Continuum) → AllGe c.value xs → Sorted xs → Sorted (c ∷ xs)
unfolding AllGe
Sorted-cons c xs ge s zero zero a b le ea eb =
    omega (arith, ap (λ (x : Continuum). x.value) (some_inj (sym ea ∙ eb)))
Sorted-cons c xs ge s zero (suc j) a b le ea eb =
    omega (arith, ap (λ (x : Continuum). x.value) (some_inj ea), ge j b eb)
Sorted-cons c xs ge s (suc i) zero a b le ea eb = absurd (omega arith)
Sorted-cons c xs ge s (suc i) (suc j) a b le ea eb = s i j a b (omega arith) ea eb

insert-Sorted : (c : Continuum) (xs : List Continuum) → Sorted xs → Sorted (insert c xs)
unfolding AllGe
insert-Sorted c [] s = Sorted-cons c [] (λ k d h. absurd (cc)) s
insert-Sorted c (x ∷ xs) s =
    let tail : Sorted xs = λ i j a b le. s (suc i) (suc j) a b (omega arith) in
    elim (Bool-cases (leb c.value x.value)) [
      | inl le ↦ rw le (
          Sorted-cons c (x ∷ xs)
            (λ k d h. omega (arith, leb→le c.value x.value le, s 0 k x d (omega arith) refl h)) s)
      | inr gt ↦ rw gt (
          Sorted-cons x (insert c xs)
            (λ k d h. elim (insert_kept c xs k h) [
              | inl e ↦ ground (arith, ap (λ (x : Continuum). x.value) e)
              | inr (j, g) ↦ s 0 (suc j) x d (omega arith) refl g
            ])
            (insert-Sorted c xs tail))
    ]

sort-Sorted : (xs : List Continuum) → Sorted (sort xs)
sort-Sorted [] = λ i j a b le ea. absurd (cc)
sort-Sorted (c ∷ cs) = insert-Sorted c (sort cs) (sort-Sorted cs)

sort-Sorts : Sorts sort
sort-Sorts = record { length_kept = length-sort; sorted = sort-Sorted; kept = sort_kept }

abbrev well : Server
well = record { name = b'a' ∷ []; weight = 1; next_retry = 0; failure_count = 0 }

abbrev away : Server
away = record { name = b'b' ∷ []; weight = 2; next_retry = 50; failure_count = 0 }

abbrev heavy : Server
heavy = record { name = b'c' ∷ []; weight = 2; next_retry = 0; failure_count = 0 }

abbrev pool : Pool
pool = record {
  server = away ∷ well ∷ heavy ∷ [];
  ncontinuum = 0;
  nserver_continuum = 0;
  continuum = [];
  nlive_server = 0;
  next_rebuild = 0;
  dist_type = ketama;
  key_hash = λ key. 0;
  hash_tag = [];
  server_connections = 1;
  server_retry_timeout = 30;
  server_failure_limit = 2;
  auto_eject_hosts = true;
}

abbrev env : Env
env = record { now = some 10; has_memory = true; stale = λ i. point 7 i }

abbrev md5 : List ℕ → List ℕ
md5 key = key ++ replicate 16 5

ketama_update-dispatch_example :
    (q : Pool) × (ketama_update md5 sort env pool ≡ some (gf_ok, q))
    × (ketama_dispatch q.continuum q.ncontinuum 700
        ≡ owner 700 (ring md5 sort sort-Sorts env pool 10 refl q))
    × (j : ℕ) × (owner 700 (ring md5 sort sort-Sorts env pool 10 refl q) ≡ some j)
    × Serves true 10 0 q.server j
unfolding hashes_of
ketama_update-dispatch_example =
    ketama_update-dispatch md5 sort sort-Sorts env pool 10 refl 700 refl refl (omega arith)
      (omega arith) (omega arith) (ltb→lt 0 316 refl) (leb→le 316 320 refl)

abbrev points : List Continuum
points = point 1 10 ∷ point 0 20 ∷ point 1 30 ∷ point 9 0 ∷ []

ketama_dispatch-owner_example : ketama_dispatch points 3 15 ≡ owner 15 (take 3 points)
ketama_dispatch-owner_example =
    ketama_dispatch-owner points 15 3 (omega arith) (sort-Sorted (take 3 points)) (omega arith)

ketama_dispatch_wraps : ketama_dispatch points 3 31 ≡ some 1
unfolding ketama_dispatch ketama_search
ketama_dispatch_wraps = refl

modula_update-dispatch_example :
    (q : Pool) × (modula_update env pool ≡ some (gf_ok, q))
    × (j : ℕ) × (modula_dispatch q.continuum q.ncontinuum 700 ≡ some j)
    × Serves true 10 0 q.server j
modula_update-dispatch_example =
    modula_update-dispatch env pool 10 700 refl refl refl (omega arith) (omega arith) (omega arith)

random_update-dispatch_example :
    (q : Pool) × (random_update env pool ≡ some (gf_ok, q))
    × (j : ℕ) × (random_dispatch 3 q.continuum q.ncontinuum 700 ≡ some j)
    × Serves true 10 0 q.server j
random_update-dispatch_example =
    random_update-dispatch env pool 10 3 700 refl refl refl (omega arith) (omega arith)
