-- ===== src/Stats/Slots.antt =====
-- What the operations of src/gf_stats.c do to one metric.
use gfwproxy.Base.{
  then_do, ℕ, zero, suc, ◌≡◌, refl, sym, ap, ◌∙◌, inl, inr, Bool, true, false, ◌&&◌, Option, none,
  some, List, [], ◌∷◌, map, arith, ◌==◌, if◌then◌else◌, Bool-cases, Option-cases, get_elem?,
}
use mathlib.Core.Option
use gfwproxy.Stats.{
  Metric, StatsPool, stats_metric_init, stats_metric_reset, stats_pool_reset, each_with, add_metric,
  stats_aggregate_metric, aggregate_pool, changed_at, Slot, of_pool, of_server, to_metric,
}

-- The metric in a slot, if the arrays reach that far.
abbrev pub metric_at : List StatsPool → Slot → Option Metric
metric_at ps (of_pool p f) = then_do (get_elem? ps p) (λ q. get_elem? q.metric f)
metric_at ps (of_server p s f) =
    then_do (get_elem? ps p) (λ q. then_do (get_elem? q.server s) (λ ms. get_elem? ms f))

abbrev pub same_slot : Slot → Slot → Bool
same_slot (of_pool p f) (of_pool p' f') = p == p' && f == f'
same_slot (of_server p s f) (of_server p' s' f') = p == p' && (s == s' && f == f')
same_slot _ _ = false

-- The elements of two arrays at one index, put together.
abbrev pub both {ℓ} : {A : Type ℓ} → (A → A → A) → Option A → Option A → Option A
both f none s = none
both f (some d) none = some d
both f (some d) (some s) = some (f d s)

module _ {ℓ} {A : Type ℓ} where
  get_elem?-each_with :
      (f : A → A → A) (dst src : List A) (i : ℕ)
      → get_elem? (each_with f dst src) i ≡ both f (get_elem? dst i) (get_elem? src i)
  unfolding each_with
  get_elem?-each_with f [] src i = refl
  get_elem?-each_with f (d ∷ dst) [] i = elim (Option-cases (get_elem? (d ∷ dst) i)) [
    | inl e ↦ rw e refl
    | inr (a, e) ↦ rw e refl
  ]
  get_elem?-each_with f (d ∷ dst) (s ∷ src) zero = refl
  get_elem?-each_with f (d ∷ dst) (s ∷ src) (suc i) = get_elem?-each_with f dst src i

  get_elem?-changed_at :
      (xs : List A) (i j : ℕ) (g : A → A)
      → get_elem? (changed_at xs i g) j
        ≡ (if i == j then Option.map g (get_elem? xs j) else get_elem? xs j)
  unfolding changed_at
  get_elem?-changed_at [] i j g = elim (Bool-cases (i == j)) [
    | inl e ↦ rw e refl
    | inr e ↦ rw e refl
  ]
  get_elem?-changed_at (x ∷ xs) zero zero g = refl
  get_elem?-changed_at (x ∷ xs) zero (suc j) g =
      let e : (0 == suc j) ≡ false = ground arith in rw e refl
  get_elem?-changed_at (x ∷ xs) (suc i) zero g =
      let e : (suc i == 0) ≡ false = ground arith in rw e refl
  get_elem?-changed_at (x ∷ xs) (suc i) (suc j) g =
      let e : (suc i == suc j) ≡ (i == j) = ground arith in rw e (get_elem?-changed_at xs i j g)

  get_elem?-map_all :
      (f : A → A) (xs : List A) (i : ℕ) → get_elem? (map f xs) i ≡ Option.map f (get_elem? xs i)
  get_elem?-map_all f [] i = refl
  get_elem?-map_all f (x ∷ xs) zero = refl
  get_elem?-map_all f (x ∷ xs) (suc i) = get_elem?-map_all f xs i

both-none {ℓ} : {A : Type ℓ} (f : A → A → A) (o : Option A) → both f o none ≡ o
both-none f none = refl
both-none f (some a) = refl

-- Adding the shadow to the sum adds the metric of each slot.
then_do-both {ℓ κ} :
    {A : Type ℓ} {B : Type κ} (f : A → A → A) (g : B → B → B) (part : A → Option B)
    → ((a b : A) → part (f a b) ≡ both g (part a) (part b))
    → (d s : Option A) → then_do (both f d s) part ≡ both g (then_do d part) (then_do s part)
then_do-both f g part h none s = refl
then_do-both f g part h (some d) none = sym (both-none g (part d))
then_do-both f g part h (some d) (some s) = h d s

pub metric_at-aggregate :
    (dst src : List StatsPool) (t : Slot)
    → metric_at (each_with aggregate_pool dst src) t
      ≡ both add_metric (metric_at dst t) (metric_at src t)
unfolding aggregate_pool stats_aggregate_metric
metric_at-aggregate dst src (of_pool p f) =
    ap (λ o. then_do o (λ q. get_elem? q.metric f)) (get_elem?-each_with aggregate_pool dst src p)
    ∙ then_do-both aggregate_pool add_metric (λ q. get_elem? q.metric f)
        (λ a b. get_elem?-each_with add_metric a.metric b.metric f) (get_elem? dst p)
        (get_elem? src p)
metric_at-aggregate dst src (of_server p s f) =
    let in_server : List Metric → Option Metric = λ ms. get_elem? ms f in
    let in_pool : StatsPool → Option Metric = λ q. then_do (get_elem? q.server s) in_server in
    ap (λ o. then_do o in_pool) (get_elem?-each_with aggregate_pool dst src p)
    ∙ then_do-both aggregate_pool add_metric in_pool
        (λ a b.
          ap (λ o. then_do o in_server)
            (get_elem?-each_with stats_aggregate_metric a.server b.server s)
          ∙ then_do-both stats_aggregate_metric add_metric in_server
              (λ x y. get_elem?-each_with add_metric x y f) (get_elem? a.server s)
              (get_elem? b.server s))
        (get_elem? dst p) (get_elem? src p)

-- A change of every element changes the one at an index.
then_do-map {ℓ κ} :
    {A : Type ℓ} {B : Type κ} (f : A → A) (g : B → B) (part : A → Option B)
    → ((a : A) → part (f a) ≡ Option.map g (part a))
    → (o : Option A) → then_do (Option.map f o) part ≡ Option.map g (then_do o part)
then_do-map f g part h none = refl
then_do-map f g part h (some a) = h a

pub metric_at-reset :
    (ps : List StatsPool) (t : Slot)
    → metric_at (stats_pool_reset ps) t ≡ Option.map stats_metric_init (metric_at ps t)
unfolding stats_pool_reset stats_metric_reset
metric_at-reset ps (of_pool p f) =
    ap (λ o. then_do o (λ q. get_elem? q.metric f)) (get_elem?-map_all _ ps p)
    ∙ then_do-map _ stats_metric_init (λ q. get_elem? q.metric f)
        (λ a. get_elem?-map_all stats_metric_init a.metric f) (get_elem? ps p)
metric_at-reset ps (of_server p s f) =
    let in_server : List Metric → Option Metric = λ ms. get_elem? ms f in
    let in_pool : StatsPool → Option Metric = λ q. then_do (get_elem? q.server s) in_server in
    ap (λ o. then_do o in_pool) (get_elem?-map_all _ ps p)
    ∙ then_do-map _ stats_metric_init in_pool
        (λ a.
          ap (λ o. then_do o in_server) (get_elem?-map_all stats_metric_reset a.server s)
          ∙ then_do-map stats_metric_reset stats_metric_init in_server
              (λ x. get_elem?-map_all stats_metric_init x f) (get_elem? a.server s))
        (get_elem? ps p)

then_do_if {ℓ κ} :
    {A : Type ℓ} {B : Type κ} (f : A → A) (g : B → B) (part : A → Option B) (inner : Bool)
    → ((a : A) → part (f a) ≡ (if inner then Option.map g (part a) else part a))
    → (same : Bool) (o : Option A)
    → then_do (if same then Option.map f o else o) part
      ≡ (if same && inner then Option.map g (then_do o part) else then_do o part)
then_do_if f g part inner h false o = refl
then_do_if f g part true h true none = refl
then_do_if f g part false h true none = refl
then_do_if f g part inner h true (some a) = h a

if_never {ℓ} : {A : Type ℓ} (b : Bool) (x y : A) → (if b && false then x else y) ≡ y
if_never true x y = refl
if_never false x y = refl

-- A change in place changes the metric of its slot and no other.
then_do-changed_at {ℓ κ} :
    {A : Type ℓ} {B : Type κ} (xs : List A) (i j : ℕ) (f : A → A) (g : B → B) (part : A → Option B)
    (inner : Bool)
    → ((a : A) → part (f a) ≡ (if inner then Option.map g (part a) else part a))
    → then_do (get_elem? (changed_at xs i f) j) part ≡ (
        if i == j && inner
        then Option.map g (then_do (get_elem? xs j) part)
        else then_do (get_elem? xs j) part)
then_do-changed_at xs i j f g part inner h =
    ap (λ o. then_do o part) (get_elem?-changed_at xs i j f)
    ∙ then_do_if f g part inner h (i == j) (get_elem? xs j)

pub metric_at-to_metric :
    (slot t : Slot) (g : Metric → Metric) (ps : List StatsPool)
    → metric_at (to_metric slot g ps) t
      ≡ (if same_slot slot t then Option.map g (metric_at ps t) else metric_at ps t)
unfolding to_metric
metric_at-to_metric (of_pool p f) (of_pool p' f') g ps =
    then_do-changed_at ps p p' _ g (λ q. get_elem? q.metric f') (f == f')
      (λ a. get_elem?-changed_at a.metric f f' g)
metric_at-to_metric (of_pool p f) (of_server p' s' f') g ps =
    then_do-changed_at ps p p' _ g (λ q. then_do (get_elem? q.server s') (λ ms. get_elem? ms f'))
      false (λ a. refl)
    ∙ if_never (p == p') _ _
metric_at-to_metric (of_server p s f) (of_pool p' f') g ps =
    then_do-changed_at ps p p' _ g (λ q. get_elem? q.metric f') false (λ a. refl)
    ∙ if_never (p == p') _ _
metric_at-to_metric (of_server p s f) (of_server p' s' f') g ps =
    then_do-changed_at ps p p' _ g (λ q. then_do (get_elem? q.server s') (λ ms. get_elem? ms f'))
      (s == s' && f == f')
      (λ a.
        then_do-changed_at a.server s s' _ g (λ ms. get_elem? ms f') (f == f')
          (λ ms. get_elem?-changed_at ms f f' g))
