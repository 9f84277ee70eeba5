-- ===== src/Conf/Transform.antt =====
-- `conf_server_each_transform` and `conf_pool_each_transform` of src/gf_conf.c, with `server_init`
-- of src/gf_server.c: from the configuration to the pools that the proxy runs with.
use gfwproxy.Base.{
  ℕ, zero, suc, ◌-◌, ◌*◌, ◌%◌, ◌^◌, ◌<◌, ◌≡◌, refl, sym, ap, ap₂, ◌∙◌, subst, ◌≢◌, not, Option,
  none, some, List, [], ◌∷◌, map, arith, All,
}
use gfwproxy.Server.{Server, Pool, DistType}
use gfwproxy.Conf.{ConfPool, ConfServer, HashType}
use gfwproxy.Conf.Validate.{is_zero}
use gfwproxy.Conf.Ready.{ReadyPool}
use gfwproxy.Conf.Fit.{IsInt, FitServer, FitPool}

-- `conf_server_each_transform`; the address and the port are not fields of the model's server.
unfoldable pub conf_server_each_transform : ConfServer → Server
conf_server_each_transform cs = record {
  name = cs.name;
  weight = cs.weight % 2 ^ 32;
  next_retry = 0;
  failure_count = 0;
}

-- `server_init`: `array_each` over the servers of the configuration.
unfoldable pub server_init : List ConfServer → List Server
unfolding conf_server_each_transform
server_init conf_server = map conf_server_each_transform conf_server

-- `(uint32_t)` of an `int`.
abbrev as_uint32 : Option ℕ → ℕ
as_uint32 none = 2 ^ 32 - 1
as_uint32 (some n) = n % 2 ^ 32

-- `(int64_t) * 1000LL` of an `int`; `none` is -1000, which the model's pool cannot hold.
abbrev in_usec : Option ℕ → Option ℕ
in_usec none = none
in_usec (some n) = some (n * 1000)

abbrev or_empty : Option (List ℕ) → List ℕ
or_empty none = []
or_empty (some text) = text

module _ (hash_algos : HashType → List ℕ → ℕ) where
  abbrev pub made : ConfPool → HashType → DistType → ℕ → Pool
  made cp h d usec = record {
    server = server_init cp.server;
    ncontinuum = 0;
    nserver_continuum = 0;
    continuum = [];
    nlive_server = 0;
    next_rebuild = 0;
    dist_type = d;
    key_hash = hash_algos h;
    hash_tag = or_empty cp.hash_tag;
    server_connections = as_uint32 cp.server_connections;
    server_retry_timeout = usec;
    server_failure_limit = as_uint32 cp.server_failure_limit;
    auto_eject_hosts = not (is_zero cp.auto_eject_hosts);
  }

  abbrev pub pool_from : ConfPool → Option HashType → Option DistType → Option ℕ → Option Pool
  pool_from cp none _ _ = none
  pool_from cp (some h) none _ = none
  pool_from cp (some h) (some d) none = none
  pool_from cp (some h) (some d) (some usec) = some (made cp h d usec)

  -- `conf_pool_each_transform`; `none` where the hash or the distribution is no value of its type.
  unfoldable pub conf_pool_each_transform : ConfPool → Option Pool
  unfolding server_init
  conf_pool_each_transform cp =
      pool_from cp cp.hash cp.distribution (in_usec cp.server_retry_timeout)

Option-some {ℓ} : {A : Type ℓ} (o : Option A) → o ≢ none → (a : A) × (o ≡ some a)
Option-some none h = absurd (h refl)
Option-some (some a) h = (a, refl)

server_init_kept :
    (cs : List ConfServer)
    → All FitServer cs
    → (map (λ s. s.name) (server_init cs) ≡ map (λ c. c.name) cs)
      × ((map (λ s. s.weight) (server_init cs) ≡ map (λ c. c.weight) cs)
          × All (λ s. 0 < s.weight) (server_init cs))
unfolding server_init conf_server_each_transform
server_init_kept [] fit = (refl, (refl, tt))
server_init_kept (c ∷ cs) (f, fit) =
    let (names, (weights, positive)) = server_init_kept cs fit in
    let e : c.weight % 2 ^ 32 ≡ c.weight = omega (arith, f.weight_fits) in
    (
      ap (λ t. c.name ∷ t) names,
      (ap₂ (λ a t. a ∷ t) e weights, (omega (arith, e, f.weighs), positive)),
    )

connections_positive : (o : Option ℕ) → o ≢ none → o ≢ some 0 → (n : ℕ) × (o ≡ some n) × (0 < n)
connections_positive none h k = absurd (h refl)
connections_positive (some zero) h k = absurd (k refl)
connections_positive (some (suc n)) h k = (suc n, refl, omega arith)

-- A pool of the configuration that is ready and fits becomes a pool of the proxy, with the same
-- names and weights of servers in the same order, and every weight positive; with at least one
-- connection to a server; and with a retry timeout of 1000 times the number of milliseconds that
-- the configuration gives.
pub conf_pool_each_transform_lem :
    (hash_algos : HashType → List ℕ → ℕ) (cp : ConfPool)
    → ReadyPool cp
    → FitPool cp
    → (p : Pool) × (conf_pool_each_transform hash_algos cp ≡ some p)
      × ((map (λ s. s.name) p.server ≡ map (λ c. c.name) cp.server)
          × ((map (λ s. s.weight) p.server ≡ map (λ c. c.weight) cp.server)
              × (All (λ s. 0 < s.weight) p.server
                  × ((cp.server_connections ≡ some p.server_connections)
                      × ((0 < p.server_connections)
                          × (n : ℕ) × (cp.server_retry_timeout ≡ some n)
                          × (p.server_retry_timeout ≡ n * 1000))))))
unfolding conf_pool_each_transform
conf_pool_each_transform_lem hash_algos cp ready fit =
    let (h, some_h) = Option-some cp.hash ready.hashes in
    let (d, some_d) = Option-some cp.distribution ready.distributes in
    let (_, (_, (_, (connections, (retry, _))))) = ready.numbers in
    let (n, some_n) = Option-some cp.server_retry_timeout retry in
    let (c, some_c, positive) =
      connections_positive cp.server_connections connections ready.connects in
    let (_, (_, (_, (_, (int, _))))) = fit.numbers in
    let small : IsInt (some c) = subst IsInt some_c int in
    let same_c : as_uint32 cp.server_connections ≡ c = ap as_uint32 some_c ∙ omega (arith, small) in
    let usec : in_usec cp.server_retry_timeout ≡ some (n * 1000) = ap in_usec some_n in
    let (names, (weights, weighs)) = server_init_kept cp.server fit.servers in
    (
      made hash_algos cp h d (n * 1000),
      ap (λ o. pool_from hash_algos cp o cp.distribution (in_usec cp.server_retry_timeout)) some_h
          ∙ ap (λ o. pool_from hash_algos cp (some h) o (in_usec cp.server_retry_timeout)) some_d
          ∙ ap (λ o. pool_from hash_algos cp (some h) (some d) o) usec,
      (
        names,
        (
          weights,
          (
            weighs,
            (
              some_c ∙ ap some (sym same_c),
              (subst (λ k. 0 < k) (sym same_c) positive, n, some_n, refl),
            ),
          ),
        ),
      ),
    )
