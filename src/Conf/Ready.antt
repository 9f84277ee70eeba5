-- ===== src/Conf/Ready.antt =====
-- The pools that pass `conf_validate_pool` and `conf_post_validate` of src/gf_conf.c.
use gfwproxy.Base.{
  ℕ, suc, ◌<◌, ◌≡◌, refl, sym, ap, ◌∙◌, subst, ◌≢◌, Bool, true, false, not, ◌&&◌, Option, none,
  some, List, [], ◌∷◌, arith, ◌==◌, if◌then◌else◌, length, All, some_inj,
}
use gfwproxy.Base.Distinct.{Distinct, All-Permᴰ, Distinct-Permᴰ, length-Permᴰ}
use gfwproxy.Conf.{ConfPool}
use gfwproxy.Conf.Field.{
  Number, number, backlog, client_connections, redis_db, server_connections, server_retry_timeout,
  server_failure_limit, redis, tcpkeepalive, reuseport, preconnect, auto_eject_hosts,
}
use gfwproxy.Base.{then_do}
use gfwproxy.Conf.Validate.{
  conf_server_name_cmp, conf_pool_name_cmp, conf_pool_listen_cmp, Sort, has_twins,
  conf_validate_server, set_defaults, or_else, is_zero, has_auth, conf_validate_pool,
  validate_pools, conf_post_validate,
}
use gfwproxy.Conf.Valid.{Sorts, has_twins-Distinct}

pub then_do-some {ℓ κ} :
    {A : Type ℓ} {B : Type κ} (o : Option A) (f : A → Option B) {b : B}
    → then_do o f ≡ some b
    → (a : A) × (o ≡ some a) × (f a ≡ some b)
then_do-some none f h = absurd (cc)
then_do-some (some a) f h = (a, refl, h)

pub if_none-some {ℓ} :
    {A : Type ℓ} (t : Bool) {o : Option A} {b : A}
    → (if t then none else o) ≡ some b
    → (t ≡ false) × (o ≡ some b)
if_none-some true h = absurd (cc)
if_none-some false h = (refl, h)

not_none {ℓ} : {A : Type ℓ} (o : Option A) (a : A) → or_else o a ≢ none
not_none none a e = absurd (cc)
not_none (some b) a e = absurd (cc)

not_zero : (o : Option ℕ) → is_zero o ≡ false → or_else o 1 ≢ some 0
not_zero none h e = ground (arith, some_inj e)
not_zero (some n) h e = ground (arith, some_inj e)

-- The directives with a number that has a default other than -1.
abbrev pub mandatory : List Number
mandatory =
    backlog ∷ client_connections ∷ redis_db ∷ server_connections ∷ server_retry_timeout
    ∷ server_failure_limit ∷ redis ∷ tcpkeepalive ∷ reuseport ∷ preconnect ∷ auto_eject_hosts ∷ []

-- A pool that the proxy can run with.
pub record ReadyPool (cp : ConfPool) : Type 0 where
  pub valid : cp.valid ≡ true
  pub listens : cp.listen.valid ≡ true
  pub hashes : cp.hash ≢ none
  pub distributes : cp.distribution ≢ none
  pub numbers : All (λ f. (number f).read cp ≢ none) mandatory
  pub connects : cp.server_connections ≢ some 0
  pub auth_is_redis : (is_zero cp.redis && has_auth cp.redis_auth) ≡ false
  pub serves : 0 < length cp.server
  pub names : Distinct (λ s. s.name) cp.server

module _ (sort : Sort) (s : Sorts sort) where
  pub conf_validate_server_lem :
      (cp v : ConfPool)
      → conf_validate_server sort cp ≡ some v
      → (v ≡ record cp { server = sort.by_server_name cp.server })
        × ((0 < length (sort.by_server_name cp.server))
            × Distinct (λ t. t.name) (sort.by_server_name cp.server))
  unfolding conf_validate_server
  conf_validate_server_lem cp v h =
      let (some_server, checked) = if_none-some (length cp.server == 0) h in
      let (no_twins, kept) =
        if_none-some (has_twins conf_server_name_cmp (sort.by_server_name cp.server)) checked in
      (
        sym (some_inj kept),
        (
          ground (arith, length-Permᴰ (s.servers_kept cp.server)),
          has_twins-Distinct (λ t. t.name) _ (s.servers_ordered cp.server) no_twins,
        ),
      )

  -- A pool that `conf_validate_pool` accepts is ready: every number but the timeout is set, there
  -- is a hash and a distribution, at least one connection to a server, at least one server, and no
  -- two servers with the same name; a password is there only for redis.
  pub conf_validate_pool-ReadyPool :
      (cp v : ConfPool) → conf_validate_pool sort cp ≡ some v → ReadyPool v
  unfolding conf_validate_pool
  conf_validate_pool-ReadyPool cp v h =
      let d = set_defaults cp in
      let (listening, h1) = if_none-some (not cp.listen.valid) h in
      let (connected, h2) = if_none-some (is_zero cp.server_connections) h1 in
      let (guarded, h3) = if_none-some (is_zero d.redis && has_auth d.redis_auth) h2 in
      let (w, checked, kept) = then_do-some (conf_validate_server sort d) _ h3 in
      let (same, (some_server, different)) = conf_validate_server_lem d w checked in
      subst ReadyPool
        (ap {A = ConfPool} {B = ConfPool} (λ t. record t { valid = true }) (sym same)
          ∙ some_inj kept)
        (record {
          valid = refl;
          listens = ground arith;
          hashes = not_none cp.hash _;
          distributes = not_none cp.distribution _;
          numbers = (
            not_none cp.backlog _,
            (
              not_none none _,
              (
                not_none cp.redis_db _,
                (
                  not_none cp.server_connections _,
                  (
                    not_none cp.server_retry_timeout _,
                    (
                      not_none cp.server_failure_limit _,
                      (
                        not_none cp.redis _,
                        (
                          not_none cp.tcpkeepalive _,
                          (
                            not_none cp.reuseport _,
                            (not_none cp.preconnect _, (not_none cp.auto_eject_hosts _, tt)),
                          ),
                        ),
                      ),
                    ),
                  ),
                ),
              ),
            ),
          );
          connects = not_zero cp.server_connections connected;
          auth_is_redis = guarded;
          serves = some_server;
          names = different;
        })

  validate_pools-ReadyPool :
      (pools vs : List ConfPool)
      → validate_pools sort pools ≡ some vs
      → (length vs ≡ length pools) × All ReadyPool vs
  unfolding validate_pools
  validate_pools-ReadyPool [] vs h =
      subst (λ t. (length t ≡ 0) × All ReadyPool t) (some_inj h) (refl, tt)
  validate_pools-ReadyPool (cp ∷ pools) vs h =
      let (v, accepted, more) = then_do-some (conf_validate_pool sort cp) _ h in
      let (ws, rest, kept) = then_do-some (validate_pools sort pools) _ more in
      let (same_length, ready) = validate_pools-ReadyPool pools ws rest in
      subst (λ t. (length t ≡ suc (length pools)) × All ReadyPool t) (some_inj kept)
        (ap suc same_length, (conf_validate_pool-ReadyPool cp v accepted, ready))

  -- The pools that `conf_post_validate` accepts are as many as it was given, and at least one; all
  -- are ready, no two listen on the same address, and no two have the same name.
  pub conf_post_validate-ReadyPool :
      (pools vs : List ConfPool)
      → conf_post_validate sort pools ≡ some vs
      → (length vs ≡ length pools)
        × ((0 < length vs)
            × (All ReadyPool vs × (Distinct (λ p. p.listen.pname) vs × Distinct (λ p. p.name) vs)))
  unfolding conf_post_validate
  conf_post_validate-ReadyPool pools vs h =
      let (some_pool, h1) = if_none-some (length pools == 0) h in
      let (ws, valid, h2) = then_do-some (validate_pools sort pools) _ h1 in
      let (no_twin_listens, h3) =
        if_none-some (has_twins conf_pool_listen_cmp (sort.by_listen ws)) h2 in
      let (no_twin_names, kept) =
        if_none-some (has_twins conf_pool_name_cmp (sort.by_pool_name (sort.by_listen ws))) h3 in
      let (same_length, ready) = validate_pools-ReadyPool pools ws valid in
      let by_listen = s.listens_kept ws in
      let by_name = s.names_kept (sort.by_listen ws) in
      let count : length (sort.by_pool_name (sort.by_listen ws)) ≡ length pools =
        omega (arith, length-Permᴰ by_listen, length-Permᴰ by_name, same_length) in
      let listens =
        has_twins-Distinct (λ p. p.listen.pname) _ (s.listens_ordered ws) no_twin_listens in
      let names = has_twins-Distinct (λ p. p.name) _ (s.names_ordered _) no_twin_names in
      subst
        (λ t.
          (length t ≡ length pools)
          × ((0 < length t)
              × (All ReadyPool t × (Distinct (λ p. p.listen.pname) t × Distinct (λ p. p.name) t))))
        (some_inj kept)
        (
          count,
          (
            ground (arith, count),
            (
              All-Permᴰ ReadyPool by_name (All-Permᴰ ReadyPool by_listen ready),
              (Distinct-Permᴰ (λ p. p.listen.pname) by_name listens, names),
            ),
          ),
        )
