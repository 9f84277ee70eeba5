-- ===== src/Conf/Create.antt =====
-- `conf_create` of src/gf_conf.c as a whole: the checks, the parser and the checks after it.
use gfwproxy.Base.{
  ℕ, ◌^◌, ◌<◌, ◌≡◌, refl, sym, ap, ◌∙◌, subst, Bool, true, false, not, ◌&&◌, Option, none, some,
  List, [], ◌∷◌, arith, ◌==◌, if◌then◌else◌, length, All, some_inj,
}
use gfwproxy.Base.Distinct.{Distinct, All-Permᴰ}
use gfwproxy.Status.{Status, gf_ok, gf_error, gf_eagain, gf_enomem}
use gfwproxy.Conf.{Conf, ConfPool}
use gfwproxy.Conf.Yaml.{Node, document}
use gfwproxy.Conf.Shape.{conf_shape, conf_validate_structure_lem}
use gfwproxy.Conf.Structure.{conf_validate_structure}
use gfwproxy.Conf.Set.{System}
use gfwproxy.Base.{then_do}
use gfwproxy.Conf.Parse.{conf_parse}
use gfwproxy.Conf.Parsed.{conf_parse_lem}
use gfwproxy.Conf.Turns.{then_do_assoc}
use gfwproxy.Conf.Read.{read_conf, state, opened}
use gfwproxy.Conf.Validate.{
  Sort, File, is_ok, conf_validate_document, conf_validate_tokens, conf_pre_validate,
  conf_validate_server, or_else, set_defaults, is_zero, has_auth, conf_validate_pool,
  validate_pools, conf_post_validate, conf_create, has_twins, conf_pool_listen_cmp,
  conf_pool_name_cmp,
}
use gfwproxy.Conf.Valid.{Sorts}
use gfwproxy.Conf.Ready.{
  ReadyPool, then_do-some, if_none-some, conf_validate_server_lem, conf_post_validate-ReadyPool,
}
use gfwproxy.Conf.Fit.{IsInt, FitServer, FitPool}
use gfwproxy.Conf.FitParse.{conf_parse_fits}

is_ok_true : (s : Status) → not (is_ok s) ≡ false → s ≡ gf_ok
is_ok_true gf_ok h = refl
is_ok_true gf_error h = absurd (cc)
is_ok_true gf_eagain h = absurd (cc)
is_ok_true gf_enomem h = absurd (cc)

shape_of_ok : (b : Bool) → (if b then gf_ok else gf_error) ≡ gf_ok → b ≡ true
shape_of_ok true h = refl
shape_of_ok false h = absurd (cc)

third_of_ok :
    (a b : Bool) (s : Status)
    → (if not a then gf_error else if not b then gf_error else s) ≡ gf_ok
    → s ≡ gf_ok
third_of_ok true true s h = h
third_of_ok true false s h = absurd (cc)
third_of_ok false b s h = absurd (cc)

or_else_IsInt : (o : Option ℕ) (d : ℕ) → d < 2 ^ 31 → IsInt o → IsInt (or_else o d)
or_else_IsInt none d small i = small
or_else_IsInt (some n) d small i = i

module _ (sort : Sort) (s : Sorts sort) where
  -- The checks keep a pool fit.
  conf_validate_pool_fits :
      (cp v : ConfPool) → FitPool cp → conf_validate_pool sort cp ≡ some v → FitPool v
  unfolding conf_validate_pool
  conf_validate_pool_fits cp v fit h =
      let d = set_defaults cp in
      let (listening, h1) = if_none-some (not cp.listen.valid) h in
      let (connected, h2) = if_none-some (is_zero cp.server_connections) h1 in
      let (guarded, h3) = if_none-some (is_zero d.redis && has_auth d.redis_auth) h2 in
      let (w, checked, kept) = then_do-some (conf_validate_server sort d) _ h3 in
      let (same, (some_server, different)) = conf_validate_server_lem sort s d w checked in
      let (n1, (n2, (n3, (n4, (n5, (n6, (n7, (n8, (n9, (n10, (n11, (n12, end)))))))))))) =
        fit.numbers in
      let small : (n : ℕ) → n < 2 ^ 31 → n < 2 ^ 31 = λ n h. h in
      subst FitPool
        (ap {A = ConfPool} {B = ConfPool} (λ t. record t { valid = true }) (sym same)
          ∙ some_inj kept)
        (record {
          numbers = (
            n1,
            (
              or_else_IsInt cp.backlog 512 (omega arith) n2,
              (
                small 0 (omega arith),
                (
                  or_else_IsInt cp.redis_db 0 (omega arith) n4,
                  (
                    or_else_IsInt cp.server_connections 1 (omega arith) n5,
                    (
                      or_else_IsInt cp.server_retry_timeout 30000 (omega arith) n6,
                      (
                        or_else_IsInt cp.server_failure_limit 2 (omega arith) n7,
                        (
                          or_else_IsInt cp.redis 0 (omega arith) n8,
                          (
                            or_else_IsInt cp.tcpkeepalive 0 (omega arith) n9,
                            (
                              or_else_IsInt cp.reuseport 0 (omega arith) n10,
                              (
                                or_else_IsInt cp.preconnect 0 (omega arith) n11,
                                (or_else_IsInt cp.auto_eject_hosts 0 (omega arith) n12, tt),
                              ),
                            ),
                          ),
                        ),
                      ),
                    ),
                  ),
                ),
              ),
            ),
          );
          tag = fit.tag;
          port_fits = fit.port_fits;
          servers = All-Permᴰ FitServer (s.servers_kept cp.server) fit.servers;
        })

  validate_pools_fits :
      (pools vs : List ConfPool)
      → All FitPool pools
      → validate_pools sort pools ≡ some vs
      → All FitPool vs
  unfolding validate_pools
  validate_pools_fits [] vs fit h = subst (All FitPool) (some_inj h) tt
  validate_pools_fits (cp ∷ pools) vs (first, fit) h =
      let (v, accepted, more) = then_do-some (conf_validate_pool sort cp) _ h in
      let (ws, rest, kept) = then_do-some (validate_pools sort pools) _ more in
      subst (All FitPool) (some_inj kept)
        (conf_validate_pool_fits cp v first accepted, validate_pools_fits pools ws fit rest)

  conf_post_validate_fits :
      (pools vs : List ConfPool)
      → All FitPool pools
      → conf_post_validate sort pools ≡ some vs
      → All FitPool vs
  unfolding conf_post_validate
  conf_post_validate_fits pools vs fit h =
      let (some_pool, h1) = if_none-some (length pools == 0) h in
      let (ws, valid, h2) = then_do-some (validate_pools sort pools) _ h1 in
      let (no_twin_listens, h3) =
        if_none-some (has_twins conf_pool_listen_cmp (sort.by_listen ws)) h2 in
      let (no_twin_names, kept) =
        if_none-some (has_twins conf_pool_name_cmp (sort.by_pool_name (sort.by_listen ws))) h3 in
      subst (All FitPool) (some_inj kept) (
        All-Permᴰ FitPool (s.names_kept (sort.by_listen ws))
          (All-Permᴰ FitPool (s.listens_kept ws) (validate_pools_fits pools ws fit valid)))

  -- Of a file that holds one document, of whatever tree, `conf_create` makes a configuration only
  -- if the tree has the structure of a configuration. It then has at least one pool; every pool is
  -- ready, and its values fit the fields of the proxy; no two pools listen on the same address or
  -- have the same name.
  pub conf_create_safe :
      (sys : System) (file : File) (t : Node) (cf : Conf)
      → file.events ≡ document t
      → conf_create sys sort file opened ≡ some cf
      → (conf_shape t ≡ true)
        × ((0 < length cf.pool)
            × (All ReadyPool cf.pool
                × (All FitPool cf.pool
                    × (Distinct (λ p. p.listen.pname) cf.pool × Distinct (λ p. p.name) cf.pool))))
  unfolding conf_create conf_pre_validate
  conf_create_safe sys file t cf events h =
      let (pre, h1) = if_none-some (not (is_ok (conf_pre_validate file))) h in
      let shape : conf_shape t ≡ true = shape_of_ok (conf_shape t) (
        sym (conf_validate_structure_lem t)
        ∙ ap conf_validate_structure (sym events)
        ∙ third_of_ok (is_ok (conf_validate_document file.documents))
            (is_ok (conf_validate_tokens file.tokens)) _
            (is_ok_true (conf_pre_validate file) pre)) in
      let (parsed, parse_ok, h2) = then_do-some (conf_parse sys file.events opened) _ h1 in
      let (pools, post, kept) = then_do-some (conf_post_validate sort parsed.pool) _ h2 in
      let fits =
        conf_parse_fits sys t parsed shape
          (ap (λ e. conf_parse sys e opened) (sym events) ∙ parse_ok) in
      let (same_length, (some_pool, (ready, (listens, names)))) =
        conf_post_validate-ReadyPool sort s parsed.pool pools post in
      let fit = conf_post_validate_fits parsed.pool pools fits post in
      subst
        (λ c.
          (conf_shape t ≡ true)
          × ((0 < length c.pool)
              × (All ReadyPool c.pool
                  × (All FitPool c.pool
                      × (Distinct (λ p. p.listen.pname) c.pool × Distinct (λ p. p.name) c.pool)))))
        (some_inj kept) (shape, (some_pool, (ready, (fit, (listens, names)))))

create_if {ℓ} :
    {A : Type ℓ} (a b c : Bool) (o : Option A)
    → (if not (
          is_ok (
            if not a
            then gf_error
            else if not b
            then gf_error
            else (if c then gf_ok else gf_error)))
        then none
        else o)
      ≡ (if a && (b && c) then o else none)
create_if true true true o = refl
create_if true true false o = refl
create_if true false c o = refl
create_if false b c o = refl

if_third {ℓ} :
    {A : Type ℓ} (a b c : Bool) {x y : Option A}
    → (c ≡ true → x ≡ y)
    → (if a && (b && c) then x else none) ≡ (if a && (b && c) then y else none)
if_third true true true h = h refl
if_third true true false h = refl
if_third true false c h = refl
if_third false b c h = refl

-- Of a file that holds one document, `conf_create` makes a configuration exactly if the checks of
-- the documents and of the tokens pass, the tree has the structure of a configuration, reading its
-- directives in order succeeds, and the checks of what was read pass; it then holds what these give.
pub conf_create_lem :
    (sys : System) (sort : Sort) (file : File) (t : Node)
    → file.events ≡ document t
    → conf_create sys sort file opened ≡ (
        if is_ok (conf_validate_document file.documents)
          && (is_ok (conf_validate_tokens file.tokens) && conf_shape t)
        then then_do (read_conf sys t) (λ pools.
          then_do
            (conf_post_validate sort pools)
            (λ valid. some (record (state 0 [] valid false) { parsed = true })))
        else none)
unfolding conf_create conf_pre_validate
conf_create_lem sys sort file t events =
    let documents = is_ok (conf_validate_document file.documents) in
    let tokens = is_ok (conf_validate_tokens file.tokens) in
    let finish : Conf → Option Conf = λ parsed.
      then_do (conf_post_validate sort parsed.pool)
        (λ pools. some (record parsed { pool = pools })) in
    let guarded : Status → Option Conf → Option Conf = λ st o.
      if not (is_ok (if not documents then gf_error else if not tokens then gf_error else st))
      then none
      else o in
    ap (λ e. guarded (conf_validate_structure e) (then_do (conf_parse sys e opened) finish)) events
    ∙ ap (λ st. guarded st (then_do (conf_parse sys (document t) opened) finish))
        (conf_validate_structure_lem t)
    ∙ create_if documents tokens (conf_shape t)
        (then_do (conf_parse sys (document t) opened) finish)
    ∙ if_third documents tokens (conf_shape t) (λ shape.
      ap (λ o. then_do o finish) (conf_parse_lem sys t shape)
      ∙ then_do_assoc (read_conf sys t) _ finish)
