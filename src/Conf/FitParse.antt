-- ===== src/Conf/FitParse.antt =====
-- The parser of src/gf_conf.c keeps the pools fit.
use gfwproxy.Base.{
  ℕ, ◌≡◌, sym, ap, ◌∙◌, subst, true, Option, some, List, [], ◌∷◌, ◌++◌, arith, All, some_inj,
}
use gfwproxy.Text.{atoi}
use gfwproxy.Text.Number.{atoi_lt}
use gfwproxy.Conf.{ConfPool, conf_pool_init, Result, ok, fault}
use gfwproxy.Conf.Yaml.{
  Nodes, no_items, item, Pairs, no_pairs, pair, leaf, sequence, mapping, Node, document,
}
use gfwproxy.Conf.Shape.{conf_shape}
use gfwproxy.Conf.Field.{number}
use gfwproxy.Conf.Set.{
  System, read_bool, read_hash_tag, parse_listen, conf_set_num, conf_set_bool, conf_set_hash,
  conf_set_distribution, conf_set_hashtag, conf_set_string, conf_set_listen,
}
use gfwproxy.Conf.AddServer.{parse_server, conf_add_server}
use gfwproxy.Conf.Parse.{
  Command, set_listen, set_hash, set_hashtag, set_distribution, set_string, add_server, set_num,
  set_bool, run_command, set_directive,
}
use gfwproxy.Conf.Once.{unless_set_ok, require_ok, ok_inj, if_fault_ok}
use gfwproxy.Conf.Fit.{FitPool, fit_number}
use gfwproxy.Conf.FitText.{
  All-append, read_bool_lt, read_hash_tag_IsTag, fill_server_fits, append_server_fits,
  parse_listen-PortFits, resolve_listen_fits,
}
use gfwproxy.Conf.Parse.{only_ok, conf_commands, conf_parse}
use gfwproxy.Conf.Set.{lookup}
use gfwproxy.Conf.Ready.{then_do-some}
use gfwproxy.Conf.Read.{given, read_items, read_pool, read_pools, opened}
use gfwproxy.Conf.Parsed.{conf_parse_lem}
use gfwproxy.Conf.{Conf}

-- Every command keeps the pool fit.
run_command_fits :
    (sys : System) (cmd : Command) (v : List ℕ) (cp cp' : ConfPool)
    → FitPool cp
    → run_command sys cmd v cp ≡ ok cp'
    → FitPool cp'
unfolding run_command conf_set_num conf_set_bool conf_set_hash conf_set_distribution
    conf_set_hashtag conf_set_string conf_set_listen conf_add_server parse_server
run_command_fits sys add_server v cp cp' fit h =
    append_server_fits cp cp' (parse_server v) (λ cs. fill_server_fits v _ cs) fit h
run_command_fits sys set_listen v cp cp' fit h =
    resolve_listen_fits sys v cp cp' (parse_listen sys v) (parse_listen-PortFits sys v) fit
      (if_fault_ok cp.listen.valid _ _ h).1
run_command_fits sys set_hash v cp cp' fit h =
    let (x, read, same) =
      require_ok _ _ (λ x. record cp { hash = some x }) (unless_set_ok cp.hash _ h).1 in
    subst FitPool same (record {
      numbers = fit.numbers;
      tag = fit.tag;
      port_fits = fit.port_fits;
      servers = fit.servers;
    })
run_command_fits sys set_distribution v cp cp' fit h =
    let (x, read, same) =
      require_ok _ _ (λ x. record cp { distribution = some x })
        (unless_set_ok cp.distribution _ h).1 in
    subst FitPool same (record {
      numbers = fit.numbers;
      tag = fit.tag;
      port_fits = fit.port_fits;
      servers = fit.servers;
    })
run_command_fits sys set_string v cp cp' fit h =
    subst FitPool (ok_inj (unless_set_ok cp.redis_auth _ h).1) (record {
      numbers = fit.numbers;
      tag = fit.tag;
      port_fits = fit.port_fits;
      servers = fit.servers;
    })
run_command_fits sys set_hashtag v cp cp' fit h =
    let (x, read, same) =
      require_ok _ (read_hash_tag v) (λ x. record cp { hash_tag = some x })
        (unless_set_ok cp.hash_tag _ h).1 in
    subst FitPool same (record {
      numbers = fit.numbers;
      tag = read_hash_tag_IsTag v x read;
      port_fits = fit.port_fits;
      servers = fit.servers;
    })
run_command_fits sys (set_num f) v cp cp' fit h =
    let (n, read, same) =
      require_ok _ (atoi v) (λ n. (number f).write (some n) cp)
        (unless_set_ok ((number f).read cp) _ h).1 in
    subst FitPool same (fit_number f n cp (atoi_lt v n read) fit)
run_command_fits sys (set_bool f) v cp cp' fit h =
    let (n, read, same) =
      require_ok _ (read_bool v) (λ n. (number f).write (some n) cp)
        (unless_set_ok ((number f).read cp) _ h).1 in
    subst FitPool same (fit_number f n cp (read_bool_lt v n read) fit)

only_ok-some {ℓ} : {A : Type ℓ} {a : A} (r : Result A) → only_ok r ≡ some a → r ≡ ok a
only_ok-some (fault f) h = absurd (cc)
only_ok-some (ok a) h = ap ok (some_inj h)

set_directive_fits :
    (sys : System) (key v : List ℕ) (cp cp' : ConfPool)
    → FitPool cp
    → set_directive sys key v cp ≡ some cp'
    → FitPool cp'
unfolding set_directive
set_directive_fits sys key v cp cp' fit h =
    let (cmd, found, done) = then_do-some (lookup key conf_commands) _ h in
    run_command_fits sys cmd v cp cp' fit (only_ok-some (run_command sys cmd v cp) done)

given-some {ℓ} : {A : Type ℓ} {a : A} (t : List ℕ) (o : Option A) → given t o ≡ some a → o ≡ some a
given-some [] o h = absurd (cc)
given-some (c ∷ t) o h = h

module _ (sys : System) where
  read_items_fits :
      (key : List ℕ) (ns : Nodes) (cp cp' : ConfPool)
      → FitPool cp
      → read_items sys key ns cp ≡ some cp'
      → FitPool cp'
  read_items_fits key no_items cp cp' fit h = subst FitPool (some_inj h) fit
  read_items_fits key (item (leaf v) ns) cp cp' fit h =
      let (mid, first, rest) = then_do-some (given v (set_directive sys key v cp)) _ h in
      read_items_fits key ns mid cp'
        (set_directive_fits sys key v cp mid fit (given-some v _ first)) rest
  read_items_fits key (item (sequence ms) ns) cp cp' fit h = absurd (cc)
  read_items_fits key (item (mapping ps) ns) cp cp' fit h = absurd (cc)

  read_pool_fits :
      (ps : Pairs) (cp cp' : ConfPool) → FitPool cp → read_pool sys ps cp ≡ some cp' → FitPool cp'
  read_pool_fits no_pairs cp cp' fit h = subst FitPool (some_inj h) fit
  read_pool_fits (pair (leaf k) (leaf v) ps) cp cp' fit h =
      let (mid, first, rest) = then_do-some (given k (given v (set_directive sys k v cp))) _ h in
      let set_mid = given-some v _ (given-some k _ first) in
      read_pool_fits ps mid cp' (set_directive_fits sys k v cp mid fit set_mid) rest
  read_pool_fits (pair (leaf k) (sequence ns) ps) cp cp' fit h =
      let (mid, first, rest) = then_do-some (given k (read_items sys k ns cp)) _ h in
      read_pool_fits ps mid cp' (read_items_fits k ns cp mid fit (given-some k _ first)) rest
  read_pool_fits (pair (leaf k) (mapping qs) ps) cp cp' fit h = absurd (cc)
  read_pool_fits (pair (sequence ns) v ps) cp cp' fit h = absurd (cc)
  read_pool_fits (pair (mapping qs) v ps) cp cp' fit h = absurd (cc)

  fresh_fits : (name : List ℕ) → FitPool (conf_pool_init name)
  fresh_fits name = record {
    numbers = (tt, (tt, (tt, (tt, (tt, (tt, (tt, (tt, (tt, (tt, (tt, (tt, tt))))))))))));
    tag = tt;
    port_fits = omega arith;
    servers = tt;
  }

  read_pools_fits :
      (ps : Pairs) (pools pools' : List ConfPool)
      → All FitPool pools
      → read_pools sys ps pools ≡ some pools'
      → All FitPool pools'
  read_pools_fits no_pairs pools pools' fit h = subst (All FitPool) (some_inj h) fit
  read_pools_fits (pair (leaf name) (mapping es) ps) pools pools' fit h =
      let (cp, first, rest) =
        then_do-some (given name (read_pool sys es (conf_pool_init name))) _ h in
      let cp_fits =
        read_pool_fits es (conf_pool_init name) cp (fresh_fits name) (given-some name _ first) in
      read_pools_fits ps (pools ++ cp ∷ []) pools'
        (All-append FitPool pools (cp ∷ []) fit (cp_fits, tt)) rest
  read_pools_fits (pair (leaf name) (leaf v) ps) pools pools' fit h = absurd (cc)
  read_pools_fits (pair (leaf name) (sequence ns) ps) pools pools' fit h = absurd (cc)
  read_pools_fits (pair (sequence ns) v ps) pools pools' fit h = absurd (cc)
  read_pools_fits (pair (mapping qs) v ps) pools pools' fit h = absurd (cc)

  -- Whatever the texts of a configuration with the right structure are, if `conf_parse` accepts
  -- them then every number of a pool is unset or an `int` that is not negative, a hash tag has two
  -- bytes, a port fits 16 bits, and every server is valid with a weight that is a positive `int`.
  pub conf_parse_fits :
      (t : Node) (cf : Conf)
      → conf_shape t ≡ true
      → conf_parse sys (document t) opened ≡ some cf
      → All FitPool cf.pool
  conf_parse_fits (leaf text) cf shape h = absurd (cc)
  conf_parse_fits (sequence ns) cf shape h = absurd (cc)
  conf_parse_fits (mapping ps) cf shape h =
      let (pools, read, same) =
        then_do-some (read_pools sys ps []) _ (sym (conf_parse_lem sys (mapping ps) shape) ∙ h) in
      subst (λ c. All FitPool c.pool) (some_inj same) (read_pools_fits ps [] pools tt read)
