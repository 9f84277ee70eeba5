-- ===== src/Conf/Tests.antt =====
-- A small configuration, for the witnesses.
use gfwproxy.Base.{
  ℕ, ◌*◌, ◌<◌, ◌≡◌, refl, true, false, ◌&&◌, Option, none, some, List, [], ◌∷◌, map, arith,
  if◌then◌else◌, length, All,
}
use gfwproxy.Base.Distinct.{Distinct}
use gfwproxy.Status.{gf_ok, gf_error}
use gfwproxy.Text.{
  atoi, atoi_loop, non_negative, valid_port, strncmp, string_compare, strrchr, strrchr_loop,
}
use gfwproxy.Conf.{Conf, ConfPool, conf_pool_init, ok, fault, is_duplicate}
use gfwproxy.Conf.Field.{timeout}
use gfwproxy.Conf.Yaml.{
  Node, leaf, sequence, mapping, no_items, item, no_pairs, pair, emit, document,
}
use gfwproxy.Conf.Structure.{structure_step, structure_loop, conf_validate_structure}
use gfwproxy.Conf.Shape.{conf_shape, conf_validate_structure_lem}
use gfwproxy.Conf.Set.{codes, System, conf_set_num, conf_set_listen, parse_listen}
use gfwproxy.Conf.AddServer.{split_loop, default_name, parse_server, conf_add_server}
use gfwproxy.Conf.ServerText.{server_text, server_of, conf_add_server-server_text}
use gfwproxy.Base.{then_do}
use gfwproxy.Conf.Parse.{
  set_num, run_command, set_directive, conf_handler, conf_push_scalar, call_handler, new_pool,
  new_leaf, on_scalar, go_on, parse_turn, conf_parse_core, conf_begin_parse, conf_end_parse,
  conf_parse,
}
use gfwproxy.Conf.Read.{read_conf, state, opened}
use gfwproxy.Conf.Validate.{
  File, block_mapping_start, stream_start, stream_end, block_end, key, value, scalar,
  conf_validate_document, document_loop, conf_validate_tokens, conf_pre_validate,
  conf_validate_server, conf_validate_pool, validate_pools, conf_post_validate, conf_create,
}
use gfwproxy.Conf.Ready.{ReadyPool}
use gfwproxy.Conf.Once.{run_command_once}
use gfwproxy.Conf.Fit.{FitPool}
use gfwproxy.Conf.Create.{conf_create_safe}
use gfwproxy.Server.{Pool}
use gfwproxy.Conf.{ConfServer, HashType}
use gfwproxy.Conf.Validate.{
  is_ok, set_defaults, conf_validate_document, conf_validate_tokens, conf_validate_pool,
  conf_validate_server, conf_post_validate,
}
use gfwproxy.Conf.Ready.{conf_validate_pool-ReadyPool}
use gfwproxy.Conf.FitParse.{conf_parse_fits}
use gfwproxy.Conf.Create.{conf_create_lem}
use gfwproxy.Conf.Transform.{conf_pool_each_transform, conf_pool_each_transform_lem}
use gfwproxy.Conf.Sorting.{place, insertion_sort, sorting, sorting-Sorts}

abbrev system : System
system = record { gf_resolve = λ name port. some []; strtol_octal = λ text. some 0 }

abbrev tree : Node
tree = mapping (
    pair (leaf (codes "p"))
      (mapping (
        pair (leaf (codes "listen")) (leaf (codes "h:1")) (
          pair (leaf (codes "servers"))
            (sequence (item (leaf (codes "b:2:3")) (item (leaf (codes "a:2:1 n")) no_items)))
            no_pairs)))
      no_pairs)

abbrev file : File
file = record {
  documents = true ∷ false ∷ [];
  tokens = stream_start ∷ block_mapping_start ∷ key ∷ scalar ∷ value ∷ block_end ∷ stream_end ∷ [];
  events = document tree;
}

abbrev held : Option Conf → Conf
held none = opened
held (some cf) = cf

abbrev created : Conf
created = held (conf_create system sorting file opened)

conf_validate_structure_lem_example :
    conf_validate_structure (document tree) ≡ (if conf_shape tree then gf_ok else gf_error)
conf_validate_structure_lem_example = conf_validate_structure_lem tree

conf_add_server-server_text_example :
    conf_add_server
      (server_text (codes "::1") 11211 2 (some (codes "n")))
      (conf_pool_init (codes "p"))
    ≡ ok (record (conf_pool_init (codes "p")) {
      server = server_of (codes "::1") 11211 2 (some (codes "n")) ∷ [];
    })
unfolding valid_port
conf_add_server-server_text_example =
    conf_add_server-server_text (conf_pool_init (codes "p")) (codes "::1") 11211 2
      (some (codes "n")) refl (omega arith, (omega arith, (omega arith, tt)))
      ((omega arith, tt), omega arith) refl (omega arith) (omega arith)

abbrev timed : ConfPool
timed = record (conf_pool_init (codes "p")) { timeout = some 40 }

run_command_once_example :
    run_command system (set_num timeout) (codes "50") timed ≡ fault is_duplicate
unfolding run_command conf_set_num atoi atoi_loop non_negative
run_command_once_example =
    run_command_once system (set_num timeout) (codes "40") (codes "50") (conf_pool_init (codes "p"))
      timed refl refl

abbrev everything : Option Conf
everything = conf_create system sorting file opened

created_lem : conf_create system sorting file opened ≡ some created
unfolding conf_create conf_pre_validate conf_validate_document document_loop conf_validate_tokens
    conf_validate_structure structure_loop structure_step emit document conf_parse conf_begin_parse
    conf_parse_core conf_end_parse parse_turn conf_push_scalar call_handler new_pool new_leaf
    on_scalar go_on conf_handler set_directive run_command conf_set_listen parse_listen
    conf_add_server parse_server split_loop default_name strrchr strrchr_loop atoi atoi_loop
    non_negative valid_port string_compare strncmp conf_post_validate validate_pools
    conf_validate_pool conf_validate_server insertion_sort place
created_lem = refl

conf_create_safe_example :
    (conf_shape tree ≡ true)
    × ((0 < length created.pool)
        × (All ReadyPool created.pool
            × (All FitPool created.pool
                × (Distinct (λ p. p.listen.pname) created.pool
                    × Distinct (λ p. p.name) created.pool))))
conf_create_safe_example =
    conf_create_safe sorting sorting-Sorts system file tree created refl created_lem

conf_create_lem_example : conf_create system sorting file opened ≡ (
    if is_ok (conf_validate_document file.documents)
      && (is_ok (conf_validate_tokens file.tokens) && conf_shape tree)
    then then_do (read_conf system tree) (λ pools.
      then_do
        (conf_post_validate sorting pools)
        (λ valid. some (record (state 0 [] valid false) { parsed = true })))
    else none)
conf_create_lem_example = conf_create_lem system sorting file tree refl

abbrev server : ConfServer
server = server_of (codes "b") 2 3 none

abbrev plain : ConfPool
plain = record (conf_pool_init (codes "p")) {
  listen = record (conf_pool_init []).listen { valid = true };
  server = server ∷ [];
}

abbrev checked : ConfPool
checked = record (set_defaults plain) { valid = true }

checked-ReadyPool : ReadyPool checked
unfolding conf_validate_pool conf_validate_server insertion_sort place
checked-ReadyPool = conf_validate_pool-ReadyPool sorting sorting-Sorts plain checked refl

checked-FitPool : FitPool checked
checked-FitPool = record {
  numbers = (
    tt,
    (
      omega arith,
      (
        omega arith,
        (
          omega arith,
          (
            omega arith,
            (
              omega arith,
              (
                omega arith,
                (omega arith, (omega arith, (omega arith, (omega arith, (omega arith, tt))))),
              ),
            ),
          ),
        ),
      ),
    ),
  );
  tag = tt;
  port_fits = omega arith;
  servers = (
    record {
      valid = refl;
      weighs = omega arith;
      weight_fits = omega arith;
      port_fits = omega arith;
    },
    tt,
  );
}

abbrev no_hash : HashType → List ℕ → ℕ
no_hash h text = 0

conf_pool_each_transform_lem_example :
    (p : Pool) × (conf_pool_each_transform no_hash checked ≡ some p)
    × ((map (λ s. s.name) p.server ≡ map (λ c. c.name) checked.server)
        × ((map (λ s. s.weight) p.server ≡ map (λ c. c.weight) checked.server)
            × (All (λ s. 0 < s.weight) p.server
                × ((checked.server_connections ≡ some p.server_connections)
                    × ((0 < p.server_connections)
                        × (n : ℕ) × (checked.server_retry_timeout ≡ some n)
                        × (p.server_retry_timeout ≡ n * 1000))))))
conf_pool_each_transform_lem_example =
    conf_pool_each_transform_lem no_hash checked checked-ReadyPool checked-FitPool

abbrev parsed : Conf
parsed = held (conf_parse system (document tree) opened)

parsed_lem : conf_parse system (document tree) opened ≡ some parsed
unfolding conf_create conf_pre_validate conf_validate_document document_loop conf_validate_tokens
    conf_validate_structure structure_loop structure_step emit document conf_parse conf_begin_parse
    conf_parse_core conf_end_parse parse_turn conf_push_scalar call_handler new_pool new_leaf
    on_scalar go_on conf_handler set_directive run_command conf_set_listen parse_listen
    conf_add_server parse_server split_loop default_name strrchr strrchr_loop atoi atoi_loop
    non_negative valid_port string_compare strncmp conf_post_validate validate_pools
    conf_validate_pool conf_validate_server insertion_sort place
parsed_lem = refl

conf_parse_fits_example : All FitPool parsed.pool
conf_parse_fits_example = conf_parse_fits system tree parsed refl parsed_lem
