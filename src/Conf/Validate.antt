-- ===== src/Conf/Validate.antt =====
-- The checks of src/gf_conf.c before the parser runs (documents and tokens) and after it, and
-- `conf_create`, which runs all of them. A result `none` is `GF_ERROR`, or `NULL`.
use gfwproxy.Base.{
  ℕ, ◌+◌, ◌%◌, ◌^◌, Bool, true, false, not, ◌&&◌, ◌||◌, Option, none, some, List, [], ◌∷◌, ltb,
  ◌==◌, if◌then◌else◌, length,
}
use Prim.Native.Nat.{Ordering}
use gfwproxy.Status.{Status, gf_ok, gf_error}
use gfwproxy.Server.{ketama}
use gfwproxy.Text.{string_compare}
use gfwproxy.Conf.{Conf, ConfPool, ConfServer, fnv1a_64}
use gfwproxy.Conf.Yaml.{Event}
use gfwproxy.Conf.Structure.{conf_validate_structure}
use gfwproxy.Conf.Set.{System}
use gfwproxy.Base.{then_do}
use gfwproxy.Conf.Parse.{conf_parse}

-- The kinds of libyaml's tokens.
pub data Token : Type 0 where
  no_token version_directive tag_directive document_start document_end : Token
  flow_sequence_start flow_sequence_end flow_mapping_start flow_mapping_end flow_entry : Token
  alias anchor tag : Token
  block_sequence_start block_mapping_start block_end block_entry key value scalar : Token
  stream_start stream_end : Token

-- A file, as libyaml reads it in each of its three ways. `documents` has for each document that
-- `yaml_parser_load` gives whether it has a root node. Each list ends where libyaml fails.
pub record File : Type 0 where
  pub documents : List Bool
  pub tokens : List Token
  pub events : List Event

unfoldable pub document_loop : List Bool → ℕ → Status
document_loop [] count = gf_error
document_loop (true ∷ documents) count = document_loop documents ((count + 1) % 2 ^ 32)
document_loop (false ∷ documents) count = if count == 1 then gf_ok else gf_error

unfoldable pub conf_validate_document : List Bool → Status
unfolding document_loop
conf_validate_document documents = document_loop documents 0

abbrev pub is_allowed : Token → Bool
is_allowed block_sequence_start = true
is_allowed block_mapping_start = true
is_allowed block_end = true
is_allowed block_entry = true
is_allowed key = true
is_allowed value = true
is_allowed scalar = true
is_allowed stream_start = true
is_allowed stream_end = true
is_allowed _ = false

abbrev is_end : Token → Bool
is_end stream_end = true
is_end _ = false

unfoldable pub conf_validate_tokens : List Token → Status
conf_validate_tokens [] = gf_error
conf_validate_tokens (t ∷ tokens) =
    let rest = conf_validate_tokens tokens in
    if not (is_allowed t) then gf_error else if is_end t then gf_ok else rest

abbrev pub is_ok : Status → Bool
is_ok gf_ok = true
is_ok _ = false

unfoldable pub conf_pre_validate : File → Status
conf_pre_validate file =
    if not (is_ok (conf_validate_document file.documents))
    then gf_error
    else if not (is_ok (conf_validate_tokens file.tokens))
    then gf_error
    else conf_validate_structure file.events

abbrev pub conf_server_name_cmp : ConfServer → ConfServer → Ordering
conf_server_name_cmp s1 s2 = string_compare s1.name s2.name

abbrev pub conf_pool_name_cmp : ConfPool → ConfPool → Ordering
conf_pool_name_cmp p1 p2 = string_compare p1.name p2.name

abbrev pub conf_pool_listen_cmp : ConfPool → ConfPool → Ordering
conf_pool_listen_cmp p1 p2 = string_compare p1.listen.pname p2.listen.pname

-- `array_sort`, that is the C library's `qsort`, with each of the three comparisons.
pub record Sort : Type 0 where
  pub by_server_name : List ConfServer → List ConfServer
  pub by_listen : List ConfPool → List ConfPool
  pub by_pool_name : List ConfPool → List ConfPool

abbrev is_eq : Ordering → Bool
is_eq Ordering.eq = true
is_eq _ = false

-- The loops for duplicates: whether two neighbours compare as equal.
abbrev pub has_twins {ℓ} : {A : Type ℓ} → (A → A → Ordering) → List A → Bool
has_twins cmp [] = false
has_twins cmp (a ∷ []) = false
has_twins cmp (a ∷ (b ∷ rest)) = is_eq (cmp a b) || has_twins cmp (b ∷ rest)

unfoldable pub conf_validate_server : Sort → ConfPool → Option ConfPool
conf_validate_server sort cp =
    if length cp.server == 0
    then none
    else let sorted = sort.by_server_name cp.server in
      if has_twins conf_server_name_cmp sorted then none else some (record cp { server = sorted })

abbrev pub or_else {ℓ} : {A : Type ℓ} → Option A → A → Option A
or_else none a = some a
or_else (some b) a = some b

-- The defaults. `CONF_DEFAULT_TIMEOUT` is -1, as unset.
abbrev pub set_defaults : ConfPool → ConfPool
set_defaults cp = record cp {
  distribution = or_else cp.distribution ketama;
  hash = or_else cp.hash fnv1a_64;
  backlog = or_else cp.backlog 512;
  client_connections = some 0;
  redis = or_else cp.redis 0;
  tcpkeepalive = or_else cp.tcpkeepalive 0;
  reuseport = or_else cp.reuseport 0;
  redis_db = or_else cp.redis_db 0;
  preconnect = or_else cp.preconnect 0;
  auto_eject_hosts = or_else cp.auto_eject_hosts 0;
  server_connections = or_else cp.server_connections 1;
  server_retry_timeout = or_else cp.server_retry_timeout 30000;
  server_failure_limit = or_else cp.server_failure_limit 2;
}

-- An `int` as a truth value: -1 counts as true.
abbrev pub is_zero : Option ℕ → Bool
is_zero none = false
is_zero (some n) = n == 0

abbrev pub has_auth : Option (List ℕ) → Bool
has_auth none = false
has_auth (some text) = ltb 0 (length text)

unfoldable pub conf_validate_pool : Sort → ConfPool → Option ConfPool
unfolding conf_validate_server
conf_validate_pool sort cp =
    let d = set_defaults cp in
    if not cp.listen.valid
    then none
    else if is_zero cp.server_connections
    then none
    else if is_zero d.redis && has_auth d.redis_auth
    then none
    else then_do (conf_validate_server sort d) (λ v. some (record v { valid = true }))

unfoldable pub validate_pools : Sort → List ConfPool → Option (List ConfPool)
unfolding conf_validate_pool
validate_pools sort [] = some []
validate_pools sort (cp ∷ pools) =
    then_do (conf_validate_pool sort cp)
      (λ v. then_do (validate_pools sort pools) (λ vs. some (v ∷ vs)))

unfoldable pub conf_post_validate : Sort → List ConfPool → Option (List ConfPool)
unfolding validate_pools
conf_post_validate sort pools =
    if length pools == 0
    then none
    else then_do (validate_pools sort pools) (λ valid.
      let listens = sort.by_listen valid in
      if has_twins conf_pool_listen_cmp listens
      then none
      else let named = sort.by_pool_name listens in
        if has_twins conf_pool_name_cmp named then none else some named)

-- `conf_create`, of a file that can be opened; `conf_open` gives the state `cf`.
unfoldable pub conf_create : System → Sort → File → Conf → Option Conf
unfolding conf_pre_validate conf_post_validate
conf_create sys sort file cf =
    if not (is_ok (conf_pre_validate file))
    then none
    else then_do (conf_parse sys file.events cf) (λ parsed.
      then_do (conf_post_validate sort parsed.pool)
        (λ pools. some (record parsed { pool = pools })))
