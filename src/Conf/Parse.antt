-- ===== src/Conf/Parse.antt =====
-- The parser of src/gf_conf.c: from events to pools. A result `none` is `GF_ERROR`, a read through
-- a pointer that is not set, or an event that the code takes to be impossible.
use gfwproxy.Base.{
  ℕ, ◌+◌, ◌-◌, ◌%◌, ◌^◌, Bool, true, false, Option, none, some, List, [], ◌∷◌, ◌++◌, ◌==◌,
  if◌then◌else◌, length, get_elem?, set,
}
use gfwproxy.Base.{then_do}
use gfwproxy.Conf.{Conf, ConfPool, conf_pool_init, Result, ok, fault}
use gfwproxy.Conf.Field.{
  Number, timeout, backlog, client_connections, redis_db, server_connections, server_retry_timeout,
  server_failure_limit, redis, tcpkeepalive, reuseport, preconnect, auto_eject_hosts,
}
use gfwproxy.Conf.Yaml.{
  Event, stream_start, stream_end, document_start, document_end, mapping_start, mapping_end,
  sequence_start, sequence_end, scalar,
}
use gfwproxy.Conf.Set.{
  codes, lookup, System, conf_set_num, conf_set_bool, conf_set_hash, conf_set_distribution,
  conf_set_hashtag, conf_set_string, conf_set_listen,
}
use gfwproxy.Conf.AddServer.{conf_add_server}

pub data Command : Type 0 where
  set_listen set_hash set_hashtag set_distribution set_string add_server : Command
  set_num set_bool : Number → Command

abbrev pub conf_commands : List (List ℕ × Command)
conf_commands =
    (codes "listen", set_listen)
    ∷ (codes "hash", set_hash)
    ∷ (codes "hash_tag", set_hashtag)
    ∷ (codes "distribution", set_distribution)
    ∷ (codes "timeout", set_num timeout)
    ∷ (codes "backlog", set_num backlog)
    ∷ (codes "client_connections", set_num client_connections)
    ∷ (codes "redis", set_bool redis)
    ∷ (codes "tcpkeepalive", set_bool tcpkeepalive)
    ∷ (codes "reuseport", set_bool reuseport)
    ∷ (codes "redis_auth", set_string)
    ∷ (codes "redis_db", set_num redis_db)
    ∷ (codes "preconnect", set_bool preconnect)
    ∷ (codes "auto_eject_hosts", set_bool auto_eject_hosts)
    ∷ (codes "server_connections", set_num server_connections)
    ∷ (codes "server_retry_timeout", set_num server_retry_timeout)
    ∷ (codes "server_failure_limit", set_num server_failure_limit)
    ∷ (codes "servers", add_server)
    ∷ []

-- `cmd->set`.
unfoldable pub run_command : System → Command → List ℕ → ConfPool → Result ConfPool
run_command sys set_listen = conf_set_listen sys
run_command sys set_hash = conf_set_hash
run_command sys set_hashtag = conf_set_hashtag
run_command sys set_distribution = conf_set_distribution
run_command sys set_string = conf_set_string
run_command sys add_server = conf_add_server
run_command sys (set_num f) = conf_set_num f
run_command sys (set_bool f) = conf_set_bool f

abbrev pub only_ok {ℓ} : {A : Type ℓ} → Result A → Option A
only_ok (fault f) = none
only_ok (ok a) = some a

-- The loop of `conf_handler` over `conf_commands`.
unfoldable pub set_directive : System → List ℕ → List ℕ → ConfPool → Option ConfPool
unfolding run_command
set_directive sys key value cp =
    then_do (lookup key conf_commands) (λ cmd. only_ok (run_command sys cmd value cp))

-- `conf_handler`, on `cf->arg` and on the pool that `data` points to.
unfoldable pub conf_handler : System → List (List ℕ) → ConfPool → Option ConfPool
unfolding set_directive
conf_handler sys [] cp = none
conf_handler sys (value ∷ []) cp = some (conf_pool_init value)
conf_handler sys (value ∷ key ∷ _) cp = set_directive sys key value cp

abbrev pub pop : List (List ℕ) → List (List ℕ)
pop [] = []
pop (_ ∷ arg) = arg

abbrev pub conf_pop_scalar : Conf → Conf
conf_pop_scalar cf = record cf { arg = pop cf.arg }

abbrev pub is_empty : List ℕ → Bool
is_empty [] = true
is_empty (_ ∷ _) = false

unfoldable pub conf_push_scalar : List ℕ → Conf → Option Conf
conf_push_scalar text cf = if is_empty text then none else some (record cf { arg = text ∷ cf.arg })

-- `conf_handler(cf, data)`; `data` is an index into `cf->pool`.
unfoldable pub call_handler : System → ℕ → Conf → Option Conf
unfolding conf_handler
call_handler sys i cf = then_do (get_elem? cf.pool i) (λ cp.
    then_do (conf_handler sys cf.arg cp) (λ cp'. some (record cf { pool = set cf.pool i cp' })))

-- A new pool: the cell that `array_push` gives is written before anything reads it.
unfoldable pub new_pool : System → Conf → Option (Option ℕ × Conf)
new_pool sys cf =
    let i = length cf.pool in
    then_do (call_handler sys i (record cf { pool = cf.pool ++ conf_pool_init [] ∷ [] }))
      (λ cf'. some (some i, cf'))

-- A leaf: the handler, and then its value, and its key but in a sequence, leave `cf->arg`.
unfoldable pub new_leaf : System → Option ℕ → Conf → Option (Option ℕ × Conf)
new_leaf sys none cf = none
new_leaf sys (some i) cf = then_do (call_handler sys i cf) (λ cf'.
    some (some i, if cf.seq then conf_pop_scalar cf' else conf_pop_scalar (conf_pop_scalar cf')))

-- A scalar that has been pushed.
unfoldable pub on_scalar : System → Option ℕ → Conf → Option (Option ℕ × Conf)
on_scalar sys data' cf =
    if cf.seq
    then new_leaf sys data' cf
    else if cf.depth == 1
    then new_pool sys cf
    else if length cf.arg == cf.depth + 1
    then new_leaf sys data' cf
    else some (data', cf)

-- One call of `conf_parse_core`, up to its tail call; `none` in place of `data` and the state is
-- the end.
pub data Turn : Type 0 where
  failed : Turn
  finished : Conf → Turn
  onward : Option ℕ → Conf → Turn

unfoldable pub go_on : Option (Option ℕ × Conf) → Turn
go_on none = failed
go_on (some (d, cf)) = onward d cf

unfoldable pub parse_turn : System → Event → Option ℕ → Conf → Turn
unfolding conf_push_scalar call_handler new_pool new_leaf on_scalar go_on
parse_turn sys mapping_end d cf =
    let up = record cf { depth = (cf.depth + (2 ^ 32 - 1)) % 2 ^ 32 } in
    if up.depth == 1
    then onward d (conf_pop_scalar up)
    else if up.depth == 0
    then finished up
    else onward d up
parse_turn sys mapping_start d cf = onward d (record cf { depth = (cf.depth + 1) % 2 ^ 32 })
parse_turn sys sequence_start d cf = onward d (record cf { seq = true })
parse_turn sys sequence_end d cf =
    let popped = conf_pop_scalar cf in onward d (record popped { seq = false })
parse_turn sys (scalar text) d cf = go_on (then_do (conf_push_scalar text cf) (on_scalar sys d))
parse_turn sys _ d cf = failed

abbrev pub after_turn :
    (Option ℕ → Conf → Option (Conf × List Event)) → List Event → Turn → Option (Conf × List Event)
after_turn tail_call es failed = none
after_turn tail_call es (finished cf) = some (cf, es)
after_turn tail_call es (onward d cf) = tail_call d cf

-- `conf_parse_core`: the state at its end, with the events that it has not read.
unfoldable pub conf_parse_core : System → List Event → Option ℕ → Conf → Option (Conf × List Event)
unfolding parse_turn
conf_parse_core sys [] d cf = none
conf_parse_core sys (e ∷ es) d cf = after_turn (conf_parse_core sys es) es (parse_turn sys e d cf)

unfoldable pub conf_begin_parse : List Event → Conf → Option (Conf × List Event)
conf_begin_parse (stream_start ∷ es) cf = conf_begin_parse es cf
conf_begin_parse (document_start ∷ es) cf = conf_begin_parse es cf
conf_begin_parse (mapping_start ∷ es) cf = some (record cf { depth = (cf.depth + 1) % 2 ^ 32 }, es)
conf_begin_parse _ cf = none

unfoldable pub conf_end_parse : List Event → Conf → Option Conf
conf_end_parse (document_end ∷ es) cf = conf_end_parse es cf
conf_end_parse (stream_end ∷ es) cf = some cf
conf_end_parse _ cf = none

unfoldable pub conf_parse : System → List Event → Conf → Option Conf
unfolding conf_begin_parse conf_parse_core conf_end_parse
conf_parse sys es cf = then_do (conf_begin_parse es cf) (λ begun.
    then_do (conf_parse_core sys begun.1 none begun.0) (λ core.
      then_do (conf_end_parse core.1 core.0) (λ ended. some (record ended { parsed = true }))))
