-- ===== src/Pool/Tests.antt =====
-- A pool of two servers, for the witnesses.
use gfwproxy.Base.{ℕ, ◌≡◌, ◌≢◌, refl, true, some, List, [], ◌∷◌, arith, length, get_elem?}
use gfwproxy.Status.{gf_ok}
use gfwproxy.Server.{Continuum, point, Server, Pool, Env, modula}
use gfwproxy.Dist.Fill.{Serves}
use gfwproxy.Dist.Modula.{modula_update, modula_dispatch, modula_update-dispatch}
use gfwproxy.Text.{strchr}
use gfwproxy.Pool.{server_pool_run, server_failure, server_pool_idx, server_pool_update}
use gfwproxy.Pool.Eject.{server_failure-ejects}
use gfwproxy.Pool.Recover.{server_pool_update-recovers}
use gfwproxy.Pool.Tag.{tagged, server_pool_idx-tag}

abbrev well : Server
well = record { name = b'a' ∷ []; weight = 1; next_retry = 0; failure_count = 0 }

abbrev failing : Server
failing = record { name = b'b' ∷ []; weight = 2; next_retry = 0; failure_count = 1 }

abbrev pool : Pool
pool = record {
  server = well ∷ failing ∷ [];
  ncontinuum = 0;
  nserver_continuum = 0;
  continuum = [];
  nlive_server = 2;
  next_rebuild = 0;
  dist_type = modula;
  key_hash = λ key. length key;
  hash_tag = b'{' ∷ b'}' ∷ [];
  server_connections = 1;
  server_retry_timeout = 30;
  server_failure_limit = 2;
  auto_eject_hosts = true;
}

abbrev env : Env
env = record { now = some 11; has_memory = true; stale = λ i. point 7 i }

abbrev ejected_pool : Pool
ejected_pool = record pool {
  server = well ∷ record failing { failure_count = 0; next_retry = 40 } ∷ [];
}

abbrev same_bytes : List ℕ → List ℕ
same_bytes key = key

abbrev same_cells : List Continuum → List Continuum
same_cells cells = cells

server_failure-ejects_example :
    (q : Pool) × (server_failure same_bytes same_cells (some 10) env 1 pool ≡ some q)
    × (get_elem? q.server 1 ≡ some (record failing { failure_count = 0; next_retry = 40 }))
    × ((hash : ℕ)
        → (j : ℕ) × (modula_dispatch q.continuum q.ncontinuum hash ≡ some j)
          × Serves true 11 0 q.server j
          × (j ≢ 1))
server_failure-ejects_example =
    server_failure-ejects same_bytes same_cells env 1 10 pool failing refl refl refl refl refl
      (omega arith) (omega arith) refl (omega arith) (omega arith) (omega arith)

server_pool_idx-tag_example :
    server_pool_idx 0 pool (tagged b'{' b'}' (b'x' ∷ []) (b'u' ∷ b'1' ∷ []) (b'y' ∷ []))
    ≡ server_pool_idx 0 pool (tagged b'{' b'}' [] (b'u' ∷ b'1' ∷ []) (b'}' ∷ b'z' ∷ []))
unfolding strchr
server_pool_idx-tag_example =
    server_pool_idx-tag 0 pool (b'x' ∷ []) [] (b'u' ∷ b'1' ∷ []) (b'y' ∷ []) (b'}' ∷ b'z' ∷ []) refl
      refl refl refl (cc)

abbrev waiting_pool : Pool
waiting_pool = record ejected_pool { next_rebuild = 9 }

waiting :
    (q : Pool) × (modula_update env waiting_pool ≡ some (gf_ok, q))
    × (j : ℕ) × (modula_dispatch q.continuum q.ncontinuum 0 ≡ some j)
    × Serves true 11 0 q.server j
waiting =
    modula_update-dispatch env waiting_pool 11 0 refl refl refl (omega arith) (omega arith)
      (omega arith)

waiting_run : server_pool_run same_bytes same_cells env waiting_pool ≡ some (gf_ok, waiting.0)
unfolding server_pool_run
waiting_run = waiting.1

server_pool_update-recovers_example :
    (server_pool_update same_bytes same_cells (some 10) env waiting_pool ≡ some (gf_ok, waiting.0))
    × (get_elem? waiting.0.server 0 ≡ some (record well { next_retry = 0 }))
server_pool_update-recovers_example =
    server_pool_update-recovers same_bytes same_cells env waiting_pool waiting.0 gf_ok 10 0 well
      refl (omega arith) (omega arith) refl refl waiting_run
