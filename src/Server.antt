-- ===== src/Server.antt =====
-- src/gf_server.h: a server, a pool of servers and its continuum. Times are in microseconds and
-- not negative. Fields that no operation of the model reads are left out.
use gfwproxy.Base.{ℕ, Bool, Option, List}

pub record Continuum : Type 0 where
  pub index : ℕ
  pub value : ℕ

abbrev pub point : ℕ → ℕ → Continuum
point i v = record { index = i; value = v }

pub record Server : Type 0 where
  pub name : List ℕ
  pub weight : ℕ
  pub next_retry : ℕ
  pub failure_count : ℕ

pub data DistType : Type 0 where
  ketama modula random : DistType

-- `continuum` holds every cell that is allocated; the first `ncontinuum` of them are in use.
pub record Pool : Type 0 where
  pub server : List Server
  pub ncontinuum : ℕ
  pub nserver_continuum : ℕ
  pub continuum : List Continuum
  pub nlive_server : ℕ
  pub next_rebuild : ℕ
  pub dist_type : DistType
  pub key_hash : List ℕ → ℕ
  pub hash_tag : List ℕ
  pub server_connections : ℕ
  pub server_retry_timeout : ℕ
  pub server_failure_limit : ℕ
  pub auto_eject_hosts : Bool

-- What an update of the continuum asks of the system: `gf_usec_now`, with `none` for its result
-- -1; whether `gf_realloc` succeeds; and what the memory that it adds happens to hold.
pub record Env : Type 0 where
  pub now : Option ℕ
  pub has_memory : Bool
  pub stale : ℕ → Continuum
