-- ===== src/Conf.antt =====
-- src/gf_conf.[ch]: the structures of the configuration, as the parser fills them in. An `int`
-- that can be unset, -1, is an `Option`; a `struct string` whose data may be NULL is an `Option`
-- where the code asks for that. Texts hold no NUL, and memory is always there.
pub mod Yaml
pub mod Structure
pub mod Shape
pub mod Field
pub mod Set
pub mod AddServer
pub mod Split
pub mod ServerText
pub mod Parse
pub mod Read
pub mod Turns
pub mod Parsed
pub mod Validate
pub mod Valid
pub mod Ready
pub mod Once
pub mod Fit
pub mod FitText
pub mod FitParse
pub mod Create
pub mod Transform
mod Sorting
mod Tests
use gfwproxy.Base.{ℕ, Bool, false, Option, none, List, []}
use gfwproxy.Server.{DistType}

-- `HASH_CODEC` of src/hashkit/gf_hashkit.h.
pub data HashType : Type 0 where
  one_at_a_time md5 crc16 crc32 crc32a fnv1_64 fnv1a_64 fnv1_32 fnv1a_32 : HashType
  hsieh murmur jenkins : HashType

-- `info` is the address that `gf_resolve` gives, byte by byte; `perm` is `none` where the parser
-- leaves it as it was in memory.
pub record ConfListen : Type 0 where
  pub pname : List ℕ
  pub name : List ℕ
  pub port : ℕ
  pub perm : Option ℕ
  pub info : List ℕ
  pub valid : Bool

-- Nothing sets `info`: the address of a server is resolved later.
pub record ConfServer : Type 0 where
  pub pname : List ℕ
  pub name : List ℕ
  pub addrstr : List ℕ
  pub port : ℕ
  pub weight : ℕ
  pub valid : Bool

pub record ConfPool : Type 0 where
  pub name : List ℕ
  pub listen : ConfListen
  pub hash : Option HashType
  pub hash_tag : Option (List ℕ)
  pub distribution : Option DistType
  pub timeout : Option ℕ
  pub backlog : Option ℕ
  pub client_connections : Option ℕ
  pub tcpkeepalive : Option ℕ
  pub redis : Option ℕ
  pub redis_auth : Option (List ℕ)
  pub redis_db : Option ℕ
  pub preconnect : Option ℕ
  pub auto_eject_hosts : Option ℕ
  pub server_connections : Option ℕ
  pub server_retry_timeout : Option ℕ
  pub server_failure_limit : Option ℕ
  pub server : List ConfServer
  pub valid : Bool
  pub reuseport : Option ℕ

-- `arg` has its last element first.
pub record Conf : Type 0 where
  pub arg : List (List ℕ)
  pub pool : List ConfPool
  pub depth : ℕ
  pub seq : Bool
  pub parsed : Bool

-- What a setter returns instead of `CONF_OK`: its message.
pub data Fault : Type 0 where
  is_duplicate is_not_number is_not_bool is_not_hash is_not_distribution is_not_hash_tag : Fault
  has_invalid_permission has_invalid_host has_invalid_port has_invalid_server : Fault
  has_invalid_weight has_zero_weight has_invalid_value : Fault

pub data Result {ℓ} (A : Type ℓ) : Type ℓ where
  ok : A → Result A
  fault : Fault → Result A

-- `conf_server_init`.
abbrev pub conf_server_init : ConfServer
conf_server_init = record {
  pname = [];
  name = [];
  addrstr = [];
  port = 0;
  weight = 1;
  valid = false;
}

-- `conf_pool_init`.
abbrev pub conf_pool_init : List ℕ → ConfPool
conf_pool_init pool_name = record {
  name = pool_name;
  listen = record { pname = []; name = []; port = 0; perm = none; info = []; valid = false };
  hash = none;
  hash_tag = none;
  distribution = none;
  timeout = none;
  backlog = none;
  client_connections = none;
  tcpkeepalive = none;
  redis = none;
  redis_auth = none;
  redis_db = none;
  preconnect = none;
  auto_eject_hosts = none;
  server_connections = none;
  server_retry_timeout = none;
  server_failure_limit = none;
  server = [];
  valid = false;
  reuseport = none;
}
