-- ===== src/Conf/Field.antt =====
-- The offsets of `conf_commands` in src/gf_conf.c: where a directive stands in a `conf_pool`.
use gfwproxy.Base.{ℕ, Option}
use gfwproxy.Conf.{ConfPool}

-- An offset into the structure: how the code reads and writes through it.
pub record Field {ℓ} (A : Type ℓ) : Type ℓ where
  pub read : ConfPool → A
  pub write : A → ConfPool → ConfPool

-- The directives that `conf_set_num` and `conf_set_bool` handle.
pub data Number : Type 0 where
  timeout backlog client_connections redis_db server_connections : Number
  server_retry_timeout server_failure_limit : Number
  redis tcpkeepalive reuseport preconnect auto_eject_hosts : Number

abbrev pub number : Number → Field (Option ℕ)
number timeout = record { read = λ p. p.timeout; write = λ v p. record p { timeout = v } }
number backlog = record { read = λ p. p.backlog; write = λ v p. record p { backlog = v } }
number client_connections = record {
  read = λ p. p.client_connections;
  write = λ v p. record p { client_connections = v };
}
number redis_db = record { read = λ p. p.redis_db; write = λ v p. record p { redis_db = v } }
number server_connections = record {
  read = λ p. p.server_connections;
  write = λ v p. record p { server_connections = v };
}
number server_retry_timeout = record {
  read = λ p. p.server_retry_timeout;
  write = λ v p. record p { server_retry_timeout = v };
}
number server_failure_limit = record {
  read = λ p. p.server_failure_limit;
  write = λ v p. record p { server_failure_limit = v };
}
number redis = record { read = λ p. p.redis; write = λ v p. record p { redis = v } }
number tcpkeepalive = record {
  read = λ p. p.tcpkeepalive;
  write = λ v p. record p { tcpkeepalive = v };
}
number reuseport = record { read = λ p. p.reuseport; write = λ v p. record p { reuseport = v } }
number preconnect = record { read = λ p. p.preconnect; write = λ v p. record p { preconnect = v } }
number auto_eject_hosts = record {
  read = λ p. p.auto_eject_hosts;
  write = λ v p. record p { auto_eject_hosts = v };
}
