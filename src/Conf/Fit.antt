-- ===== src/Conf/Fit.antt =====
-- The values that src/gf_conf.c lets into a pool: what fits the fields of the running proxy.
use gfwproxy.Base.{ℕ, ◌^◌, ◌<◌, ◌≡◌, true, Option, none, some, List, [], ◌∷◌, length, All}
use gfwproxy.Conf.{ConfPool, ConfServer}
use gfwproxy.Conf.Field.{
  Number, number, timeout, backlog, client_connections, redis_db, server_connections,
  server_retry_timeout, server_failure_limit, redis, tcpkeepalive, reuseport, preconnect,
  auto_eject_hosts,
}

abbrev pub all_numbers : List Number
all_numbers =
    timeout ∷ backlog ∷ client_connections ∷ redis_db ∷ server_connections ∷ server_retry_timeout
    ∷ server_failure_limit ∷ redis ∷ tcpkeepalive ∷ reuseport ∷ preconnect ∷ auto_eject_hosts ∷ []

-- Unset, or an `int` that is not negative.
abbrev pub IsInt : Option ℕ → Type 0
IsInt none = Unit
IsInt (some n) = n < 2 ^ 31

abbrev pub IsTag : Option (List ℕ) → Type 0
IsTag none = Unit
IsTag (some tag) = length tag ≡ 2

-- A server whose weight is a positive `int` and whose port fits 16 bits.
pub record FitServer (s : ConfServer) : Type 0 where
  pub valid : s.valid ≡ true
  pub weighs : 0 < s.weight
  pub weight_fits : s.weight < 2 ^ 31
  pub port_fits : s.port < 2 ^ 16

-- A pool whose numbers are `int`s, whose hash tag has two bytes, and whose ports fit 16 bits.
pub record FitPool (cp : ConfPool) : Type 0 where
  pub numbers : All (λ f. IsInt ((number f).read cp)) all_numbers
  pub tag : IsTag cp.hash_tag
  pub port_fits : cp.listen.port < 2 ^ 16
  pub servers : All FitServer cp.server

abbrev Numbers : ConfPool → Type 0
Numbers cp = All (λ f. IsInt ((number f).read cp)) all_numbers

Numbers-write :
    (f : Number) (v : Option ℕ) (cp : ConfPool)
    → IsInt v
    → Numbers cp
    → Numbers ((number f).write v cp)
Numbers-write timeout v cp i
      (h0, (h1, (h2, (h3, (h4, (h5, (h6, (h7, (h8, (h9, (h10, (h11, end)))))))))))) =
    (i, (h1, (h2, (h3, (h4, (h5, (h6, (h7, (h8, (h9, (h10, (h11, end))))))))))))
Numbers-write backlog v cp i
      (h0, (h1, (h2, (h3, (h4, (h5, (h6, (h7, (h8, (h9, (h10, (h11, end)))))))))))) =
    (h0, (i, (h2, (h3, (h4, (h5, (h6, (h7, (h8, (h9, (h10, (h11, end))))))))))))
Numbers-write client_connections v cp i
      (h0, (h1, (h2, (h3, (h4, (h5, (h6, (h7, (h8, (h9, (h10, (h11, end)))))))))))) =
    (h0, (h1, (i, (h3, (h4, (h5, (h6, (h7, (h8, (h9, (h10, (h11, end))))))))))))
Numbers-write redis_db v cp i
      (h0, (h1, (h2, (h3, (h4, (h5, (h6, (h7, (h8, (h9, (h10, (h11, end)))))))))))) =
    (h0, (h1, (h2, (i, (h4, (h5, (h6, (h7, (h8, (h9, (h10, (h11, end))))))))))))
Numbers-write server_connections v cp i
      (h0, (h1, (h2, (h3, (h4, (h5, (h6, (h7, (h8, (h9, (h10, (h11, end)))))))))))) =
    (h0, (h1, (h2, (h3, (i, (h5, (h6, (h7, (h8, (h9, (h10, (h11, end))))))))))))
Numbers-write server_retry_timeout v cp i
      (h0, (h1, (h2, (h3, (h4, (h5, (h6, (h7, (h8, (h9, (h10, (h11, end)))))))))))) =
    (h0, (h1, (h2, (h3, (h4, (i, (h6, (h7, (h8, (h9, (h10, (h11, end))))))))))))
Numbers-write server_failure_limit v cp i
      (h0, (h1, (h2, (h3, (h4, (h5, (h6, (h7, (h8, (h9, (h10, (h11, end)))))))))))) =
    (h0, (h1, (h2, (h3, (h4, (h5, (i, (h7, (h8, (h9, (h10, (h11, end))))))))))))
Numbers-write redis v cp i
      (h0, (h1, (h2, (h3, (h4, (h5, (h6, (h7, (h8, (h9, (h10, (h11, end)))))))))))) =
    (h0, (h1, (h2, (h3, (h4, (h5, (h6, (i, (h8, (h9, (h10, (h11, end))))))))))))
Numbers-write tcpkeepalive v cp i
      (h0, (h1, (h2, (h3, (h4, (h5, (h6, (h7, (h8, (h9, (h10, (h11, end)))))))))))) =
    (h0, (h1, (h2, (h3, (h4, (h5, (h6, (h7, (i, (h9, (h10, (h11, end))))))))))))
Numbers-write reuseport v cp i
      (h0, (h1, (h2, (h3, (h4, (h5, (h6, (h7, (h8, (h9, (h10, (h11, end)))))))))))) =
    (h0, (h1, (h2, (h3, (h4, (h5, (h6, (h7, (h8, (i, (h10, (h11, end))))))))))))
Numbers-write preconnect v cp i
      (h0, (h1, (h2, (h3, (h4, (h5, (h6, (h7, (h8, (h9, (h10, (h11, end)))))))))))) =
    (h0, (h1, (h2, (h3, (h4, (h5, (h6, (h7, (h8, (h9, (i, (h11, end))))))))))))
Numbers-write auto_eject_hosts v cp i
      (h0, (h1, (h2, (h3, (h4, (h5, (h6, (h7, (h8, (h9, (h10, (h11, end)))))))))))) =
    (h0, (h1, (h2, (h3, (h4, (h5, (h6, (h7, (h8, (h9, (h10, (i, end))))))))))))

pub fit_number :
    (f : Number) (n : ℕ) (cp : ConfPool)
    → n < 2 ^ 31
    → FitPool cp
    → FitPool ((number f).write (some n) cp)
fit_number timeout k cp i fit = record {
  numbers = Numbers-write timeout (some k) cp i fit.numbers;
  tag = fit.tag;
  port_fits = fit.port_fits;
  servers = fit.servers;
}
fit_number backlog k cp i fit = record {
  numbers = Numbers-write backlog (some k) cp i fit.numbers;
  tag = fit.tag;
  port_fits = fit.port_fits;
  servers = fit.servers;
}
fit_number client_connections k cp i fit = record {
  numbers = Numbers-write client_connections (some k) cp i fit.numbers;
  tag = fit.tag;
  port_fits = fit.port_fits;
  servers = fit.servers;
}
fit_number redis_db k cp i fit = record {
  numbers = Numbers-write redis_db (some k) cp i fit.numbers;
  tag = fit.tag;
  port_fits = fit.port_fits;
  servers = fit.servers;
}
fit_number server_connections k cp i fit = record {
  numbers = Numbers-write server_connections (some k) cp i fit.numbers;
  tag = fit.tag;
  port_fits = fit.port_fits;
  servers = fit.servers;
}
fit_number server_retry_timeout k cp i fit = record {
  numbers = Numbers-write server_retry_timeout (some k) cp i fit.numbers;
  tag = fit.tag;
  port_fits = fit.port_fits;
  servers = fit.servers;
}
fit_number server_failure_limit k cp i fit = record {
  numbers = Numbers-write server_failure_limit (some k) cp i fit.numbers;
  tag = fit.tag;
  port_fits = fit.port_fits;
  servers = fit.servers;
}
fit_number redis k cp i fit = record {
  numbers = Numbers-write redis (some k) cp i fit.numbers;
  tag = fit.tag;
  port_fits = fit.port_fits;
  servers = fit.servers;
}
fit_number tcpkeepalive k cp i fit = record {
  numbers = Numbers-write tcpkeepalive (some k) cp i fit.numbers;
  tag = fit.tag;
  port_fits = fit.port_fits;
  servers = fit.servers;
}
fit_number reuseport k cp i fit = record {
  numbers = Numbers-write reuseport (some k) cp i fit.numbers;
  tag = fit.tag;
  port_fits = fit.port_fits;
  servers = fit.servers;
}
fit_number preconnect k cp i fit = record {
  numbers = Numbers-write preconnect (some k) cp i fit.numbers;
  tag = fit.tag;
  port_fits = fit.port_fits;
  servers = fit.servers;
}
fit_number auto_eject_hosts k cp i fit = record {
  numbers = Numbers-write auto_eject_hosts (some k) cp i fit.numbers;
  tag = fit.tag;
  port_fits = fit.port_fits;
  servers = fit.servers;
}
