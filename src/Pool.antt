-- ===== src/Pool.antt =====
-- The server pool of src/gf_server.c: the choice of a server for a key, the ejection of a server
-- that fails, and the rebuild of the distribution.
pub mod Tag
pub mod Eject
pub mod Recover
mod Tests
use gfwproxy.Base.{
  ℕ, zero, suc, ◌+◌, ◌%◌, ◌^◌, not, Option, none, some, List, [], ◌∷◌, arith, ltb, leb, ◌==◌,
  if◌then◌else◌, length, get_elem?, set, take, drop,
}
use gfwproxy.Status.{Status, gf_ok, gf_error}
use gfwproxy.Server.{Continuum, Pool, Env, ketama, modula, random}
use gfwproxy.Text.{strchr}
use gfwproxy.Dist.Ketama.{ketama_update}
use gfwproxy.Dist.Ring.{ketama_dispatch}
use gfwproxy.Dist.Modula.{modula_update, modula_dispatch}
use gfwproxy.Dist.Random.{random_update, random_dispatch}

-- The byte at an offset of a text that a NUL ends.
abbrev byte_or_nul : List ℕ → ℕ → ℕ
byte_or_nul text i = elim (get_elem? text i) [ none ↦ 0 | some c ↦ c ]

-- The part of a key that is hashed: what stands between the two bytes of the hash tag, if both
-- are there in this order with something between them, and else the whole key.
pub tagged_key : List ℕ → List ℕ → List ℕ
tagged_key [] key = key
tagged_key (open_tag ∷ tag) key = elim (strchr key open_tag) [
  | none ↦ key
  | some start ↦ elim (strchr (drop (start + 1) key) (byte_or_nul tag 0)) [
    | none ↦ key
    | some len ↦ if ltb 1 (len + 1) then take len (drop (start + 1) key) else key
  ]
]

pub server_pool_hash : Pool → List ℕ → ℕ
server_pool_hash p key =
    if length p.server == 1 then 0 else if length key == 0 then 0 else p.key_hash key

-- `draw` is the number that `random` would return. `none` is a read outside the continuum.
pub server_pool_idx : ℕ → Pool → List ℕ → Option ℕ
unfolding tagged_key server_pool_hash
server_pool_idx draw p key = if length p.server == 1 then some 0 else elim p.dist_type [
  | ketama ↦
      ketama_dispatch p.continuum p.ncontinuum (server_pool_hash p (tagged_key p.hash_tag key))
  | modula ↦
      modula_dispatch p.continuum p.ncontinuum (server_pool_hash p (tagged_key p.hash_tag key))
  | random ↦ random_dispatch draw p.continuum p.ncontinuum 0
]

-- A response came from server `i`: the server is well.
pub server_ok : ℕ → Pool → Pool
server_ok i p = elim (get_elem? p.server i) [
  | none ↦ p
  | some s ↦
      if s.failure_count == 0
      then p
      else record p { server = set p.server i (record s { failure_count = 0; next_retry = 0 }) }
]

-- What the ketama distribution takes from outside (Dist/Ketama).
module _ (md5_signature : List ℕ → List ℕ) (qsort : List Continuum → List Continuum) where
  -- `none` is a write outside the continuum.
  pub server_pool_run : Env → Pool → Option (Status × Pool)
  server_pool_run env p = elim p.dist_type [
    | ketama ↦ ketama_update md5_signature qsort env p
    | modula ↦ modula_update env p
    | random ↦ random_update env p
  ]

  -- `clock` is the time that the function itself reads; the update reads the clock again.
  pub server_pool_update : Option ℕ → Env → Pool → Option (Status × Pool)
  server_pool_update clock env p =
      if not p.auto_eject_hosts
      then some (gf_ok, p)
      else if p.next_rebuild == 0
      then some (gf_ok, p)
      else elim clock [
        | none ↦ some (gf_error, p)
        | some now ↦
            if leb now p.next_rebuild
            then (if p.nlive_server == 0 then some (gf_error, p) else some (gf_ok, p))
            else server_pool_run env p
      ]

  -- Server `i` failed. The status of the update is only logged.
  unfoldable pub server_failure : Option ℕ → Env → ℕ → Pool → Option Pool
  server_failure clock env i p = elim (get_elem? p.server i) [
    | none ↦ none
    | some s ↦
        if not p.auto_eject_hosts
        then some p
        else let count = (s.failure_count + 1) % 2 ^ 32 in
          let counted = record p { server = set p.server i (record s { failure_count = count }) } in
          if ltb count p.server_failure_limit then some counted else elim clock [
            | none ↦ some counted
            | some now ↦
                elim (server_pool_run env (record p {
                  server =
                      set p.server i
                        (record s { failure_count = 0; next_retry = now + p.server_retry_timeout });
                })) [ none ↦ none | some (status, q) ↦ some q ]
          ]
  ]
