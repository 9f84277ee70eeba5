-- ===== src/Dist/Ketama.antt =====
-- `ketama_hash` and `ketama_update` of src/hashkit/gf_ketama.c. What the code calls and does not
-- define is a parameter: `md5_signature` (16 bytes) and the C library's `qsort` by value. The float
-- expression that gives a server's share of the hashes is in Dist/Ketama/Share.
pub mod Share
pub mod Update
use gfwproxy.Base.{
  ℕ, zero, suc, ◌+◌, ◌*◌, ◌%◌, ◌^◌, ◌≡◌, Option, none, some, List, [], ◌∷◌, ◌++◌, arith, length,
  get_elem?, take,
}
use Prim.Native.Nat.{bit_or}
use gfwproxy.Status.{Status}
use gfwproxy.Server.{Server, Continuum, Pool, Env}
use gfwproxy.Text.{safe_utoa}
use gfwproxy.Dist.{Tally, rebuild}
use gfwproxy.Dist.Ketama.Share.{hashes_of}

abbrev byte_at : List ℕ → ℕ → ℕ
byte_at bytes i = elim (get_elem? bytes i) [ none ↦ 0 | some b ↦ b % 256 ]

-- The name and a counter, `"%.*s-%u"`, cut to 272 characters.
pub host_name : List ℕ → ℕ → List ℕ
host_name name k = take 272 (name ++ (b'-' ∷ safe_utoa 10 k))

module _ (md5_signature : List ℕ → List ℕ) where
  pub ketama_hash : List ℕ → ℕ → ℕ
  ketama_hash key alignment =
      let results = md5_signature key in
      bit_or
        (bit_or
          (bit_or (byte_at results (3 + alignment * 4) * 2 ^ 24)
            (byte_at results (2 + alignment * 4) * 2 ^ 16))
          (byte_at results (1 + alignment * 4) * 2 ^ 8))
        (byte_at results (0 + alignment * 4))

  -- The loop over `pointer_index`, from `k` on for `hashes` rounds, and in each the loop over `x`.
  pub host_points : List ℕ → ℕ → ℕ → List ℕ
  unfolding ketama_hash host_name
  host_points name zero k = []
  host_points name (suc hashes) k =
      let host = host_name name k in
      ketama_hash host 0
      ∷ ketama_hash host 1
      ∷ ketama_hash host 2
      ∷ ketama_hash host 3
      ∷ host_points name hashes (k + 1)

  pub length-host_points :
      (name : List ℕ) (hashes k : ℕ) → length (host_points name hashes k) ≡ 4 * hashes
  unfolding host_points
  length-host_points name zero k = omega arith
  length-host_points name (suc hashes) k = omega (arith, length-host_points name hashes (k + 1))

  abbrev pub ketama_points : Tally → Server → List ℕ
  ketama_points t s = host_points s.name (hashes_of s.weight t.total_weight t.nlive_server) 0

  unfoldable pub ketama_update :
      (List Continuum → List Continuum) → Env → Pool → Option (Status × Pool)
  ketama_update qsort = rebuild 160 (λ t. t.nlive_server) ketama_points qsort
