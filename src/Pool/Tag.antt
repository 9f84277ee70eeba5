-- ===== src/Pool/Tag.antt =====
-- Keys with the same hash tag go to the same server.
use gfwproxy.Base.{
  ℕ, suc, ◌+◌, ◌≡◌, refl, ◌≢◌, none, List, [], ◌∷◌, ◌++◌, arith, lt→ltb, length, drop, take-append,
}
use gfwproxy.Text.{strchr}
use gfwproxy.Text.Find.{strchr-append}
use gfwproxy.Server.{Pool}
use gfwproxy.Pool.{tagged_key, server_pool_idx}

-- Between `a`, which does not hold the opening byte, and the closing byte stands the tag.
abbrev pub tagged : ℕ → ℕ → List ℕ → List ℕ → List ℕ → List ℕ
tagged open_tag close_tag a tag b = a ++ (open_tag ∷ (tag ++ (close_tag ∷ b)))

drop-suc_append : (a b : List ℕ) (c : ℕ) → drop (length a + 1) (a ++ (c ∷ b)) ≡ b
drop-suc_append [] b c = refl
drop-suc_append (x ∷ a) b c =
    let e : suc (length a) + 1 ≡ suc (length a + 1) = omega arith in rw e (drop-suc_append a b c)

tagged_key_lem :
    (open_tag close_tag : ℕ) (a tag b : List ℕ)
    → strchr a open_tag ≡ none
    → strchr tag close_tag ≡ none
    → tag ≢ []
    → tagged_key (open_tag ∷ close_tag ∷ []) (tagged open_tag close_tag a tag b) ≡ tag
unfolding tagged_key
tagged_key_lem open_tag close_tag a [] b fa ft ne = absurd (ne refl)
tagged_key_lem open_tag close_tag a (t ∷ tag) b fa ft ne =
    rw
      (
        strchr-append a ((t ∷ tag) ++ (close_tag ∷ b)) open_tag fa,
        drop-suc_append a ((t ∷ tag) ++ (close_tag ∷ b)) open_tag,
        tagged_key,
      )
      (rw (strchr-append (t ∷ tag) b close_tag ft, tagged_key)
        (rw
          (
            lt→ltb 1 (length (t ∷ tag) + 1) (omega arith),
            drop-suc_append a ((t ∷ tag) ++ (close_tag ∷ b)) open_tag,
          )
          (take-append (t ∷ tag) (close_tag ∷ b))))

-- In a pool whose hash tag has two bytes, two keys that hold the same text between these bytes
-- are served by the same server, whatever stands before and behind it, if the text is not empty,
-- the opening byte does not occur before it and the closing byte not in it; and, where the
-- distribution is the random one, if `random` draws the same number for both.
pub server_pool_idx-tag :
    (draw : ℕ) (p : Pool) {open_tag close_tag : ℕ} (a a' tag b b' : List ℕ)
    → p.hash_tag ≡ open_tag ∷ close_tag ∷ []
    → strchr a open_tag ≡ none
    → strchr a' open_tag ≡ none
    → strchr tag close_tag ≡ none
    → tag ≢ []
    → server_pool_idx draw p (tagged open_tag close_tag a tag b)
      ≡ server_pool_idx draw p (tagged open_tag close_tag a' tag b')
unfolding server_pool_idx
server_pool_idx-tag draw p {open_tag} {close_tag} a a' tag b b' e fa fa' ft ne = cc (
  tagged_key_lem open_tag close_tag a tag b fa ft ne,
  tagged_key_lem open_tag close_tag a' tag b' fa' ft ne,
)
