-- ===== src/Conf/Split.antt =====
-- The loop of `conf_add_server` in src/gf_conf.c splits a text into its parts.
use gfwproxy.Base.{
  ℕ, suc, ◌+◌, ◌≡◌, refl, ap, ◌∙◌, Option, some, List, [], ◌∷◌, ◌++◌, append_assoc, arith, ◌==◌,
  if◌then◌else◌, length, take, drop, take-append,
}
use gfwproxy.Text.{strrchr}
use gfwproxy.Text.Last.{Without, strrchr-none, strrchr_last}
use gfwproxy.Conf.AddServer.{Parts, store_part, after_search, split_loop}

drop_behind :
    (before after : List ℕ) (c : ℕ) → drop (length before + 1) (before ++ c ∷ after) ≡ after
drop_behind [] after c = refl
drop_behind (b ∷ before) after c =
    let e : suc (length before) + 1 ≡ suc (length before + 1) = omega arith in
    ap (λ n. drop n (b ∷ (before ++ c ∷ after))) e ∙ drop_behind before after c

-- A round that finds its delimiter.
pub split_loop_hit :
    (before after value more : List ℕ) (c k : ℕ) (s : Parts)
    → Without c after
    → take s.left value ≡ before ++ c ∷ after
    → split_loop (c ∷ more) k value s
      ≡ split_loop more (k + 1) value (store_part k (length before) after s)
unfolding split_loop
split_loop_hit before after value more c k s w h =
    let next_round = split_loop more (k + 1) value in
    ap (λ t. after_search next_round k t s (strrchr t c)) h
    ∙ ap (after_search next_round k (before ++ c ∷ after) s) (strrchr_last before after c w)
    ∙ ap (λ part. next_round (store_part k (length before) part s)) (drop_behind before after c)

-- A round that finds none.
pub split_loop_miss :
    (text value more : List ℕ) (c k : ℕ) (s : Parts)
    → Without c text
    → take s.left value ≡ text
    → split_loop (c ∷ more) k value s
      ≡ (if k == 0 then split_loop more (k + 1) value s else some (k, s))
unfolding split_loop
split_loop_miss text value more c k s w h =
    let next_round = split_loop more (k + 1) value in
    ap (λ t. after_search next_round k t s (strrchr t c)) h
    ∙ ap (after_search next_round k text s) (strrchr-none text c w)

-- "host:port:weight"
abbrev pub address : List ℕ → List ℕ → List ℕ → List ℕ
address host port weight = (host ++ b':' ∷ port) ++ b':' ∷ weight

abbrev pub parts : List ℕ → List ℕ → List ℕ → Option (List ℕ) → Parts
parts host port weight name = record {
  left = length host;
  name = name;
  weight = weight;
  port = port;
}

module _ (host port weight tail : List ℕ) (no_nul : Without 0 host) (in_port : Without b':' port)
    (in_weight : Without b':' weight) where
  abbrev text : List ℕ
  text = address host port weight ++ tail

  -- The last three rounds.
  pub split_loop-address :
      (name : Option (List ℕ))
      → split_loop
          (b':' ∷ b':' ∷ 0 ∷ [])
          1
          text
          (record { left = length (address host port weight); name = name; weight = []; port = [] })
        ≡ some (3, parts host port weight name)
  split_loop-address name =
      let hp = host ++ b':' ∷ port in
      let rest = (b':' ∷ weight) ++ tail in
      let hp_text : text ≡ hp ++ rest = append_assoc hp (b':' ∷ weight) tail in
      let h_text : text ≡ host ++ ((b':' ∷ port) ++ rest) =
        hp_text ∙ append_assoc host (b':' ∷ port) rest in
      split_loop_hit hp weight text _ b':' 1 _ in_weight
        (take-append (address host port weight) tail)
      ∙ split_loop_hit host port text _ b':' 2 _ in_port
          (ap (take (length hp)) hp_text ∙ take-append hp _)
      ∙ split_loop_miss host text _ 0 3 _ no_nul
          (ap (take (length host)) h_text ∙ take-append host _)
