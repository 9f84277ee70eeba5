-- ===== src/Dist/Sweep.antt =====
-- What the counting pass over the servers computes.
use gfwproxy.Base.{
  ℕ, ◌+◌, ◌%◌, ◌^◌, ◌≤◌, ◌<◌, ◌≡◌, refl, ap₂, Bool, false, not, ◌&&◌, ◌||◌, List, [], ◌∷◌, map,
  arith, leb, if◌then◌else◌, All,
}
use gfwproxy.Server.{Server}
use gfwproxy.Dist.{Tally, sweep, count_live, count_weight}

-- A server takes part in the distribution if hosts are never ejected or its retry time has come.
abbrev pub is_live : Bool → ℕ → Server → Bool
is_live auto_eject now s = not auto_eject || leb s.next_retry now

abbrev pub revive : Bool → ℕ → Server → Server
revive auto_eject now s =
    if auto_eject && leb s.next_retry now then record s { next_retry = 0 } else s

pub is_live-revive :
    (auto_eject : Bool) (now : ℕ) (s : Server)
    → is_live auto_eject now (revive auto_eject now s) ≡ is_live auto_eject now s
is_live-revive auto_eject now s = ground arith

-- The sum of `f` over the live servers.
abbrev pub live_total : (Server → ℕ) → Bool → ℕ → List Server → ℕ
live_total f auto_eject now [] = 0
live_total f auto_eject now (s ∷ ss) =
    (if is_live auto_eject now s then f s else 0) + live_total f auto_eject now ss

abbrev pub live_count : Bool → ℕ → List Server → ℕ
live_count = live_total (λ s. 1)

abbrev pub live_weight : Bool → ℕ → List Server → ℕ
live_weight = live_total (λ s. s.weight)

module _ (auto_eject : Bool) (now : ℕ) where
  abbrev step : Server → Tally → Tally
  step s t =
      count_weight auto_eject now (count_live auto_eject now s t).0
        (count_live auto_eject now s t).1

  count_live-revive :
      (s : Server) (t : Tally) → (count_live auto_eject now s t).0 ≡ revive auto_eject now s
  unfolding count_live
  count_live-revive s t = ground arith

  -- The pass keeps the servers, but that it clears the retry time of those that are live again.
  pub sweep-revive :
      (ss : List Server) (t : Tally)
      → (sweep auto_eject now ss t).0 ≡ map (revive auto_eject now) ss
  unfolding sweep
  sweep-revive [] t = refl
  sweep-revive (s ∷ ss) t = ap₂ ◌∷◌ (count_live-revive s t) (sweep-revive ss (step s t))

  step-nlive :
      (s : Server) (t : Tally)
      → (step s t).nlive_server ≡ t.nlive_server + (if is_live auto_eject now s then 1 else 0)
  unfolding count_live count_weight
  step-nlive s t = ground arith

  pub sweep-nlive :
      (ss : List Server) (t : Tally)
      → (sweep auto_eject now ss t).1.nlive_server ≡ t.nlive_server + live_count auto_eject now ss
  unfolding sweep
  sweep-nlive [] t = omega arith
  sweep-nlive (s ∷ ss) t = omega (arith, sweep-nlive ss (step s t), step-nlive s t)

  step-weight :
      (s : Server) (t : Tally)
      → t.total_weight < 2 ^ 32
      → (step s t).total_weight
        ≡ (t.total_weight + (if is_live auto_eject now s then s.weight else 0)) % 2 ^ 32
  unfolding count_live count_weight
  step-weight s t h = ground arith

  pub sweep-weight :
      (ss : List Server) (t : Tally)
      → t.total_weight < 2 ^ 32
      → (sweep auto_eject now ss t).1.total_weight
        ≡ (t.total_weight + live_weight auto_eject now ss) % 2 ^ 32
  unfolding sweep
  sweep-weight [] t h = omega arith
  sweep-weight (s ∷ ss) t h =
      omega
        (arith, sweep-weight ss (step s t) (omega (arith, step-weight s t h)), step-weight s t h)

  -- `r` is a time at which no ejected server of the list is due before.
  abbrev pub Due : ℕ → Server → Type 0
  Due r s = is_live auto_eject now s ≡ false → (0 < r) × (r ≤ s.next_retry)

  step-rebuild :
      (s : Server) (t : Tally)
      → Due (step s t).next_rebuild s
        × (0 < t.next_rebuild
            → (0 < (step s t).next_rebuild) × ((step s t).next_rebuild ≤ t.next_rebuild))
  unfolding count_live count_weight
  step-rebuild s t = ((λ h. ground arith), (λ h. ground arith))

  sweep-rebuild :
      (ss : List Server) (t : Tally)
      → (0 < t.next_rebuild
          → (0 < (sweep auto_eject now ss t).1.next_rebuild)
            × ((sweep auto_eject now ss t).1.next_rebuild ≤ t.next_rebuild))
        × All (Due (sweep auto_eject now ss t).1.next_rebuild) ss
  unfolding sweep
  sweep-rebuild [] t = ((λ h. (h, omega arith)), tt)
  sweep-rebuild (s ∷ ss) t =
      let ih = sweep-rebuild ss (step s t) in
      let st = step-rebuild s t in
      (
        (λ h. ((ih.0 (st.1 h).0).0, omega (arith, (ih.0 (st.1 h).0).1, (st.1 h).1))),
        ((λ d. ((ih.0 (st.0 d).0).0, omega (arith, (ih.0 (st.0 d).0).1, (st.0 d).1))), ih.1),
      )
