-- ===== src/Core/Events.antt =====
-- `core_core`: what comes of the events on one connection.
use gfwproxy.Base.{ℕ, ◌≡◌, refl, ◌⊎◌, inl, inr, Bool, true, false, ◌||◌, if◌then◌else◌, Bool-cases}
use gfwproxy.Status.{Status, gf_ok, gf_error, gf_eagain, gf_enomem}
use gfwproxy.Core.{Machine, can_read, can_write, in_error, after_io, write_part, core_core}

module _ {X : Type 0} (x : Machine X) where
  -- Either the connection is closed, as the last thing that is done, and the status says so; or it is
  -- not broken after what was done.
  abbrev pub Ended : Bool → ℕ → Status × X → Type 0
  Ended done c r =
      ((t : X) × (r ≡ (gf_error, x.close c t)))
      ⊎ ((r.0 ≡ gf_ok) × ((if done then x.broken r.1 c else false) ≡ false))

  after_io-Ended :
      (c : ℕ) (r : Status × X) (go_on : X → Status × X)
      → ((t : X) → x.broken t c ≡ false → Ended true c (go_on t))
      → Ended true c (after_io x c r go_on)
  after_io-Ended c (gf_ok, t) go_on next = elim (Bool-cases (x.broken t c)) [
    | inl e ↦ rw e (inl (t, refl))
    | inr e ↦ rw e (next t e)
  ]
  after_io-Ended c (gf_error, t) go_on next = inl (t, refl)
  after_io-Ended c (gf_eagain, t) go_on next = inl (t, refl)
  after_io-Ended c (gf_enomem, t) go_on next = inl (t, refl)

  written : (events c : ℕ) (t : X) → x.broken t c ≡ false → Ended true c (write_part x events c t)
  written events c t whole = elim (Bool-cases (can_write events)) [
    | inl e ↦ rw e (after_io-Ended c (x.send c t) (λ u. (gf_ok, u)) (λ u w. inr (refl, w)))
    | inr e ↦ rw e (inr (refl, whole))
  ]

  -- On a connection that has an owner, `core_core` either ends with closing it, and says GF_ERROR, or
  -- says GF_OK; then, if the events ask for a read or a write, the connection is neither done nor has it
  -- an error.
  pub core_core-Ended :
      (events c : ℕ) (s : X)
      → x.owned s c ≡ true
      → Ended (can_read events || can_write events) c (core_core x events c s)
  unfolding core_core
  core_core-Ended events c s has_owner =
      let t = x.set_events c events s in
      elim (Bool-cases (in_error events)) [
        | inl e ↦ rw (has_owner, e, core_core) (inl (x.set_err c (x.soerror t c) t, refl))
        | inr e ↦ elim (Bool-cases (can_read events)) [
          | inl r ↦
              rw (has_owner, e, r, core_core)
                (after_io-Ended c (x.recv c t) (write_part x events c)
                  (λ u w. written events c u w))
          | inr r ↦ elim (Bool-cases (can_write events)) [
            | inl w ↦
                rw (has_owner, e, r, w, core_core)
                  (after_io-Ended c (x.send c t) (λ u. (gf_ok, u)) (λ u k. inr (refl, k)))
            | inr w ↦ rw (has_owner, e, r, w, core_core) (inr (refl, refl))
          ]
        ]
      ]
