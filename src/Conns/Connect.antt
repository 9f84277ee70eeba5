-- ===== src/Conns/Connect.antt =====
-- `server_connect` of src/gf_server.c, with `event_add_conn` of src/event/gf_epoll.c.
use gfwproxy.Base.{
  ℕ, ◌≡◌, refl, ◌⊎◌, inl, inr, Bool, true, false, not, ◌||◌, Option, none, some, ltb, ◌==◌,
  if◌then◌else◌, Bool-cases, Option-cases,
}
use gfwproxy.Status.{Status, gf_ok, gf_error}
use gfwproxy.Msg.{Conn}

-- What `connect` gives; EINPROGRESS is an error that the code does not count as one.
pub data Connecting : Type 0 where
  connects in_progress refused : Connecting

-- The answers of the system: the descriptor of `socket`, if it gives one; whether
-- `gf_set_nonblocking` and `epoll_ctl` succeed; `connect`; and `errno` where a call fails.
pub record Opening : Type 0 where
  pub socket : Option ℕ
  pub nonblocking : Bool
  pub added : Bool
  pub connect : Connecting
  pub errno : ℕ

-- A descriptor above 0.
abbrev above : Option ℕ → Bool
above none = false
above (some n) = ltb 0 n

abbrev event_add_conn : Conn → Conn
event_add_conn c = record c { send_active = true; recv_active = true }

-- From the new descriptor on.
abbrev open_conn : Opening → Conn → Status × Conn
open_conn o c =
    if not o.nonblocking || not o.added
    then (gf_error, record c { err = o.errno })
    else elim o.connect [
      | connects ↦ (gf_ok, record (event_add_conn c) { connected = true })
      | in_progress ↦ (gf_ok, record (event_add_conn c) { connecting = true })
      | refused ↦ (gf_error, record (event_add_conn c) { err = o.errno })
    ]

unfoldable pub server_connect : Opening → Conn → Status × Conn
server_connect o c =
    if not (c.err == 0) then (gf_error, c) else if above c.sd then (gf_ok, c) else elim o.socket [
      | none ↦ (gf_error, record c { sd = none; err = o.errno })
      | some n ↦ open_conn o (record c { sd = some n })
    ]

-- Either there is an error, and the connection has its number; or the connection has no error number,
-- and was open before, or stands or is being made, with both events added.
abbrev pub Outcome : Conn → Status × Conn → Type 0
Outcome c r =
    ((r.0 ≡ gf_error) × ((r.1.err == 0) ≡ false))
    ⊎ ((r.0 ≡ gf_ok)
        × ((r.1.err == 0) ≡ true)
        × ((r.1 ≡ c)
            ⊎ ((r.1.send_active ≡ true)
                × (r.1.recv_active ≡ true)
                × ((r.1.connected || r.1.connecting) ≡ true))))

connect-cases : (k : Connecting) → (k ≡ connects) ⊎ ((k ≡ in_progress) ⊎ (k ≡ refused))
connect-cases connects = inl refl
connect-cases in_progress = inr (inl refl)
connect-cases refused = inr (inr refl)

or_true : (b : Bool) → (b || true) ≡ true
or_true true = refl
or_true false = refl

open_conn-Outcome :
    (o : Opening) (c d : Conn)
    → (d.err == 0) ≡ true
    → (o.errno == 0) ≡ false
    → Outcome c (open_conn o d)
open_conn-Outcome o c d clear e = elim (Bool-cases (not o.nonblocking || not o.added)) [
  | inl bad ↦ rw bad (inl (refl, e))
  | inr fine ↦ elim (connect-cases o.connect) [
    | inl k ↦ rw (fine, k) (inr (refl, clear, inr (refl, refl, refl)))
    | inr (inl k) ↦ rw (fine, k) (inr (refl, clear, inr (refl, refl, or_true d.connected)))
    | inr (inr k) ↦ rw (fine, k) (inl (refl, e))
  ]
]

-- If `errno` is not 0 where a call fails, `server_connect` gives an error exactly if the connection has an
-- error number afterwards; without one, the connection was open before and is the same, or it stands or
-- is being made, with both events added.
pub server_connect-Outcome :
    (o : Opening) (c : Conn) → (o.errno == 0) ≡ false → Outcome c (server_connect o c)
unfolding server_connect
server_connect-Outcome o c e = elim (Bool-cases (c.err == 0)) [
  | inr had ↦ rw had (inl (refl, had))
  | inl clear ↦ elim (Bool-cases (above c.sd)) [
    | inl was_open ↦ rw (clear, was_open) (inr (refl, clear, inl refl))
    | inr shut ↦ elim (Option-cases o.socket) [
      | inl k ↦ rw (clear, shut, k) (inl (refl, e))
      | inr (n, k) ↦ rw (clear, shut, k) (open_conn-Outcome o c (record c { sd = some n }) clear e)
    ]
  ]
]
