-- ===== src/Core.antt =====
-- The loop of src/gf_core.c: core_core, core_error, core_close and core_timeout. What a connection's own
-- functions do is the interface `Machine`; events are bits.
pub mod Events
pub mod Timeout
mod Tests
use gfwproxy.Base.{
  ℕ, zero, suc, ◌+◌, ◌-◌, ◌*◌, ◌/◌, ◌%◌, ◌^◌, ◌≤◌, ◌<◌, min, ◌≡◌, refl, sym, ap, ap₂, ◌∙◌, subst,
  ◌≢◌, ◌↔◌, ◌⊎◌, inl, inr, Bool, true, false, not, ◌&&◌, ◌||◌, Option, none, some, List, [], ◌∷◌,
  ◌++◌, map, reverse, append-nil, append_assoc, arith, ltb, leb, ◌==◌, if◌then◌else◌, ltb→lt,
  lt→ltb, leb→le, ==_iff, Bool-cases, Option-cases, length, get_elem?, set, take, drop, replicate,
  length-append, length-set, take-append-drop, length-take, length-drop, length-replicate, take_all,
  take-append, drop-append, All, get_elem?-append_left, get_elem?-append_right, get_elem?_in,
  get_elem?_out, lt_of_get_elem?, get_elem?-take, get_elem?-set, set-set, set-same, get_elem?-map,
  some_inj,
}
use gfwproxy.Status.{Status, gf_ok, gf_error, gf_eagain, gf_enomem}

-- A node of the tree of timeouts, whose data is a connection.
pub record Rbnode : Type 0 where
  pub msg : ℕ
  pub conn : ℕ
  pub key : ℕ

-- The state of the proxy without its timeouts, as far as the loop looks at it: the marks of messages
-- and connections, and the functions that a connection points to. `is_over` is `msg->error ||
-- msg->done`; `close` stands for `event_del_conn` and `conn->close`, and `ended` are the messages whose
-- timeouts it deletes; `soerror` is what `gf_get_soerror` leaves in `errno`.
pub record Machine (X : Type 0) : Type 0 where
  pub is_over : X → ℕ → Bool
  pub owned : X → ℕ → Bool
  pub broken : X → ℕ → Bool
  pub set_err : ℕ → ℕ → X → X
  pub set_events : ℕ → ℕ → X → X
  pub soerror : X → ℕ → ℕ
  pub recv : ℕ → X → Status × X
  pub send : ℕ → X → Status × X
  pub close : ℕ → X → X
  pub ended : ℕ → X → List ℕ

-- `msg_tmo_delete`: the tree without the node of a message.
unfoldable pub delete_node : ℕ → List Rbnode → List Rbnode
delete_node m [] = []
delete_node m (t ∷ ts) = let rest = delete_node m ts in if t.msg == m then rest else t ∷ rest

unfoldable pub delete_all : List ℕ → List Rbnode → List Rbnode
unfolding delete_node
delete_all [] tree = tree
delete_all (m ∷ ms) tree = delete_all ms (delete_node m tree)

abbrev pub etimedout : ℕ
etimedout = 110

-- `events & EVENT_READ`, `& EVENT_WRITE` and `& EVENT_ERR`, each of which is eight bits.
abbrev pub can_read : ℕ → Bool
can_read events = not (events % 256 == 0)

abbrev pub can_write : ℕ → Bool
can_write events = not ((events / 256) % 256 == 0)

abbrev pub in_error : ℕ → Bool
in_error events = not ((events / 65536) % 256 == 0)

-- `MIN` on two `int`, by their bits.
abbrev pub int_min : ℕ → ℕ → ℕ
int_min a b = if ltb ((a + 2 ^ 31) % 2 ^ 32) ((b + 2 ^ 31) % 2 ^ 32) then a else b

abbrev fails : Status → Bool
fails gf_ok = false
fails gf_error = true
fails gf_eagain = true
fails gf_enomem = true

module _ {X : Type 0} (x : Machine X) where
  abbrev pub core_error : ℕ → X → X
  core_error c s = x.close c (x.set_err c (x.soerror s c) s)

  -- What follows a read or a write; `go_on` is what comes next.
  abbrev pub after_io : ℕ → Status × X → (X → Status × X) → Status × X
  after_io c (status, t) go_on =
      if fails status || x.broken t c then (gf_error, x.close c t) else go_on t

  abbrev pub write_part : ℕ → ℕ → X → Status × X
  write_part events c s =
      if can_write events then after_io c (x.send c s) (λ t. (gf_ok, t)) else (gf_ok, s)

  unfoldable pub core_core : ℕ → ℕ → X → Status × X
  core_core events c s =
      if not (x.owned s c)
      then (gf_ok, s)
      else let t = x.set_events c events s in
        if in_error events
        then (gf_error, core_error c t)
        else if can_read events
        then after_io c (x.recv c t) (write_part events c)
        else write_part events c t

  -- `clock` is `gf_msec_now` in each round, which does not fail; `tree` are the timeouts in the order
  -- of the tree. The timeout of the next wait, the tree and the state are given. `none` is a loop that
  -- runs out of rounds.
  unfoldable pub core_timeout : (ℕ → ℕ) → ℕ → ℕ → List Rbnode → X → Option (ℕ × List Rbnode × X)
  unfolding delete_all delete_node
  core_timeout clock max_timeout zero tree s = none
  core_timeout clock max_timeout (suc rounds) [] s = some (max_timeout, [], s)
  core_timeout clock max_timeout (suc rounds) (t ∷ ts) s =
      let gone = delete_node t.msg (t ∷ ts) in
      let noted = x.set_err t.conn etimedout s in
      let skipped = core_timeout clock max_timeout rounds gone s in
      let closed =
        core_timeout clock max_timeout rounds (delete_all (x.ended t.conn noted) gone)
          (x.close t.conn noted) in
      if x.is_over s t.msg
      then skipped
      else if ltb (clock rounds) t.key
      then some (int_min ((t.key - clock rounds) % 2 ^ 32) max_timeout, t ∷ ts, s)
      else closed
