-- ===== src/Core/Tests.antt =====
-- A machine whose state is the list of closed connections, for the witnesses. Connection 7 is broken,
-- and message 1 is over.
use gfwproxy.Base.{ℕ, some, ◌≡◌, refl, true, List, [], ◌∷◌, ◌==◌}
use gfwproxy.Status.{gf_ok}
use gfwproxy.Core.{Rbnode, Machine, delete_node, delete_all, core_timeout, core_core}
use gfwproxy.Core.Events.{Ended, core_core-Ended}

abbrev State : Type 0
State = List ℕ

abbrev machine : Machine State
machine = record {
  is_over = λ s m. m == 1;
  owned = λ s c. true;
  broken = λ s c. c == 7;
  set_err = λ c e s. s;
  set_events = λ c e s. s;
  soerror = λ s c. 104;
  recv = λ c s. (gf_ok, s);
  send = λ c s. (gf_ok, s);
  close = λ c s. c ∷ s;
  ended = λ c s. 4 ∷ [];
}

abbrev timer : ℕ → ℕ → Rbnode
timer m key = record { msg = m; conn = 7; key = key }

-- Message 1 is over, 2 has expired, and closing its connection takes 4 out of the tree.
abbrev tree : List Rbnode
tree = timer 1 10 ∷ timer 2 20 ∷ timer 4 60 ∷ timer 3 90 ∷ []

core_timeout_run : core_timeout machine (λ k. 50) 100 5 tree [] ≡ some (40, timer 3 90 ∷ [], 7 ∷ [])
unfolding core_timeout delete_all delete_node
core_timeout_run = refl

core_core-Ended_example : Ended machine true 7 (core_core machine 257 7 [])
core_core-Ended_example = core_core-Ended machine 257 7 [] refl
