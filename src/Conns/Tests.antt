-- ===== src/Conns/Tests.antt =====
-- Connections that are got and put back, for the witnesses.
use gfwproxy.Base.{ℕ, ◌≡◌, refl, true, none, some, [], ◌∷◌}
use gfwproxy.Msg.{Conn}
use gfwproxy.Conns.{
  Conns, Owned, no_conn, conn_init, conn_get, conn_put, take_conn, blank_conn, client_ref, blanked,
  marked,
}
use gfwproxy.Conns.Connect.{Opening, in_progress, Outcome, server_connect, server_connect-Outcome}
use gfwproxy.Conns.Sound.{Sound}
use gfwproxy.Conns.Counts.{Run, start, get, put, Run-Sound}
use gfwproxy.Conns.Refs.{client_ref-Refs}
use gfwproxy.Conns.Turns.{turns, server_conn-turns}

abbrev empty : ℕ → Conn
empty j = no_conn j true

abbrev owned : Owned
owned = record { n_conn_q = 0; conn_q = [] }

-- A client's connection 7, from an allocation.
abbrev one : Conns
one = (client_ref 0 7 (marked true true 7 (blanked 7 (conn_init empty))) owned).0

gets :
    conn_get (client_ref 0) (some 7) true true (conn_init empty) owned
    ≡ some (7, one, record { n_conn_q = 1; conn_q = 7 ∷ [] })
unfolding conn_get blank_conn take_conn client_ref conn_init
gets = refl

run : Run [] (conn_put 7 one)
unfolding conn_init
run =
    put
      (get (start empty) (client_ref 0) (client_ref-Refs 0) (some 7) true true owned 7 one
        (record { n_conn_q = 1; conn_q = 7 ∷ [] }) (λ k e. (refl, refl)) gets)
      7 refl

Run-Sound_example : Sound [] (conn_put 7 one)
Run-Sound_example = Run-Sound run

abbrev three : Owned
three = record { n_conn_q = 3; conn_q = 4 ∷ 5 ∷ 6 ∷ [] }

server_conn-turns_example : turns none none 3 true 0 3 one three ≡ some (4 ∷ 5 ∷ 6 ∷ [], three)
server_conn-turns_example = server_conn-turns none none 3 true 0 one three refl

-- The connection is being made.
abbrev opening : Opening
opening = record {
  socket = some 12;
  nonblocking = true;
  added = true;
  connect = in_progress;
  errno = 115;
}

server_connect-Outcome_example : Outcome (empty 3) (server_connect opening (empty 3))
server_connect-Outcome_example = server_connect-Outcome opening (empty 3) refl
