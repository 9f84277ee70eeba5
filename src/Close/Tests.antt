-- ===== src/Close/Tests.antt =====
-- Connections with requests that are closed, for the witnesses: of the requests 1, 2 and 3, the first
-- is done, and nobody wants an answer to the third.
use gfwproxy.Base.{ℕ, ◌≡◌, refl, true, none, some, [], ◌∷◌, ◌==◌, All}
use gfwproxy.Mbuf.{mbuf_init}
use gfwproxy.Msg.{mem, Msg, World, Conn, no_msg}
use gfwproxy.Conns.{Conns, Owned, no_conn}
use gfwproxy.Close.{client_close}
use gfwproxy.Close.Client.{Dropped, client_close-requests}

abbrev message : ℕ → Msg
message j = record no_msg { done = j == 1; noreply = j == 3 }

abbrev world : World
world = record { msg = message; tmo_rbt = 2 ∷ []; free_msgq = []; bufs = mbuf_init 48 512 }

abbrev client : Conn
client = record (no_conn 5 true) { client = true; sd = some 9; omsg_q = 1 ∷ 2 ∷ [] }

abbrev owned : Owned
owned = record { n_conn_q = 1; conn_q = 5 ∷ [] }

abbrev clients : Conns
clients = record {
  conn = λ j. client;
  free_connq = [];
  nfree_connq = 0;
  ntotal_conn = 1;
  ncurr_conn = 1;
  ncurr_cconn = 1;
}

client_close-requests_example :
    All (Dropped world (client_close 5 world clients owned).0) (1 ∷ 2 ∷ [])
    × (((client_close 5 world clients owned).1.conn 5).omsg_q ≡ [])
    × (((client_close 5 world clients owned).1.conn 5).rmsg ≡ none)
    × (mem 5 (client_close 5 world clients owned).1.free_connq ≡ true)
client_close-requests_example = client_close-requests 5 9 world clients owned refl
