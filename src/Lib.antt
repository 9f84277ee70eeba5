-- ===== src/Lib.antt =====
-- A model of gfwproxy, a proxy between clients and pools of key-value servers, and theorems on it.
--
-- The program. A client's request is read into a message (src/gf_message.c), queued at the client
-- and at a server's connection, sent, and answered in the order of the client's queue
-- (src/gf_request.c, src/gf_response.c). The server is chosen by a hash of the key
-- (src/hashkit/gf_*.c) and a distribution over the live servers of the pool (src/gf_server.c,
-- src/hashkit/gf_ketama.c, gf_modula.c, gf_random.c). A server that fails too often is ejected, and
-- comes back after a time. The pools come from a configuration file (src/gf_conf.c).
--
-- The files.
--   Base, Status: lists and tests on native numbers, exclusive or; the status codes.
--   Array: the arrays of src/gf_array.c, with Array/Stack and Array/Each.
--   Text: strchr, strrchr, atoi, safe_utoa and string_compare of src/gf_string.c, gf_string.h and
--     gf_util.c, with Text/Number, Order, Find and Last.
--   Server: `struct continuum`, `struct server` and `struct server_pool` of src/gf_server.h.
--   Dist: what ketama_update, modula_update and random_update share. `rebuild` is the frame of the
--     three; `sweep` the pass that counts the live servers, `reserve` the growth of the continuum,
--     `fill` the pass that writes the points. Dist/Sweep, Reserve, Fill and Rebuild prove what they
--     do; Dist/Ketama (with Update, and Share for the `float` arithmetic), Ring, Modula and Random hold the distributions. The
--     continuum is the list of all allocated cells, and a write or a read outside it gives `none`.
--   Hash: the hash functions, with Hash/Crc16/Bitwise and Crc32/Bitwise. The exclusive or is the
--     native one.
--   Pool: server_pool_idx, server_failure, server_ok, server_pool_update and server_pool_run of
--     src/gf_server.c, with Pool/Tag, Eject and Recover.
--   Msg: messages, connections and queues. A pointer to a message is a number, NULL is `none`, and
--     `World` is the store. Msg/Done: req_done and req_error; Msg/Send: req_send_next and
--     req_send_done; Msg/Reply: rsp_make_error, rsp_send_next, rsp_send_done and the two functions
--     that give the message to read into; Msg/Forward: rsp_filter, rsp_forward, rsp_recv_done,
--     req_forward_error; Msg/Accept: req_filter and req_make_reply.
--     Msg/Fields and Msg/Fresh say what putting away and getting a message leave alone. The use of
--     a NULL pointer gives `none`.
--   Mbuf: the buffers of src/gf_mbuf.c and gf_mbuf.h; Mbuf/Chain has the bytes of a queue of them.
--   Stream: conn_recv and conn_sendv of src/gf_connection.c, and what src/gf_message.c does with
--     buffers: msg_append, msg_prepend and msg_prepend_format; Stream/Recv has msg_parsed,
--     msg_repair, msg_parse, msg_recv_chain and msg_recv, Stream/Send has msg_send_chain and
--     msg_send. Gather, Settle, Pending and Sent follow the bytes on their way out, ToServer is the
--     case of a connection to a server, Parse is about msg_parsed and Edge about readiness.
--   Conns: the pool of connections (src/gf_connection.c), and the owners' queues (server_ref,
--     server_unref, server_conn, client_ref, proxy_ref); Sound, Counts and Refs are about the
--     counters, Turns about server_conn; Connect has server_connect.
--   Close: client_close (src/gf_client.c), proxy_close (src/gf_proxy.c) and server_close
--     (src/gf_server.c), with Close/Client.
--   Conf: the configuration (src/gf_conf.c). libyaml's events are those of a tree (Conf/Yaml);
--     Conf/Structure has conf_validate_structure, Conf/Validate the other checks and conf_create,
--     Conf/Set, Field and AddServer the setters, Conf/Parse the parser from conf_begin_parse to
--     conf_end_parse, Conf/Transform the way to the pools of the proxy. Conf/Shape and Conf/Read
--     describe a configuration as a tree and what is read out of it; Conf/Turns, Parsed, Split and
--     ServerText follow the parser and a server's text; Valid, Ready, Fit, FitText and FitParse are
--     about what is accepted, Once about repeated directives, Create about the whole.
--   Stats: the counters of src/gf_stats.c, from stats_create to stats_swap and stats_aggregate,
--     with Stats/Slots, Run and Once; a run is a list of steps of the two threads.
--   Core: core_core and core_timeout of src/gf_core.c over the interface `Machine`, which stands
--     for what a connection's functions do; with Core/Events and Core/Timeout.
--
-- Bounds and fuel. The unsigned counters wrap at 2^32. `ketama_search` gets one round more than
-- there are points, and the range shrinks in each round; `utoa_loop` gets 64 rounds, enough for
-- the digits of 64 bits. The loops of `msg_send_chain` and `msg_recv_chain` over messages get
-- rounds; to send, one round for each request in the queue is enough. `core_timeout` gets one round
-- more than there are nodes in the tree. The system's answers to the calls of one loop are a list.
-- The other loops are recursion on lists or counts.
--
-- Parameters. MD5, `qsort` and the answers of the system are arguments. The `Sorts` of Dist and of
-- Conf state what is relied on for `qsort`. The pointers to functions that messages and connections
-- carry (failure, pre_coalesce, post_coalesce, swallow_msg) are optional arguments: this source
-- leaves them NULL, and their call is then `none` in req_done, rsp_send_next, rsp_filter, rsp_forward
-- and server_close.
--
-- The share of a server in the ketama ring is computed as the code does, in `float` and `double`,
-- rounded to the nearest; it is stated for a total weight above 0.
--
-- Of the configuration, libyaml's answers, `getaddrinfo` and `strtol` are arguments; memory is
-- always there, and texts hold no NUL.
--
-- Not modelled: the keys of requests and the parsers, the report of the statistics, logging, the
-- files, the listening sockets, the waiting for events, and the tree of timeouts (a list here).
pub mod Base
pub mod Status
pub mod Array
pub mod Text
pub mod Server
pub mod Dist
pub mod Hash
pub mod Pool
pub mod Mbuf
pub mod Msg
pub mod Stream
pub mod Conns
pub mod Close
pub mod Conf
pub mod Stats
pub mod Core
