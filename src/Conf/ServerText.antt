-- ===== src/Conf/ServerText.antt =====
-- What `conf_add_server` of src/gf_conf.c reads back.
use gfwproxy.Base.{
  ℕ, ◌+◌, ◌-◌, ◌^◌, ◌<◌, ◌≡◌, refl, ap, ◌∙◌, inl, inr, true, false, Option, none, some, List, [],
  ◌∷◌, ◌++◌, append-nil, append_assoc, arith, ltb, ◌==◌, if◌then◌else◌, lt→ltb, Bool-cases, length,
  take, length-append, take_all, take-append,
}
use gfwproxy.Text.{safe_utoa, valid_port}
use gfwproxy.Text.Number.{atoi-safe_utoa, valid_port_lt}
use gfwproxy.Text.Last.{Without, Without-append, Without-safe_utoa}
use gfwproxy.Conf.{ConfPool, ConfServer, Result, ok}
use gfwproxy.Conf.Set.{is_path}
use gfwproxy.Conf.AddServer.{
  split_loop, delim, default_port, name_length, default_name, or_default, fill_server, parse_server,
  append_server, conf_add_server,
}
use gfwproxy.Conf.Split.{split_loop_hit, split_loop_miss, address, parts, split_loop-address}

abbrev pub suffix : Option (List ℕ) → List ℕ
suffix none = []
suffix (some name) = b' ' ∷ name

-- "host:port:weight" or "host:port:weight name", with the numbers in decimal.
abbrev pub server_text : List ℕ → ℕ → ℕ → Option (List ℕ) → List ℕ
server_text host port weight name =
    address host (safe_utoa 10 port) (safe_utoa 10 weight) ++ suffix name

-- Without a name, the host has no space; a name has none and is not empty.
abbrev pub Clear : List ℕ → Option (List ℕ) → Type 0
Clear host none = Without b' ' host
Clear host (some name) = Without b' ' name × (0 < length name)

-- "host", or "host:port" but for the default port.
abbrev pub plain_name : List ℕ → ℕ → List ℕ
plain_name host port = if port == default_port then host else host ++ b':' ∷ safe_utoa 10 port

abbrev pub server_of : List ℕ → ℕ → ℕ → Option (List ℕ) → ConfServer
server_of host port weight name = record {
  pname = address host (safe_utoa 10 port) (safe_utoa 10 weight);
  name = or_default name (plain_name host port);
  addrstr = host;
  port = port;
  weight = weight;
  valid = true;
}

is_path-append :
    (host port rest : List ℕ)
    → is_path host ≡ false
    → is_path ((host ++ b':' ∷ port) ++ rest) ≡ false
is_path-append [] port rest h = refl
is_path-append (c ∷ host) port rest h = h

module _ (host : List ℕ) (port weight : ℕ) (name : Option (List ℕ)) (no_nul : Without 0 host)
    (clear : Clear host name) where
  abbrev p_text : List ℕ
  p_text = safe_utoa 10 port

  abbrev w_text : List ℕ
  w_text = safe_utoa 10 weight

  split_loop_rest :
      split_loop
        (b':' ∷ b':' ∷ 0 ∷ [])
        1
        (server_text host port weight name)
        (record { left = length (address host p_text w_text); name = name; weight = []; port = [] })
      ≡ some (3, record { left = length host; name = name; weight = w_text; port = p_text })
  split_loop_rest =
      split_loop-address host p_text w_text (suffix name) no_nul (Without-safe_utoa b':' port refl)
        (Without-safe_utoa b':' weight refl) name

split_loop_text :
    (host : List ℕ) (port weight : ℕ) (name : Option (List ℕ))
    → Without 0 host
    → Clear host name
    → split_loop delim 0 (server_text host port weight name) (record {
      left = length (server_text host port weight name);
      name = none;
      weight = [];
      port = [];
    })
      ≡ some (
        3,
        record {
          left = length host;
          name = name;
          weight = safe_utoa 10 weight;
          port = safe_utoa 10 port;
        },
      )
split_loop_text host port weight none no_nul clear =
    let a = address host (safe_utoa 10 port) (safe_utoa 10 weight) in
    let no_space : Without b' ' a =
      Without-append b' ' (host ++ b':' ∷ safe_utoa 10 port) _
        (Without-append b' ' host _ clear (omega arith, Without-safe_utoa b' ' port refl))
        (omega arith, Without-safe_utoa b' ' weight refl) in
    split_loop_miss a (a ++ []) _ b' ' 0 _ no_space
      (rw append-nil (take_all (length a) a (omega arith)))
    ∙ ap
        (λ n.
          split_loop (b':' ∷ b':' ∷ 0 ∷ []) 1 (a ++ [])
            (record { left = n; name = none; weight = []; port = [] }))
        (ap length (append-nil a))
    ∙ split_loop_rest host port weight none no_nul clear
split_loop_text host port weight (some name) no_nul (no_space, some_byte) =
    let a = address host (safe_utoa 10 port) (safe_utoa 10 weight) in
    split_loop_hit a name _ _ b' ' 0 _ no_space (take_all _ _ (omega arith))
    ∙ split_loop_rest host port weight (some name) no_nul (no_space, some_byte)

pname_of :
    (a : List ℕ) (name : Option (List ℕ)) (host : List ℕ)
    → Clear host name
    → (if ltb 0 (name_length name)
        then take (length (a ++ suffix name) - (name_length name + 1)) (a ++ suffix name)
        else a ++ suffix name)
      ≡ a
pname_of a none host clear = append-nil a
pname_of a (some name) host (no_space, some_byte) =
    let shorter : length (a ++ b' ' ∷ name) - (length name + 1) ≡ length a =
      omega (arith, length-append a (b' ' ∷ name)) in
    rw (lt→ltb 0 (length name) some_byte, shorter) (take-append a (b' ' ∷ name))

-- The host, and the host with the port, at the front of the text.
module _ (host port rest : List ℕ) where
  take_host : take (length host) (((host ++ b':' ∷ port) ++ b':' ∷ rest)) ≡ host
  take_host =
      ap (take (length host)) (append_assoc host (b':' ∷ port) (b':' ∷ rest)) ∙ take-append host _

  take_host_port :
      take (length host + 1 + length port) ((host ++ b':' ∷ port) ++ b':' ∷ rest)
      ≡ host ++ b':' ∷ port
  take_host_port =
      let e : length host + 1 + length port ≡ length (host ++ b':' ∷ port) =
        omega (arith, length-append host (b':' ∷ port)) in
      rw e (take-append (host ++ b':' ∷ port) _)

default_name_lem :
    (host port rest : List ℕ) (n : ℕ) (name : Option (List ℕ)) (w : List ℕ)
    → default_name
        ((host ++ b':' ∷ port) ++ b':' ∷ rest)
        n
        (record { left = length host; name = name; weight = w; port = port })
      ≡ (if n == default_port then host else host ++ b':' ∷ port)
unfolding default_name
default_name_lem host port rest n name w = elim (Bool-cases (n == default_port)) [
  | inl e ↦ rw e (take_host host port rest)
  | inr e ↦ rw e (take_host_port host port rest)
]

-- The server from its parts.
fill_server-server_text :
    (host : List ℕ) (port weight : ℕ) (name : Option (List ℕ))
    → is_path host ≡ false
    → Clear host name
    → valid_port port ≡ true
    → 0 < weight
    → weight < 2 ^ 31
    → fill_server
        (server_text host port weight name)
        (some (3, parts host (safe_utoa 10 port) (safe_utoa 10 weight) name))
      ≡ ok (server_of host port weight name)
fill_server-server_text host port weight name no_path clear good_port positive int =
    let v = server_text host port weight name in
    let hp = host ++ b':' ∷ safe_utoa 10 port in
    let w = safe_utoa 10 weight in
    let s = parts host (safe_utoa 10 port) w name in
    let spread : v ≡ hp ++ b':' ∷ (w ++ suffix name) = append_assoc hp (b':' ∷ w) (suffix name) in
    let not_path : is_path v ≡ false =
      ap is_path spread
      ∙ is_path-append host (safe_utoa 10 port) (b':' ∷ (w ++ suffix name)) no_path in
    let small = valid_port_lt port good_port in
    let read_weight = atoi-safe_utoa weight int in
    let read_port = atoi-safe_utoa port (omega arith) in
    let some_weight : (weight == 0) ≡ false = ground arith in
    let host_read : take (length host) v ≡ host =
      ap (take (length host)) spread ∙ take_host host (safe_utoa 10 port) _ in
    let name_read : default_name v port s ≡ plain_name host port =
      ap (λ t. default_name t port s) spread
      ∙ default_name_lem host (safe_utoa 10 port) (w ++ suffix name) port name w in
    let made : List ℕ → List ℕ → List ℕ → Result ConfServer = λ pname default host'. ok (record {
      pname = pname;
      name = or_default name default;
      addrstr = host';
      port = port;
      weight = weight;
      valid = true;
    }) in
    rw (not_path, read_weight, some_weight, not_path, read_port, good_port)
      (ap (λ t. made t (default_name v port s) (take (length host) v))
          (pname_of (address host (safe_utoa 10 port) w) name host clear)
        ∙ ap (λ t. made (address host (safe_utoa 10 port) w) t (take (length host) v)) name_read
        ∙ ap (made (address host (safe_utoa 10 port) w) (plain_name host port)) host_read)

-- `conf_add_server` reads back every text "host:port:weight" or "host:port:weight name" whose port
-- is valid, whose weight is a positive `int`, whose host is no path and holds no NUL, and whose
-- name, if any, is not empty and has no space (without a name, the host has none): the server that
-- it adds has just these parts. The host may hold colons. By default the name is the host, with
-- the port unless this is 11211.
pub conf_add_server-server_text :
    (cp : ConfPool) (host : List ℕ) (port weight : ℕ) (name : Option (List ℕ))
    → is_path host ≡ false
    → Without 0 host
    → Clear host name
    → valid_port port ≡ true
    → 0 < weight
    → weight < 2 ^ 31
    → conf_add_server (server_text host port weight name) cp
      ≡ ok (record cp { server = cp.server ++ server_of host port weight name ∷ [] })
unfolding conf_add_server parse_server
conf_add_server-server_text cp host port weight name no_path no_nul clear good_port positive int =
    ap (append_server cp) (
      ap (fill_server (server_text host port weight name))
        (split_loop_text host port weight name no_nul clear)
      ∙ fill_server-server_text host port weight name no_path clear good_port positive int)
