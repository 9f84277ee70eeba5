-- ===== src/Conf/AddServer.antt =====
-- `conf_add_server` of src/gf_conf.c.
use gfwproxy.Base.{
  ℕ, ◌+◌, ◌-◌, true, Option, none, some, List, [], ◌∷◌, ◌++◌, ltb, ◌==◌, if◌then◌else◌, length,
  take, drop,
}
use gfwproxy.Text.{atoi, valid_port, strrchr}
use gfwproxy.Conf.{
  ConfPool, ConfServer, conf_server_init, Result, ok, fault, has_invalid_server, has_invalid_weight,
  has_zero_weight, has_invalid_port,
}
use gfwproxy.Conf.Set.{is_path}

-- The locals of the function: `left` is `p - start + 1`, the bytes that are left to parse.
pub record Parts : Type 0 where
  pub left : ℕ
  pub name : Option (List ℕ)
  pub weight : List ℕ
  pub port : List ℕ

-- The `switch` for round `k`: the part behind a delimiter at offset `q`.
abbrev pub store_part : ℕ → ℕ → List ℕ → Parts → Parts
store_part k q part s =
    let t = record s { left = q } in
    if k == 0
    then record t { name = some part }
    else if k == 1
    then record t { weight = part }
    else if k == 2
    then record t { port = part }
    else t

-- Round `k` after its search in `text`, the bytes that are left; the name is optional.
abbrev pub after_search :
    (Parts → Option (ℕ × Parts)) → ℕ → List ℕ → Parts → Option ℕ → Option (ℕ × Parts)
after_search next_round k text s none = if k == 0 then next_round s else some (k, s)
after_search next_round k text s (some q) = next_round (store_part k q (drop (q + 1) text) s)

-- The loop, from round `k` on, over the bytes of `delim` that are left; it gives the `k` at which
-- it stopped. `none` is a read behind the NUL that ends `delim`.
unfoldable pub split_loop : List ℕ → ℕ → List ℕ → Parts → Option (ℕ × Parts)
split_loop [] k value s = none
split_loop (c ∷ delim) k value s =
    let text = take s.left value in
    after_search (split_loop delim (k + 1) value) k text s (strrchr text c)

abbrev pub delim : List ℕ
delim = b' ' ∷ b':' ∷ b':' ∷ 0 ∷ []

abbrev pub default_port : ℕ
default_port = 11211

abbrev pub name_length : Option (List ℕ) → ℕ
name_length none = 0
name_length (some name) = length name

-- The name that a server has by default: the port is left out where it is 11211.
unfoldable pub default_name : List ℕ → ℕ → Parts → List ℕ
default_name value port s =
    if port == default_port then take s.left value else take (s.left + 1 + length s.port) value

abbrev pub or_default : Option (List ℕ) → List ℕ → List ℕ
or_default none d = d
or_default (some name) d = name

abbrev pub check_port : Option ℕ → Result ℕ
check_port none = fault has_invalid_port
check_port (some port) = if valid_port port then ok port else fault has_invalid_port

-- The port: 0 for a path.
abbrev pub server_port : List ℕ → Parts → Result ℕ
server_port value s = if is_path value then ok 0 else check_port (atoi s.port)

abbrev pub with_port : List ℕ → Parts → ℕ → Result ℕ → Result ConfServer
with_port value s weight (fault f) = fault f
with_port value s weight (ok port) = ok (record conf_server_init {
  pname =
      if ltb 0 (name_length s.name)
      then take (length value - (name_length s.name + 1)) value
      else value;
  name = or_default s.name (default_name value port s);
  addrstr = take s.left value;
  port = port;
  weight = weight;
  valid = true;
})

abbrev pub with_weight : List ℕ → Parts → Option ℕ → Result ConfServer
with_weight value s none = fault has_invalid_weight
with_weight value s (some weight) =
    if weight == 0 then fault has_zero_weight else with_port value s weight (server_port value s)

-- The server that the parts give, if the loop stopped where it should.
abbrev pub fill_server : List ℕ → Option (ℕ × Parts) → Result ConfServer
fill_server value none = fault has_invalid_server
fill_server value (some (k, s)) =
    if k == (if is_path value then 2 else 3)
    then with_weight value s (atoi s.weight)
    else fault has_invalid_server

-- The parts of the text, and the server that they give.
unfoldable pub parse_server : List ℕ → Result ConfServer
unfolding default_name
parse_server value =
    let start : Parts = record { left = length value; name = none; weight = []; port = [] } in
    fill_server value (split_loop delim 0 value start)

abbrev pub append_server : ConfPool → Result ConfServer → Result ConfPool
append_server cp (fault f) = fault f
append_server cp (ok cs) = ok (record cp { server = cp.server ++ cs ∷ [] })

unfoldable pub conf_add_server : List ℕ → ConfPool → Result ConfPool
conf_add_server value cp = append_server cp (parse_server value)
