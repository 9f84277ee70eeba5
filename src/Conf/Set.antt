-- ===== src/Conf/Set.antt =====
-- The setters of src/gf_conf.c. `value` is the top of `cf->arg`, which the parser pushed last and
-- which is not empty.
use gfwproxy.Base.{
  ℕ, ◌+◌, Bool, true, false, Option, none, some, List, [], ◌∷◌, ltb, ◌==◌, if◌then◌else◌, length,
  take, drop,
}
use Prim.Native.Nat.{Ordering}
use Prim.Native.Char.{code}
use Prim.Native.String.{String}
use gfwproxy.Server.{DistType, ketama, modula, random}
use gfwproxy.Text.{atoi, valid_port, string_compare, strrchr}
use gfwproxy.Conf.{
  ConfPool, HashType, one_at_a_time, md5, crc16, crc32, crc32a, fnv1_64, fnv1a_64, fnv1_32,
  fnv1a_32, hsieh, murmur, jenkins, Fault, Result, ok, fault, is_duplicate, is_not_number,
  is_not_bool, is_not_hash, is_not_distribution, is_not_hash_tag, has_invalid_permission,
  has_invalid_host, has_invalid_port, has_invalid_value,
}
use gfwproxy.Conf.Field.{Number, number}

-- The bytes of a string literal.
abbrev pub codes : String → List ℕ
codes String.[] = []
codes (String.◌∷◌ c s) = code c ∷ codes s

-- `string_compare(a, b) == 0`
abbrev pub is_same : List ℕ → List ℕ → Bool
is_same a b = elim (string_compare a b) [ Ordering.eq ↦ true | _ ↦ false ]

-- The first entry of a table of names whose name is the text.
abbrev pub lookup {ℓ} : {A : Type ℓ} → List ℕ → List (List ℕ × A) → Option A
lookup text [] = none
lookup text ((name, a) ∷ rest) =
    let later = lookup text rest in if is_same text name then some a else later

-- `hash_strings`, with the `hash_type_t` of each place.
abbrev pub hash_strings : List (List ℕ × HashType)
hash_strings =
    (codes "one_at_a_time", one_at_a_time)
    ∷ (codes "md5", md5)
    ∷ (codes "crc16", crc16)
    ∷ (codes "crc32", crc32)
    ∷ (codes "crc32a", crc32a)
    ∷ (codes "fnv1_64", fnv1_64)
    ∷ (codes "fnv1a_64", fnv1a_64)
    ∷ (codes "fnv1_32", fnv1_32)
    ∷ (codes "fnv1a_32", fnv1a_32)
    ∷ (codes "hsieh", hsieh)
    ∷ (codes "murmur", murmur)
    ∷ (codes "jenkins", jenkins)
    ∷ []

-- `dist_strings`, with the `dist_type_t` of each place.
abbrev pub dist_strings : List (List ℕ × DistType)
dist_strings = (codes "ketama", ketama) ∷ (codes "modula", modula) ∷ (codes "random", random) ∷ []

-- The first test of a setter: a field that is set already is an error.
abbrev pub unless_set {ℓ κ} : {A : Type ℓ} {B : Type κ} → Option A → Result B → Result B
unless_set (some _) r = fault is_duplicate
unless_set none r = r

-- A value that can be read, or else an error.
abbrev pub require {ℓ κ} : {A : Type ℓ} {B : Type κ} → Fault → Option A → (A → B) → Result B
require f none write = fault f
require f (some a) write = ok (write a)

unfoldable pub conf_set_num : Number → List ℕ → ConfPool → Result ConfPool
conf_set_num f value cp =
    unless_set ((number f).read cp)
      (require is_not_number (atoi value) (λ num. (number f).write (some num) cp))

abbrev pub read_bool : List ℕ → Option ℕ
read_bool value =
    if is_same value (codes "true")
    then some 1
    else if is_same value (codes "false")
    then some 0
    else none

unfoldable pub conf_set_bool : Number → List ℕ → ConfPool → Result ConfPool
conf_set_bool f value cp =
    unless_set ((number f).read cp)
      (require is_not_bool (read_bool value) (λ b. (number f).write (some b) cp))

unfoldable pub conf_set_hash : List ℕ → ConfPool → Result ConfPool
conf_set_hash value cp =
    unless_set cp.hash
      (require is_not_hash (lookup value hash_strings) (λ h. record cp { hash = some h }))

unfoldable pub conf_set_distribution : List ℕ → ConfPool → Result ConfPool
conf_set_distribution value cp = unless_set cp.distribution (
    require is_not_distribution (lookup value dist_strings)
      (λ d. record cp { distribution = some d }))

abbrev pub read_hash_tag : List ℕ → Option (List ℕ)
read_hash_tag value = if length value == 2 then some value else none

unfoldable pub conf_set_hashtag : List ℕ → ConfPool → Result ConfPool
conf_set_hashtag value cp =
    unless_set cp.hash_tag
      (require is_not_hash_tag (read_hash_tag value) (λ t. record cp { hash_tag = some t }))

-- Only `redis_auth` is set by it.
unfoldable pub conf_set_string : List ℕ → ConfPool → Result ConfPool
conf_set_string value cp = unless_set cp.redis_auth (ok (record cp { redis_auth = some value }))

-- What `conf_set_listen` takes from outside: `gf_resolve`, which asks `getaddrinfo`, with `none`
-- for a failure; and `strtol` in base 8, as a `mode_t`, with `none` where it sets `errno`.
pub record System : Type 0 where
  pub gf_resolve : List ℕ → ℕ → Option (List ℕ)
  pub strtol_octal : List ℕ → Option ℕ

abbrev pub is_path : List ℕ → Bool
is_path [] = false
is_path (c ∷ _) = c == b'/'

abbrev pub check_permission : List ℕ → Option ℕ → Result (List ℕ × (ℕ × Option ℕ))
check_permission name none = fault has_invalid_permission
check_permission name (some perm) =
    if ltb 511 perm then fault has_invalid_permission else ok (name, (0, some perm))

-- "socket_path permissions"
abbrev pub listen_path : System → List ℕ → Option ℕ → Result (List ℕ × (ℕ × Option ℕ))
listen_path sys value none = ok (value, (0, some 0))
listen_path sys value (some q) =
    check_permission (take q value) (sys.strtol_octal (drop (q + 1) value))

abbrev pub check_listen_port : List ℕ → Option ℕ → Result (List ℕ × (ℕ × Option ℕ))
check_listen_port name none = fault has_invalid_port
check_listen_port name (some port) =
    if valid_port port then ok (name, (port, none)) else fault has_invalid_port

-- "hostname:port"
abbrev pub listen_host : List ℕ → Option ℕ → Result (List ℕ × (ℕ × Option ℕ))
listen_host value none = fault has_invalid_host
listen_host value (some q) = check_listen_port (take q value) (atoi (drop (q + 1) value))

-- The name, the port and the permissions, parsed from the end.
unfoldable pub parse_listen : System → List ℕ → Result (List ℕ × (ℕ × Option ℕ))
parse_listen sys value =
    if is_path value
    then listen_path sys value (strrchr value b' ')
    else listen_host value (strrchr value b':')

-- What is left to do once the text is parsed.
abbrev pub resolve_listen :
    System → List ℕ → ConfPool → Result (List ℕ × (ℕ × Option ℕ)) → Result ConfPool
resolve_listen sys value cp (fault f) = fault f
resolve_listen sys value cp (ok (host, (port, perm))) =
    require has_invalid_value (sys.gf_resolve host port) (λ info. record cp {
      listen = record {
        pname = value;
        name = host;
        port = port;
        perm = perm;
        info = info;
        valid = true;
      };
    })

unfoldable pub conf_set_listen : System → List ℕ → ConfPool → Result ConfPool
unfolding parse_listen
conf_set_listen sys value cp =
    if cp.listen.valid
    then fault is_duplicate
    else resolve_listen sys value cp (parse_listen sys value)
