-- ===== src/Conf/FitText.antt =====
-- The texts of directives that the setters of src/gf_conf.c accept give values that fit.
use gfwproxy.Base.{
  ℕ, ◌+◌, ◌^◌, ◌<◌, ◌≡◌, refl, sym, ap, ◌∙◌, subst, inl, inr, Bool, true, false, Option, none, some,
  List, [], ◌∷◌, ◌++◌, arith, ltb, ◌==◌, if◌then◌else◌, Bool-cases, length, take, drop, All,
  some_inj,
}
use gfwproxy.Text.{atoi, valid_port, strrchr}
use gfwproxy.Text.Number.{atoi_lt, valid_port_lt}
use gfwproxy.Conf.{ConfPool, ConfServer, Result, ok, fault}
use gfwproxy.Conf.Set.{
  System, is_path, read_bool, read_hash_tag, resolve_listen, check_permission, listen_path,
  check_listen_port, listen_host, parse_listen,
}
use gfwproxy.Conf.AddServer.{
  Parts, check_port, server_port, with_port, with_weight, fill_server, append_server,
}
use gfwproxy.Conf.Once.{require_ok, ok_inj, if_fault_ok, if_else_fault_ok}
use gfwproxy.Conf.Fit.{FitServer, FitPool}

pub read_bool_lt : (v : List ℕ) (n : ℕ) → read_bool v ≡ some n → n < 2 ^ 31
read_bool_lt v n h = ground arith

pub read_hash_tag_IsTag : (v t : List ℕ) → read_hash_tag v ≡ some t → length t ≡ 2
read_hash_tag_IsTag v t h = elim (Bool-cases (length v == 2)) [
  | inl e ↦
      let some_v : some v ≡ some t = ap (λ b. if b then some v else none) (sym e) ∙ h in
      subst (λ x. length x ≡ 2) (some_inj some_v) (ground arith)
  | inr e ↦ absurd (cc (h, ap (λ b. if b then some v else none) e))
]

pub All-append {ℓ κ} :
    {A : Type ℓ} (P : A → Type κ) (xs ys : List A) → All P xs → All P ys → All P (xs ++ ys)
All-append P [] ys h k = k
All-append P (x ∷ xs) ys (p, h) k = (p, All-append P xs ys h k)

-- The server that a text gives fits.
check_port_fits : (o : Option ℕ) (n : ℕ) → check_port o ≡ ok n → n < 2 ^ 16
check_port_fits none n h = absurd (cc)
check_port_fits (some p) n h =
    let (good, same) = if_else_fault_ok (valid_port p) _ (ok p) h in
    subst (λ x. x < 2 ^ 16) (ok_inj same) (valid_port_lt p good)

server_port_fits : (value : List ℕ) (s : Parts) (n : ℕ) → server_port value s ≡ ok n → n < 2 ^ 16
server_port_fits value s n h = elim (Bool-cases (is_path value)) [
  | inl e ↦
      let zero_port : ok 0 ≡ ok n =
        ap (λ b. if b then ok 0 else check_port (atoi s.port)) (sym e) ∙ h in
      subst (λ x. x < 2 ^ 16) (ok_inj zero_port) (omega arith)
  | inr e ↦
      check_port_fits (atoi s.port) n
        (ap (λ b. if b then ok 0 else check_port (atoi s.port)) (sym e) ∙ h)
]

with_port_fits :
    (value : List ℕ) (s : Parts) (w : ℕ) (r : Result ℕ) (cs : ConfServer)
    → 0 < w
    → w < 2 ^ 31
    → ((n : ℕ) → r ≡ ok n → n < 2 ^ 16)
    → with_port value s w r ≡ ok cs
    → FitServer cs
with_port_fits value s w (fault f) cs p i port h = absurd (cc)
with_port_fits value s w (ok n) cs p i port h =
    subst FitServer (ok_inj h)
      (record { valid = refl; weighs = p; weight_fits = i; port_fits = port n refl })

with_weight_fits :
    (value : List ℕ) (s : Parts) (o : Option ℕ) (cs : ConfServer)
    → ((n : ℕ) → o ≡ some n → n < 2 ^ 31)
    → with_weight value s o ≡ ok cs
    → FitServer cs
with_weight_fits value s none cs i h = absurd (cc)
with_weight_fits value s (some w) cs i h =
    let (some_weight, made) =
      if_fault_ok (w == 0) _ (with_port value s w (server_port value s)) h in
    with_port_fits value s w (server_port value s) cs (ground arith) (i w refl)
      (server_port_fits value s) made

pub fill_server_fits :
    (value : List ℕ) (o : Option (ℕ × Parts)) (cs : ConfServer)
    → fill_server value o ≡ ok cs
    → FitServer cs
fill_server_fits value none cs h = absurd (cc)
fill_server_fits value (some (k, s)) cs h =
    let (right_k, made) = if_else_fault_ok (k == (if is_path value then 2 else 3)) _ _ h in
    with_weight_fits value s (atoi s.weight) cs (atoi_lt s.weight) made

pub append_server_fits :
    (cp cp' : ConfPool) (r : Result ConfServer)
    → ((cs : ConfServer) → r ≡ ok cs → FitServer cs)
    → FitPool cp
    → append_server cp r ≡ ok cp'
    → FitPool cp'
append_server_fits cp cp' (fault f) s fit h = absurd (cc)
append_server_fits cp cp' (ok cs) s fit h = subst FitPool (ok_inj h) (record {
  numbers = fit.numbers;
  tag = fit.tag;
  port_fits = fit.port_fits;
  servers = All-append FitServer cp.server (cs ∷ []) fit.servers (s cs refl, tt);
})

abbrev pub PortFits : Result (List ℕ × (ℕ × Option ℕ)) → Type 0
PortFits (fault f) = Unit
PortFits (ok (host, (port, perm))) = port < 2 ^ 16

if_PortFits :
    (t : Bool) (x y : Result (List ℕ × (ℕ × Option ℕ)))
    → (t ≡ true → PortFits x)
    → (t ≡ false → PortFits y)
    → PortFits (if t then x else y)
if_PortFits true x y h k = h refl
if_PortFits false x y h k = k refl

check_permission-PortFits : (name : List ℕ) (o : Option ℕ) → PortFits (check_permission name o)
check_permission-PortFits name none = tt
check_permission-PortFits name (some perm) =
    if_PortFits (ltb 511 perm) _ (ok (name, (0, some perm))) (λ e. tt) (λ e. omega arith)

listen_path-PortFits :
    (sys : System) (value : List ℕ) (o : Option ℕ) → PortFits (listen_path sys value o)
listen_path-PortFits sys value none = omega arith
listen_path-PortFits sys value (some q) =
    check_permission-PortFits (take q value) (sys.strtol_octal (drop (q + 1) value))

check_listen_port-PortFits : (name : List ℕ) (o : Option ℕ) → PortFits (check_listen_port name o)
check_listen_port-PortFits name none = tt
check_listen_port-PortFits name (some port) =
    if_PortFits (valid_port port) (ok (name, (port, none))) _ (valid_port_lt port) (λ e. tt)

listen_host-PortFits : (value : List ℕ) (o : Option ℕ) → PortFits (listen_host value o)
listen_host-PortFits value none = tt
listen_host-PortFits value (some q) =
    check_listen_port-PortFits (take q value) (atoi (drop (q + 1) value))

pub parse_listen-PortFits : (sys : System) (value : List ℕ) → PortFits (parse_listen sys value)
unfolding parse_listen
parse_listen-PortFits sys value =
    if_PortFits (is_path value) (listen_path sys value (strrchr value b' '))
      (listen_host value (strrchr value b':')) (λ e. listen_path-PortFits sys value _)
      (λ e. listen_host-PortFits value _)

pub resolve_listen_fits :
    (sys : System) (value : List ℕ) (cp cp' : ConfPool) (r : Result (List ℕ × (ℕ × Option ℕ)))
    → PortFits r
    → FitPool cp
    → resolve_listen sys value cp r ≡ ok cp'
    → FitPool cp'
resolve_listen_fits sys value cp cp' (fault f) p fit h = absurd (cc)
resolve_listen_fits sys value cp cp' (ok (host, (port, perm))) p fit h =
    let (info, read, same) = require_ok _ (sys.gf_resolve host port) _ h in
    subst FitPool same
      (record { numbers = fit.numbers; tag = fit.tag; port_fits = p; servers = fit.servers })
