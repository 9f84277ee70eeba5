-- ===== src/Conf/Once.antt =====
-- The setters of src/gf_conf.c take a directive once.
use gfwproxy.Base.{
  ℕ, ◌≡◌, refl, ap, subst, Bool, true, false, Option, none, some, List, if◌then◌else◌,
}
use gfwproxy.Text.{atoi}
use gfwproxy.Conf.{Fault, ConfPool, Result, ok, fault, is_duplicate}
use gfwproxy.Conf.Field.{
  Number, number, timeout, backlog, client_connections, redis_db, server_connections,
  server_retry_timeout, server_failure_limit, redis, tcpkeepalive, reuseport, preconnect,
  auto_eject_hosts,
}
use gfwproxy.Conf.Set.{
  unless_set, require, read_bool, resolve_listen, System, parse_listen, conf_set_num, conf_set_bool,
  conf_set_hash, conf_set_distribution, conf_set_hashtag, conf_set_string, conf_set_listen,
}
use gfwproxy.Conf.Parse.{
  Command, set_listen, set_hash, set_hashtag, set_distribution, set_string, add_server, set_num,
  set_bool, run_command,
}

pub ok_inj {ℓ} : {A : Type ℓ} {a b : A} → ok a ≡ ok b → a ≡ b
ok_inj h = cc

ok_ne_fault {ℓ κ} : {A : Type ℓ} {B : Type κ} {a : A} → fault is_duplicate ≡ ok a → B
ok_ne_fault h = absurd (cc)

pub read_write :
    (f : Number) (v : Option ℕ) (cp : ConfPool) → (number f).read ((number f).write v cp) ≡ v
read_write timeout v cp = refl
read_write backlog v cp = refl
read_write client_connections v cp = refl
read_write redis_db v cp = refl
read_write server_connections v cp = refl
read_write server_retry_timeout v cp = refl
read_write server_failure_limit v cp = refl
read_write redis v cp = refl
read_write tcpkeepalive v cp = refl
read_write reuseport v cp = refl
read_write preconnect v cp = refl
read_write auto_eject_hosts v cp = refl

-- A setter that succeeds found its field unset.
pub unless_set_ok {ℓ κ} :
    {A : Type ℓ} {B : Type κ} (o : Option A) (r : Result B) {b : B}
    → unless_set o r ≡ ok b
    → (o ≡ none) × (r ≡ ok b)
unless_set_ok none r h = (refl, h)
unless_set_ok (some a) r h = absurd (cc)

unless_set-some {ℓ κ} :
    {A : Type ℓ} {B : Type κ} {a : A} (o : Option A) (r : Result B)
    → o ≡ some a
    → unless_set o r ≡ fault is_duplicate
unless_set-some o r h = ap (λ t. unless_set t r) h

pub require_ok {ℓ κ} :
    {A : Type ℓ} {B : Type κ} (f : Fault) (o : Option A) (write : A → B) {b : B}
    → require f o write ≡ ok b
    → (a : A) × (o ≡ some a) × (write a ≡ b)
require_ok f none write h = absurd (cc)
require_ok f (some a) write h = (a, refl, ok_inj h)

resolve_listen-valid :
    (sys : System) (v : List ℕ) (cp cp' : ConfPool) (r : Result (List ℕ × (ℕ × Option ℕ)))
    → resolve_listen sys v cp r ≡ ok cp'
    → cp'.listen.valid ≡ true
resolve_listen-valid sys v cp cp' (fault f) h = absurd (cc)
resolve_listen-valid sys v cp cp' (ok (host, (port, perm))) h =
    let (info, read, same) = require_ok _ (sys.gf_resolve host port) _ h in
    subst (λ p. p.listen.valid ≡ true) same refl

-- A test that passed, on the way to a result.
pub if_fault_ok {ℓ} :
    {A : Type ℓ} (t : Bool) (f : Fault) (r : Result A) {a : A}
    → (if t then fault f else r) ≡ ok a
    → (t ≡ false) × (r ≡ ok a)
if_fault_ok true f r h = absurd (cc)
if_fault_ok false f r h = (refl, h)

pub if_else_fault_ok {ℓ} :
    {A : Type ℓ} (t : Bool) (f : Fault) (r : Result A) {a : A}
    → (if t then r else fault f) ≡ ok a
    → (t ≡ true) × (r ≡ ok a)
if_else_fault_ok true f r h = (refl, h)
if_else_fault_ok false f r h = absurd (cc)

-- Whether the setter of a command takes its directive once: all but the one of a list.
abbrev pub takes_once : Command → Bool
takes_once add_server = false
takes_once _ = true

-- After a setter other than `conf_add_server` accepted a value, it refuses any further one.
pub run_command_once :
    (sys : System) (cmd : Command) (v w : List ℕ) (cp cp' : ConfPool)
    → takes_once cmd ≡ true
    → run_command sys cmd v cp ≡ ok cp'
    → run_command sys cmd w cp' ≡ fault is_duplicate
unfolding run_command conf_set_num conf_set_bool conf_set_hash conf_set_distribution
    conf_set_hashtag conf_set_string conf_set_listen
run_command_once sys add_server v w cp cp' t h = absurd (cc)
run_command_once sys set_hash v w cp cp' t h =
    let (x, read, same) =
      require_ok _ _ (λ x. record cp { hash = some x }) (unless_set_ok cp.hash _ h).1 in
    subst (λ p. conf_set_hash w p ≡ fault is_duplicate) same refl
run_command_once sys set_hashtag v w cp cp' t h =
    let (x, read, same) =
      require_ok _ _ (λ x. record cp { hash_tag = some x }) (unless_set_ok cp.hash_tag _ h).1 in
    subst (λ p. conf_set_hashtag w p ≡ fault is_duplicate) same refl
run_command_once sys set_distribution v w cp cp' t h =
    let (x, read, same) =
      require_ok _ _ (λ x. record cp { distribution = some x })
        (unless_set_ok cp.distribution _ h).1 in
    subst (λ p. conf_set_distribution w p ≡ fault is_duplicate) same refl
run_command_once sys set_string v w cp cp' t h =
    subst (λ p. conf_set_string w p ≡ fault is_duplicate)
      (ok_inj (unless_set_ok cp.redis_auth _ h).1) refl
run_command_once sys (set_num f) v w cp cp' t h =
    let (n, read, same) =
      require_ok _ (atoi v) (λ n. (number f).write (some n) cp)
        (unless_set_ok ((number f).read cp) _ h).1 in
    subst (λ p. conf_set_num f w p ≡ fault is_duplicate) same
      (unless_set-some _ _ (read_write f (some n) cp))
run_command_once sys (set_bool f) v w cp cp' t h =
    let (n, read, same) =
      require_ok _ (read_bool v) (λ n. (number f).write (some n) cp)
        (unless_set_ok ((number f).read cp) _ h).1 in
    subst (λ p. conf_set_bool f w p ≡ fault is_duplicate) same
      (unless_set-some _ _ (read_write f (some n) cp))
run_command_once sys set_listen v w cp cp' t h =
    let valid =
      resolve_listen-valid sys v cp cp' (parse_listen sys v)
        (if_fault_ok cp.listen.valid _ _ h).1 in
    ap (λ b. if b then fault is_duplicate else resolve_listen sys w cp' (parse_listen sys w)) valid
