-- ===== src/Conf/Turns.antt =====
-- Lemmas on single steps of the parser of src/gf_conf.c.
use gfwproxy.Base.{
  ℕ, ◌≡◌, refl, ap, ◌∙◌, Bool, Option, none, some, List, [], ◌∷◌, ◌++◌, length, get_elem?, set,
}
use gfwproxy.Conf.{Conf, ConfPool}
use gfwproxy.Conf.Yaml.{Event}
use gfwproxy.Conf.Set.{System}
use gfwproxy.Base.{then_do}
use gfwproxy.Conf.Parse.{after_turn, conf_handler, call_handler, go_on, conf_parse_core}
use gfwproxy.Conf.Read.{state}

pub get_elem?_last {ℓ} :
    {A : Type ℓ} (xs : List A) (a : A) → get_elem? (xs ++ a ∷ []) (length xs) ≡ some a
get_elem?_last [] a = refl
get_elem?_last (x ∷ xs) a = get_elem?_last xs a

pub set_last {ℓ} :
    {A : Type ℓ} (xs : List A) (a b : A) → set (xs ++ a ∷ []) (length xs) b ≡ xs ++ b ∷ []
set_last [] a b = refl
set_last (x ∷ xs) a b = ap (λ t. x ∷ t) (set_last xs a b)

pub then_do_ap {ℓ κ} :
    {A : Type ℓ} {B : Type κ} (o : Option A) {f g : A → Option B}
    → ((a : A) → f a ≡ g a)
    → then_do o f ≡ then_do o g
then_do_ap none h = refl
then_do_ap (some a) h = h a

pub then_do_assoc {ℓ κ μ} :
    {A : Type ℓ} {B : Type κ} {C : Type μ} (o : Option A) (f : A → Option B) (g : B → Option C)
    → then_do (then_do o f) g ≡ then_do o (λ a. then_do (f a) g)
then_do_assoc none f g = refl
then_do_assoc (some a) f g = refl

-- The handler on the newest pool.
pub call_handler_last :
    (sys : System) (pools : List ConfPool) (cp : ConfPool) (depth : ℕ) (arg : List (List ℕ))
    (seq : Bool)
    → call_handler sys (length pools) (state depth arg (pools ++ cp ∷ []) seq)
      ≡ then_do (conf_handler sys arg cp) (λ cp'. some (state depth arg (pools ++ cp' ∷ []) seq))
unfolding call_handler
call_handler_last sys pools cp depth arg seq =
    ap
      (λ o. then_do o (λ cp0.
        then_do (conf_handler sys arg cp0)
          (λ cp'. some (state depth arg (set (pools ++ cp ∷ []) (length pools) cp') seq))))
      (get_elem?_last pools cp)
    ∙ then_do_ap (conf_handler sys arg cp)
        (λ cp'. ap (λ t. some (state depth arg t seq)) (set_last pools cp cp'))

-- The parser behind a leaf: `o` is what the directive gives.
pub after_turn-leaf :
    (sys : System) (o : Option ConfPool) (i : ℕ) (f : ConfPool → Conf) (p : Conf → Conf)
    (rest : List Event)
    → after_turn
        (conf_parse_core sys rest)
        rest
        (go_on (then_do (then_do o (λ cp. some (f cp))) (λ cf. some (some i, p cf))))
      ≡ then_do o (λ cp. conf_parse_core sys rest (some i) (p (f cp)))
unfolding go_on
after_turn-leaf sys none i f p rest = refl
after_turn-leaf sys (some cp) i f p rest = refl
