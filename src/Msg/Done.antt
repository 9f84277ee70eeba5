-- ===== src/Msg/Done.antt =====
-- `req_done` and `req_error` of src/gf_request.c, on the queue of a client's outstanding requests.
pub mod Failed
use gfwproxy.Base.{
  ℕ, zero, suc, ◌+◌, ◌≡◌, Bool, true, false, not, Option, none, some, List, [], ◌∷◌, ◌++◌, reverse,
  arith, ltb, ◌==◌, if◌then◌else◌, All,
}
use gfwproxy.Msg.{Msg, World, set_msg, after, before}

-- The messages at the front of a walk that carry the fragment number.
abbrev pub while_frag : ℕ → (ℕ → Msg) → List ℕ → List ℕ
while_frag id msg [] = []
while_frag id msg (c ∷ cs) = if (msg c).frag_id == id then c ∷ while_frag id msg cs else []

-- The other fragments that the two loops visit: those before `m`, walking back, and those behind.
abbrev pub others : List ℕ → ℕ → World → List ℕ
others q m w =
    while_frag (w.msg m).frag_id w.msg (reverse (before m q))
    ++ while_frag (w.msg m).frag_id w.msg (after m q)

-- A loop that stops at the first message that fails the test.
abbrev pub every : (Msg → Bool) → World → List ℕ → Bool
every test w [] = true
every test w (c ∷ cs) = if test (w.msg c) then every test w cs else false

-- A loop that sets a mark in each message.
abbrev pub mark : (Msg → Msg) → List ℕ → World → World
mark change [] w = w
mark change (c ∷ cs) w = mark change cs (set_msg c (change (w.msg c)) w)

abbrev pub with_fdone : Msg → Msg
with_fdone v = record v { fdone = true }

abbrev pub with_ferror : Msg → Msg
with_ferror v = record v { ferror = true }

-- `msg->post_coalesce` is a pointer to a function, `none` if it is NULL, as `msg_get` leaves it in
-- every message. The result `none` is its call where it is NULL.
unfoldable pub req_done :
    Option (Option ℕ → World → World) → List ℕ → ℕ → World → Option (Bool × World)
req_done post_coalesce q m w =
    let msg = w.msg m in
    if not msg.done
    then some (false, w)
    else if msg.frag_id == 0
    then some (true, w)
    else if msg.fdone
    then some (true, w)
    else if ltb msg.nfrag_done msg.nfrag
    then some (false, w)
    else if every (λ v. v.done) w (others q m w)
    then elim post_coalesce [
      | none ↦ none
      | some join ↦ some (true, join msg.frag_owner (mark with_fdone (m ∷ others q m w) w))
    ]
    else some (false, w)

unfoldable pub req_error : List ℕ → ℕ → World → Bool × World
req_error q m w =
    let msg = w.msg m in
    if msg.error
    then (true, w)
    else if msg.frag_id == 0
    then (false, w)
    else if msg.ferror
    then (true, w)
    else if every (λ v. not v.error) w (others q m w)
    then (false, w)
    else (true, mark with_ferror (m ∷ others q m w) w)

pub set_msg_same : (c : ℕ) (v : Msg) (w : World) → (set_msg c v w).msg c ≡ v
set_msg_same c v w = ground arith

pub All_zip :
    {P Q R : ℕ → Type 0} (cs : List ℕ)
    → ((c : ℕ) → P c → Q c → R c)
    → All P cs
    → All Q cs
    → All R cs
All_zip [] f a b = tt
All_zip (c ∷ cs) f a b = (f c a.0 b.0, All_zip cs f a.1 b.1)
