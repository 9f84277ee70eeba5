-- ===== src/Msg/Accept.antt =====
-- A request from a client, before it is forwarded: `req_filter` and `req_make_reply` of
-- src/gf_request.c.
use gfwproxy.Base.{
  ℕ, ◌≡◌, refl, sym, ap, ◌∙◌, subst, Bool, true, false, Option, none, some, [], ◌∷◌, ◌++◌, arith,
  ◌==◌, if◌then◌else◌,
}
use gfwproxy.Status.{Status, gf_ok, gf_enomem}
use gfwproxy.Msg.{
  mem, Msg, World, Conn, Sys, no_msg, set_msg, msg_get, req_put, req_client_enqueue_omsgq,
}
use gfwproxy.Msg.Fresh.{msg_get-Fresh}

-- `authenticated` is the result of `conn_authenticated`; true says that the request goes no further.
unfoldable req_filter : Bool → ℕ → Conn → World → Bool × Conn × World
unfolding req_put
req_filter authenticated m c w =
    if (w.msg m).mlen == 0
    then (true, c, req_put m w)
    else if (w.msg m).quit
    then (true, record c { eof = true; recv_ready = false }, req_put m w)
    else if authenticated
    then (false, c, w)
    else (false, c, set_msg m (record (w.msg m) { noforward = true }) w)

-- The link of the request `m` and its reply `r`.
abbrev pub replied : ℕ → ℕ → World → World
replied m r w =
    let u = set_msg m (record (w.msg m) { peer = some r; done = true }) w in
    set_msg r (record (u.msg r) { peer = some m }) u

-- The end of `req_make_reply`, from the test of the reply on.
abbrev pub with_reply : Sys → ℕ → Conn → Option ℕ × World → Status × Conn × World
with_reply sys m c (none, u) = (gf_enomem, record c { err = sys.errno }, u)
with_reply sys m c (some r, u) = (gf_ok, req_client_enqueue_omsgq m c, replied m r u)

unfoldable pub req_make_reply : Sys → ℕ → Conn → World → Status × Conn × World
unfolding msg_get
req_make_reply sys m c w = with_reply sys m c (msg_get sys c.self w)

-- The request and its reply.
pub record Replied (m : ℕ) (c : Conn) (w : World) (o : Status × Conn × World) : Type 0 where
  pub status : o.0 ≡ gf_ok
  pub queue : o.1.omsg_q ≡ c.omsg_q ++ (m ∷ [])
  pub r : ℕ
  pub apart : (r == m) ≡ false
  pub request : o.2.msg m ≡ record (w.msg m) { peer = some r; done = true }
  pub reply : o.2.msg r ≡ record no_msg { owner = c.self; peer = some m }
  pub others : (j : ℕ) → (j == m) ≡ false → (j == r) ≡ false → o.2.msg j ≡ w.msg j

msg_at : (m : ℕ) (v : Msg) (w : World) → (set_msg m v w).msg m ≡ v
msg_at m v w = let e : (m == m) ≡ true = ground arith in rw e refl

msg_else : (m j : ℕ) (v : Msg) (w : World) → (j == m) ≡ false → (set_msg m v w).msg j ≡ w.msg j
msg_else m j v w e = rw e refl

-- If memory can be had, the request `m` gets a new message as its reply: the two point to each other, the
-- request is done and stands at the end of the client's queue, and no other message changes.
pub req_make_reply-Replied :
    (sys : Sys) (m k : ℕ) (c : Conn) (w : World)
    → sys.has_memory ≡ true
    → sys.alloc ≡ some k
    → (k == m) ≡ false
    → mem m w.free_msgq ≡ false
    → Replied m c w (req_make_reply sys m c w)
unfolding req_make_reply
req_make_reply-Replied sys m k c w memory alloc ne out =
    let (r, u, gave, f) = msg_get-Fresh sys c.self w m k memory alloc ne out in
    let apart : (m == r) ≡ false = ground (arith, f.apart) in
    let v : Msg = record (u.msg m) { peer = some r; done = true } in
    let u1 = set_msg m v u in
    let v1 : Msg = record (u1.msg r) { peer = some m } in
    subst (Replied m c w) (ap (with_reply sys m c) (sym gave)) (record {
      status = refl;
      queue = refl;
      r = r;
      apart = f.apart;
      request =
          msg_else r m v1 u1 apart
          ∙ msg_at m v u
          ∙ ap (λ (t : Msg). record t { peer = some r; done = true }) (f.others m apart);
      reply =
          msg_at r v1 u1
          ∙ ap (λ (t : Msg). record t { peer = some m }) (msg_else m r v u f.apart ∙ f.new);
      others = λ j i n. msg_else r j v1 u1 n ∙ msg_else m j v u i ∙ f.others j n;
    })
