-- ===== src/Stream/Parse.antt =====
-- How `msg_parsed` divides what was read into messages.
use gfwproxy.Base.{
  ℕ, ◌+◌, ◌-◌, ◌%◌, ◌^◌, ◌≤◌, ◌<◌, ◌≡◌, refl, sym, ap, ◌∙◌, subst, true, false, some, List, [], ◌∷◌,
  ◌++◌, append-nil, arith, ◌==◌, length, take, drop, length-append,
}
use gfwproxy.Status.{gf_ok}
use gfwproxy.Mbuf.{Mbuf, Bufs, last, last_mbuf, set_last, mbuf_length}
use gfwproxy.Mbuf.Chain.{contents, contents-set_last, mbuf_split-memory}
use gfwproxy.Msg.{mem, Msg, World, Conn, Sys, set_msg, no_msg}
use gfwproxy.Msg.Fresh.{Fresh, msg_get-Fresh}
use gfwproxy.Stream.{Handlers}
use gfwproxy.Stream.Recv.{hand_over, divided, put_back, with_new, msg_parsed}

-- The length of the message is that of its bytes.
pub record Whole (v : Msg) : Type 0 where
  pub counted : v.mlen ≡ length (contents v.mhdr)
  pub short : length (contents v.mhdr) < 2 ^ 32

-- The bytes `rest` of the message `v` have become the message `b`, and `a` is what is left.
pub record Divided (v a b : Msg) (rest : List ℕ) : Type 0 where
  pub joined : contents a.mhdr ++ contents b.mhdr ≡ contents v.mhdr
  pub second : contents b.mhdr ≡ rest
  pub whole_first : Whole a
  pub whole_second : Whole b
  pub start : b.pos ≡ 0
  pub same_owner : b.owner ≡ v.owner

small : (n : ℕ) → n < 2 ^ 32 → n % 2 ^ 32 ≡ n
small n h = ground arith

wrap_minus : (a b : ℕ) → b ≤ a → a < 2 ^ 32 → (a + (2 ^ 32 - b)) % 2 ^ 32 ≡ a - b
wrap_minus a b le lt = ground arith

-- The buffer that is split off.
abbrev cut : ℕ → List ℕ → Mbuf
cut size rest = record { bytes = rest; pos = 0; size = size }

divided_lem :
    (v : Msg) (l : Mbuf) (size : ℕ)
    → last_mbuf v.mhdr ≡ some l
    → l.pos ≤ v.pos
    → Whole v
    → Divided v
        (record v {
          mhdr = set_last v.mhdr (record l { bytes = take v.pos l.bytes });
          mlen = (v.mlen + (2 ^ 32 - mbuf_length (cut size (drop v.pos l.bytes)))) % 2 ^ 32;
        })
        (record no_msg {
          owner = v.owner;
          mhdr = cut size (drop v.pos l.bytes) ∷ [];
          pos = 0;
          mlen = mbuf_length (cut size (drop v.pos l.bytes));
        })
        (drop v.pos l.bytes)
divided_lem v l size is_last le whole =
    let rest = drop v.pos l.bytes in
    let parts : contents (set_last v.mhdr (record l { bytes = take v.pos l.bytes })) ++ rest
        ≡ contents v.mhdr =
      contents-set_last v.mhdr l v.pos is_last le in
    let total =
      sym
        (length-append (contents (set_last v.mhdr (record l { bytes = take v.pos l.bytes }))) rest)
      ∙ ap length parts in
    let short : length rest < 2 ^ 32 = omega (arith, total, whole.short) in
    let exact : (length rest - 0) % 2 ^ 32 ≡ length rest =
      small (length rest - 0) (omega arith) ∙ (omega arith) in
    record {
      joined =
          ap (λ t. contents (set_last v.mhdr (record l { bytes = take v.pos l.bytes })) ++ t)
            (append-nil rest)
          ∙ parts;
      second = append-nil rest;
      whole_first = record {
        counted =
            ap (λ k. (v.mlen + (2 ^ 32 - k)) % 2 ^ 32) exact
            ∙ wrap_minus v.mlen (length rest) (omega (arith, total, whole.counted))
                (omega (arith, whole.counted, whole.short))
            ∙ omega (arith, total, whole.counted);
        short = omega (arith, total, whole.short);
      };
      whole_second = record {
        counted = exact ∙ ap length (sym (append-nil rest));
        short = subst (λ t. length t < 2 ^ 32) (sym (append-nil rest)) short;
      };
      start = refl;
      same_owner = refl;
    }

-- The two messages in the store.
abbrev first_part : Msg → List Mbuf → Mbuf → Msg
first_part v mhdr b = record v { mhdr = mhdr; mlen = (v.mlen + (2 ^ 32 - mbuf_length b)) % 2 ^ 32 }

abbrev second_part : ℕ → Mbuf → Msg
second_part owner b = record no_msg {
  owner = owner;
  mhdr = b ∷ [];
  pos = b.pos;
  mlen = mbuf_length b;
}

msg_set : (m : ℕ) (v : Msg) (w : World) → (set_msg m v w).msg m ≡ v
msg_set m v w = let e : (m == m) ≡ true = ground arith in rw e refl

msg_other : (m j : ℕ) (v : Msg) (w : World) → (j == m) ≡ false → (set_msg m v w).msg j ≡ w.msg j
msg_other m j v w e = rw e refl

divided-msg :
    (m n owner : ℕ) (mhdr : List Mbuf) (b : Mbuf) (bufs : Bufs) (w u : World)
    → Fresh owner (put_back m mhdr bufs w) m n u
    → ((divided m n b u).msg m ≡ first_part (w.msg m) mhdr b)
      × ((divided m n b u).msg n ≡ second_part owner b)
divided-msg m n owner mhdr b bufs w u f =
    let apart : (m == n) ≡ false = ground (arith, f.apart) in
    let v : Msg = record (u.msg n) {
      mhdr = (u.msg n).mhdr ++ (b ∷ []);
      pos = b.pos;
      mlen = mbuf_length b;
    } in
    let u1 = set_msg n v u in
    let first : u1.msg m ≡ record (w.msg m) { mhdr = mhdr } =
      msg_other n m v u apart
      ∙ f.others m apart
      ∙ msg_set m (record (w.msg m) { mhdr = mhdr }) (record w { bufs = bufs }) in
    let v1 : Msg = record (u1.msg m) {
      mlen = ((u1.msg m).mlen + (2 ^ 32 - mbuf_length b)) % 2 ^ 32;
    } in
    (
      msg_set m v1 u1
          ∙ ap (λ (t : Msg). record t { mlen = (t.mlen + (2 ^ 32 - mbuf_length b)) % 2 ^ 32 })
              first,
      msg_other m n v1 u1 f.apart
          ∙ msg_set n v u
          ∙ ap
              (λ (t : Msg). record t {
                mhdr = t.mhdr ++ (b ∷ []);
                pos = b.pos;
                mlen = mbuf_length b;
              })
              f.new,
    )

pub record Second (h : Handlers) (sys : Sys) (m : ℕ) (c : Conn) (w : World) (l : Mbuf)
    : Type 0 where
  pub n : ℕ
  pub x : World
  pub runs : msg_parsed h sys m c w ≡ hand_over gf_ok (h.recv_done m (some n) c x)
  pub apart : (n == m) ≡ false
  pub parts : Divided (w.msg m) (x.msg m) (x.msg n) (drop (w.msg m).pos l.bytes)

-- If memory can be had, a message `m` whose length is that of its bytes, and whose parser has
-- stopped inside the last buffer, is divided there: `recv_done` is called with `m` and another
-- message `n`, which is new. Together they hold the bytes that `m` held, `n` those behind the marker,
-- both with the length of their bytes, and `n` has its marker at its start.
pub msg_parsed-Second :
    (h : Handlers) (sys : Sys) (m k : ℕ) (c : Conn) (w : World) (l : Mbuf)
    → sys.has_memory ≡ true
    → sys.alloc ≡ some k
    → (k == m) ≡ false
    → mem m w.free_msgq ≡ false
    → last_mbuf (w.msg m).mhdr ≡ some l
    → l.pos ≤ (w.msg m).pos
    → ((w.msg m).pos == last l) ≡ false
    → Whole (w.msg m)
    → Second h sys m c w l
unfolding msg_parsed
msg_parsed-Second h sys m k c w l memory alloc ne out is_last le inside whole =
    let (bufs, split) =
      mbuf_split-memory sys.has_memory (w.msg m).pos (w.msg m).mhdr l w.bufs memory is_last in
    let mhdr = set_last (w.msg m).mhdr (record l { bytes = take (w.msg m).pos l.bytes }) in
    let b = cut w.bufs.mbuf_offset (drop (w.msg m).pos l.bytes) in
    let y = put_back m mhdr bufs w in
    let (n, u, gave, f) = msg_get-Fresh sys (w.msg m).owner y m k memory alloc ne out in
    record {
      n = n;
      x = divided m n b u;
      runs = rw (is_last, inside, split, msg_parsed) (ap (with_new h m c b) gave);
      apart = f.apart;
      parts =
          let (at_m, at_n) = divided-msg m n (w.msg m).owner mhdr b bufs w u f in
          subst (λ t. Divided (w.msg m) t ((divided m n b u).msg n) (drop (w.msg m).pos l.bytes))
            (sym at_m)
            (subst
              (λ t. Divided (w.msg m) (first_part (w.msg m) mhdr b) t (drop (w.msg m).pos l.bytes))
              (sym at_n) (divided_lem (w.msg m) l w.bufs.mbuf_offset is_last le whole));
    }
