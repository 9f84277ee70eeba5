-- ===== src/Close/Client.antt =====
-- What becomes of the requests of a client that is closed.
use gfwproxy.Base.{
  ℕ, ◌≡◌, refl, sym, ap, ◌∙◌, subst, inl, inr, true, none, some, List, [], ◌∷◌, arith, ◌==◌,
  if◌then◌else◌, ==_iff, Bool-cases, Option-cases, All,
}
use gfwproxy.Msg.{mem, World, Conn, set_msg, remove, req_put, req_client_dequeue_omsgq}
use gfwproxy.Msg.Fields.{req_put-field, req_put-free, req_put_self}
use gfwproxy.Conns.{Conns, Owned, unref, conn_put}
use gfwproxy.Close.{drop_request, drop_requests, drop_reading, release, client_close}

-- A request that was answered is free; another is marked, and its answer will go no further.
abbrev pub Dropped : World → World → ℕ → Type 0
Dropped w x m = (if (w.msg m).done then mem m x.free_msgq else (x.msg m).swallow) ≡ true

req_put-done : (m : ℕ) (w : World) (j : ℕ) → ((req_put m w).msg j).done ≡ (w.msg j).done
req_put-done = req_put-field (λ v. v.done) (λ v p. refl) (λ v l. refl)

req_put-swallow : (m : ℕ) (w : World) (j : ℕ) → ((req_put m w).msg j).swallow ≡ (w.msg j).swallow
req_put-swallow = req_put-field (λ v. v.swallow) (λ v p. refl) (λ v l. refl)

-- The world with the mark.
abbrev swallowed : ℕ → World → World
swallowed m w = set_msg m (record (w.msg m) { swallow = true }) w

swallowed-done : (m : ℕ) (w : World) (j : ℕ) → ((swallowed m w).msg j).done ≡ (w.msg j).done
swallowed-done m w j = elim (Bool-cases (j == m)) [
  | inl e ↦ rw e (ap (λ i. (w.msg i).done) (sym ((==_iff j m).0 e)))
  | inr e ↦ rw e refl
]

swallowed-swallow :
    (m : ℕ) (w : World) (j : ℕ) → (w.msg j).swallow ≡ true → ((swallowed m w).msg j).swallow ≡ true
swallowed-swallow m w j h = elim (Bool-cases (j == m)) [ inl e ↦ rw e refl | inr e ↦ rw e h ]

marked : (m : ℕ) (w : World) → ((swallowed m w).msg m).swallow ≡ true
marked m w = let e : (m == m) ≡ true = ground arith in rw e refl

remove_head : (m : ℕ) (q : List ℕ) → remove m (m ∷ q) ≡ q
remove_head m q = ground arith

drop_request-done : (m : ℕ) (w : World) (j : ℕ) → ((drop_request m w).msg j).done ≡ (w.msg j).done
unfolding drop_request
drop_request-done m w j = elim (Bool-cases (w.msg m).done) [
  | inl e ↦
      subst (λ b. ((if b then req_put m w else swallowed m w).msg j).done ≡ (w.msg j).done) (sym e)
        (req_put-done m w j)
  | inr e ↦
      subst (λ b. ((if b then req_put m w else swallowed m w).msg j).done ≡ (w.msg j).done) (sym e)
        (swallowed-done m w j)
]

drop_request-free :
    (m j : ℕ) (w : World) → mem j w.free_msgq ≡ true → mem j (drop_request m w).free_msgq ≡ true
unfolding drop_request
drop_request-free m j w h = elim (Bool-cases (w.msg m).done) [
  | inl e ↦
      subst (λ b. mem j (if b then req_put m w else swallowed m w).free_msgq ≡ true) (sym e)
        (req_put-free m j w h)
  | inr e ↦ subst (λ b. mem j (if b then req_put m w else swallowed m w).free_msgq ≡ true) (sym e) h
]

drop_request-swallow :
    (m j : ℕ) (w : World) → (w.msg j).swallow ≡ true → ((drop_request m w).msg j).swallow ≡ true
unfolding drop_request
drop_request-swallow m j w h = elim (Bool-cases (w.msg m).done) [
  | inl e ↦
      subst (λ b. ((if b then req_put m w else swallowed m w).msg j).swallow ≡ true) (sym e)
        (req_put-swallow m w j ∙ h)
  | inr e ↦
      subst (λ b. ((if b then req_put m w else swallowed m w).msg j).swallow ≡ true) (sym e)
        (swallowed-swallow m w j h)
]

drop_request_self : (m : ℕ) (w : World) → Dropped w (drop_request m w) m
unfolding drop_request
drop_request_self m w = elim (Bool-cases (w.msg m).done) [
  | inl e ↦
      subst
        (λ b.
          (let x = if b then req_put m w else swallowed m w in
            if b then mem m x.free_msgq else (x.msg m).swallow)
          ≡ true)
        (sym e) (req_put_self m w)
  | inr e ↦
      subst
        (λ b.
          (let x = if b then req_put m w else swallowed m w in
            if b then mem m x.free_msgq else (x.msg m).swallow)
          ≡ true)
        (sym e) (marked m w)
]

-- What is free stays free, and what is marked stays marked.
drop_requests-free :
    (ms : List ℕ) (c : Conn) (w : World) (j : ℕ)
    → mem j w.free_msgq ≡ true
    → mem j (drop_requests ms c w).1.free_msgq ≡ true
unfolding drop_requests
drop_requests-free [] c w j h = h
drop_requests-free (m ∷ ms) c w j h =
    drop_requests-free ms (req_client_dequeue_omsgq m c) (drop_request m w) j
      (drop_request-free m j w h)

drop_requests-swallow :
    (ms : List ℕ) (c : Conn) (w : World) (j : ℕ)
    → (w.msg j).swallow ≡ true
    → ((drop_requests ms c w).1.msg j).swallow ≡ true
unfolding drop_requests
drop_requests-swallow [] c w j h = h
drop_requests-swallow (m ∷ ms) c w j h =
    drop_requests-swallow ms (req_client_dequeue_omsgq m c) (drop_request m w) j
      (drop_request-swallow m j w h)

Dropped-same :
    (w u x : World) (ms : List ℕ)
    → ((j : ℕ) → (u.msg j).done ≡ (w.msg j).done)
    → All (Dropped u x) ms
    → All (Dropped w x) ms
Dropped-same w u x [] same d = tt
Dropped-same w u x (m ∷ ms) same d = (
  subst (λ b. (if b then mem m x.free_msgq else (x.msg m).swallow) ≡ true) (same m) d.0,
  Dropped-same w u x ms same d.1,
)

-- A request that has been dropped stays so through the rest of the loop.
Dropped-rest :
    (ms : List ℕ) (c : Conn) (w u : World) (m : ℕ)
    → Dropped w u m
    → Dropped w (drop_requests ms c u).1 m
Dropped-rest ms c w u m = elim (Bool-cases (w.msg m).done) [
  | inl e ↦ rw e (drop_requests-free ms c u m)
  | inr e ↦ rw e (drop_requests-swallow ms c u m)
]

drop_requests-Dropped :
    (ms : List ℕ) (c : Conn) (w : World) → All (Dropped w (drop_requests ms c w).1) ms
unfolding drop_requests
drop_requests-Dropped [] c w = tt
drop_requests-Dropped (m ∷ ms) c w =
    let d = req_client_dequeue_omsgq m c in
    let u = drop_request m w in
    (
      Dropped-rest ms d w u m (drop_request_self m w),
      Dropped-same w u (drop_requests ms d u).1 ms (drop_request-done m w)
          (drop_requests-Dropped ms d u),
    )

drop_requests-queue :
    (ms : List ℕ) (c : Conn) (w : World)
    → c.omsg_q ≡ ms
    → ((drop_requests ms c w).0.omsg_q ≡ []) × ((drop_requests ms c w).0.rmsg ≡ c.rmsg)
unfolding drop_requests
drop_requests-queue [] c w e = (e, refl)
drop_requests-queue (m ∷ ms) c w e =
    drop_requests-queue ms (req_client_dequeue_omsgq m c) (drop_request m w)
      (ap (remove m) e ∙ remove_head m ms)

drop_reading-done :
    (c : Conn) (w : World) (j : ℕ) → ((drop_reading req_put c w).1.msg j).done ≡ (w.msg j).done
unfolding drop_reading
drop_reading-done c w j = elim (Option-cases c.rmsg) [
  | inl e ↦ rw (e, drop_reading) refl
  | inr (m, e) ↦ rw (e, drop_reading) (req_put-done m w j)
]

drop_reading-queue :
    (c : Conn) (w : World)
    → ((drop_reading req_put c w).0.omsg_q ≡ c.omsg_q) × ((drop_reading req_put c w).0.rmsg ≡ none)
unfolding drop_reading
drop_reading-queue c w = elim (Option-cases c.rmsg) [
  | inl e ↦ rw (e, drop_reading) (refl, e)
  | inr (m, e) ↦ rw (e, drop_reading) (refl, refl)
]

-- Closing the connection `i` of a client, whose descriptor is open, deals with each request that is
-- outstanding: one that is done is free afterwards, and any other is marked, so that its answer is
-- swallowed. No message is being read and none is outstanding on the connection, which is free.
pub client_close-requests :
    (i n : ℕ) (w : World) (t : Conns) (o : Owned)
    → (t.conn i).sd ≡ some n
    → let (x, u, p) = client_close i w t o in
      All (Dropped w x) (t.conn i).omsg_q
      × ((u.conn i).omsg_q ≡ [])
      × ((u.conn i).rmsg ≡ none)
      × (mem i u.free_connq ≡ true)
unfolding client_close release unref conn_put
client_close-requests i n w t o e =
    let c = (drop_reading req_put (t.conn i) w).0 in
    let w1 = (drop_reading req_put (t.conn i) w).1 in
    let q = drop_reading-queue (t.conn i) w in
    let self : (i == i) ≡ true = ground arith in
    let rest = drop_requests-queue c.omsg_q c w1 refl in
    rw (e, client_close, self)
      (
        Dropped-same w w1 (drop_requests c.omsg_q c w1).1 (t.conn i).omsg_q
            (drop_reading-done (t.conn i) w)
            (subst (All (Dropped w1 (drop_requests c.omsg_q c w1).1)) q.0
              (drop_requests-Dropped c.omsg_q c w1)),
        rest.0,
        rest.1 ∙ q.1,
        refl,
      )
