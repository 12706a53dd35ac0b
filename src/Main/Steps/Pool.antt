-- ===== src/Main/Steps/Pool.antt =====
-- cht/main.cpp: the pool of buffers for receiving.
use dht_cpp.Base.{
  ℕ, ◌≤◌, ◌<◌, Bool, true, false, List, [], ◌∷◌, length, Option, some, Bytes, ◌==◌, not, if_elim,
  ◌≡◌, refl, arith, ap, ◌∙◌,
}
use dht_cpp.Dht.{Peerinfo}
use dht_cpp.Main.Acts.Receives.{Receives, frees, drops, cb_recv_msg-Receives}
use dht_cpp.Main.Acts.{IsUv, Acts, stays, sends, changes}
use dht_cpp.Main.Receive.{cb_alloc, take_krpc, map_insert, is_mapped}
use dht_cpp.Main.Send.{send_msg, take_request, cb_send_msg}
use dht_cpp.Main.State.{Uv, Node}
use dht_cpp.Main.Steps.{
  Step, alloc, receive, sent, bootstrap, statgather, Reach, start, then_step, deliver,
}
use dht_cpp.Main.Timers.{loop_bootstrap_cb, loop_statgather_cb}
use dht_cpp.Msg
use dht_cpp.Msg.{Written}
use dht_cpp.Rt.Address.{validate_addr}
use dht_cpp.Rt.{bootstrap_node}
use dht_cpp.Stat.{Stat, tx_q_fn}

-- The pool and the number of the `KRPC`s that were allocated.
abbrev pub Same : Node → Node → Type 0
Same s s' = (s'.recv_buf_pool ≡ s.recv_buf_pool) × (s'.n_krpcs ≡ s.n_krpcs)

map_insert-Same : (base : ℕ) (s : Node) → Same s (map_insert base s)
unfolding map_insert
map_insert-Same base s =
    if_elim (Same s) (is_mapped base s.krpc_map) (λ _. (refl, refl)) (λ _. (refl, refl))

take_krpc-Same : (pool : List ℕ) (s : Node) → 0 < length pool → Same s (take_krpc pool s).1
unfolding take_krpc
take_krpc-Same [] s h = absurd (omega arith)
take_krpc-Same (krpc ∷ pool) s h = (refl, refl)

-- `cb_alloc` takes nothing out of a pool that is not empty, and allocates nothing.
cb_alloc-Same : (size : ℕ) (s : Node) → 0 < length s.recv_buf_pool → Same s (cb_alloc size s).1
unfolding cb_alloc
cb_alloc-Same size s h =
    let (krpc, s') = take_krpc s.recv_buf_pool s in
    let (p, n) = take_krpc-Same s.recv_buf_pool s h in
    let (p', n') = map_insert-Same krpc s' in
    if_elim (λ (x : Option ℕ × Node). Same s x.1) (size == 0) (λ _. (refl, refl))
      (λ _. (p' ∙ p, n' ∙ n))

cb_alloc_last :
    (size krpc : ℕ) (pool : List ℕ) (s : Node)
    → 0 < size
    → s.recv_buf_pool ≡ krpc ∷ pool
    → (cb_alloc size s).0 ≡ some krpc
unfolding cb_alloc take_krpc
cb_alloc_last size krpc pool s h e =
    let asked : size == 0 ≡ false = ground arith in rw (asked, e) refl

-- If the pool ends with `krpc`, two calls of `cb_alloc` in a row with sizes that are not 0 both hand
-- out the buffer of `krpc`; the pool is what it was before, and no `KRPC` is allocated.
pub cb_alloc-cb_alloc :
    (size size' krpc : ℕ) (pool : List ℕ) (s : Node)
    → 0 < size
    → 0 < size'
    → s.recv_buf_pool ≡ krpc ∷ pool
    → ((cb_alloc size s).0 ≡ some krpc)
      × ((cb_alloc size' (cb_alloc size s).1).0 ≡ some krpc)
      × ((cb_alloc size' (cb_alloc size s).1).1.recv_buf_pool ≡ s.recv_buf_pool)
      × ((cb_alloc size' (cb_alloc size s).1).1.n_krpcs ≡ s.n_krpcs)
cb_alloc-cb_alloc size size' krpc pool s a b e =
    let some_left : 0 < length s.recv_buf_pool = rw e (omega arith) in
    let (p, n) = cb_alloc-Same size s some_left in
    let (p', n') = cb_alloc-Same size' (cb_alloc size s).1 (rw p some_left) in
    (
      cb_alloc_last size krpc pool s a e,
      cb_alloc_last size' krpc pool (cb_alloc size s).1 b (p ∙ e),
      p' ∙ p,
      n' ∙ n,
    )

-- The pool has not shrunk, and nothing was allocated.
abbrev pub Grows : Node → Node → Type 0
Grows s s' = (length s.recv_buf_pool ≤ length s'.recv_buf_pool) × (s'.n_krpcs ≡ s.n_krpcs)

-- Sending does not touch the pool.
module _ (uv : Uv) where
  take_request-Same : (bufs : List Bytes) (s : Node) → Same s (take_request uv bufs s).1
  unfolding take_request
  take_request-Same [] s = (refl, refl)
  take_request-Same (buf ∷ bufs) s = (refl, refl)

  send_msg-Same :
      (write_fn : Bytes → Written) (dest : Peerinfo) (acct : Stat) (s : Node)
      → Same s (send_msg uv write_fn dest acct s)
  unfolding send_msg
  send_msg-Same write_fn dest acct s =
      let (buf, s₁) = take_request uv s.send_req_pool s in
      let taken = take_request-Same s.send_req_pool s in
      if_elim (Same s) (not (validate_addr dest.in_addr dest.sin_port)) (λ _. (refl, refl))
        (λ _. if_elim (Same s) (uv.takes s₁.n_sends) (λ _. taken) (λ _. taken))

  Acts-Same : {s s' : Node} → Acts uv s s' → Same s s'
  Acts-Same stays = (refl, refl)
  Acts-Same (sends {s'} write_fn dest acct is a) =
      let (p, n) = Acts-Same a in
      let (p', n') = send_msg-Same write_fn dest acct s' in (p' ∙ p, n' ∙ n)
  Acts-Same (changes k a) = let (p, n) = Acts-Same a in (k.recv_buf_pool ∙ p, k.n_krpcs ∙ n)

  cb_send_msg-Same : (failed : Bool) (n : ℕ) (s : Node) → Same s (cb_send_msg failed n s)
  unfolding cb_send_msg
  cb_send_msg-Same true n s = (refl, refl)
  cb_send_msg-Same false n s = (refl, refl)

  Same-Grows : (s s' : Node) → Same s s' → Grows s s'
  Same-Grows s s' (p, n) = (omega (arith, ap length p), n)

  Receives-Grows : (base : ℕ) {s s' : Node} → Receives uv base s s' → Grows s s'
  Receives-Grows base (frees krpcs a) = let (p, n) = Acts-Same a in (omega (arith, ap length p), n)
  Receives-Grows base {s} {s'} (drops krpcs a) = Same-Grows s s' (Acts-Same a)

  Step-Grows : {s s' : Node} → IsUv uv → 0 < length s.recv_buf_pool → Step uv s s' → Grows s s'
  unfolding loop_bootstrap_cb loop_statgather_cb
  Step-Grows {s} is_uv h (alloc size) = Same-Grows s (cb_alloc size s).1 (cb_alloc-Same size s h)
  Step-Grows {s} is_uv h (receive base contents nread saddr e) =
      Receives-Grows base
        (cb_recv_msg-Receives uv base nread saddr (deliver base contents s) is_uv e)
  Step-Grows {s} is_uv h (sent failed n) =
      Same-Grows s (cb_send_msg failed n s) (cb_send_msg-Same failed n s)
  Step-Grows {s} is_uv h (bootstrap target) =
      let write_fn = λ (buf : Bytes). Msg.q_fn buf bootstrap_node.nid target in
      Same-Grows s (send_msg uv write_fn bootstrap_node.peerinfo tx_q_fn s)
        (send_msg-Same write_fn bootstrap_node.peerinfo tx_q_fn s)
  Step-Grows {s} is_uv h (statgather calls) = (omega arith, refl)

-- Once the pool has a buffer, whatever the callbacks do, the pool never has fewer buffers, and no
-- `KRPC` is ever allocated; the two statistics that are not declared are taken to be other ones than
-- those of sending.
pub Reach-Grows :
    {uv : Uv} {s s' : Node} → IsUv uv → 0 < length s.recv_buf_pool → Reach uv s s' → Grows s s'
Reach-Grows is_uv h start = (omega arith, refl)
Reach-Grows {uv} is_uv h (then_step r step) =
    let (p, n) = Reach-Grows is_uv h r in
    let (p', n') = Step-Grows uv is_uv (omega arith) step in (omega arith, n' ∙ n)
