-- ===== src/Main/Answers/Sends.antt =====
-- cht/main.cpp: what `send_msg` leaves pending.
use dht_cpp.Base.{
  ℕ, take, List, [], ◌∷◌, Bytes, length, true, not, ◌⊎◌, inl, inr, if_elim, ◌≡◌, refl, ap,
}
use dht_cpp.Msg
use dht_cpp.Msg.Exchange.{sent, sent-Has}
use dht_cpp.Msg.Layout.{AsksFor}
use dht_cpp.Msg.Writers.{q_gp-Has}
use dht_cpp.Dht.{Nih, IsNih, Peerinfo}
use dht_cpp.Main.Send.{take_request, send_msg}
use dht_cpp.Main.State.{Uv, Node, Request}
use dht_cpp.Msg.{Written, msg_buf_len}
use dht_cpp.Rt.Address.{validate_addr}
use dht_cpp.Server.Invariant.{AllSized}
use dht_cpp.Stat.{Stat}

-- The bytes of a request.
abbrev pub payload : Request → Bytes
payload p = take p.len p.buf

-- At most one request more, which is a get_peers query for the info hash.
abbrev pub OneMore : Nih → List Request → List Request → Type 0
OneMore ih ps ps' = (ps' ≡ ps) ⊎ ((p : Request) × AsksFor ih (payload p) × (ps' ≡ p ∷ ps))

module _ (uv : Uv) where
  -- The buffers for sending have their size.
  abbrev pub HasBuffers : Node → Type 0
  HasBuffers s = AllSized s.send_req_pool × (length uv.garbage ≡ msg_buf_len)

  -- The buffer of the next request.
  abbrev pub next_buf : Node → Bytes
  next_buf s = (take_request uv s.send_req_pool s).0

  take_request-HasBuffers :
      (bufs : List Bytes) (s : Node)
      → AllSized bufs
      → HasBuffers s
      → (length (take_request uv bufs s).0 ≡ msg_buf_len) × HasBuffers (take_request uv bufs s).1
  unfolding take_request
  take_request-HasBuffers [] s a (b, g) = (g, (b, g))
  take_request-HasBuffers (buf ∷ bufs) s (b, a) (_, g) = (b, (a, g))

  pub next_buf-Sized : (s : Node) → HasBuffers s → length (next_buf s) ≡ msg_buf_len
  next_buf-Sized s h = (take_request-HasBuffers s.send_req_pool s h.0 h).0

  take_request_same :
      (bufs : List Bytes) (s : Node)
      → ((take_request uv bufs s).1.pending ≡ s.pending)
        × ((take_request uv bufs s).1.n_sends ≡ s.n_sends)
  unfolding take_request
  take_request_same [] s = (refl, refl)
  take_request_same (buf ∷ bufs) s = (refl, refl)

  -- The request that a call of `send_msg` makes.
  abbrev pub request : (Bytes → Written) → Peerinfo → Node → Request
  request write_fn dest s =
      let (written, len) = write_fn (next_buf s) in record { buf = written; len = len; dest = dest }

  -- To an address that is valid, a packet that libuv takes.
  pub send_msg-pending :
      (write_fn : Bytes → Written) (dest : Peerinfo) (acct : Stat) (s : Node)
      → validate_addr dest.in_addr dest.sin_port ≡ true
      → uv.takes s.n_sends ≡ true
      → (send_msg uv write_fn dest acct s).pending ≡ request write_fn dest s ∷ s.pending
  unfolding send_msg
  send_msg-pending write_fn dest acct s valid taken =
      let (same, next) = take_request_same s.send_req_pool s in rw (valid, next, taken, same) refl

  pub send_msg-HasBuffers :
      (write_fn : Bytes → Written) (dest : Peerinfo) (acct : Stat) (s : Node)
      → HasBuffers s
      → HasBuffers (send_msg uv write_fn dest acct s)
  unfolding send_msg
  send_msg-HasBuffers write_fn dest acct s h =
      let taken = (take_request-HasBuffers s.send_req_pool s h.0 h).1 in
      if_elim HasBuffers (not (validate_addr dest.in_addr dest.sin_port)) (λ _. h)
        (λ _.
          if_elim HasBuffers (uv.takes (take_request uv s.send_req_pool s).1.n_sends) (λ _. taken)
            (λ _. taken))

  -- Whatever the address is and libuv does.
  pub send_msg_adds :
      (write_fn : Bytes → Written) (dest : Peerinfo) (acct : Stat) (s : Node)
      → ((send_msg uv write_fn dest acct s).pending ≡ s.pending)
        ⊎ ((send_msg uv write_fn dest acct s).pending ≡ request write_fn dest s ∷ s.pending)
  unfolding send_msg
  send_msg_adds write_fn dest acct s =
      let (same, _) = take_request_same s.send_req_pool s in
      let More =
        λ (t : Node). (t.pending ≡ s.pending) ⊎ (t.pending ≡ request write_fn dest s ∷ s.pending) in
      if_elim More (not (validate_addr dest.in_addr dest.sin_port)) (λ _. inl refl)
        (λ _.
          if_elim More (uv.takes (take_request uv s.send_req_pool s).1.n_sends)
            (λ _. inr (ap (λ ps. request write_fn dest s ∷ ps) same)) (λ _. inl same))

  -- A get_peers query.
  pub q_gp-OneMore :
      (nid ih : Nih) (tok : ℕ) (dest : Peerinfo) (acct : Stat) (s : Node)
      → IsNih nid
      → IsNih ih
      → HasBuffers s
      → OneMore ih s.pending (send_msg uv (λ buf. Msg.q_gp buf nid ih tok) dest acct s).pending
  unfolding sent
  q_gp-OneMore nid ih tok dest acct s h h' b =
      elim (send_msg_adds (λ buf. Msg.q_gp buf nid ih tok) dest acct s) [
        | inl same ↦ inl same
        | inr more ↦
            let asks = sent-Has (q_gp-Has (next_buf s) (next_buf-Sized s b) nid ih tok h h') in
            inr (_, (nid, tok, asks), more)
      ]
