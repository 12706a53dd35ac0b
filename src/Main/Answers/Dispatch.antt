-- ===== src/Main/Answers/Dispatch.antt =====
-- cht/main.cpp: what `handle_msg` sends for a query that was decoded.
use dht_cpp.Base.{
  ℕ, ◌∷◌, Bytes, length, Option, none, some, true, ok, ◌==◌, if◌then◌else◌, inl, if_elim, ◌≡◌, refl,
  ◌∙◌, arith,
}
use dht_cpp.Dht.{Nih, IsNih, PNode, Peerinfo, nih_len, checksum}
use dht_cpp.Gpm
use dht_cpp.Krpc.Flags.{q_pg, q_fn, q_gp}
use dht_cpp.Krpc.Reply.{KReply, k_reply}
use dht_cpp.Krpc.State.{Krpc, bytes_at}
use dht_cpp.Main.Handlers.{
  insert_saddr, handle_q_pg, handle_q_fn, handle_q_gp, pursue_ih, handle_msg,
}
use dht_cpp.Main.Send.{send_msg}
use dht_cpp.Main.State.{Uv, Node, Request, count_stat, gpm_of, with_gpm, rt_of, with_rt}
use dht_cpp.Msg
use dht_cpp.Msg.{Written, msg_buf_len}
use dht_cpp.Rt
use dht_cpp.Rt.Address.{validate_addr}
use dht_cpp.Rt.Contacts.{IsRt}
use dht_cpp.Rt.Search.{get_neighbor_contact-IsNih, get_random_valid_node-IsNih}
use dht_cpp.Rt.{Contact}
use dht_cpp.Server.Answers.{reply_id}
use dht_cpp.Server.Handlers.{nih_at}
use dht_cpp.Server.Invariant.Parts.{get_neighbor_contact-cells}
use dht_cpp.Stat.{tx_r_pg, tx_r_fn, tx_r_gp, tx_q_gp, rx_q_pg, rx_q_fn, rx_q_gp}
use dht_cpp.Main.Answers.Sends.{
  OneMore, HasBuffers, next_buf, next_buf-Sized, request, send_msg-pending, send_msg-HasBuffers,
  q_gp-OneMore,
}

module _ (uv : Uv) where
  -- The sender has a valid address, and libuv takes every packet.
  module _ (saddr : Peerinfo) (valid : validate_addr saddr.in_addr saddr.sin_port ≡ true)
      (takes : (n : ℕ) → uv.takes n ≡ true) where
    -- The sender is kept behind the answer.
    abbrev keeps_sender : Nih → Node → Node
    keeps_sender nid s = with_rt s (Rt.insert_contact nid saddr.in_addr saddr.sin_port (rt_of s))

    abbrev pub ping_answer : KReply → Node → Request
    ping_answer krp s = request uv (λ buf. Msg.r_pg buf krp) saddr s

    pub ping_pending :
        (k : Krpc) (s : Node) {krp : KReply}
        → k.method ≡ q_pg
        → k_reply k ≡ ok krp
        → (s' : Node) × (handle_msg uv k saddr s ≡ ok s')
          × (s'.pending ≡ ping_answer krp (count_stat rx_q_pg s) ∷ s.pending)
    unfolding handle_msg handle_q_pg insert_saddr
    ping_pending k s {krp} m e =
        let (nid, id) = reply_id k e in
        let write = λ (buf : Bytes). Msg.r_pg buf krp in
        (
          keeps_sender nid (send_msg uv write saddr tx_r_pg (count_stat rx_q_pg s)),
          rw (e, id, m) refl,
          send_msg-pending uv write saddr tx_r_pg (count_stat rx_q_pg s) valid (takes s.n_sends),
        )

    -- The state behind the search for a contact.
    abbrev pub searched : Nih → Node → Node
    searched x s =
        let s' = count_stat rx_q_fn s in with_rt s' (Rt.get_neighbor_contact x (rt_of s')).1

    abbrev pub found : Nih → Node → PNode
    found x s = (Rt.get_neighbor_contact x (rt_of (count_stat rx_q_fn s))).0

    abbrev pub node_answer : KReply → Nih → Node → Request
    node_answer krp x s = request uv (λ buf. Msg.r_fn buf krp (found x s)) saddr (searched x s)

    pub find_node_pending :
        (k : Krpc) (s : Node) (x : Nih) {krp : KReply}
        → k.method ≡ q_fn
        → bytes_at k k.target nih_len ≡ ok x
        → k_reply k ≡ ok krp
        → (s' : Node) × (handle_msg uv k saddr s ≡ ok s')
          × (s'.pending ≡ node_answer krp x s ∷ s.pending)
    unfolding handle_msg handle_q_fn insert_saddr
    find_node_pending k s x {krp} m target e =
        let (nid, id) = reply_id k e in
        let write = λ (buf : Bytes). Msg.r_fn buf krp (found x s) in
        (
          keeps_sender nid (send_msg uv write saddr tx_r_fn (searched x s)),
          rw (target, e, id, m) refl,
          send_msg-pending uv write saddr tx_r_fn (searched x s) valid (takes s.n_sends),
        )

  -- What the pursuit of an info hash leaves for the answer.
  record Pursues (ih : Nih) (s : Node) (r : PNode × Node) : Type 0 where
    node : IsNih r.0.nid
    bufs : HasBuffers uv r.1
    pending : OneMore ih s.pending r.1.pending

  pursue_ih-Pursues :
      (tok : Option ℕ) (k : Krpc) (ih nid : Nih) (neig : PNode) (s : Node)
      → nih_at k k.nid ≡ ok nid
      → IsNih ih
      → IsNih neig.nid
      → IsRt (rt_of s)
      → HasBuffers uv s
      → (r : PNode × Node) × (pursue_ih uv tok k ih neig s ≡ ok r) × Pursues ih s r
  unfolding pursue_ih
  pursue_ih-Pursues none k ih nid neig s id x h rt b =
      ((neig, s), refl, record { node = h; bufs = b; pending = inl refl })
  pursue_ih-Pursues (some tok) k ih nid neig s id x h rt b =
      let found : Contact =
        if checksum neig.nid == checksum nid
        then Rt.get_random_valid_node (rt_of s)
        else (neig, rt_of s) in
      let write = λ (buf : Bytes). Msg.q_gp buf found.0.nid ih tok in
      let is_node =
        if_elim (λ (c : Contact). IsNih c.0.nid) (checksum neig.nid == checksum nid)
          (λ _. get_random_valid_node-IsNih (rt_of s) rt) (λ _. h) in
      let s' = send_msg uv write found.0.peerinfo tx_q_gp (with_rt s found.1) in
      (
        (found.0, with_gpm s' (Gpm.register_q_gp_ihash found.0.nid ih 0 tok (gpm_of s'))),
        rw id refl,
        record {
          node = is_node;
          bufs = send_msg-HasBuffers uv write found.0.peerinfo tx_q_gp (with_rt s found.1) b;
          pending =
              q_gp-OneMore uv found.0.nid ih tok found.0.peerinfo tx_q_gp (with_rt s found.1)
                is_node x b;
        },
      )

  -- The state in front of the pursuit, and its token.
  abbrev tokened : Node → Node
  tokened s =
      let s' = count_stat rx_q_gp s in with_gpm s' (Gpm.decide_pursue_q_gp_ih (gpm_of s')).gpm

  abbrev token_of : Node → Option ℕ
  token_of s = (Gpm.decide_pursue_q_gp_ih (gpm_of (count_stat rx_q_gp s))).tok

  handle_msg-handle_q_gp :
      (k : Krpc) (saddr : Peerinfo) (s : Node)
      → k.method ≡ q_gp
      → handle_msg uv k saddr s ≡ handle_q_gp uv k saddr s
  unfolding handle_msg
  handle_msg-handle_q_gp k saddr s m = ground (arith, m)

  handle_q_gp_runs :
      (k : Krpc) (saddr : Peerinfo) (s : Node) (x nid : Nih) (krp : KReply) (r : PNode × Node)
      → bytes_at k k.ih nih_len ≡ ok x
      → nih_at k k.nid ≡ ok nid
      → k_reply k ≡ ok krp
      → pursue_ih uv
          (token_of s)
          k
          x
          (Rt.get_neighbor_contact x (rt_of (tokened s))).0
          (with_rt (tokened s) (Rt.get_neighbor_contact x (rt_of (tokened s))).1)
        ≡ ok r
      → handle_q_gp uv k saddr s
        ≡ ok (
            let s₂ = send_msg uv (λ buf. Msg.r_gp buf krp r.0) saddr tx_r_gp r.1 in
            with_rt s₂ (Rt.insert_contact nid saddr.in_addr saddr.sin_port (rt_of s₂)))
  unfolding handle_q_gp insert_saddr
  handle_q_gp_runs k saddr s x nid krp r ih id e pursues = rw (ih, pursues, e, id) refl

  -- The request that answers a get_peers query with the node `p`.
  abbrev pub peers_answer : KReply → PNode → Peerinfo → Node → Request
  peers_answer krp p saddr s = request uv (λ buf. Msg.r_gp buf krp p) saddr s

  pub get_peers_pending :
      (saddr : Peerinfo) (k : Krpc) (s : Node) (x : Nih) {krp : KReply}
      → validate_addr saddr.in_addr saddr.sin_port ≡ true
      → ((n : ℕ) → uv.takes n ≡ true)
      → k.method ≡ q_gp
      → bytes_at k k.ih nih_len ≡ ok x
      → k_reply k ≡ ok krp
      → IsNih x
      → IsRt (rt_of s)
      → HasBuffers uv s
      → (s' : Node) × (p : PNode) × (t : Node) × (handle_msg uv k saddr s ≡ ok s')
        × IsNih p.nid
        × (length (next_buf uv t) ≡ msg_buf_len)
        × OneMore x s.pending t.pending
        × (s'.pending ≡ peers_answer krp p saddr t ∷ t.pending)
  get_peers_pending saddr k s x {krp} valid takes m ih e h rt b =
      let (nid, id) = reply_id k e in
      let s₁ = tokened s in
      let (neig, t) = Rt.get_neighbor_contact x (rt_of s₁) in
      let same_rt : IsRt t = rw (get_neighbor_contact-cells x (rt_of s₁)) rt in
      let (r, pursues, pursued) =
        pursue_ih-Pursues (token_of s) k x nid neig (with_rt s₁ t) id h
          (get_neighbor_contact-IsNih x (rt_of s₁) h rt) same_rt b in
      let s₂ = send_msg uv (λ buf. Msg.r_gp buf krp r.0) saddr tx_r_gp r.1 in
      (
        with_rt s₂ (Rt.insert_contact nid saddr.in_addr saddr.sin_port (rt_of s₂)),
        r.0,
        r.1,
        handle_msg-handle_q_gp k saddr s m ∙ handle_q_gp_runs k saddr s x nid krp r ih id e pursues,
        pursued.node,
        next_buf-Sized uv r.1 pursued.bufs,
        pursued.pending,
        send_msg-pending uv (λ buf. Msg.r_gp buf krp r.0) saddr tx_r_gp r.1 valid
            (takes r.1.n_sends),
      )
