-- ===== src/Server/Answers/Dispatch.antt =====
-- cht/server.hpp: what `handle_recv` sends for a query that was decoded.
use dht_cpp.Base.{
  take, ℕ, List, [], ◌∷◌, Bytes, length, Option, none, some, ok, ◌==◌, if◌then◌else◌, ◌⊎◌, inl, inr,
  if_elim, ◌≡◌, refl, ◌∙◌, arith,
}
use dht_cpp.Dht.{Nih, IsNih, PNode, nih_len, checksum}
use dht_cpp.Gpm
use dht_cpp.Krpc.Flags.{q_fn, q_gp}
use dht_cpp.Krpc.Reply.{KReply, k_reply}
use dht_cpp.Krpc.State.{Krpc, bytes_at}
use dht_cpp.Msg
use dht_cpp.Msg.Exchange.{sent, sent-Has}
use dht_cpp.Msg.Layout.{AsksFor}
use dht_cpp.Msg.Writers.{q_gp-Has}
use dht_cpp.Msg.{Written, msg_buf_len}
use dht_cpp.Rt
use dht_cpp.Rt.Contacts.{IsRt}
use dht_cpp.Rt.Search.{get_neighbor_contact-IsNih, get_random_valid_node-IsNih}
use dht_cpp.Rt.{Contact}
use dht_cpp.Server.Answers.{reply_id}
use dht_cpp.Server.Handlers.{nih_at, insert_sender, net_port, on_q_fn, on_q_gp, pursue, dispatch}
use dht_cpp.Server.Invariant.Parts.{get_neighbor_contact-cells}
use dht_cpp.Server.Invariant.{AllSized}
use dht_cpp.Server.Send.{take_from, take_send_buf, send_msg}
use dht_cpp.Server.State.{
  Server, Packet, Endpoint, as_endpoint, count_stat, in_addr, rt_of, with_rt, gpm_of, with_gpm,
}
use dht_cpp.Stat.{rx_q_fn, rx_q_gp}

take_from-in_flight :
    (bufs : List Bytes) (s : Server) → (take_from bufs s).1.in_flight ≡ s.in_flight
unfolding take_from
take_from-in_flight [] s = refl
take_from-in_flight (buf ∷ bufs) s = refl

send_msg-in_flight :
    (write_fn : Bytes → Written) (dest : Endpoint) (s : Server)
    → let (written, len) = write_fn (take_send_buf s).0 in
      (send_msg write_fn dest s).in_flight
      ≡ record { buf = written; len = len; dest = dest } ∷ s.in_flight
unfolding send_msg take_send_buf
send_msg-in_flight write_fn dest s = rw (take_from-in_flight s.send_bufs s) refl

-- The packet that answers a find_node query with the node `p`.
abbrev pub node_answer : KReply → PNode → Endpoint → Server → Packet
node_answer krp p sender s =
    let (written, len) = Msg.r_fn (take_send_buf s).0 krp p in
    record { buf = written; len = len; dest = sender }

-- The server behind the search for a contact.
abbrev pub searched : Nih → Server → Server
searched x s = let s' = count_stat rx_q_fn s in with_rt s' (Rt.get_neighbor_contact x (rt_of s')).1

pub find_node_dispatch :
    (k : Krpc) (sender : Endpoint) (s : Server) (x : Nih) {krp : KReply}
    → k.method ≡ q_fn
    → bytes_at k k.target nih_len ≡ ok x
    → k_reply k ≡ ok krp
    → (s' : Server) × (dispatch k sender s ≡ ok s')
      × (s'.in_flight
          ≡ node_answer krp
              (Rt.get_neighbor_contact x (rt_of (count_stat rx_q_fn s))).0
              sender
              (searched x s)
            ∷ s.in_flight)
unfolding dispatch on_q_fn insert_sender
find_node_dispatch k sender s x {krp} m target e =
    let (nid, id) = reply_id k e in
    let node = (Rt.get_neighbor_contact x (rt_of (count_stat rx_q_fn s))).0 in
    let s₁ = send_msg (λ buf. Msg.r_fn buf krp node) sender (searched x s) in
    (
      with_rt s₁ (Rt.insert_contact nid (in_addr sender) (net_port sender) (rt_of s₁)),
      rw (target, e, id, m) refl,
      send_msg-in_flight (λ buf. Msg.r_fn buf krp node) sender (searched x s),
    )

-- The buffers for sending have their size.
abbrev pub HasBuffers : Server → Type 0
HasBuffers s = AllSized s.send_bufs × (length s.garbage ≡ msg_buf_len)

take_from-HasBuffers :
    (bufs : List Bytes) (s : Server)
    → AllSized bufs
    → HasBuffers s
    → (length (take_from bufs s).0 ≡ msg_buf_len) × HasBuffers (take_from bufs s).1
unfolding take_from
take_from-HasBuffers [] s a (b, g) = (g, (b, g))
take_from-HasBuffers (buf ∷ bufs) s (b, a) (_, g) = (b, (a, g))

pub take_send_buf-Sized : (s : Server) → HasBuffers s → length (take_send_buf s).0 ≡ msg_buf_len
unfolding take_send_buf
take_send_buf-Sized s h = (take_from-HasBuffers s.send_bufs s h.0 h).0

send_msg-HasBuffers :
    (write_fn : Bytes → Written) (dest : Endpoint) (s : Server)
    → HasBuffers s
    → HasBuffers (send_msg write_fn dest s)
unfolding send_msg take_send_buf
send_msg-HasBuffers write_fn dest s h = (take_from-HasBuffers s.send_bufs s h.0 h).1

-- The bytes of a packet.
abbrev pub payload : Packet → Bytes
payload p = take p.len p.buf

-- At most one packet more, which is a get_peers query for the info hash.
abbrev pub OneMore : Nih → List Packet → List Packet → Type 0
OneMore ih ps ps' = (ps' ≡ ps) ⊎ ((p : Packet) × AsksFor ih (payload p) × (ps' ≡ p ∷ ps))

-- What the pursuit of an info hash leaves for the answer.
record Pursues (ih : Nih) (s : Server) (r : PNode × Server) : Type 0 where
  node : IsNih r.0.nid
  bufs : HasBuffers r.1
  flight : OneMore ih s.in_flight r.1.in_flight

pursue-Pursues :
    (tok : Option ℕ) (k : Krpc) (ih nid : Nih) (neig : PNode) (s : Server)
    → nih_at k k.nid ≡ ok nid
    → IsNih ih
    → IsNih neig.nid
    → IsRt (rt_of s)
    → HasBuffers s
    → (r : PNode × Server) × (pursue tok k ih neig s ≡ ok r) × Pursues ih s r
unfolding pursue sent
pursue-Pursues none k ih nid neig s id x h rt b =
    ((neig, s), refl, record { node = h; bufs = b; flight = inl refl })
pursue-Pursues (some tok) k ih nid neig s id x h rt b =
    let found : Contact =
      if checksum neig.nid == checksum nid
      then Rt.get_random_valid_node (rt_of s)
      else (neig, rt_of s) in
    let write = λ (buf : Bytes). Msg.q_gp buf found.0.nid ih tok in
    let is_node =
      if_elim (λ (c : Contact). IsNih c.0.nid) (checksum neig.nid == checksum nid)
        (λ _. get_random_valid_node-IsNih (rt_of s) rt) (λ _. h) in
    let sized = take_send_buf-Sized (with_rt s found.1) b in
    let asks = sent-Has (q_gp-Has _ sized found.0.nid ih tok is_node x) in
    let s' = send_msg write (as_endpoint found.0.peerinfo) (with_rt s found.1) in
    (
      (found.0, with_gpm s' (Gpm.register_q_gp_ihash found.0.nid ih 0 tok (gpm_of s'))),
      rw id refl,
      record {
        node = is_node;
        bufs = send_msg-HasBuffers write (as_endpoint found.0.peerinfo) (with_rt s found.1) b;
        flight = inr (
          _,
          (found.0.nid, tok, asks),
          send_msg-in_flight write (as_endpoint found.0.peerinfo) (with_rt s found.1),
        );
      },
    )

-- The packet that answers a get_peers query with the node `p`.
abbrev pub peers_answer : KReply → PNode → Endpoint → Server → Packet
peers_answer krp p sender s =
    let (written, len) = Msg.r_gp (take_send_buf s).0 krp p in
    record { buf = written; len = len; dest = sender }

-- The server in front of the pursuit, and the node for the answer.
abbrev tokened : Server → Server
tokened s = let s' = count_stat rx_q_gp s in with_gpm s' (Gpm.decide_pursue_q_gp_ih (gpm_of s')).gpm

abbrev token_of : Server → Option ℕ
token_of s = (Gpm.decide_pursue_q_gp_ih (gpm_of (count_stat rx_q_gp s))).tok

dispatch-on_q_gp :
    (k : Krpc) (sender : Endpoint) (s : Server)
    → k.method ≡ q_gp
    → dispatch k sender s ≡ on_q_gp k sender s
unfolding dispatch
dispatch-on_q_gp k sender s m = ground (arith, m)

on_q_gp_runs :
    (k : Krpc) (sender : Endpoint) (s : Server) (x nid : Nih) (krp : KReply) (r : PNode × Server)
    → bytes_at k k.ih nih_len ≡ ok x
    → nih_at k k.nid ≡ ok nid
    → k_reply k ≡ ok krp
    → pursue
        (token_of s)
        k
        x
        (Rt.get_neighbor_contact x (rt_of (tokened s))).0
        (with_rt (tokened s) (Rt.get_neighbor_contact x (rt_of (tokened s))).1)
      ≡ ok r
    → on_q_gp k sender s
      ≡ ok (
          let s₂ = send_msg (λ buf. Msg.r_gp buf krp r.0) sender r.1 in
          with_rt s₂ (Rt.insert_contact nid (in_addr sender) (net_port sender) (rt_of s₂)))
unfolding on_q_gp insert_sender
on_q_gp_runs k sender s x nid krp r ih id e pursues = rw (ih, pursues, e, id) refl

pub get_peers_dispatch :
    (k : Krpc) (sender : Endpoint) (s : Server) (x : Nih) {krp : KReply}
    → k.method ≡ q_gp
    → bytes_at k k.ih nih_len ≡ ok x
    → k_reply k ≡ ok krp
    → IsNih x
    → IsRt (rt_of s)
    → HasBuffers s
    → (s' : Server) × (p : PNode) × (t : Server) × (dispatch k sender s ≡ ok s')
      × IsNih p.nid
      × (length (take_send_buf t).0 ≡ msg_buf_len)
      × OneMore x s.in_flight t.in_flight
      × (s'.in_flight ≡ peers_answer krp p sender t ∷ t.in_flight)
get_peers_dispatch k sender s x {krp} m ih e h rt b =
    let (nid, id) = reply_id k e in
    let s₁ = tokened s in
    let (neig, t) = Rt.get_neighbor_contact x (rt_of s₁) in
    let same_rt : IsRt t = rw (get_neighbor_contact-cells x (rt_of s₁)) rt in
    let (r, pursues, pursued) =
      pursue-Pursues (token_of s) k x nid neig (with_rt s₁ t) id h
        (get_neighbor_contact-IsNih x (rt_of s₁) h rt) same_rt b in
    let s₂ = send_msg (λ buf. Msg.r_gp buf krp r.0) sender r.1 in
    (
      with_rt s₂ (Rt.insert_contact nid (in_addr sender) (net_port sender) (rt_of s₂)),
      r.0,
      r.1,
      dispatch-on_q_gp k sender s m ∙ on_q_gp_runs k sender s x nid krp r ih id e pursues,
      pursued.node,
      take_send_buf-Sized r.1 pursued.bufs,
      pursued.flight,
      send_msg-in_flight (λ buf. Msg.r_gp buf krp r.0) sender r.1,
    )
