-- ===== src/Server/Answers/Queries.antt =====
-- cht/server.hpp: every query of another node is answered.
use dht_cpp.Base.{
  ◌≤◌, ◌<◌, false, List, ◌∷◌, ◌++◌, Bytes, length, Option, ok, ◌≡◌, refl, sym, ap, subst, ◌∙◌,
  arith, each_byte, each_two,
}
use dht_cpp.Dht.{Nih, IsNih, PNode, nih_len, min_msg_len}
use dht_cpp.Krpc.Flags.{maxlen, maxlen_tok}
use dht_cpp.Krpc.Reply.{KReply, k_reply}
use dht_cpp.Krpc.State.{Krpc}
use dht_cpp.Krpc.Tokens.Accepts.{Answers, query-Accepts}
use dht_cpp.Krpc.Tokens.Queries.{
  Question, alive, nodes_near, peers_for, IsQuestion, method_of, text_of,
}
use dht_cpp.Msg.Exchange.{sent, sent-Has}
use dht_cpp.Msg.Layout.{sid, ping_reply, find_node_reply, get_peers_reply}
use dht_cpp.Msg.Writers.Replies.{r_pg-Has, r_fn-Has, r_gp-Has}
use dht_cpp.Msg.{decimal}
use dht_cpp.Rt
use dht_cpp.Rt.Search.{get_neighbor_contact-IsNih}
use dht_cpp.Server.Answers.Contacts.{get_neighbor_contact-counters}
use dht_cpp.Server.Answers.Dispatch.{
  HasBuffers, take_send_buf-Sized, payload, OneMore, searched, node_answer, peers_answer,
  find_node_dispatch, get_peers_dispatch,
}
use dht_cpp.Server.Answers.{decoded, ping_answer, accepted_dispatch, ping_dispatch, passes}
use dht_cpp.Server.Handlers.{dispatch}
use dht_cpp.Server.Invariant.{IsServer}
use dht_cpp.Server.Receive.{handle_recv}
use dht_cpp.Server.Send.{take_send_buf}
use dht_cpp.Server.State.{Server, Packet, Endpoint, count_stat, rt_of}
use dht_cpp.Spam.Buckets.{tokens}
use dht_cpp.Spam.{max_rx}
use dht_cpp.Stat.{rx_tot, rx_q_fn}

pub text_of-min_msg_len :
    (q : Question) (id : Nih) (tok : Bytes) (v : Option Bytes)
    → IsNih id
    → IsQuestion q
    → min_msg_len ≤ length (text_of q id tok v)
unfolding decimal
text_of-min_msg_len alive id tok v h h' =
    each_byte nih_len (λ y. min_msg_len ≤ length (text_of alive y tok v))
      (λ a b c d e f g h i j k l m n o p q r s t. omega arith) id h
text_of-min_msg_len (nodes_near x) id tok v h h' =
    each_two nih_len (λ y z. min_msg_len ≤ length (text_of (nodes_near z) y tok v))
      (λ a b c d e f g h i j k l m n o p q r s t a' b' c' d' e' f' g' h' i' j' k' l' m' n' o' p' q'
          r' s' t'.
        omega arith)
      id x h h'
text_of-min_msg_len (peers_for x) id tok v h h' =
    each_two nih_len (λ y z. min_msg_len ≤ length (text_of (peers_for z) y tok v))
      (λ a b c d e f g h i j k l m n o p q r s t a' b' c' d' e' f' g' h' i' j' k' l' m' n' o' p' q'
          r' s' t'.
        omega arith)
      id x h h'

-- The text is the reply that the server owes to the question of `id` with `tok`: to a find_node query
-- with the node that the routing table has for the target, to a get_peers query with any node.
abbrev pub IsReply : Question → Server → Nih → Bytes → Bytes → Type 0
IsReply alive s id tok text = text ≡ ping_reply (sid id) tok
IsReply (nodes_near x) s id tok text =
    text ≡ find_node_reply (sid id) (Rt.get_neighbor_contact x (rt_of s)).0 tok
IsReply (peers_for x) s id tok text =
    (p : PNode) × IsNih p.nid × (text ≡ get_peers_reply (sid id) p tok)

-- What else is sent: nothing, but for a get_peers query one get_peers query for its info hash at most.
abbrev pub IsRest : Question → List Packet → List Packet → Type 0
IsRest (peers_for x) ps ps' = OneMore x ps ps'
IsRest q ps ps' = ps' ≡ ps

pub record Replies (q : Question) (id : Nih) (tok : Bytes) (sender : Endpoint) (s s' : Server)
    : Type 0 where
  pub newest : Packet
  pub others : List Packet
  pub flight : s'.in_flight ≡ newest ∷ others
  pub dest : newest.dest ≡ sender
  pub text : IsReply q s id tok (payload newest)
  pub rest : IsRest q s.in_flight others

-- The switch on the method of a question that was decoded, by a server that has changed no more than
-- its message, its tables and its statistics.
module _ (id : Nih) (tok : Bytes) (sender : Endpoint) (s : Server) (r : Krpc) (h : IsNih id)
    (short : length tok ≤ maxlen_tok) (good : IsServer s)
    (reply : k_reply r ≡ ok (record { nid = id; tok_len = length tok; tok = tok })) where
  abbrev krp : KReply
  krp = record { nid = id; tok_len = length tok; tok = tok }

  abbrev ready : Server
  ready = count_stat rx_tot (decoded r sender s)

  buffers : HasBuffers s
  buffers = (good.send_bufs, good.garbage)

  abbrev Runs : Question → Type 0
  Runs q = (s' : Server) × (dispatch r sender ready ≡ ok s') × Replies q id tok sender s s'

  dispatch-Replies : (q : Question) → r.method ≡ method_of q → Answers q r → IsQuestion q → Runs q
  unfolding sent buffers
  dispatch-Replies alive m a h' =
      let (s', runs, flight) = ping_dispatch r sender ready m reply in
      let buf = (take_send_buf ready).0 in
      let sized = take_send_buf-Sized ready buffers in
      (
        s',
        runs,
        record {
          newest = ping_answer krp sender ready;
          others = s.in_flight;
          flight = flight;
          dest = refl;
          text = sent-Has (r_pg-Has buf sized krp h refl short);
          rest = refl;
        },
      )
  dispatch-Replies (nodes_near x) m a h' =
      let node = (Rt.get_neighbor_contact x (rt_of (count_stat rx_q_fn ready))).0 in
      let same : node ≡ (Rt.get_neighbor_contact x (rt_of s)).0 =
        get_neighbor_contact-counters x (rt_of s) (rt_of (count_stat rx_q_fn ready)).counters in
      let is_node =
        subst (λ p. IsNih p.nid) (sym same) (get_neighbor_contact-IsNih x (rt_of s) h' good.rt) in
      let (s', runs, flight) = find_node_dispatch r sender ready x m a reply in
      let buf = (take_send_buf (searched x ready)).0 in
      let sized = take_send_buf-Sized (searched x ready) buffers in
      (
        s',
        runs,
        record {
          newest = node_answer krp node sender (searched x ready);
          others = s.in_flight;
          flight = flight;
          dest = refl;
          text =
              sent-Has (r_fn-Has buf sized krp h refl short node is_node)
              ∙ ap (λ p. find_node_reply (sid id) p tok) same;
          rest = refl;
        },
      )
  dispatch-Replies (peers_for x) m a h' =
      let (s', p, t, runs, is_node, sized, more, flight) =
        get_peers_dispatch r sender ready x m a reply h' good.rt buffers in
      let buf = (take_send_buf t).0 in
      (
        s',
        runs,
        record {
          newest = peers_answer krp p sender t;
          others = t.in_flight;
          flight = flight;
          dest = refl;
          text = (p, is_node, sent-Has (r_gp-Has buf sized krp h refl short p is_node));
          rest = more;
        },
      )

-- A server that keeps its invariant and has a token left for the address of the sender answers any
-- ping, find_node or get_peers query of another node with its keys in order, with ids of 20 bytes, a
-- tok of 1 to `MAXLEN_TOK` bytes, with or without a version, and shorter than `MAXLEN`. It does not
-- crash; the newest packet on its way goes to the sender, and its bytes are the reply, from the id
-- under which the server answers for the sender's, with the tok that the sender chose, and for
-- find_node with the node that the routing table has for the target. Nothing else is sent, but for a
-- get_peers query one packet at most, which is a get_peers query for the same info hash.
pub handle_recv-Replies :
    (rest : Bytes) (q : Question) (id : Nih) (tok : Bytes) (v : Option Bytes) (sender : Endpoint)
    (s : Server)
    → IsNih id
    → IsQuestion q
    → 0 < length tok
    → length tok ≤ maxlen_tok
    → length (text_of q id tok v) < maxlen
    → IsServer s
    → 0 < tokens max_rx sender.addr s.tables.g_rx_spamtable
    → s.krpc.bytes ≡ text_of q id tok v ++ rest
    → (s' : Server) × (handle_recv false (length (text_of q id tok v)) sender s ≡ ok s')
      × Replies q id tok sender s s'
handle_recv-Replies rest q id tok v sender s h h' some_tok short fits good left got =
    let (r, a, _) = query-Accepts s.krpc rest q id tok v h h' some_tok short fits got in
    let (s', runs, replies) =
      dispatch-Replies id tok sender s r h short good a.reply q a.kind a.argument h' in
    let handled =
      accepted_dispatch _ sender s r (text_of-min_msg_len q id tok v h h') fits
        (passes s sender good left) a.returns a.status in
    (s', handled ∙ runs, replies)
