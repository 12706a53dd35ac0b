-- ===== src/Main/Answers/Queries.antt =====
-- cht/main.cpp: every query of another node is answered.
use dht_cpp.Base.{
  ℕ, ◌≤◌, ◌<◌, true, List, ◌∷◌, ◌++◌, Bytes, length, Option, some, ok, ◌≡◌, refl, sym, ap, subst,
  ◌∙◌,
}
use dht_cpp.Dht.{Nih, IsNih, PNode, Peerinfo}
use dht_cpp.Krpc.Decode.{parse_msg}
use dht_cpp.Krpc.Flags.{maxlen, maxlen_tok}
use dht_cpp.Krpc.Reply.{KReply, k_reply}
use dht_cpp.Krpc.State.{Krpc, clear}
use dht_cpp.Krpc.Tokens.Accepts.{Answers, query-Accepts}
use dht_cpp.Krpc.Tokens.Queries.{
  Question, alive, nodes_near, peers_for, IsQuestion, method_of, text_of,
}
use dht_cpp.Main.Answers.Dispatch.{
  ping_answer, ping_pending, searched, node_answer, find_node_pending, peers_answer,
  get_peers_pending,
}
use dht_cpp.Main.Answers.Receives.{checked, cb_recv_msg-after_parse, after_parse-handle_msg}
use dht_cpp.Main.Answers.Sends.{HasBuffers, payload, OneMore, next_buf, next_buf-Sized}
use dht_cpp.Main.Handlers.{handle_msg}
use dht_cpp.Main.Receive.{bytes, is_mapped, free_krpc, cb_recv_msg}
use dht_cpp.Main.State.{Uv, Node, Request, count_stat, store, rt_of}
use dht_cpp.Msg.Exchange.{sent, sent-Has}
use dht_cpp.Msg.Layout.{sid, ping_reply, find_node_reply, get_peers_reply}
use dht_cpp.Msg.Writers.Replies.{r_pg-Has, r_fn-Has, r_gp-Has}
use dht_cpp.Rt
use dht_cpp.Rt.Address.{validate_addr}
use dht_cpp.Rt.Contacts.{IsRt}
use dht_cpp.Rt.Search.{get_neighbor_contact-IsNih}
use dht_cpp.Server.Answers.Contacts.{get_neighbor_contact-counters}
use dht_cpp.Server.Answers.Queries.{text_of-min_msg_len}
use dht_cpp.Spam.{spam_check_rx}
use dht_cpp.Stat.{rx_tot, rx_q_pg, rx_q_fn}

-- The text is the reply that the node owes to the question of `id` with `tok`: to a find_node query
-- with the node that the routing table has for the target, to a get_peers query with any node.
abbrev pub IsReply : Question → Node → Nih → Bytes → Bytes → Type 0
IsReply alive s id tok text = text ≡ ping_reply (sid id) tok
IsReply (nodes_near x) s id tok text =
    text ≡ find_node_reply (sid id) (Rt.get_neighbor_contact x (rt_of s)).0 tok
IsReply (peers_for x) s id tok text =
    (p : PNode) × IsNih p.nid × (text ≡ get_peers_reply (sid id) p tok)

-- What else is sent: nothing, but for a get_peers query one get_peers query for its info hash at most.
abbrev pub IsRest : Question → List Request → List Request → Type 0
IsRest (peers_for x) ps ps' = OneMore x ps ps'
IsRest q ps ps' = ps' ≡ ps

pub record Replies (q : Question) (id : Nih) (tok : Bytes) (saddr : Peerinfo) (s s' : Node)
    : Type 0 where
  pub newest : Request
  pub others : List Request
  pub pending : s'.pending ≡ newest ∷ others
  pub dest : newest.dest ≡ saddr
  pub text : IsReply q s id tok (payload newest)
  pub rest : IsRest q s.pending others

-- The node can answer the sender: its address is valid and the spam filter lets it pass; libuv takes
-- every packet; the buffers for sending and the cells of the routing table have their sizes.
pub record CanAnswer (uv : Uv) (saddr : Peerinfo) (s : Node) : Type 0 where
  pub valid : validate_addr saddr.in_addr saddr.sin_port ≡ true
  pub passes : (spam_check_rx saddr.in_addr s.tables s.counters).0 ≡ true
  pub takes : (n : ℕ) → uv.takes n ≡ true
  pub bufs : HasBuffers uv s
  pub rt : IsRt (rt_of s)

-- The state in which the message was decoded.
abbrev decoded : ℕ → Krpc → Peerinfo → Node → Node
decoded base k saddr s =
    let check = spam_check_rx saddr.in_addr s.tables s.counters in
    count_stat rx_tot (store base k (record s { tables = check.1; counters = check.2 }))

-- `handle_msg` for a question that was decoded.
module _ (uv : Uv) (base : ℕ) (id : Nih) (tok : Bytes) (saddr : Peerinfo) (s : Node) (r : Krpc)
    (h : IsNih id) (short : length tok ≤ maxlen_tok) (good : CanAnswer uv saddr s)
    (reply : k_reply r ≡ ok (record { nid = id; tok_len = length tok; tok = tok })) where
  abbrev krp : KReply
  krp = record { nid = id; tok_len = length tok; tok = tok }

  abbrev ready : Node
  ready = decoded base r saddr s

  abbrev Runs : Question → Type 0
  Runs q = (s' : Node) × (handle_msg uv r saddr ready ≡ ok s') × Replies q id tok saddr s s'

  handle_msg-Replies : (q : Question) → r.method ≡ method_of q → Answers q r → IsQuestion q → Runs q
  unfolding sent
  handle_msg-Replies alive m a h' =
      let (s', runs, pending) = ping_pending uv saddr good.valid good.takes r ready m reply in
      let s₁ = count_stat rx_q_pg ready in
      let sized = next_buf-Sized uv s₁ good.bufs in
      (
        s',
        runs,
        record {
          newest = ping_answer uv saddr good.valid good.takes krp s₁;
          others = s.pending;
          pending = pending;
          dest = refl;
          text = sent-Has (r_pg-Has (next_buf uv s₁) sized krp h refl short);
          rest = refl;
        },
      )
  handle_msg-Replies (nodes_near x) m a h' =
      let node = (Rt.get_neighbor_contact x (rt_of (count_stat rx_q_fn ready))).0 in
      let same : node ≡ (Rt.get_neighbor_contact x (rt_of s)).0 =
        get_neighbor_contact-counters x (rt_of s) (rt_of (count_stat rx_q_fn ready)).counters in
      let is_node =
        subst (λ p. IsNih p.nid) (sym same) (get_neighbor_contact-IsNih x (rt_of s) h' good.rt) in
      let (s', runs, pending) =
        find_node_pending uv saddr good.valid good.takes r ready x m a reply in
      let s₁ = searched uv saddr good.valid good.takes x ready in
      let sized = next_buf-Sized uv s₁ good.bufs in
      (
        s',
        runs,
        record {
          newest = node_answer uv saddr good.valid good.takes krp x ready;
          others = s.pending;
          pending = pending;
          dest = refl;
          text =
              sent-Has (r_fn-Has (next_buf uv s₁) sized krp h refl short node is_node)
              ∙ ap (λ p. find_node_reply (sid id) p tok) same;
          rest = refl;
        },
      )
  handle_msg-Replies (peers_for x) m a h' =
      let (s', p, t, runs, is_node, sized, more, pending) =
        get_peers_pending uv saddr r ready x good.valid good.takes m a reply h' good.rt good.bufs in
      (
        s',
        runs,
        record {
          newest = peers_answer uv krp p saddr t;
          others = t.pending;
          pending = pending;
          dest = refl;
          text = (p, is_node, sent-Has (r_gp-Has (next_buf uv t) sized krp h refl short p is_node));
          rest = more;
        },
      )

-- If `cb_alloc` has handed out the buffer, clear, a node that can answer the sender answers any ping,
-- find_node or get_peers query of another node with its keys in order, with ids of 20 bytes, a tok of
-- 1 to `MAXLEN_TOK` bytes, with or without a version, and shorter than `MAXLEN`. `cb_recv_msg` does not
-- crash; the newest packet goes to the sender, and its bytes are the reply, from the id under which
-- the node answers for the sender's, with the tok that the sender chose, and for find_node with the
-- node that the routing table has for the target. Nothing else is sent, but for a
-- get_peers query one packet at most, which is a get_peers query for the same info hash. A node can answer if the address of the sender is valid and the spam filter
-- lets it pass, libuv takes every packet, and the buffers for sending and the cells have their sizes.
pub cb_recv_msg-Replies :
    (uv : Uv) (base : ℕ) (rest : Bytes) (q : Question) (id : Nih) (tok : Bytes) (v : Option Bytes)
    (saddr : Peerinfo) (s : Node)
    → IsNih id
    → IsQuestion q
    → 0 < length tok
    → length tok ≤ maxlen_tok
    → length (text_of q id tok v) < maxlen
    → CanAnswer uv saddr s
    → is_mapped base s.krpc_map ≡ true
    → s.krpcs base ≡ clear (s.krpcs base)
    → (s.krpcs base).bytes ≡ text_of q id tok v ++ rest
    → (s' : Node) × (cb_recv_msg uv base (bytes (length (text_of q id tok v))) (some saddr) s
        ≡ ok s')
      × Replies q id tok saddr s s'
cb_recv_msg-Replies uv base rest q id tok v saddr s h h' some_tok short fits good known cleared
      got =
    let (r, a, _) = query-Accepts (s.krpcs base) rest q id tok v h h' some_tok short fits got in
    let (s', runs, replies) =
      handle_msg-Replies uv base id tok saddr s r h short good a.reply q a.kind a.argument h' in
    let parsed = ap (λ k. parse_msg k (length (text_of q id tok v))) cleared ∙ a.returns in
    let handled =
      cb_recv_msg-after_parse uv base _ saddr s r (text_of-min_msg_len q id tok v h h') fits known
        good.passes parsed
      ∙ after_parse-handle_msg uv base saddr (checked saddr s) s' r a.status runs in
    (
      free_krpc base s',
      handled,
      record {
        newest = replies.newest;
        others = replies.others;
        pending = replies.pending;
        dest = replies.dest;
        text = replies.text;
        rest = replies.rest;
      },
    )
