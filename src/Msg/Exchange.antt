-- ===== src/Msg/Exchange.antt =====
-- The writers of cht/msg.cpp and the decoder of cht/krpc.cpp, on the two ends of an exchange.
use dht_cpp.Base.{
  AreBytes, ℕ, ◌%◌, ◌/◌, [], ◌∷◌, ◌++◌, Bytes, length, take, ok, ◌≡◌, refl, ap, arith,
}
use dht_cpp.Dht.{Nih, IsNih, PNode, nih_len, pnode_len, our_tok_pg, our_tok_gp, our_tok_fn}
use dht_cpp.Krpc.Flags.{Method, q_pg, q_fn, q_gp, r_pg, r_fn, r_gp}
use dht_cpp.Krpc.Reply.{KReply, k_reply}
use dht_cpp.Krpc.State.{Krpc, bytes_at}
use dht_cpp.Msg
use dht_cpp.Msg.Layout.{sid, sid-IsNih, sid-sid}
use dht_cpp.Msg.RoundTrip.{
  Reads, ping_query-Reads, find_node_query-Reads, get_peers_query-Reads, ping_reply-Reads,
  find_node_reply-Reads, get_peers_reply-Reads, ping_query_result, find_node_query_result,
  get_peers_query_result, ping_reply_result, find_node_reply_result, get_peers_reply_result,
}
use dht_cpp.Msg.Writers.Replies.{r_pg-Has, r_fn-Has, r_gp-Has}
use dht_cpp.Msg.Writers.{Has, q_pg-Has, q_fn-Has, q_gp-Has}
use dht_cpp.Msg.{Written, msg_buf_len, u16_bytes, pnode_raw}

-- The bytes that are sent: as many of the buffer as the writer returns.
unfoldable pub sent : Written → Bytes
sent w = take w.1 w.0

take-length : (xs ys : Bytes) → take (length xs) (xs ++ ys) ≡ xs
take-length [] ys = refl
take-length (x ∷ xs) ys = ap (◌∷◌ x) (take-length xs ys)

pub sent-Has : {w : Written} {room : ℕ} {text : Bytes} → Has w room text → sent w ≡ text
unfolding sent
sent-Has {text} h = rw (h.is) (take-length text h.rest)

-- A receiver with anything in its buffer, and a sender with a buffer of the size that is used.
module _ (rcv : Krpc) (rest buf : Bytes) (sized : length buf ≡ msg_buf_len) where
  -- A ping query is accepted as one, with the masked id and the ping tok.
  pub q_pg-parse_msg :
      (nid : Nih)
      → IsNih nid
      → (r : Krpc) × Reads rcv rest (sent (Msg.q_pg buf nid)) q_pg (sid nid) (our_tok_pg ∷ []) r
  q_pg-parse_msg nid h = (
    ping_query_result rcv rest (sid nid),
    rw (sent-Has (q_pg-Has buf sized nid h))
        (ping_query-Reads rcv rest (sid nid) (sid-IsNih nid h)),
  )

  -- A find_node query is accepted as one, with the masked id, the find_node tok and the target.
  pub q_fn-parse_msg :
      (nid target : Nih)
      → IsNih nid
      → IsNih target
      → (r : Krpc) × Reads rcv rest
          (sent (Msg.q_fn buf nid target))
          q_fn
          (sid nid)
          (our_tok_fn ∷ [])
          r
        × (bytes_at r r.target nih_len ≡ ok target)
  q_fn-parse_msg nid target h h' =
      let got = find_node_query-Reads rcv rest (sid nid) target (sid-IsNih nid h) h' in
      (
        find_node_query_result rcv rest (sid nid) target,
        rw (sent-Has (q_fn-Has buf sized nid target h h')) got.0,
        got.1,
      )

  -- A get_peers query is accepted as one, with the masked id, the two bytes of the token in front of
  -- the get_peers tok, and the info hash.
  pub q_gp-parse_msg :
      (nid ih : Nih) (tok : ℕ)
      → IsNih nid
      → IsNih ih
      → (r : Krpc) × Reads rcv rest
          (sent (Msg.q_gp buf nid ih tok))
          q_gp
          (sid nid)
          (u16_bytes tok ++ our_tok_gp ∷ [])
          r
        × (bytes_at r r.ih nih_len ≡ ok ih)
  q_gp-parse_msg nid ih tok h h' =
      let got = get_peers_query-Reads rcv rest tok (sid nid) ih (sid-IsNih nid h) h' in
      (
        get_peers_query_result rcv rest tok (sid nid) ih,
        rw (sent-Has (q_gp-Has buf sized nid ih tok h h')) got.0,
        got.1,
      )

-- Node `a` asks the node `nid`, which answers from the query; `a` decodes the answer.
module _ (a b : Krpc) (rest_a rest_b buf_a buf_b : Bytes) (sized_a : length buf_a ≡ msg_buf_len)
    (sized_b : length buf_b ≡ msg_buf_len) (nid : Nih) (h : IsNih nid) (bytes : AreBytes nid) where
  -- What `b` decodes is the query meant, and what `a` decodes is a reply of kind `m` from `nid`.
  abbrev pub Exchanges : Bytes → (KReply → Written) → Method → Method → Bytes → Krpc → Type 0
  Exchanges query answer m m' tok r' =
      (r : Krpc) × (k : KReply) × Reads b rest_b query m (sid nid) tok r
      × (k_reply r ≡ ok k)
      × Reads a rest_a (sent (answer k)) m' nid tok r'

  asked : Bytes → KReply
  asked tok = record { nid = sid nid; tok_len = length tok; tok = tok }

  -- With an id of 20 bytes and buffers of `MSG_BUF_LEN` bytes: the query that `q_pg` writes is
  -- accepted as a ping query, a reply can be made of it, and the answer that `r_pg` writes is
  -- accepted by the asking node as a ping reply from the node that was pinged.
  pub ping_exchange :
      (r' : Krpc) × Exchanges
        (sent (Msg.q_pg buf_a nid))
        (Msg.r_pg buf_b)
        q_pg
        r_pg
        (our_tok_pg ∷ [])
        r'
  unfolding asked
  ping_exchange =
      let (r, query) = q_pg-parse_msg b rest_b buf_a sized_a nid h in
      let k = asked (our_tok_pg ∷ []) in
      let id = sid-IsNih nid h in
      (
        ping_reply_result a rest_a nid,
        (
          r,
          k,
          query,
          query.reply,
          rw (sent-Has (r_pg-Has buf_b sized_b k id refl (omega arith)), sid-sid nid bytes)
              (ping_reply-Reads a rest_a nid h),
        ),
      )

  -- With ids of 20 bytes and buffers of `MSG_BUF_LEN` bytes: the query that `q_fn` writes is
  -- accepted as a find_node query, a reply can be made of it, and the answer that `r_fn` writes is
  -- accepted by the asking node as a find_node reply from the node asked, with the one node sent.
  pub find_node_exchange :
      (target : Nih) (p : PNode)
      → IsNih target
      → IsNih p.nid
      → (r' : Krpc) × Exchanges
          (sent (Msg.q_fn buf_a nid target))
          (λ k. Msg.r_fn buf_b k p)
          q_fn
          r_fn
          (our_tok_fn ∷ [])
          r'
        × (r'.n_nodes ≡ 1)
        × (bytes_at r' r'.nodes pnode_len ≡ ok (pnode_raw p))
  unfolding asked
  find_node_exchange target p h' node =
      let (r, query, _) = q_fn-parse_msg b rest_b buf_a sized_a nid target h h' in
      let k = asked (our_tok_fn ∷ []) in
      let id = sid-IsNih nid h in
      let got = find_node_reply-Reads a rest_a p.peerinfo nid p.nid h node in
      (
        find_node_reply_result a rest_a p.peerinfo nid p.nid,
        (
          r,
          k,
          query,
          query.reply,
          rw (sent-Has (r_fn-Has buf_b sized_b k id refl (omega arith) p node), sid-sid nid bytes)
              got.0,
        ),
        got.1,
        got.2,
      )

  -- With ids of 20 bytes and buffers of `MSG_BUF_LEN` bytes: the query that `q_gp` writes is
  -- accepted as a get_peers query with its tok, a reply can be made of it, and the answer that
  -- `r_gp` writes is accepted by the asking node as a get_peers reply from the node asked, with the
  -- token of the query and the one node sent.
  pub get_peers_exchange :
      (ih : Nih) (p : PNode) (tok : ℕ)
      → IsNih ih
      → IsNih p.nid
      → (r' : Krpc) × Exchanges
          (sent (Msg.q_gp buf_a nid ih tok))
          (λ k. Msg.r_gp buf_b k p)
          q_gp
          r_gp
          (u16_bytes tok ++ our_tok_gp ∷ [])
          r'
        × (r'.n_nodes ≡ 1)
        × (bytes_at r' r'.nodes pnode_len ≡ ok (pnode_raw p))
  unfolding asked
  get_peers_exchange ih p tok h' node =
      let (r, query, _) = q_gp-parse_msg b rest_b buf_a sized_a nid ih tok h h' in
      let k = asked (u16_bytes tok ++ our_tok_gp ∷ []) in
      let id = sid-IsNih nid h in
      let got =
        get_peers_reply-Reads a rest_a (tok % 0x100) (tok / 0x100) p.peerinfo nid p.nid h node in
      (
        get_peers_reply_result a rest_a (tok % 0x100) (tok / 0x100) p.peerinfo nid p.nid,
        (
          r,
          k,
          query,
          query.reply,
          rw (sent-Has (r_gp-Has buf_b sized_b k id refl (omega arith) p node), sid-sid nid bytes)
              got.0,
        ),
        got.1,
        got.3,
      )
