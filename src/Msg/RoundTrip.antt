-- ===== src/Msg/RoundTrip.antt =====
-- The decoder of cht/krpc.cpp on the messages of Layout.
use dht_cpp.Base.{ℕ, [], ◌∷◌, ◌++◌, Bytes, length, some, each_byte, each_two, ok, ◌≡◌, refl}
use dht_cpp.Dht.{Nih, IsNih, Peerinfo, nih_len, pnode_len, our_tok_pg, our_tok_gp, our_tok_fn}
use dht_cpp.Krpc.Atoi.{krpc_bdecode_atoi, atoi_loop}
use dht_cpp.Krpc.Decode.{parse_msg, returned}
use dht_cpp.Krpc.Flags.{Method, q_pg, q_fn, q_gp, r_pg, r_fn, r_gp}
use dht_cpp.Krpc.Reply.{k_reply}
use dht_cpp.Krpc.State.{Krpc, clear, bytes_at}
use dht_cpp.Krpc.Validate.{validate}
use dht_cpp.Msg.Layout.{
  ping_query, find_node_query, get_peers_query, reply_start, nodes_field, token_field, reply_end,
  ping_reply, find_node_reply, get_peers_reply,
}
use dht_cpp.Msg.{u16_bytes, pnode_raw, decimal}
use dht_cpp.Stat.{index, bd_a_no_error}

-- A `KRPC` that is cleared when a datagram stands in its buffer.
unfoldable pub receive : Krpc → Bytes → Krpc
unfolding clear
receive k b = clear (record k { bytes = b })

-- The message `m`, in front of whatever the buffer held, is accepted with this method as `result`,
-- and a reply to it would go to `id` with `tok`.
pub record Reads (k : Krpc) (rest m : Bytes) (method : Method) (id : Nih) (tok : Bytes)
    (result : Krpc) : Type 0 where
  pub returns : parse_msg (receive k (m ++ rest)) (length m) ≡ returned result
  pub status : result.status ≡ bd_a_no_error
  pub kind : result.method ≡ method
  pub reply : k_reply result ≡ ok (record { nid = id; tok_len = length tok; tok = tok })

everything : Unit {0}
unfolding parse_msg krpc_bdecode_atoi atoi_loop validate k_reply index receive bytes_at ping_query
    find_node_query get_peers_query ping_reply find_node_reply get_peers_reply reply_start
    nodes_field token_field reply_end decimal pnode_raw
everything = tt

-- What the decoder makes of each layout. The offsets are those of the fields in it.
module _ (rcv : Krpc) (rest : Bytes) where
  got : Bytes → Krpc
  got m = record (receive rcv (m ++ rest)) { status = bd_a_no_error }

  pub ping_query_result : Nih → Krpc
  unfolding got
  ping_query_result id = record (got (ping_query id)) {
    method = q_pg;
    nid = some 12;
    tok_len = 1;
    tok = some 47;
  }

  abbrev pub PingQueryReads : Nih → Krpc → Type 0
  PingQueryReads id r = Reads rcv rest (ping_query id) q_pg id (our_tok_pg ∷ []) r

  pub ping_query-Reads : (id : Nih) → IsNih id → PingQueryReads id (ping_query_result id)
  unfolding everything ping_query_result
  ping_query-Reads =
      each_byte nih_len (λ id. PingQueryReads id (ping_query_result id))
        λ a b c d e f g h i j k l m n o p q r s t. record {
          returns = refl;
          status = refl;
          kind = refl;
          reply = refl;
        }

  pub find_node_query_result : Nih → Nih → Krpc
  unfolding got
  find_node_query_result id x = record (got (find_node_query id x)) {
    method = q_fn;
    nid = some 12;
    target = some 43;
    tok_len = 1;
    tok = some 83;
  }

  abbrev pub FindNodeQueryReads : Nih → Nih → Krpc → Type 0
  FindNodeQueryReads id x r =
      Reads rcv rest (find_node_query id x) q_fn id (our_tok_fn ∷ []) r
      × (bytes_at r r.target nih_len ≡ ok x)

  pub find_node_query-Reads :
      (id x : Nih) → IsNih id → IsNih x → FindNodeQueryReads id x (find_node_query_result id x)
  unfolding everything find_node_query_result
  find_node_query-Reads =
      each_two nih_len (λ id x. FindNodeQueryReads id x (find_node_query_result id x))
        λ a b c d e f g h i j k l m n o p q r s t a' b' c' d' e' f' g' h' i' j' k' l' m' n' o' p' q'
            r' s' t'.
          (record { returns = refl; status = refl; kind = refl; reply = refl }, refl)

  pub get_peers_query_result : ℕ → Nih → Nih → Krpc
  unfolding got
  get_peers_query_result tok id x = record (got (get_peers_query id x tok)) {
    method = q_gp;
    nid = some 12;
    ih = some 46;
    tok_len = 3;
    tok = some 86;
  }

  abbrev pub GetPeersQueryReads : ℕ → Nih → Nih → Krpc → Type 0
  GetPeersQueryReads tok id x r =
      Reads rcv rest (get_peers_query id x tok) q_gp id (u16_bytes tok ++ our_tok_gp ∷ []) r
      × (bytes_at r r.ih nih_len ≡ ok x)

  pub get_peers_query-Reads :
      (tok : ℕ) (id x : Nih)
      → IsNih id
      → IsNih x
      → GetPeersQueryReads tok id x (get_peers_query_result tok id x)
  unfolding everything get_peers_query_result
  get_peers_query-Reads tok =
      each_two nih_len (λ id x. GetPeersQueryReads tok id x (get_peers_query_result tok id x))
        λ a b c d e f g h i j k l m n o p q r s t a' b' c' d' e' f' g' h' i' j' k' l' m' n' o' p' q'
            r' s' t'.
          (record { returns = refl; status = refl; kind = refl; reply = refl }, refl)

  pub ping_reply_result : Nih → Krpc
  unfolding got
  ping_reply_result id = record (got (ping_reply id (our_tok_pg ∷ []))) {
    method = r_pg;
    nid = some 18;
    tok_len = 1;
    tok = some 44;
  }

  abbrev pub PingReplyReads : Nih → Krpc → Type 0
  PingReplyReads id r = Reads rcv rest (ping_reply id (our_tok_pg ∷ [])) r_pg id (our_tok_pg ∷ []) r

  pub ping_reply-Reads : (id : Nih) → IsNih id → PingReplyReads id (ping_reply_result id)
  unfolding everything ping_reply_result
  ping_reply-Reads =
      each_byte nih_len (λ id. PingReplyReads id (ping_reply_result id))
        λ a b c d e f g h i j k l m n o p q r s t. record {
          returns = refl;
          status = refl;
          kind = refl;
          reply = refl;
        }

  pub find_node_reply_result : Peerinfo → Nih → Nih → Krpc
  unfolding got
  find_node_reply_result at id x =
      record (got (find_node_reply id (record { nid = x; peerinfo = at }) (our_tok_fn ∷ []))) {
        method = r_fn;
        nid = some 18;
        n_nodes = 1;
        nodes = some 48;
        tok_len = 1;
        tok = some 80;
      }

  abbrev pub FindNodeReplyReads : Peerinfo → Nih → Nih → Krpc → Type 0
  FindNodeReplyReads at id x r =
      Reads rcv rest (find_node_reply id (record { nid = x; peerinfo = at }) (our_tok_fn ∷ [])) r_fn
        id (our_tok_fn ∷ []) r
      × (r.n_nodes ≡ 1)
      × (bytes_at r r.nodes pnode_len ≡ ok (pnode_raw (record { nid = x; peerinfo = at })))

  pub find_node_reply-Reads :
      (at : Peerinfo) (id x : Nih)
      → IsNih id
      → IsNih x
      → FindNodeReplyReads at id x (find_node_reply_result at id x)
  unfolding everything find_node_reply_result
  find_node_reply-Reads at =
      each_two nih_len (λ id x. FindNodeReplyReads at id x (find_node_reply_result at id x))
        λ a b c d e f g h i j k l m n o p q r s t a' b' c' d' e' f' g' h' i' j' k' l' m' n' o' p' q'
            r' s' t'.
          (record { returns = refl; status = refl; kind = refl; reply = refl }, refl, refl)

  pub get_peers_reply_result : ℕ → ℕ → Peerinfo → Nih → Nih → Krpc
  unfolding got
  get_peers_reply_result u v at id x =
      record (got
        (get_peers_reply id (record { nid = x; peerinfo = at }) (u ∷ v ∷ our_tok_gp ∷ []))) {
          method = r_gp;
          nid = some 18;
          n_nodes = 1;
          nodes = some 48;
          token_len = 1;
          token = some 83;
          tok_len = 3;
          tok = some 90;
        }

  abbrev pub GetPeersReplyReads : ℕ → ℕ → Peerinfo → Nih → Nih → Krpc → Type 0
  GetPeersReplyReads u v at id x r =
      Reads rcv rest
        (get_peers_reply id (record { nid = x; peerinfo = at }) (u ∷ v ∷ our_tok_gp ∷ [])) r_gp id
        (u ∷ v ∷ our_tok_gp ∷ []) r
      × (r.n_nodes ≡ 1)
      × (r.n_peers ≡ 0)
      × (bytes_at r r.nodes pnode_len ≡ ok (pnode_raw (record { nid = x; peerinfo = at })))

  pub get_peers_reply-Reads :
      (u v : ℕ) (at : Peerinfo) (id x : Nih)
      → IsNih id
      → IsNih x
      → GetPeersReplyReads u v at id x (get_peers_reply_result u v at id x)
  unfolding everything get_peers_reply_result
  get_peers_reply-Reads u v at =
      each_two nih_len (λ id x. GetPeersReplyReads u v at id x (get_peers_reply_result u v at id x))
        λ a b c d e f g h i j k l m n o p q r s t a' b' c' d' e' f' g' h' i' j' k' l' m' n' o' p' q'
            r' s' t'.
          (record { returns = refl; status = refl; kind = refl; reply = refl }, refl, refl, refl)
