-- ===== src/Msg/Writers.antt =====
-- What each writer leaves in its buffer: the message of Msg/Layout, and behind it the old bytes.
pub mod Replies
use mathlib.Core.List.{append_assoc}
use dht_cpp.Base.{
  ℕ, suc, ◌+◌, ◌-◌, ◌≤◌, [], ◌∷◌, ◌++◌, Bytes, codes, length, drop, replicate, length-append,
  length-drop, each_byte, each_two, ◌≡◌, refl, ap, subst, sym, arith,
}
use dht_cpp.Dht.{Nih, IsNih, PNode, nih_len, pnode_len}
use dht_cpp.Krpc.Reply.{KReply}
use dht_cpp.Krpc.Flags.{maxlen_tok}
use dht_cpp.Msg
use dht_cpp.Msg.Layout.{
  sid, ping_query, find_node_query, get_peers_query, reply_start, nodes_field, reply_end,
  token_field, ping_reply, find_node_reply, get_peers_reply,
}
use dht_cpp.Msg.{
  memcpy, write_sid, append, Written, q_pg_proto, q_fn_proto, q_gp_proto, r_base, r_nodes,
  tok_prefix, write_base, write_nodes, close_r_with_tok, decimal, r_token, pnode_raw, u16_bytes,
  q_sid_offset, q_fn_target_offset, q_gp_ih_offset, q_gp_tok_offset, msg_buf_len,
}

-- A copy behind a prefix replaces as many bytes as it has.
pub memcpy-append :
    (p r src : Bytes)
    → length src ≤ length r
    → memcpy (p ++ r) (length p) src ≡ p ++ (src ++ drop (length src) r)
unfolding memcpy
memcpy-append p r [] h = refl
memcpy-append [] [] (s ∷ src) h = elim h [ ]
memcpy-append [] (b ∷ r) (s ∷ src) h = ap (◌∷◌ s) (memcpy-append [] r src (omega arith))
memcpy-append (b ∷ p) r (s ∷ src) h = ap (◌∷◌ b) (memcpy-append p r (s ∷ src) h)

pub memcpy-start :
    (buf src : Bytes) → length src ≤ length buf → memcpy buf 0 src ≡ src ++ drop (length src) buf
memcpy-start buf src h = memcpy-append [] buf src h

-- The buffer starts with `text`, its length has been counted, and `room` bytes are left behind it.
pub record Has (w : Written) (room : ℕ) (text : Bytes) : Type 0 where
  pub rest : Bytes
  pub is : w ≡ (text ++ rest, length text)
  pub left : room ≤ length rest

pub Has-less : (w : Written) (a b : ℕ) (text : Bytes) → Has w a text → b ≤ a → Has w b text
Has-less w a b text h l = record { rest = h.rest; is = h.is; left = omega (arith, h.left) }

pub append-Has :
    (w : Written) (room : ℕ) (text src : Bytes)
    → Has w (room + length src) text
    → Has (append src w) room (text ++ src)
append-Has w room text src h = record {
  rest = drop (length src) h.rest;
  is =
      rw (h.is, memcpy-append text h.rest src (omega (arith, h.left)), append_assoc, length-append);
  left = omega (arith, h.left, length-drop (length src) h.rest);
}

-- The writer has left `text` in front of `rest`.
abbrev Leaves : Written → Bytes → Bytes → Type 0
Leaves w text rest = w ≡ (text ++ rest, length text)

-- The ids written into a template.
module _ (rest : Bytes) where
  abbrev ping_at : Nih → Written
  ping_at nid = (write_sid (q_pg_proto ++ rest) q_sid_offset nid, length q_pg_proto)

  ping_at-Leaves : (nid : Nih) → IsNih nid → Leaves (ping_at nid) (ping_query (sid nid)) rest
  unfolding write_sid ping_query sid
  ping_at-Leaves =
      each_byte nih_len (λ x. Leaves (ping_at x) (ping_query (sid x)) rest)
        λ a b c d e f g h i j k l m n o p q r s t. refl

  abbrev find_node_at : Nih → Nih → Written
  find_node_at nid target = (
    write_sid (memcpy (q_fn_proto ++ rest) q_fn_target_offset target) q_sid_offset nid,
    length q_fn_proto,
  )

  find_node_at-Leaves :
      (nid target : Nih)
      → IsNih nid
      → IsNih target
      → Leaves (find_node_at nid target) (find_node_query (sid nid) target) rest
  unfolding write_sid find_node_query sid
  find_node_at-Leaves =
      each_two nih_len (λ x y. Leaves (find_node_at x y) (find_node_query (sid x) y) rest)
        λ a b c d e f g h i j k l m n o p q r s t a' b' c' d' e' f' g' h' i' j' k' l' m' n' o' p' q'
            r' s' t'.
          refl

  abbrev get_peers_at : ℕ → Nih → Nih → Written
  get_peers_at tok nid ih =
      let b = write_sid (q_gp_proto ++ rest) q_sid_offset nid in
      (memcpy (memcpy b q_gp_ih_offset ih) q_gp_tok_offset (u16_bytes tok), length q_gp_proto)

  get_peers_at-Leaves :
      (tok : ℕ) (nid ih : Nih)
      → IsNih nid
      → IsNih ih
      → Leaves (get_peers_at tok nid ih) (get_peers_query (sid nid) ih tok) rest
  unfolding write_sid get_peers_query sid
  get_peers_at-Leaves tok =
      each_two nih_len (λ x y. Leaves (get_peers_at tok x y) (get_peers_query (sid x) y tok) rest)
        λ a b c d e f g h i j k l m n o p q r s t a' b' c' d' e' f' g' h' i' j' k' l' m' n' o' p' q'
            r' s' t'.
          refl

  abbrev base_at : Nih → Written
  base_at nid = (write_sid (r_base ++ rest) 18 nid, length r_base)

  base_at-Leaves : (nid : Nih) → IsNih nid → Leaves (base_at nid) (reply_start (sid nid)) rest
  unfolding write_sid reply_start sid
  base_at-Leaves =
      each_byte nih_len (λ x. Leaves (base_at x) (reply_start (sid x)) rest)
        λ a b c d e f g h i j k l m n o p q r s t. refl

-- A template copied to the start of a buffer of `MSG_BUF_LEN` bytes.
module _ (buf : Bytes) (sized : length buf ≡ msg_buf_len) where
  template :
      (proto text : Bytes) (w : Written)
      → length proto ≤ msg_buf_len
      → Leaves w text (drop (length proto) buf)
      → Has w (msg_buf_len - length proto) text
  template proto text w h l = record {
    rest = drop (length proto) buf;
    is = l;
    left = omega (arith, length-drop (length proto) buf);
  }

  pub q_pg-Has :
      (nid : Nih)
      → IsNih nid
      → Has (Msg.q_pg buf nid) (msg_buf_len - length q_pg_proto) (ping_query (sid nid))
  unfolding Msg.q_pg
  q_pg-Has nid h =
      rw (memcpy-start buf q_pg_proto (omega arith))
        (template q_pg_proto (ping_query (sid nid)) _ (omega arith) (ping_at-Leaves _ nid h))

  pub q_fn-Has :
      (nid target : Nih)
      → IsNih nid
      → IsNih target
      → Has
          (Msg.q_fn buf nid target)
          (msg_buf_len - length q_fn_proto)
          (find_node_query (sid nid) target)
  unfolding Msg.q_fn
  q_fn-Has nid target h h' = rw (memcpy-start buf q_fn_proto (omega arith)) (
      template q_fn_proto (find_node_query (sid nid) target) _ (omega arith)
        (find_node_at-Leaves _ nid target h h'))

  pub q_gp-Has :
      (nid ih : Nih) (tok : ℕ)
      → IsNih nid
      → IsNih ih
      → Has
          (Msg.q_gp buf nid ih tok)
          (msg_buf_len - length q_gp_proto)
          (get_peers_query (sid nid) ih tok)
  unfolding Msg.q_gp
  q_gp-Has nid ih tok h h' = rw (memcpy-start buf q_gp_proto (omega arith)) (
      template q_gp_proto (get_peers_query (sid nid) ih tok) _ (omega arith)
        (get_peers_at-Leaves _ tok nid ih h h'))

  pub write_base-Has :
      (k : KReply)
      → IsNih k.nid
      → Has (write_base buf k) (msg_buf_len - length r_base) (reply_start (sid k.nid))
  unfolding write_base
  write_base-Has k h =
      rw (memcpy-start buf r_base (omega arith))
        (template r_base (reply_start (sid k.nid)) _ (omega arith) (base_at-Leaves _ k.nid h))
