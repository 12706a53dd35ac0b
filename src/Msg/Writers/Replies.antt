-- ===== src/Msg/Writers/Replies.antt =====
-- The replies, piece by piece.
use mathlib.Core.List.{append_assoc}
use dht_cpp.Base.{
  ℕ, suc, ◌+◌, ◌-◌, ◌≤◌, [], ◌∷◌, ◌++◌, Bytes, codes, length, drop, replicate, length-append,
  length-drop, ◌≡◌, refl, subst, sym, arith,
}
use dht_cpp.Dht.{Nih, IsNih, PNode, pnode_len}
use dht_cpp.Krpc.Reply.{KReply}
use dht_cpp.Krpc.Flags.{maxlen_tok}
use dht_cpp.Msg
use dht_cpp.Msg.Layout.{
  sid, reply_start, nodes_field, reply_end, token_field, ping_reply, find_node_reply,
  get_peers_reply,
}
use dht_cpp.Msg.{
  memcpy, write_sid, append, Written, q_pg_proto, q_fn_proto, q_gp_proto, r_base, r_nodes,
  tok_prefix, write_base, write_nodes, close_r_with_tok, decimal, r_token, pnode_raw, u16_bytes,
  q_sid_offset, q_fn_target_offset, q_gp_ih_offset, q_gp_tok_offset, msg_buf_len,
}
use dht_cpp.Msg.Writers.{Has, Has-less, append-Has, write_base-Has, memcpy-append}

drop-append : (xs ys : Bytes) → drop (length xs) (xs ++ ys) ≡ ys
drop-append [] ys = refl
drop-append (x ∷ xs) ys = drop-append xs ys

-- A copy over the last bytes of the text.
overwrite-Has :
    (w : Written) (room : ℕ) (text old src : Bytes)
    → length old ≡ length src
    → Has w room (text ++ old)
    → Has (memcpy w.0 (w.1 - length src) src, w.1) room (text ++ src)
overwrite-Has w room text old src e h = record {
  rest = h.rest;
  is =
      let start : length (text ++ old) - length src ≡ length text =
        omega (arith, length-append text old) in
      let whole : length (text ++ old) ≡ length (text ++ src) =
        omega (arith, length-append text old, length-append text src) in
      let after : drop (length src) (old ++ h.rest) ≡ h.rest = rw (← e) (drop-append old h.rest) in
      rw (h.is, start, whole, append_assoc text old h.rest)
        (rw
          (memcpy-append text (old ++ h.rest) src (omega (arith, length-append old h.rest)), after)
          (rw append_assoc));
  left = h.left;
}

-- `sprintf`: the text, and a zero byte that is not counted.
print-Has :
    (w : Written) (room : ℕ) (text src : Bytes)
    → Has w (suc room + length src) text
    → Has (memcpy w.0 w.1 (src ++ 0 ∷ []), w.1 + length src) (suc room) (text ++ src)
print-Has w room text src h =
    let fits : length (src ++ 0 ∷ []) ≤ length h.rest =
      omega (arith, h.left, length-append src (0 ∷ [])) in
    record {
      rest = 0 ∷ drop (length (src ++ 0 ∷ [])) h.rest;
      is =
          rw (h.is, memcpy-append text h.rest (src ++ 0 ∷ []) fits, length-append text src)
            (simp append_assoc);
      left =
          omega (
            arith,
            h.left,
            length-append src (0 ∷ []),
            length-drop (length (src ++ 0 ∷ [])) h.rest,
          );
    }

length-pnode_raw : (p : PNode) → IsNih p.nid → length (pnode_raw p) ≡ pnode_len
unfolding pnode_raw
length-pnode_raw p h = rw length-append (omega arith)

write_nodes-Has :
    (w : Written) (room : ℕ) (text : Bytes) (p : PNode)
    → IsNih p.nid
    → Has w (room + length r_nodes) text
    → Has (write_nodes w p) room (text ++ nodes_field p)
unfolding write_nodes nodes_field
write_nodes-Has w room text p sized h =
    let head = codes "5:nodes26:" in
    let start =
      rw (← append_assoc text head (replicate 26 0)) at (append-Has w room text r_nodes h) in
    let len = length-pnode_raw p sized in
    let done =
      overwrite-Has (append r_nodes w) room (text ++ head) (replicate 26 0) (pnode_raw p) (sym len)
        start in
    rw (len, append_assoc) at done

regroup : (a b c d e : Bytes) → (((a ++ b) ++ c) ++ d) ++ e ≡ a ++ (b ++ (c ++ (d ++ e)))
regroup a b c d e = simp append_assoc

close_with :
    (w : Written) (room : ℕ) (text tok : Bytes) (nid : Nih)
    → Has w (room + length (reply_end tok)) text
    → Has
        (close_r_with_tok w (record { nid = nid; tok_len = length tok; tok = tok }))
        room
        (text ++ reply_end tok)
unfolding close_r_with_tok reply_end
close_with w room text tok nid h =
    let prefix = tok_prefix (length tok) in
    let n = length prefix in
    let t = length tok in
    let size = length-append prefix (tok ++ codes "e") in
    let enough =
      Has-less w _ (suc (room + t) + n + 1) text h
        (omega (arith, size, length-append tok (codes "e"))) in
    let opened = append-Has w (suc (room + t) + n) text (codes "e") enough in
    let printed = print-Has _ (room + t) (text ++ codes "e") prefix opened in
    let named =
      append-Has _ (suc room) _ tok (Has-less _ _ (suc room + t) _ printed (omega arith)) in
    let closed = append-Has _ room _ (codes "e") (Has-less _ _ (room + 1) _ named (omega arith)) in
    subst (Has _ room) (regroup text (codes "e") prefix tok (codes "e")) closed

close_r_with_tok-Has :
    (w : Written) (room : ℕ) (text : Bytes) (k : KReply)
    → length k.tok ≡ k.tok_len
    → Has w (room + length (reply_end k.tok)) text
    → Has (close_r_with_tok w k) room (text ++ reply_end k.tok)
close_r_with_tok-Has w room text k sized h =
    subst
      (λ m.
        Has (close_r_with_tok w (record { nid = k.nid; tok_len = m; tok = k.tok })) room
          (text ++ reply_end k.tok))
      sized (close_with w room text k.tok k.nid h)

-- The replies, for a tok that fits `KReply`.
module _ (buf : Bytes) (sized : length buf ≡ msg_buf_len) (k : KReply) (id : IsNih k.nid)
    (tok : length k.tok ≡ k.tok_len) (short : k.tok_len ≤ maxlen_tok) where
  decimal_short : length (decimal 3 (length k.tok)) ≤ 3
  unfolding decimal
  decimal_short = ground arith

  length-reply_end : length (reply_end k.tok) ≤ 9 + length k.tok
  unfolding reply_end
  length-reply_end = omega (
    arith,
    decimal_short,
    length-append (tok_prefix (length k.tok)) (k.tok ++ codes "e"),
    length-append (decimal 3 (length k.tok)) (codes ":"),
    length-append k.tok (codes "e"),
  )

  base : Has (write_base buf k) (msg_buf_len - length r_base) (reply_start (sid k.nid))
  base = write_base-Has buf sized k id

  pub r_pg-Has : Has (Msg.r_pg buf k) 0 (ping_reply (sid k.nid) k.tok)
  unfolding Msg.r_pg ping_reply
  r_pg-Has =
      close_r_with_tok-Has _ 0 _ k tok (Has-less _ _ _ _ base (omega (arith, length-reply_end)))

  module _ (p : PNode) (node : IsNih p.nid) where
    with_nodes :
        (room : ℕ)
        → room ≤ 182
        → Has (write_nodes (write_base buf k) p) room (reply_start (sid k.nid) ++ nodes_field p)
    with_nodes room h = write_nodes-Has _ room _ p node (Has-less _ _ _ _ base (omega arith))

    pub r_fn-Has : Has (Msg.r_fn buf k p) 0 (find_node_reply (sid k.nid) p k.tok)
    unfolding Msg.r_fn find_node_reply
    r_fn-Has = close_r_with_tok-Has _ 0 _ k tok (with_nodes _ (omega (arith, length-reply_end)))

    pub r_gp-Has : Has (Msg.r_gp buf k p) 0 (get_peers_reply (sid k.nid) p k.tok)
    unfolding Msg.r_gp get_peers_reply token_field
    r_gp-Has =
        close_r_with_tok-Has _ 0 _ k tok
          (append-Has _ _ _ r_token (with_nodes _ (omega (arith, length-reply_end))))
