-- ===== src/Msg/Fits.antt =====
-- cht/msg.cpp: the messages that are written fit a buffer of `MSG_BUF_LEN` bytes.
use dht_cpp.Base.{
  ℕ, zero, suc, ◌+◌, ◌/◌, ◌%◌, ◌≤◌, [], ◌∷◌, ◌++◌, Bytes, codes, length, get_or, set, bit_xor, ltb,
  if_elim, length-append, length-set, ◌≡◌, refl, ◌∙◌, ap, arith,
}
use dht_cpp.Dht.{Nih, PNode}
use dht_cpp.Krpc.Flags.{maxlen_tok}
use dht_cpp.Krpc.Reply.{KReply}
use dht_cpp.Msg
use dht_cpp.Msg.{
  Written, memcpy, write_sid_raw, write_sid, decimal, tok_prefix, append, close_r_with_tok,
  write_base, write_nodes, pnode_raw, msg_buf_len, sid_mask,
}

-- A writer keeps to a buffer of this size, and its message is not longer.
pub record Fits (write_fn : Bytes → Written) : Type 0 where
  pub size : (buf : Bytes) → length (write_fn buf).0 ≡ length buf
  pub len : (buf : Bytes) → (write_fn buf).1 ≤ msg_buf_len

pub memcpy-length : (buf : Bytes) (i : ℕ) (src : Bytes) → length (memcpy buf i src) ≡ length buf
unfolding memcpy
memcpy-length buf i [] = refl
memcpy-length [] i (s ∷ src) = refl
memcpy-length (b ∷ buf) zero (s ∷ src) = ap suc (memcpy-length buf zero src)
memcpy-length (b ∷ buf) (suc i) (s ∷ src) = ap suc (memcpy-length buf i (s ∷ src))

write_sid_raw-length :
    (buf : Bytes) (i : ℕ) (mask : Bytes) → length (write_sid_raw buf i mask) ≡ length buf
unfolding write_sid_raw
write_sid_raw-length buf i [] = refl
write_sid_raw-length buf i (m ∷ mask) =
    write_sid_raw-length (set buf i (bit_xor (get_or buf i 0) m)) (i + 1) mask ∙ length-set buf i _

write_sid-length : (buf : Bytes) (i : ℕ) (nid : Nih) → length (write_sid buf i nid) ≡ length buf
unfolding write_sid
write_sid-length buf i nid = write_sid_raw-length _ i sid_mask ∙ memcpy-length buf i nid

-- The queries.
pub q_pg-Fits : (nid : Nih) → Fits (λ buf. Msg.q_pg buf nid)
unfolding Msg.q_pg
q_pg-Fits nid = record {
  size = λ buf. write_sid-length _ Msg.q_sid_offset nid ∙ memcpy-length buf 0 Msg.q_pg_proto;
  len = λ buf. omega arith;
}

pub q_fn-Fits : (nid target : Nih) → Fits (λ buf. Msg.q_fn buf nid target)
unfolding Msg.q_fn
q_fn-Fits nid target = record {
  size = λ buf.
      write_sid-length _ Msg.q_sid_offset nid
      ∙ memcpy-length _ Msg.q_fn_target_offset target
      ∙ memcpy-length buf 0 Msg.q_fn_proto;
  len = λ buf. omega arith;
}

pub q_gp-Fits : (nid ih : Nih) (tok : ℕ) → Fits (λ buf. Msg.q_gp buf nid ih tok)
unfolding Msg.q_gp
q_gp-Fits nid ih tok = record {
  size = λ buf.
      memcpy-length _ Msg.q_gp_tok_offset (Msg.u16_bytes tok)
      ∙ memcpy-length _ Msg.q_gp_ih_offset ih
      ∙ write_sid-length _ Msg.q_sid_offset nid
      ∙ memcpy-length buf 0 Msg.q_gp_proto;
  len = λ buf. omega arith;
}

length-decimal : (fuel n : ℕ) → length (decimal fuel n) ≤ fuel
unfolding decimal
length-decimal zero n = omega arith
length-decimal (suc fuel) n =
    if_elim (λ (x : Bytes). length (x ++ (0x30 + n % 10) ∷ []) ≤ suc fuel) (ltb n 10)
      (λ _. omega arith)
      (λ _. omega (
        arith,
        length-decimal fuel (n / 10),
        length-append (decimal fuel (n / 10)) ((0x30 + n % 10) ∷ []),
      ))

-- What a part of a reply does: it keeps the size, and counts at most `more` bytes.
pub record Adds (more : ℕ) (w w' : Written) : Type 0 where
  pub size : length w'.0 ≡ length w.0
  pub len : w'.1 ≤ w.1 + more

append-Adds : (src : Bytes) (w : Written) → Adds (length src) w (append src w)
append-Adds src (buf, n) = record { size = memcpy-length buf n src; len = omega arith }

module _ (k : KReply) (short : length k.tok ≤ maxlen_tok) where
  write_base-Adds : (buf : Bytes) → Adds 38 (buf, 0) (write_base buf k)
  unfolding write_base
  write_base-Adds buf = record {
    size = write_sid-length _ _ k.nid ∙ memcpy-length buf 0 Msg.r_base;
    len = omega arith;
  }

  write_nodes-Adds : (w : Written) (p : PNode) → Adds 36 w (write_nodes w p)
  unfolding write_nodes
  write_nodes-Adds (buf, n) p = record {
    size = memcpy-length _ _ (pnode_raw p) ∙ memcpy-length buf n Msg.r_nodes;
    len = omega arith;
  }

  close_r_with_tok-Adds : (w : Written) → Adds 41 w (close_r_with_tok w k)
  unfolding close_r_with_tok
  close_r_with_tok-Adds (buf, n) =
      let prefix = tok_prefix k.tok_len in
      let opened = memcpy buf n (codes "e") in
      let printed = memcpy opened (n + 1) (prefix ++ 0 ∷ []) in
      let named = memcpy printed (n + 1 + length prefix) k.tok in
      record {
        size =
            memcpy-length named _ (codes "e")
            ∙ memcpy-length printed _ k.tok
            ∙ memcpy-length opened _ (prefix ++ 0 ∷ [])
            ∙ memcpy-length buf n (codes "e");
        len = omega (
          arith,
          short,
          length-decimal 3 k.tok_len,
          length-append (decimal 3 k.tok_len) (codes ":"),
          length-append (codes "1:t") (decimal 3 k.tok_len ++ codes ":"),
        );
      }

  -- The replies.
  pub r_pg-Fits : Fits (λ buf. Msg.r_pg buf k)
  unfolding Msg.r_pg
  r_pg-Fits = record {
    size = λ buf. (close_r_with_tok-Adds (write_base buf k)).size ∙ (write_base-Adds buf).size;
    len = λ buf.
        let base = write_base-Adds buf in
        let close = close_r_with_tok-Adds (write_base buf k) in omega (arith, base.len, close.len);
  }

  pub r_fn-Fits : (p : PNode) → Fits (λ buf. Msg.r_fn buf k p)
  unfolding Msg.r_fn
  r_fn-Fits p = record {
    size = λ buf.
        (close_r_with_tok-Adds (write_nodes (write_base buf k) p)).size
        ∙ (write_nodes-Adds (write_base buf k) p).size
        ∙ (write_base-Adds buf).size;
    len = λ buf.
        let base = write_base-Adds buf in
        let nodes = write_nodes-Adds (write_base buf k) p in
        let close = close_r_with_tok-Adds (write_nodes (write_base buf k) p) in
        omega (arith, base.len, nodes.len, close.len);
  }

  pub r_gp-Fits : (p : PNode) → Fits (λ buf. Msg.r_gp buf k p)
  unfolding Msg.r_gp
  r_gp-Fits p = record {
    size = λ buf.
        let nodes = write_nodes (write_base buf k) p in
        (close_r_with_tok-Adds (append Msg.r_token nodes)).size
        ∙ (append-Adds Msg.r_token nodes).size
        ∙ (write_nodes-Adds (write_base buf k) p).size
        ∙ (write_base-Adds buf).size;
    len = λ buf.
        let base = write_base-Adds buf in
        let nodes = write_nodes-Adds (write_base buf k) p in
        let token = append-Adds Msg.r_token (write_nodes (write_base buf k) p) in
        let close = close_r_with_tok-Adds (append Msg.r_token (write_nodes (write_base buf k) p)) in
        omega (arith, base.len, nodes.len, token.len, close.len);
  }
