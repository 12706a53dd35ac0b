-- ===== src/Msg.antt =====
-- cht/msg.cpp: the writers of the messages that are sent. A writer takes the buffer and returns the
-- buffer that it leaves with the number of bytes of the message, as the code returns it.
pub mod Layout
pub mod Writers
pub mod RoundTrip
pub mod Exchange
pub mod Fits
use dht_cpp.Base.{
  ℕ, zero, suc, ◌+◌, ◌-◌, ◌/◌, ◌%◌, List, [], ◌∷◌, ◌++◌, bit_xor, Bytes, codes, length, get_or, set,
  replicate, ltb, if◌then◌else◌,
}
use dht_cpp.Dht.{
  Nih, PNode, Peerinfo, nih_len, pnode_len, our_tok_pg, our_tok_gp, our_tok_fn, our_token,
}
use dht_cpp.Krpc.Reply.{KReply}

-- `MSG_BUF_LEN`, the size of a buffer that a message is written into.
abbrev pub msg_buf_len : ℕ
msg_buf_len = 256

-- `SID4` in a build with `MSG_CLOSE_SID`, as the Makefile sets it.
abbrev pub sid4 : ℕ
sid4 = 0xff

abbrev pub sid_mask : Bytes
sid_mask = 0 ∷ 0 ∷ 0 ∷ sid4 ∷ codes "YIELDTOTHESCRAPE"

abbrev pub q_fn_proto : Bytes
q_fn_proto =
    codes "d1:ad2:id20:"
    ++ (replicate 20 0
        ++ (codes "6:target20:"
            ++ (replicate 20 0
                ++ (codes "e1:q9:find_node1:t1:" ++ (our_tok_fn ∷ codes "1:y1:qe")))))

-- The array has 97 elements, one more than its initialiser; the last is zero.
abbrev pub q_gp_proto : Bytes
q_gp_proto =
    codes "d1:ad2:id20:"
    ++ (replicate 20 0
        ++ (codes "9:info_hash20:"
            ++ (replicate 20 0
                ++ (codes "e1:q9:get_peers1:t3:"
                    ++ (0 ∷ 0 ∷ our_tok_gp ∷ (codes "1:y1:qe" ++ 0 ∷ []))))))

abbrev pub q_pg_proto : Bytes
q_pg_proto =
    codes "d1:ad2:id20:"
    ++ (replicate 20 0 ++ (codes "e1:q4:ping1:t1:" ++ (our_tok_pg ∷ codes "1:y1:qe")))

abbrev pub r_base : Bytes
r_base = codes "d1:y1:r1:rd2:id20:" ++ replicate 20 0

abbrev pub r_nodes : Bytes
r_nodes = codes "5:nodes26:" ++ replicate 26 0

abbrev pub r_token : Bytes
r_token = codes "5:token1:" ++ our_token ∷ []

abbrev pub q_sid_offset : ℕ
q_sid_offset = 12

abbrev pub q_fn_target_offset : ℕ
q_fn_target_offset = 43

abbrev pub q_gp_ih_offset : ℕ
q_gp_ih_offset = 46

abbrev pub q_gp_tok_offset : ℕ
q_gp_tok_offset = 86

-- `memcpy(buf + offset, src, n)`, of all `n` bytes of `src`.
unfoldable pub memcpy : Bytes → ℕ → Bytes → Bytes
memcpy buf i [] = buf
memcpy [] i (s ∷ src) = []
memcpy (b ∷ buf) zero (s ∷ src) = s ∷ memcpy buf zero src
memcpy (b ∷ buf) (suc i) (s ∷ src) = b ∷ memcpy buf i (s ∷ src)

-- The loop of `write_sid_raw` over the mask.
unfoldable pub write_sid_raw : Bytes → ℕ → Bytes → Bytes
write_sid_raw buf i [] = buf
write_sid_raw buf i (m ∷ mask) = write_sid_raw (set buf i (bit_xor (get_or buf i 0) m)) (i + 1) mask

unfoldable pub write_sid : Bytes → ℕ → Nih → Bytes
unfolding memcpy write_sid_raw
write_sid buf offset nid = write_sid_raw (memcpy buf offset nid) offset sid_mask

-- A buffer with the length of the message in it.
abbrev pub Written : Type 0
Written = Bytes × ℕ

-- The two bytes of a u16, the least significant first.
abbrev pub u16_bytes : ℕ → Bytes
u16_bytes x = x % 0x100 ∷ x / 0x100 ∷ []

unfoldable pub q_gp : Bytes → Nih → Nih → ℕ → Written
unfolding write_sid
q_gp buf nid infohash tok =
    let b = memcpy buf 0 q_gp_proto in
    let b' = memcpy (write_sid b q_sid_offset nid) q_gp_ih_offset infohash in
    (memcpy b' q_gp_tok_offset (u16_bytes tok), length q_gp_proto)

unfoldable pub q_fn : Bytes → Nih → Nih → Written
unfolding write_sid
q_fn buf nid target =
    let b = memcpy (memcpy buf 0 q_fn_proto) q_fn_target_offset target in
    (write_sid b q_sid_offset nid, length q_fn_proto)

unfoldable pub q_pg : Bytes → Nih → Written
unfolding write_sid
q_pg buf nid = (write_sid (memcpy buf 0 q_pg_proto) q_sid_offset nid, length q_pg_proto)

-- The digits of `%u`, for at most `fuel` digits.
unfoldable pub decimal : ℕ → ℕ → Bytes
decimal zero n = []
decimal (suc fuel) n =
    let more = decimal fuel (n / 10) in (if ltb n 10 then [] else more) ++ (0x30 + n % 10) ∷ []

-- `sprintf(buf + offset, "1:t%u:", n)` for a `u8`: the bytes, then a zero byte.
abbrev pub tok_prefix : ℕ → Bytes
tok_prefix n = codes "1:t" ++ (decimal 3 n ++ codes ":")

-- `append`: copy, and advance the offset.
abbrev pub append : Bytes → Written → Written
append src (buf, offset) = (memcpy buf offset src, offset + length src)

unfoldable pub close_r_with_tok : Written → KReply → Written
unfolding memcpy
close_r_with_tok w k =
    let (b, n) = append (codes "e") w in
    let prefix = tok_prefix k.tok_len in
    let b' = memcpy b n (prefix ++ 0 ∷ []) in
    append (codes "e") (append k.tok (b', n + length prefix))

-- The node's 26 bytes: `PNode::raw`.
abbrev pub u32_bytes : ℕ → Bytes
u32_bytes x = x % 0x100 ∷ x / 0x100 % 0x100 ∷ x / 0x10000 % 0x100 ∷ x / 0x1000000 ∷ []

unfoldable pub pnode_raw : PNode → Bytes
pnode_raw p = p.nid ++ (u32_bytes p.peerinfo.in_addr ++ u16_bytes p.peerinfo.sin_port)

-- The start of every reply: the sender's id stands in the last 20 bytes.
unfoldable pub write_base : Bytes → KReply → Written
unfolding memcpy write_sid
write_base buf krpc = let (b, n) = append r_base (buf, 0) in (write_sid b (n - nih_len) krpc.nid, n)

unfoldable pub write_nodes : Written → PNode → Written
unfolding memcpy pnode_raw
write_nodes w pnode =
    let (b, n) = append r_nodes w in (memcpy b (n - pnode_len) (pnode_raw pnode), n)

unfoldable pub r_fn : Bytes → KReply → PNode → Written
unfolding write_base write_nodes close_r_with_tok
r_fn buf krpc pnode = close_r_with_tok (write_nodes (write_base buf krpc) pnode) krpc

unfoldable pub r_gp : Bytes → KReply → PNode → Written
unfolding write_base write_nodes close_r_with_tok memcpy
r_gp buf krpc payload =
    close_r_with_tok (append r_token (write_nodes (write_base buf krpc) payload)) krpc

unfoldable pub r_pg : Bytes → KReply → Written
unfolding write_base close_r_with_tok
r_pg buf krpc = close_r_with_tok (write_base buf krpc) krpc
