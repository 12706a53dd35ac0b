-- ===== src/Krpc/Decode/Values.antt =====
-- cht/krpc.cpp, `xdecode`: strings that are values.
use Prim.Native.String.{String}
use dht_cpp.Base.{
  ℕ, Bool, ◌+◌, ◌*◌, ◌/◌, ◌%◌, ◌||◌, Option, none, some, ltb, ◌==◌, ◌!=◌, if◌then◌else◌, get_or,
  bit_and,
}
use dht_cpp.Dht.{nih_len, peerinfo_len, pnode_len}
use dht_cpp.Krpc.Flags.{
  Method, q_fn, q_gp, q_pg, r_any, q_any, maxlen_tok, maxlen_token, maxlen_ap_name, max_peers,
  max_nodes, ikey_values, ikey_nodes, ikey_token, ikey_ih, ikey_nid, ikey_target, ikey_ap_name,
  okey_t, okey_q, okey_y,
}
use dht_cpp.Krpc.State.{Krpc, Decoder, Step, continue}
use dht_cpp.Stat.{
  bd_y_bad_length_peer, bd_y_bad_length_nodes, bd_y_bad_length_ih, bd_y_bad_length_nid,
  bd_y_bad_length_target, bd_z_tok_too_long, bd_z_token_too_long, bd_z_unexpected_list,
  bd_z_unknown_query, bd_z_unknown_type, bd_z_error_type,
}
use dht_cpp.Krpc.Decode.Common.{fail, xd_match}

-- `msg_kind &= kinds; continue;`
abbrev pub narrow : Decoder → Method → Step
narrow d kinds =
    continue (record d { hist = record d.hist { msg_kind = bit_and d.hist.msg_kind kinds } })

-- `case OKEY_Q`, with the test whether the value has a name. The case of "announce_peer" has no `continue`, and falls through to the failure.
unfoldable pub read_query : Decoder → ℕ → (String → Bool) → Step
read_query d slen named =
    let bad_q = λ (e : Decoder). fail e bd_z_unknown_query in
    if slen == 4
    then (if named "ping" then narrow d q_pg else bad_q d)
    else if slen == 9
    then (if named "get_peers"
        then narrow d q_gp
        else if named "find_node"
        then narrow d q_fn
        else bad_q d)
    else bad_q d

-- `case OKEY_Y`, with the character of the value.
unfoldable pub read_type : Decoder → ℕ → ℕ → Step
read_type d slen c =
    if slen == 1
    then (if c == b'e'
        then fail d bd_z_error_type
        else if c == b'r'
        then narrow d r_any
        else if c == b'q'
        then narrow d q_any
        else fail d bd_z_unknown_type)
    else fail d bd_z_unknown_type

-- `continue` with the message changed.
abbrev pub store : Decoder → Krpc → Step
store d k = continue (record d { krpc = k })

-- `case XD_OVAL`; the state is `XD_OKEY` already.
unfoldable pub read_oval : Decoder → ℕ → ℕ → Step
unfolding read_query read_type
read_oval d start slen =
    let key = d.hist.current_key in
    if key == okey_q
    then read_query d slen (xd_match d start slen)
    else if key == okey_t
    then (if ltb maxlen_tok slen
        then fail d bd_z_tok_too_long
        else store d (record d.krpc { tok_len = slen; tok = some start }))
    else if key == okey_y
    then read_type d slen (get_or d.krpc.bytes start 0)
    else continue d

-- `case IKEY_NODES`; of a longer list the first `MAX_NODES` nodes are kept.
unfoldable pub read_nodes : Decoder → ℕ → ℕ → Step
read_nodes d start slen =
    let kept = if ltb (pnode_len * max_nodes) slen then pnode_len * max_nodes else slen in
    if slen == 0 || slen % pnode_len != 0
    then fail d bd_y_bad_length_nodes
    else store d (record d.krpc { n_nodes = kept / pnode_len; nodes = some start })

-- `case XD_IVAL`; the state is `XD_IKEY` already.
unfoldable pub read_ival : Decoder → ℕ → ℕ → Step
unfolding read_nodes
read_ival d start slen =
    let key = d.hist.current_key in
    let k = d.krpc in
    if key == ikey_nodes
    then read_nodes d start slen
    else if key == ikey_token
    then (if ltb maxlen_token slen
        then fail d bd_z_token_too_long
        else store d (record k { token_len = slen; token = some start }))
    else if key == ikey_target
    then (if slen != nih_len
        then fail d bd_y_bad_length_target
        else store d (record k { target = some start }))
    else if key == ikey_nid
    then (if slen != nih_len
        then fail d bd_y_bad_length_nid
        else store d (record k { nid = some start }))
    else if key == ikey_ih
    then (if slen != nih_len
        then fail d bd_y_bad_length_ih
        else store d (record k { ih = some start }))
    else if key == ikey_ap_name
    then (if ltb maxlen_ap_name slen
        then continue d
        else store d (record k { ap_name_len = slen; ap_name = some start }))
    else continue d

-- The pointer to the first peer, set by the first peer.
abbrev pub or_start : Option ℕ → ℕ → Option ℕ
or_start none start = some start
or_start (some p) start = some p

-- `case XD_IVLIST`
unfoldable pub read_ivlist : Decoder → ℕ → ℕ → Step
read_ivlist d start slen =
    let k = d.krpc in
    if d.hist.current_key != ikey_values
    then fail d bd_z_unexpected_list
    else if slen != peerinfo_len
    then fail d bd_y_bad_length_peer
    else if ltb k.n_peers max_peers
    then store d (record k { n_peers = k.n_peers + 1; peers = or_start k.peers start })
    else continue d
