-- ===== src/Krpc/Decode/Keys.antt =====
-- cht/krpc.cpp, `xdecode`: strings that are keys, of the outer and of the inner dictionary.
use Prim.Native.String.{String}
use dht_cpp.Base.{ℕ, Bool, ◌&&◌, ◌==◌, ◌!=◌, if◌then◌else◌, get_or, bit_and, bit_or}
use dht_cpp.Krpc.Flags.{
  Key, Method, q_ap, q_fn, q_gp, r_fn, r_gp, r_any, q_any, complement, meets, nokey, ikey_values,
  ikey_nodes, ikey_token, ikey_ih, ikey_nid, ikey_target, ikey_implport, ikey_port, ikey_ap_name,
  okey_a, okey_t, okey_q, okey_r, okey_y,
}
use dht_cpp.Krpc.State.{Decoder, Step, continue}
use dht_cpp.Stat.{bd_y_inconsistent_type}
use dht_cpp.Krpc.Decode.Common.{fail, xd_match}

-- `msg_kind = kind; current_key = key; seen_keys |= key; continue;`
abbrev pub on_key : Decoder → Key → Method → Step
on_key d key kind = continue (record d {
  hist = record { current_key = key; seen_keys = bit_or d.hist.seen_keys key; msg_kind = kind };
})

-- `current_key = NOKEY; continue;`
abbrev pub unknown_key : Decoder → Step
unknown_key d = continue (record d { hist = record d.hist { current_key = nokey } })

-- The switch on the one character of an outer key.
unfoldable pub okey_case : Decoder → ℕ → ℕ → Step
okey_case d slen c =
    let h = d.hist in
    if slen != 1
    then continue d
    else if c == b'a'
    then (if meets h.seen_keys okey_r
        then fail d bd_y_inconsistent_type
        else on_key d okey_a (bit_and h.msg_kind q_any))
    else if c == b'r'
    then (if meets h.seen_keys (bit_or okey_a okey_q)
        then fail d bd_y_inconsistent_type
        else on_key d okey_r (bit_and h.msg_kind r_any))
    else if c == b't'
    then on_key d okey_t h.msg_kind
    else if c == b'q'
    then (if meets h.seen_keys okey_r
        then fail d bd_y_inconsistent_type
        else on_key d okey_q (bit_and h.msg_kind q_any))
    else if c == b'y'
    then on_key d okey_y h.msg_kind
    else unknown_key d

-- `case XD_OKEY`; the state is `XD_OVAL` already.
unfoldable pub read_okey : Decoder → ℕ → ℕ → Step
unfolding okey_case
read_okey d start slen = okey_case d slen (get_or d.krpc.bytes start 0)

-- The switch on the length of an inner key, with the test whether the key has a name. A name of no
-- listed length keeps `current_key`.
unfoldable pub ikey_case : Decoder → ℕ → (String → Bool) → Step
ikey_case d slen named =
    let h = d.hist in
    if slen == 2
    then (if named "id" then on_key d ikey_nid h.msg_kind else unknown_key d)
    else if slen == 4
    then (if meets h.msg_kind q_ap && named "name"
        then on_key d ikey_ap_name q_ap
        else if named "port"
        then continue (record d { hist = record h { seen_keys = bit_or h.seen_keys ikey_port } })
        else unknown_key d)
    else if slen == 5
    then (if named "nodes"
        then on_key d ikey_nodes (bit_and h.msg_kind (bit_or r_fn r_gp))
        else if named "token"
        then on_key d ikey_token (bit_and h.msg_kind (complement q_fn))
        else unknown_key d)
    else if slen == 6
    then (if named "values"
        then on_key d ikey_values (bit_and h.msg_kind r_gp)
        else if named "target"
        then on_key d ikey_target (bit_and h.msg_kind q_fn)
        else unknown_key d)
    else if slen == 9
    then (if named "info_hash"
        then on_key d ikey_ih (bit_and h.msg_kind (bit_or q_gp q_ap))
        else unknown_key d)
    else if slen == 12
    then (if named "implied_port"
        then on_key d ikey_implport (bit_and h.msg_kind q_ap)
        else unknown_key d)
    else continue d

-- `case XD_IKEY`; the state is `XD_IVAL` already.
unfoldable pub read_ikey : Decoder → ℕ → ℕ → Step
unfolding ikey_case
read_ikey d start slen = ikey_case d slen (xd_match d start slen)
