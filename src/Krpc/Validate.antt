-- ===== src/Krpc/Validate.antt =====
-- cht/krpc.cpp: `KRPC::validate`, the checks on a message that was read to its end.
use dht_cpp.Base.{
  ℕ, ◌+◌, not, ◌&&◌, ◌||◌, Option, none, some, ◌==◌, ◌!=◌, if◌then◌else◌, get_or, bit_or, assertion,
  null_pointer,
}
use dht_cpp.Dht.{our_tok_pg, our_tok_gp, our_tok_fn, our_token}
use dht_cpp.Krpc.Flags.{
  Method, q_ap, q_fn, q_gp, q_pg, r_fn, r_gp, r_pg, r_any, q_any, meets, ikey_values, ikey_nodes,
  ikey_token, ikey_ih, ikey_nid, ikey_target, ikey_implport, ikey_port, okey_t, ikey_any_body,
  ikey_any_non_token_body,
}
use dht_cpp.Krpc.State.{Krpc, XdHist, Step, return, crashed}
use dht_cpp.Stat.{
  Stat, bd_a_no_error, bd_y_no_nid, bd_y_no_tok, bd_y_apgp_no_ih, bd_y_ap_no_port,
  bd_y_fn_no_target, bd_y_vals_wo_token, bd_y_empty_gp_response, bd_z_token_unrecognized,
  bd_z_ping_body, bd_z_unknown_query, bd_z_bad_tok_fn, bd_z_bad_tok_gp, bd_z_bad_tok_pg,
  bd_z_incongruous_message,
}

-- `XD_FAIL`
abbrev pub xd_fail : Krpc → Stat → Step
xd_fail k code = return (record k { status = code })

-- The end of `validate`, with the method that the message was found to have.
abbrev pub accept : Krpc → Method → Step
accept k m = return (record k { method = m; status = bd_a_no_error })

-- A branch on `p[i] == b`.
abbrev pub on_byte : Krpc → Option ℕ → ℕ → ℕ → Step → Step → Step
on_byte k none i b x y = crashed null_pointer
on_byte k (some p) i b x y = if get_or k.bytes (p + i) 0 == b then x else y

-- The filter of announcements by their token: `!(token_len != 1 && token[0] == OUR_TOKEN)` rejects.
unfoldable pub filter_ap : Krpc → Step
filter_ap k =
    let rejected = xd_fail k bd_z_token_unrecognized in
    if k.token_len != 1 then on_byte k k.token 0 our_token (accept k q_ap) rejected else rejected

unfoldable pub validate_query : Krpc → XdHist → Step
unfolding filter_ap
validate_query k hist =
    if hist.msg_kind == q_ap || hist.msg_kind == q_gp
    then (if not (meets hist.seen_keys ikey_ih)
        then xd_fail k bd_y_apgp_no_ih
        else if hist.msg_kind == q_ap && not (meets hist.seen_keys (bit_or ikey_port ikey_implport))
        then xd_fail k bd_y_ap_no_port
        else if hist.msg_kind == q_ap
        then filter_ap k
        else accept k hist.msg_kind)
    else if hist.msg_kind == q_fn
    then (if not (meets hist.seen_keys ikey_target)
        then xd_fail k bd_y_fn_no_target
        else accept k q_fn)
    else if hist.msg_kind == q_pg
    then (if meets hist.seen_keys ikey_any_body then xd_fail k bd_z_ping_body else accept k q_pg)
    else xd_fail k bd_z_unknown_query

unfoldable pub validate_reply : Krpc → XdHist → Step
validate_reply k hist =
    if meets hist.seen_keys ikey_token && meets hist.seen_keys (bit_or ikey_values ikey_nodes)
    then (let k' : Krpc = record k { method = r_gp } in
        let bad_tok = xd_fail k' bd_z_bad_tok_gp in
        let good_tok =
          if k.n_nodes + k.n_peers == 0 then xd_fail k' bd_y_empty_gp_response else accept k r_gp in
        if k.tok_len != 3 then bad_tok else on_byte k k.tok 2 our_tok_gp good_tok bad_tok)
    else if meets hist.seen_keys ikey_values && not (meets hist.seen_keys ikey_token)
    then xd_fail k bd_y_vals_wo_token
    else if meets hist.seen_keys ikey_nodes
    then (let bad_tok = xd_fail k bd_z_bad_tok_fn in
        if k.tok_len != 1 then bad_tok else on_byte k k.tok 0 our_tok_fn (accept k r_fn) bad_tok)
    else if meets hist.seen_keys ikey_any_non_token_body
    then xd_fail k bd_z_ping_body
    else (let bad_tok = xd_fail k bd_z_bad_tok_pg in
        if k.tok_len != 1 then bad_tok else on_byte k k.tok 0 our_tok_pg (accept k r_pg) bad_tok)

-- The assertion is that a message is not both a query and a reply.
unfoldable pub validate : Krpc → XdHist → Step
unfolding validate_query validate_reply
validate k hist =
    if not (meets hist.seen_keys ikey_nid)
    then xd_fail k bd_y_no_nid
    else if not (meets hist.seen_keys okey_t)
    then xd_fail k bd_y_no_tok
    else if meets hist.msg_kind q_any && meets hist.msg_kind r_any
    then crashed assertion
    else if meets hist.msg_kind q_any
    then validate_query k hist
    else if meets hist.msg_kind r_any
    then validate_reply k hist
    else xd_fail k bd_z_incongruous_message
