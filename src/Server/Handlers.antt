-- ===== src/Server/Handlers.antt =====
-- cht/server.hpp: the cases of `handle_recv`, one for each method of a message that was accepted.
use dht_cpp.Base.{
  ℕ, zero, suc, ◌+◌, ◌*◌, ◌%◌, ◌^◌, List, [], ◌∷◌, Option, none, some, Bytes, get_or, take, drop,
  ltb, ◌==◌, if◌then◌else◌, Run, ok, crash, ◌>>=◌, assertion, null_pointer,
}
use dht_cpp.Ctl.{ctl_decide_ping}
use dht_cpp.Dht.{Nih, PNode, u32_of, checksum, nih_len, pnode_len}
use dht_cpp.Gpm
use dht_cpp.Gpm.Hops.{NextHop}
use dht_cpp.Gpm.{Token, Extracted}
use dht_cpp.Krpc.Flags.{q_ap, q_fn, q_gp, q_pg, r_fn, r_gp, r_pg}
use dht_cpp.Krpc.Reply.{k_reply}
use dht_cpp.Krpc.State.{Krpc, bytes_at}
use dht_cpp.Msg
use dht_cpp.Rt
use dht_cpp.Rt.Address.{be16toh}
use dht_cpp.Server.Send.{send_msg}
use dht_cpp.Server.State.{
  Server, Endpoint, as_endpoint, in_addr, count_stat, gpm_of, with_gpm, rt_of, with_rt,
}
use dht_cpp.Spam.{spam_check_tx_pg, spam_check_tx_q_gp}
use dht_cpp.Stat.{
  rx_q_pg, rx_q_fn, rx_q_gp, rx_q_ap, rx_r_fn, rx_r_gp, rx_r_gp_values, rx_r_gp_nodes, rx_r_pg,
  bd_z_ap_bad_name, err_bd_empty_r_gp, tx_ping_drop_ctl,
}
use dht_cpp.Util.Utf8.{is_valid_utf8}

-- `*krpc.nid` and the like.
abbrev pub nih_at : Krpc → Option ℕ → Run Nih
nih_at k p = bytes_at k p nih_len

-- The node in 26 bytes.
unfoldable pub node_of : Bytes → PNode
unfolding u32_of
node_of b = record {
  nid = take nih_len b;
  peerinfo = record {
    in_addr = u32_of (drop nih_len b);
    sin_port = get_or b 24 0 + 0x100 * get_or b 25 0;
  };
}

unfoldable pub nodes_from : ℕ → Bytes → List PNode
unfolding node_of
nodes_from zero b = []
nodes_from (suc n) b = node_of (take pnode_len b) ∷ nodes_from n (drop pnode_len b)

-- `krpc.nodes[0]` to `krpc.nodes[n_nodes - 1]`.
unfoldable pub nodes_of : Krpc → Run (List PNode)
unfolding nodes_from
nodes_of k =
    let all = bytes_at k k.nodes (pnode_len * k.n_nodes) >>= λ b. ok (nodes_from k.n_nodes b) in
    if k.n_nodes == 0 then ok [] else all

-- `g_rt.insert_contact(krpc, in_addr(sender), port, …)`
unfoldable pub insert_sender : Krpc → Endpoint → ℕ → Server → Run Server
unfolding Rt.insert_contact in_addr
insert_sender k sender port s =
    nih_at k k.nid >>= λ nid. ok (with_rt s (Rt.insert_contact nid (in_addr sender) port (rt_of s)))

-- `htobe16(sender.port())`
abbrev pub net_port : Endpoint → ℕ
net_port sender = be16toh sender.port

unfoldable pub on_q_pg : Krpc → Endpoint → Server → Run Server
unfolding insert_sender send_msg
on_q_pg k sender s = k_reply k >>= λ krp.
    insert_sender k sender (net_port sender)
      (send_msg (λ buf. Msg.r_pg buf krp) sender (count_stat rx_q_pg s))

unfoldable pub on_q_fn : Krpc → Endpoint → Server → Run Server
unfolding insert_sender send_msg
on_q_fn k sender s = nih_at k k.target >>= λ target.
    let (payload, t) = Rt.get_neighbor_contact target (rt_of (count_stat rx_q_fn s)) in
    k_reply k >>= λ krp.
    insert_sender k sender (net_port sender)
      (send_msg (λ buf. Msg.r_fn buf krp payload) sender (with_rt (count_stat rx_q_fn s) t))

-- The pursuit of an info hash, if a token was found: the node to ask, which is the answer's as well.
unfoldable pub pursue : Option ℕ → Krpc → Nih → PNode → Server → Run (PNode × Server)
unfolding send_msg
pursue none k ih neig s = ok (neig, s)
pursue (some tok) k ih neig s = nih_at k k.nid >>= λ nid.
    let (neig', t) =
      if checksum neig.nid == checksum nid
      then Rt.get_random_valid_node (rt_of s)
      else (neig, rt_of s) in
    let s' =
      send_msg (λ buf. Msg.q_gp buf neig'.nid ih tok) (as_endpoint neig'.peerinfo) (with_rt s t) in
    ok (neig', with_gpm s' (Gpm.register_q_gp_ihash neig'.nid ih 0 tok (gpm_of s')))

unfoldable pub on_q_gp : Krpc → Endpoint → Server → Run Server
unfolding pursue insert_sender send_msg
on_q_gp k sender s =
    let token = Gpm.decide_pursue_q_gp_ih (gpm_of (count_stat rx_q_gp s)) in
    let s₁ = with_gpm (count_stat rx_q_gp s) token.gpm in
    nih_at k k.ih >>= λ ih.
    let (neig, t) = Rt.get_neighbor_contact ih (rt_of s₁) in
    pursue token.tok k ih neig (with_rt s₁ t) >>= λ (neig', s₂). k_reply k >>= λ krp.
    insert_sender k sender (net_port sender) (send_msg (λ buf. Msg.r_gp buf krp neig') sender s₂)

-- The name of an announcement, from its first byte on.
abbrev pub name_at : Krpc → Run Bytes
name_at k = elim k.ap_name [ none ↦ crash null_pointer | some p ↦ ok (drop p k.bytes) ]

unfoldable pub on_q_ap : Krpc → Endpoint → Server → Run Server
unfolding send_msg
on_q_ap k sender s =
    let s' = count_stat rx_q_ap s in
    let reply = k_reply k >>= λ krp. ok (send_msg (λ buf. Msg.r_pg buf krp) sender s') in
    let checked = name_at k >>= λ name.
    if is_valid_utf8 name k.ap_name_len then reply else ok (count_stat bd_z_ap_bad_name s') in
    if ltb 0 k.ap_name_len then checked else reply

-- `ping_sweep_nodes`, over the nodes left.
unfoldable pub ping_sweep_nodes : List PNode → Server → Server
unfolding send_msg
ping_sweep_nodes [] s = s
ping_sweep_nodes (node ∷ nodes) s =
    let (out, tables, counters) = spam_check_tx_pg node.peerinfo.in_addr s.tables s.counters in
    let checked = record s { tables = tables; counters = counters } in
    let pinged = send_msg (λ buf. Msg.q_pg buf node.nid) (as_endpoint node.peerinfo) checked in
    ping_sweep_nodes nodes (
      if ctl_decide_ping node.nid
      then (if out then pinged else checked)
      else count_stat tx_ping_drop_ctl s)

unfoldable pub on_r_fn : Krpc → Server → Run Server
unfolding ping_sweep_nodes
on_r_fn k s =
    let s' = count_stat rx_r_fn s in
    if k.n_nodes == 0
    then ok (count_stat err_bd_empty_r_gp s')
    else nodes_of k >>= λ nodes. ok (ping_sweep_nodes nodes s')

-- The loop over the next hops; it is left when no token is free.
unfoldable pub ask_hops : Nih → ℕ → List PNode → Server → Server
unfolding send_msg
ask_hops ih hop_ctr [] s = s
ask_hops ih hop_ctr (pn ∷ pnodes) s =
    let (out, tables, counters) = spam_check_tx_q_gp pn.peerinfo.in_addr ih s.tables s.counters in
    let checked = record s { tables = tables; counters = counters } in
    let token = Gpm.take_tok (gpm_of checked) in
    let s' = with_gpm checked token.gpm in
    let skip = ask_hops ih hop_ctr pnodes checked in
    let ask = λ (tok : ℕ).
      let asked = send_msg (λ buf. Msg.q_gp buf pn.nid ih tok) (as_endpoint pn.peerinfo) s' in
      ask_hops ih hop_ctr pnodes (
        with_gpm asked
          (Gpm.register_q_gp_ihash pn.nid ih ((hop_ctr + 1) % 2 ^ 8) tok (gpm_of asked))) in
    if out then elim token.tok [ none ↦ s' | some tok ↦ ask tok ] else skip

-- The part of the case `R_GP` for messages with peers, in a build with `STAT_AUX`, whose own counters
-- are left out.
unfoldable pub on_values : Krpc → Endpoint → Server → Run Server
unfolding insert_sender
on_values k sender s =
    let s' = count_stat rx_r_gp_values s in
    Gpm.get_tok_hops k (gpm_of s') >>= λ hops.
    Gpm.clear_tok k (gpm_of s') >>= λ g. insert_sender k sender (net_port sender) (with_gpm s' g)

unfoldable pub after_extract : Option NextHop → Server → Server
after_extract none s = s
after_extract (some next) s = ask_hops next.ih next.hop_ctr next.pnodes s

unfoldable pub on_r_gp : Krpc → Endpoint → Server → Run Server
unfolding on_values ping_sweep_nodes ask_hops after_extract
on_r_gp k sender s =
    let s' = count_stat rx_r_gp s in
    let first = if ltb 0 k.n_peers then on_values k sender s' else ok s' in
    first >>= λ s₁.
    let rest = nodes_of k >>= λ nodes.
    let swept = ping_sweep_nodes nodes (count_stat rx_r_gp_nodes s₁) in
    Gpm.extract_tok k nodes (gpm_of swept) >>= λ e.
    ok (after_extract e.next (with_gpm swept e.gpm)) in
    if k.n_nodes == 0 then ok s₁ else rest

-- The port is not converted here.
unfoldable pub on_r_pg : Krpc → Endpoint → Server → Run Server
unfolding insert_sender
on_r_pg k sender s = insert_sender k sender sender.port (count_stat rx_r_pg s)

-- `switch (krpc.method)`
unfoldable pub dispatch : Krpc → Endpoint → Server → Run Server
unfolding on_q_pg on_q_fn on_q_gp on_q_ap on_r_fn on_r_gp on_r_pg
dispatch k sender s =
    if k.method == q_pg
    then on_q_pg k sender s
    else if k.method == q_fn
    then on_q_fn k sender s
    else if k.method == q_gp
    then on_q_gp k sender s
    else if k.method == q_ap
    then on_q_ap k sender s
    else if k.method == r_fn
    then on_r_fn k s
    else if k.method == r_gp
    then on_r_gp k sender s
    else if k.method == r_pg
    then on_r_pg k sender s
    else crash assertion
