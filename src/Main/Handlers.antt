-- ===== src/Main/Handlers.antt =====
-- cht/main.cpp: `handle_msg`, with a function for each case of its switch.
use dht_cpp.Base.{
  ℕ, ◌+◌, ◌%◌, ◌^◌, List, [], ◌∷◌, Option, none, some, ltb, ◌==◌, if◌then◌else◌, Run, ok, crash,
  ◌>>=◌, assertion,
}
use dht_cpp.Ctl.{ctl_decide_ping}
use dht_cpp.Dht.{Nih, PNode, Peerinfo, checksum}
use dht_cpp.Gpm
use dht_cpp.Gpm.Hops.{NextHop}
use dht_cpp.Krpc.Flags.{q_ap, q_fn, q_gp, q_pg, r_fn, r_gp, r_pg}
use dht_cpp.Krpc.Reply.{k_reply}
use dht_cpp.Krpc.State.{Krpc}
use dht_cpp.Main.Send.{send_msg}
use dht_cpp.Main.State.{Uv, Node, count_stat, gpm_of, with_gpm, rt_of, with_rt}
use dht_cpp.Msg
use dht_cpp.Rt
use dht_cpp.Server.Handlers.{nih_at, nodes_of, name_at}
use dht_cpp.Spam.{spam_check_tx_pg, spam_check_tx_q_gp}
use dht_cpp.Stat.Rollover.{Statics, st_click_dkad, st_click_gp_n_hops}
use dht_cpp.Util.Dkad.{dkad}
use dht_cpp.Stat.{
  tx_q_pg, tx_q_gp, tx_r_pg, tx_r_fn, tx_r_gp, tx_r_ap, tx_ping_drop_ctl, rx_q_pg, rx_q_fn, rx_q_gp,
  rx_q_ap, rx_r_fn, rx_r_gp, rx_r_gp_values, rx_r_gp_nodes, rx_r_pg, err_bd_empty_r_gp,
}
use dht_cpp.Util.Utf8.{is_valid_utf8}

-- `g_rt.insert_contact(krpc, saddr, …)`
unfoldable pub insert_saddr : Krpc → Peerinfo → Node → Run Node
unfolding Rt.insert_contact
insert_saddr k saddr s = nih_at k k.nid >>= λ nid.
    ok (with_rt s (Rt.insert_contact nid saddr.in_addr saddr.sin_port (rt_of s)))

-- `if (val > 0) st_click_gp_n_hops(val);`
unfoldable pub click_hops : Option ℕ → Node → Run Node
unfolding st_click_gp_n_hops
click_hops none s = ok s
click_hops (some hops) s =
    let clicked = st_click_gp_n_hops (hops % 2 ^ 8) s.statics >>= λ statics.
    ok (record s { statics = statics }) in
    if ltb 0 hops then clicked else ok s

-- The calls of `st_click_dkad` in `find_best_hops`, over the nodes of the message, if it is called.
unfoldable pub click_dkads : Nih → List PNode → Statics → Run Statics
unfolding st_click_dkad dkad
click_dkads ih [] v = ok v
click_dkads ih (node ∷ nodes) v =
    st_click_dkad (dkad ih node.nid % 2 ^ 8) v >>= λ v'. click_dkads ih nodes v'

unfoldable pub click_nodes : Option NextHop → List PNode → Node → Run Node
unfolding click_dkads
click_nodes none nodes s = ok s
click_nodes (some next) nodes s =
    click_dkads next.ih nodes s.statics >>= λ statics. ok (record s { statics = statics })

module _ (uv : Uv) where
  unfoldable pub handle_q_pg : Krpc → Peerinfo → Node → Run Node
  unfolding insert_saddr send_msg
  handle_q_pg k saddr s = k_reply k >>= λ krp.
      insert_saddr k saddr
        (send_msg uv (λ buf. Msg.r_pg buf krp) saddr tx_r_pg (count_stat rx_q_pg s))

  unfoldable pub handle_q_fn : Krpc → Peerinfo → Node → Run Node
  unfolding insert_saddr send_msg
  handle_q_fn k saddr s =
      let s' = count_stat rx_q_fn s in
      nih_at k k.target >>= λ target.
      let (payload, t) = Rt.get_neighbor_contact target (rt_of s') in
      k_reply k >>= λ krp.
      insert_saddr k saddr
        (send_msg uv (λ buf. Msg.r_fn buf krp payload) saddr tx_r_fn (with_rt s' t))

  -- The block under `if (pursue)`: the node that was asked, which goes into the answer as well.
  unfoldable pub pursue_ih : Option ℕ → Krpc → Nih → PNode → Node → Run (PNode × Node)
  unfolding send_msg
  pursue_ih none k ih neig s = ok (neig, s)
  pursue_ih (some tok) k ih neig s = nih_at k k.nid >>= λ nid.
      let (neig', t) =
        if checksum neig.nid == checksum nid
        then Rt.get_random_valid_node (rt_of s)
        else (neig, rt_of s) in
      let s' =
        send_msg uv (λ buf. Msg.q_gp buf neig'.nid ih tok) neig'.peerinfo tx_q_gp (with_rt s t) in
      ok (neig', with_gpm s' (Gpm.register_q_gp_ihash neig'.nid ih 0 tok (gpm_of s')))

  unfoldable pub handle_q_gp : Krpc → Peerinfo → Node → Run Node
  unfolding pursue_ih insert_saddr send_msg
  handle_q_gp k saddr s =
      let s' = count_stat rx_q_gp s in
      let token = Gpm.decide_pursue_q_gp_ih (gpm_of s') in
      let s₁ = with_gpm s' token.gpm in
      nih_at k k.ih >>= λ ih.
      let (neig, t) = Rt.get_neighbor_contact ih (rt_of s₁) in
      pursue_ih token.tok k ih neig (with_rt s₁ t) >>= λ (neig', s₂). k_reply k >>= λ krp.
      insert_saddr k saddr (send_msg uv (λ buf. Msg.r_gp buf krp neig') saddr tx_r_gp s₂)

  unfoldable pub handle_q_ap : Krpc → Peerinfo → Node → Run Node
  unfolding send_msg
  handle_q_ap k saddr s =
      let s' = count_stat rx_q_ap s in
      let reply =
        k_reply k >>= λ krp. ok (send_msg uv (λ buf. Msg.r_pg buf krp) saddr tx_r_ap s') in
      let named = name_at k >>= λ name.
      if is_valid_utf8 name k.ap_name_len then reply else ok (count_stat uv.bm_ap_bad_name s') in
      if ltb 0 k.ap_name_len then named else reply

  -- `ping_sweep_nodes`, over the nodes left.
  unfoldable pub ping_sweep_nodes : List PNode → Node → Node
  unfolding send_msg
  ping_sweep_nodes [] s = s
  ping_sweep_nodes (node ∷ nodes) s =
      let (out, tables, counters) = spam_check_tx_pg node.peerinfo.in_addr s.tables s.counters in
      let checked = record s { tables = tables; counters = counters } in
      let pinged = send_msg uv (λ buf. Msg.q_pg buf node.nid) node.peerinfo tx_q_pg checked in
      ping_sweep_nodes nodes (
        if ctl_decide_ping node.nid
        then (if out then pinged else checked)
        else count_stat tx_ping_drop_ctl s)

  unfoldable pub handle_r_fn : Krpc → Node → Run Node
  unfolding ping_sweep_nodes
  handle_r_fn k s =
      let s' = count_stat rx_r_fn s in
      if k.n_nodes == 0
      then ok (count_stat err_bd_empty_r_gp s')
      else nodes_of k >>= λ nodes. ok (ping_sweep_nodes nodes s')

  -- One next hop, with the token that it is asked under.
  unfoldable pub ask_hop : Nih → ℕ → PNode → ℕ → Node → Node
  unfolding send_msg
  ask_hop ih hop_ctr pn tok s =
      let asked = send_msg uv (λ buf. Msg.q_gp buf pn.nid ih tok) pn.peerinfo tx_q_gp s in
      with_gpm asked (Gpm.register_q_gp_ihash pn.nid ih ((hop_ctr + 1) % 2 ^ 8) tok (gpm_of asked))

  -- The loop over the next hops; it is left when no token is free.
  unfoldable pub ask_hops : Nih → ℕ → List PNode → Node → Node
  unfolding ask_hop
  ask_hops ih hop_ctr [] s = s
  ask_hops ih hop_ctr (pn ∷ pnodes) s =
      let (out, tables, counters) = spam_check_tx_q_gp pn.peerinfo.in_addr ih s.tables s.counters in
      let checked = record s { tables = tables; counters = counters } in
      let token = Gpm.take_tok (gpm_of checked) in
      let s' = with_gpm checked token.gpm in
      let skip = ask_hops ih hop_ctr pnodes checked in
      let ask = λ (tok : ℕ). ask_hops ih hop_ctr pnodes (ask_hop ih hop_ctr pn tok s') in
      if out then elim token.tok [ none ↦ s' | some tok ↦ ask tok ] else skip

  -- The part for messages with peers, in a build with `STAT_AUX`.
  unfoldable pub handle_values : Krpc → Peerinfo → Node → Run Node
  unfolding insert_saddr click_hops
  handle_values k saddr s =
      let s' = count_stat rx_r_gp_values s in
      Gpm.get_tok_hops k (gpm_of s') >>= λ hops. click_hops hops s' >>= λ s₁.
      Gpm.clear_tok k (gpm_of s₁) >>= λ g. insert_saddr k saddr (with_gpm s₁ g)

  unfoldable pub ask_next : Option NextHop → Node → Node
  ask_next none s = s
  ask_next (some next) s = ask_hops next.ih next.hop_ctr next.pnodes s

  -- The part for messages with nodes.
  unfoldable pub handle_nodes : Krpc → Node → Run Node
  unfolding ping_sweep_nodes ask_hops ask_next click_nodes
  handle_nodes k s = nodes_of k >>= λ nodes.
      let swept = ping_sweep_nodes nodes (count_stat rx_r_gp_nodes s) in
      Gpm.extract_tok k nodes (gpm_of swept) >>= λ e.
      click_nodes e.next nodes (with_gpm swept e.gpm) >>= λ s'. ok (ask_next e.next s')

  unfoldable pub handle_r_gp : Krpc → Peerinfo → Node → Run Node
  unfolding handle_values handle_nodes
  handle_r_gp k saddr s =
      let s' = count_stat rx_r_gp s in
      let first = if ltb 0 k.n_peers then handle_values k saddr s' else ok s' in
      first >>= λ s₁. if k.n_nodes == 0 then ok s₁ else handle_nodes k s₁

  unfoldable pub handle_r_pg : Krpc → Peerinfo → Node → Run Node
  unfolding insert_saddr
  handle_r_pg k saddr s = insert_saddr k saddr (count_stat rx_r_pg s)

  unfoldable pub handle_msg : Krpc → Peerinfo → Node → Run Node
  unfolding handle_q_pg handle_q_fn handle_q_gp handle_q_ap handle_r_fn handle_r_gp handle_r_pg
  handle_msg k saddr s =
      if k.method == q_pg
      then handle_q_pg k saddr s
      else if k.method == q_fn
      then handle_q_fn k saddr s
      else if k.method == q_gp
      then handle_q_gp k saddr s
      else if k.method == q_ap
      then handle_q_ap k saddr s
      else if k.method == r_fn
      then handle_r_fn k s
      else if k.method == r_gp
      then handle_r_gp k saddr s
      else if k.method == r_pg
      then handle_r_pg k saddr s
      else crash assertion
