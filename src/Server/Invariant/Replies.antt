-- ===== src/Server/Invariant/Replies.antt =====
-- cht/server.hpp: the replies of `handle_recv`, and its switch, keep the invariant.
use dht_cpp.Base.{
  ℕ, ◌+◌, ◌%◌, ◌^◌, ◌≤◌, List, [], ◌∷◌, Option, none, some, length, ltb, ◌==◌, if◌then◌else◌,
  if_elim, option_elim, ok, After, bind_After, then_After, if_After, ◌>>=◌,
}
use dht_cpp.Ctl.{ctl_decide_ping}
use dht_cpp.Dht.{Nih, PNode}
use dht_cpp.Gpm
use dht_cpp.Gpm.Reach.{IsGpm}
use dht_cpp.Gpm.Hops.{NextHop}
use dht_cpp.Gpm.{Gpm, Extracted}
use dht_cpp.Krpc.Flags.{q_ap, q_fn, q_gp, q_pg, r_fn, r_gp, r_pg}
use dht_cpp.Krpc.Safety.Shape.{IsSafe}
use dht_cpp.Krpc.State.{Krpc}
use dht_cpp.Msg
use dht_cpp.Msg.Fits.{q_pg-Fits, q_gp-Fits}
use dht_cpp.Server.Handlers.{
  net_port, nodes_of, on_r_fn, on_r_gp, on_r_pg, on_values, ping_sweep_nodes, ask_hops,
  after_extract, dispatch,
}
use dht_cpp.Server.Invariant.Parts.{
  take_tok-IsGpm, register_q_gp_ihash-IsGpm, clear_tok-IsGpm, extract_tok-IsGpm,
  spam_check_tx_pg-IsTables, spam_check_tx_q_gp-IsTables,
}
use dht_cpp.Server.Invariant.{IsServer, set_gpm, set_tables, set_count, send_msg-IsServer}
use dht_cpp.Server.Invariant.Queries.{
  insert_sender-IsServer, on_q_pg-IsServer, on_q_fn-IsServer, on_q_gp-IsServer, on_q_ap-IsServer,
}
use dht_cpp.Server.Send.{send_msg}
use dht_cpp.Server.State.{Server, Endpoint, as_endpoint, gpm_of, with_gpm, count_stat}
use dht_cpp.Spam.{spam_check_tx_pg, spam_check_tx_q_gp}
use dht_cpp.Stat.{
  tx_ping_drop_ctl, rx_r_fn, rx_r_gp, rx_r_gp_values, rx_r_gp_nodes, rx_r_pg, err_bd_empty_r_gp,
}

ping_sweep_nodes-IsServer :
    (nodes : List PNode) (s : Server) → IsServer s → IsServer (ping_sweep_nodes nodes s)
unfolding ping_sweep_nodes
ping_sweep_nodes-IsServer [] s h = h
ping_sweep_nodes-IsServer (node ∷ nodes) s h =
    let check = spam_check_tx_pg node.peerinfo.in_addr s.tables s.counters in
    let checked : Server = record s { tables = check.1; counters = check.2 } in
    let h' =
      set_tables s h check.1 check.2
        (spam_check_tx_pg-IsTables s.tables s.counters h.tables node.peerinfo.in_addr) in
    ping_sweep_nodes-IsServer nodes _ (
      if_elim IsServer (ctl_decide_ping node.nid)
        (λ _.
          if_elim IsServer check.0
            (λ _.
              send_msg-IsServer checked h' (λ buf. Msg.q_pg buf node.nid)
                (as_endpoint node.peerinfo) (q_pg-Fits node.nid))
            (λ _. h'))
        (λ _. set_count s h tx_ping_drop_ctl))

ask_hops-IsServer :
    (ih : Nih) (hop_ctr : ℕ) (pnodes : List PNode) (s : Server)
    → IsServer s
    → IsServer (ask_hops ih hop_ctr pnodes s)
unfolding ask_hops
ask_hops-IsServer ih hop_ctr [] s h = h
ask_hops-IsServer ih hop_ctr (pn ∷ pnodes) s h =
    let check = spam_check_tx_q_gp pn.peerinfo.in_addr ih s.tables s.counters in
    let checked : Server = record s { tables = check.1; counters = check.2 } in
    let h₁ =
      set_tables s h check.1 check.2
        (spam_check_tx_q_gp-IsTables s.tables s.counters h.tables pn.peerinfo.in_addr ih) in
    let token = Gpm.take_tok (gpm_of checked) in
    let s' = with_gpm checked token.gpm in
    let h₂ = set_gpm checked h₁ token.gpm (take_tok-IsGpm (gpm_of checked) h.gpm) in
    if_elim IsServer check.0
      (λ _. option_elim IsServer token.tok _ _ h₂ (λ tok.
        let asked = send_msg (λ buf. Msg.q_gp buf pn.nid ih tok) (as_endpoint pn.peerinfo) s' in
        let h₃ =
          send_msg-IsServer s' h₂ (λ buf. Msg.q_gp buf pn.nid ih tok) (as_endpoint pn.peerinfo)
            (q_gp-Fits pn.nid ih tok) in
        ask_hops-IsServer ih hop_ctr pnodes _ (
          set_gpm asked h₃
            (Gpm.register_q_gp_ihash pn.nid ih ((hop_ctr + 1) % 2 ^ 8) tok (gpm_of asked))
            (register_q_gp_ihash-IsGpm (gpm_of asked) h₃.gpm pn.nid ih ((hop_ctr + 1) % 2 ^ 8)
              tok))))
      (λ _. ask_hops-IsServer ih hop_ctr pnodes checked h₁)

after_extract-IsServer :
    (next : Option NextHop) (s : Server) → IsServer s → IsServer (after_extract next s)
unfolding after_extract
after_extract-IsServer none s h = h
after_extract-IsServer (some next) s h = ask_hops-IsServer next.ih next.hop_ctr next.pnodes s h

on_r_fn-IsServer : (k : Krpc) (s : Server) → IsServer s → After IsServer (on_r_fn k s)
unfolding on_r_fn
on_r_fn-IsServer k s h =
    let s' = count_stat rx_r_fn s in
    let h' = set_count s h rx_r_fn in
    if_After IsServer (k.n_nodes == 0) _ _ (set_count s' h' err_bd_empty_r_gp)
      (then_After IsServer (nodes_of k) _ (λ nodes. ping_sweep_nodes-IsServer nodes s' h'))

-- A message that points into the `n` bytes received.
module _ (k : Krpc) (n : ℕ) (safe : IsSafe k n) (long : n ≤ length k.bytes)
    (sender : Endpoint) where
  on_values-IsServer : (s : Server) → IsServer s → After IsServer (on_values k sender s)
  unfolding on_values
  on_values-IsServer s h =
      let s' = count_stat rx_r_gp_values s in
      let h' = set_count s h rx_r_gp_values in
      then_After IsServer (Gpm.get_tok_hops k (gpm_of s')) _ (λ hops.
        bind_After IsGpm IsServer (Gpm.clear_tok k (gpm_of s')) _
          (clear_tok-IsGpm (gpm_of s') h'.gpm k)
          (λ g is.
            insert_sender-IsServer k n safe long sender (net_port sender) (with_gpm s' g)
              (set_gpm s' h' g is)))

  on_nodes-IsServer :
      (s : Server)
      → IsServer s
      → After IsServer (
          nodes_of k >>= λ nodes.
          let swept = ping_sweep_nodes nodes (count_stat rx_r_gp_nodes s) in
          Gpm.extract_tok k nodes (gpm_of swept) >>= λ e.
          ok (after_extract e.next (with_gpm swept e.gpm)))
  on_nodes-IsServer s h = then_After IsServer (nodes_of k) _ (λ nodes.
      let swept = ping_sweep_nodes nodes (count_stat rx_r_gp_nodes s) in
      let h' = ping_sweep_nodes-IsServer nodes _ (set_count s h rx_r_gp_nodes) in
      bind_After (λ (e : Extracted). IsGpm e.gpm) IsServer (Gpm.extract_tok k nodes (gpm_of swept))
        _ (extract_tok-IsGpm (gpm_of swept) h'.gpm k nodes)
        (λ e is. after_extract-IsServer e.next _ (set_gpm swept h' e.gpm is)))

  on_r_gp-IsServer : (s : Server) → IsServer s → After IsServer (on_r_gp k sender s)
  unfolding on_r_gp
  on_r_gp-IsServer s h =
      let s' = count_stat rx_r_gp s in
      let h' = set_count s h rx_r_gp in
      bind_After IsServer IsServer (if ltb 0 k.n_peers then on_values k sender s' else ok s') _
        (if_After IsServer (ltb 0 k.n_peers) _ _ (on_values-IsServer s' h') h')
        (λ s₁ h₁. if_After IsServer (k.n_nodes == 0) _ _ h₁ (on_nodes-IsServer s₁ h₁))

  on_r_pg-IsServer : (s : Server) → IsServer s → After IsServer (on_r_pg k sender s)
  unfolding on_r_pg
  on_r_pg-IsServer s h =
      insert_sender-IsServer k n safe long sender sender.port _ (set_count s h rx_r_pg)

  pub dispatch-IsServer : (s : Server) → IsServer s → After IsServer (dispatch k sender s)
  unfolding dispatch
  dispatch-IsServer s h =
      if_After IsServer (k.method == q_pg) _ _ (on_q_pg-IsServer k n safe long sender s h) (
        if_After IsServer (k.method == q_fn) _ _ (on_q_fn-IsServer k n safe long sender s h) (
          if_After IsServer (k.method == q_gp) _ _ (on_q_gp-IsServer k n safe long sender s h) (
            if_After IsServer (k.method == q_ap) _ _ (on_q_ap-IsServer k n safe long sender s h) (
              if_After IsServer (k.method == r_fn) _ _ (on_r_fn-IsServer k s h) (
                if_After IsServer (k.method == r_gp) _ _ (on_r_gp-IsServer s h)
                  (if_After IsServer (k.method == r_pg) _ _ (on_r_pg-IsServer s h) tt))))))
