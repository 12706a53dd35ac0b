-- ===== src/Main/Acts/Replies.antt =====
-- cht/main.cpp: the replies of `handle_msg`, and its switch, as sequences of sends and quiet changes.
use dht_cpp.Base.{
  ℕ, ◌+◌, ◌%◌, ◌^◌, List, [], ◌∷◌, Option, none, some, ltb, ◌==◌, if◌then◌else◌, if_elim,
  option_elim, ok, crash, After, then_After, bind_After, refl, assertion,
}
use dht_cpp.Ctl.{ctl_decide_ping}
use dht_cpp.Dht.{Nih, PNode, Peerinfo}
use dht_cpp.Gpm
use dht_cpp.Gpm.Hops.{NextHop}
use dht_cpp.Gpm.{Gpm, GpmStatus, Extracted, Token}
use dht_cpp.Krpc.Flags.{q_ap, q_fn, q_gp, q_pg, r_fn, r_gp, r_pg}
use dht_cpp.Krpc.State.{Krpc}
use dht_cpp.Main.Acts.Queries.{
  if_Acts, handle_q_pg-Acts, handle_q_fn-Acts, handle_q_gp-Acts, handle_q_ap-Acts,
}
use dht_cpp.Main.Acts.{IsUv, Acts, sends, sets, counts, sets_gpm, sets_tables, insert_saddr-Acts}
use dht_cpp.Main.Handlers.{
  ping_sweep_nodes, handle_r_fn, ask_hop, ask_hops, click_hops, click_dkads, click_nodes,
  handle_values, ask_next, handle_nodes, handle_r_gp, handle_r_pg, handle_msg,
}
use dht_cpp.Main.Neutral.{
  is_acct, is_tx, same_Neutral, take_tok-Neutral, register_q_gp_ihash-Neutral, clear_tok-Neutral,
  extract_tok-Neutral, spam_check_tx_pg-Neutral, spam_check_tx_q_gp-Neutral,
}
use dht_cpp.Main.Send.{send_msg}
use dht_cpp.Main.State.{Uv, Node, count_stat, gpm_of, with_gpm}
use dht_cpp.Msg
use dht_cpp.Server.Handlers.{nodes_of}
use dht_cpp.Spam.{spam_check_tx_pg, spam_check_tx_q_gp}
use dht_cpp.Stat.Rollover.{st_click_gp_n_hops}
use dht_cpp.Stat.{
  index, tx_q_pg, tx_q_gp, tx_ping_drop_ctl, rx_r_fn, rx_r_gp, rx_r_gp_values, rx_r_gp_nodes,
  rx_r_pg, err_bd_empty_r_gp,
}

module _ (uv : Uv) (is_uv : IsUv uv) (s : Node) where
  ping_sweep_nodes-Acts :
      (nodes : List PNode) {s' : Node} → Acts uv s s' → Acts uv s (ping_sweep_nodes uv nodes s')
  unfolding ping_sweep_nodes index is_tx is_acct
  ping_sweep_nodes-Acts [] a = a
  ping_sweep_nodes-Acts (node ∷ nodes) {s'} a =
      let check = spam_check_tx_pg node.peerinfo.in_addr s'.tables s'.counters in
      let checked =
        sets_tables uv s a check.1 check.2
          (spam_check_tx_pg-Neutral _ _ _ (same_Neutral _) node.peerinfo.in_addr) in
      ping_sweep_nodes-Acts nodes (
        if_elim (Acts uv s) (ctl_decide_ping node.nid)
          (λ _.
            if_elim (Acts uv s) check.0
              (λ _. sends (λ buf. Msg.q_pg buf node.nid) node.peerinfo tx_q_pg refl checked)
              (λ _. checked))
          (λ _. counts uv s a tx_ping_drop_ctl refl))

  handle_r_fn-Acts : (k : Krpc) {s' : Node} → Acts uv s s' → After (Acts uv s) (handle_r_fn uv k s')
  unfolding handle_r_fn index is_tx is_acct
  handle_r_fn-Acts k a =
      let before = counts uv s a rx_r_fn refl in
      if_Acts uv is_uv s (k.n_nodes == 0) _ _ (counts uv s before err_bd_empty_r_gp refl)
        (then_After _ (nodes_of k) _ (λ nodes. ping_sweep_nodes-Acts nodes before))

  ask_hop-Acts :
      (ih : Nih) (hop_ctr : ℕ) (pn : PNode) (tok : ℕ) {s' : Node}
      → Acts uv s s'
      → Acts uv s (ask_hop uv ih hop_ctr pn tok s')
  unfolding ask_hop index is_tx is_acct
  ask_hop-Acts ih hop_ctr pn tok {s'} a =
      let asked = send_msg uv (λ buf. Msg.q_gp buf pn.nid ih tok) pn.peerinfo tx_q_gp s' in
      sets_gpm uv s (sends (λ buf. Msg.q_gp buf pn.nid ih tok) pn.peerinfo tx_q_gp refl a)
        (Gpm.register_q_gp_ihash pn.nid ih ((hop_ctr + 1) % 2 ^ 8) tok (gpm_of asked))
        (register_q_gp_ihash-Neutral _ _ (same_Neutral _) pn.nid ih ((hop_ctr + 1) % 2 ^ 8) tok)

  ask_hops-Acts :
      (ih : Nih) (hop_ctr : ℕ) (pnodes : List PNode) {s' : Node}
      → Acts uv s s'
      → Acts uv s (ask_hops uv ih hop_ctr pnodes s')
  unfolding ask_hops
  ask_hops-Acts ih hop_ctr [] a = a
  ask_hops-Acts ih hop_ctr (pn ∷ pnodes) {s'} a =
      let check = spam_check_tx_q_gp pn.peerinfo.in_addr ih s'.tables s'.counters in
      let checked : Node = record s' { tables = check.1; counters = check.2 } in
      let token = Gpm.take_tok (gpm_of checked) in
      let before =
        sets_tables uv s a check.1 check.2
          (spam_check_tx_q_gp-Neutral _ _ _ (same_Neutral _) pn.peerinfo.in_addr ih) in
      let taken =
        sets_gpm uv s before token.gpm (take_tok-Neutral _ (gpm_of checked) (same_Neutral _)) in
      if_elim (Acts uv s) check.0
        (λ _.
          option_elim (Acts uv s) token.tok _ _ taken
            (λ tok. ask_hops-Acts ih hop_ctr pnodes (ask_hop-Acts ih hop_ctr pn tok taken)))
        (λ _. ask_hops-Acts ih hop_ctr pnodes before)

  click_hops-Acts :
      (hops : Option ℕ) {s' : Node} → Acts uv s s' → After (Acts uv s) (click_hops hops s')
  unfolding click_hops
  click_hops-Acts none a = a
  click_hops-Acts (some hops) {s'} a =
      if_Acts uv is_uv s (ltb 0 hops) _ (ok s')
        (then_After _ (st_click_gp_n_hops (hops % 2 ^ 8) s'.statics) _ (λ v.
          sets uv s a s'.tables s'.g_ifl_buf s'.cells s'.counters s'.world v (same_Neutral _)))
        a

  handle_values-Acts :
      (k : Krpc) (saddr : Peerinfo) {s' : Node}
      → Acts uv s s'
      → After (Acts uv s) (handle_values uv k saddr s')
  unfolding handle_values index is_tx is_acct
  handle_values-Acts k saddr {s'} a =
      let s₀ = count_stat rx_r_gp_values s' in
      then_After _ (Gpm.get_tok_hops k (gpm_of s₀)) _ (λ hops.
        bind_After _ _ (click_hops hops s₀) _
          (click_hops-Acts hops (counts uv s a rx_r_gp_values refl))
          (λ s₁ b.
            bind_After _ _ (Gpm.clear_tok k (gpm_of s₁)) _
              (clear_tok-Neutral _ _ (same_Neutral _) k)
              (λ g n. insert_saddr-Acts uv s (sets_gpm uv s b g n) k saddr)))

  ask_next-Acts :
      (next : Option NextHop) {s' : Node} → Acts uv s s' → Acts uv s (ask_next uv next s')
  unfolding ask_next
  ask_next-Acts none a = a
  ask_next-Acts (some next) a = ask_hops-Acts next.ih next.hop_ctr next.pnodes a

  click_nodes-Acts :
      (next : Option NextHop) (nodes : List PNode) {s' : Node}
      → Acts uv s s'
      → After (Acts uv s) (click_nodes next nodes s')
  unfolding click_nodes
  click_nodes-Acts none nodes a = a
  click_nodes-Acts (some next) nodes {s'} a =
      then_After _ (click_dkads next.ih nodes s'.statics) _
        (λ v. sets uv s a s'.tables s'.g_ifl_buf s'.cells s'.counters s'.world v (same_Neutral _))

  handle_nodes-Acts :
      (k : Krpc) {s' : Node} → Acts uv s s' → After (Acts uv s) (handle_nodes uv k s')
  unfolding handle_nodes index is_tx is_acct
  handle_nodes-Acts k {s'} a = then_After _ (nodes_of k) _ (λ nodes.
      let swept = ping_sweep_nodes uv nodes (count_stat rx_r_gp_nodes s') in
      bind_After _ _ (Gpm.extract_tok k nodes (gpm_of swept)) _
        (extract_tok-Neutral _ _ (same_Neutral _) k nodes)
        (λ e n.
          let b =
            sets_gpm uv s (ping_sweep_nodes-Acts nodes (counts uv s a rx_r_gp_nodes refl)) e.gpm
              n in
          bind_After _ _ (click_nodes e.next nodes (with_gpm swept e.gpm)) _
            (click_nodes-Acts e.next nodes b) (λ s₁ c. ask_next-Acts e.next c)))

  handle_r_gp-Acts :
      (k : Krpc) (saddr : Peerinfo) {s' : Node}
      → Acts uv s s'
      → After (Acts uv s) (handle_r_gp uv k saddr s')
  unfolding handle_r_gp index is_tx is_acct
  handle_r_gp-Acts k saddr {s'} a =
      let before = counts uv s a rx_r_gp refl in
      bind_After _ _
        (if ltb 0 k.n_peers
          then handle_values uv k saddr (count_stat rx_r_gp s')
          else ok (count_stat rx_r_gp s'))
        _ (if_Acts uv is_uv s (ltb 0 k.n_peers) _ _ (handle_values-Acts k saddr before) before)
        (λ s₁ b. if_Acts uv is_uv s (k.n_nodes == 0) (ok s₁) _ b (handle_nodes-Acts k b))

  handle_r_pg-Acts :
      (k : Krpc) (saddr : Peerinfo) {s' : Node}
      → Acts uv s s'
      → After (Acts uv s) (handle_r_pg uv k saddr s')
  unfolding handle_r_pg index is_tx is_acct
  handle_r_pg-Acts k saddr a = insert_saddr-Acts uv s (counts uv s a rx_r_pg refl) k saddr

  -- Whatever `handle_msg` does that does not crash is a sequence of sends and quiet changes.
  pub handle_msg-Acts :
      (k : Krpc) (saddr : Peerinfo) {s' : Node}
      → Acts uv s s'
      → After (Acts uv s) (handle_msg uv k saddr s')
  unfolding handle_msg
  handle_msg-Acts k saddr a =
      if_Acts uv is_uv s (k.method == q_pg) _ _ (handle_q_pg-Acts uv is_uv s k saddr a) (
        if_Acts uv is_uv s (k.method == q_fn) _ _ (handle_q_fn-Acts uv is_uv s k saddr a) (
          if_Acts uv is_uv s (k.method == q_gp) _ _ (handle_q_gp-Acts uv is_uv s k saddr a) (
            if_Acts uv is_uv s (k.method == q_ap) _ _ (handle_q_ap-Acts uv is_uv s k saddr a) (
              if_Acts uv is_uv s (k.method == r_fn) _ _ (handle_r_fn-Acts k a) (
                if_Acts uv is_uv s (k.method == r_gp) _ _ (handle_r_gp-Acts k saddr a) (
                  if_Acts uv is_uv s (k.method == r_pg) _ (crash assertion)
                    (handle_r_pg-Acts k saddr a) tt))))))
