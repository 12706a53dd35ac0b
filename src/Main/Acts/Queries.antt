-- ===== src/Main/Acts/Queries.antt =====
-- cht/main.cpp: the queries of `handle_msg`, as sequences of sends and quiet changes.
use dht_cpp.Base.{
  ℕ, Bool, Option, none, some, ltb, ◌==◌, if◌then◌else◌, if_elim, Run, ok, After, then_After,
  bind_After, refl, ◌>>=◌,
}
use dht_cpp.Dht.{Nih, PNode, Peerinfo, checksum}
use dht_cpp.Gpm
use dht_cpp.Gpm.{Gpm, GpmStatus, Extracted, Token}
use dht_cpp.Krpc.Reply.{k_reply}
use dht_cpp.Krpc.State.{Krpc}
use dht_cpp.Main.Acts.{IsUv, Acts, sends, counts, sets_rt, sets_gpm, insert_saddr-Acts}
use dht_cpp.Main.Handlers.{handle_q_pg, handle_q_fn, pursue_ih, handle_q_gp, handle_q_ap}
use dht_cpp.Main.Neutral.{
  is_acct, is_tx, Neutral, same_Neutral, get_random_valid_node-Neutral,
  get_neighbor_contact-Neutral, decide_pursue_q_gp_ih-Neutral, register_q_gp_ihash-Neutral,
}
use dht_cpp.Main.Send.{send_msg}
use dht_cpp.Main.State.{Uv, Node, count_stat, gpm_of, with_gpm, rt_of, with_rt}
use dht_cpp.Msg
use dht_cpp.Rt
use dht_cpp.Rt.{Contact}
use dht_cpp.Server.Handlers.{nih_at, name_at}
use dht_cpp.Stat.{
  index, tx_q_gp, tx_r_pg, tx_r_fn, tx_r_gp, tx_r_ap, rx_q_pg, rx_q_fn, rx_q_gp, rx_q_ap,
}
use dht_cpp.Util.Utf8.{is_valid_utf8}

-- The argument `a` is what was done before.
module _ (uv : Uv) (is_uv : IsUv uv) (s : Node) where
  -- One of two runs.
  pub if_Acts :
      (b : Bool) (x y : Run Node)
      → After (Acts uv s) x
      → After (Acts uv s) y
      → After (Acts uv s) (if b then x else y)
  if_Acts b x y f g = if_elim (After (Acts uv s)) b (λ _. f) (λ _. g)

  pursue_ih-Acts :
      (k : Krpc) {s' : Node} (a : Acts uv s s') (tok : Option ℕ) (ih : Nih) (neig : PNode)
      → After (λ (p : PNode × Node). Acts uv s p.1) (pursue_ih uv tok k ih neig s')
  unfolding pursue_ih index is_tx is_acct
  pursue_ih-Acts k {s'} a none ih neig = a
  pursue_ih-Acts k {s'} a (some tok) ih neig = then_After _ (nih_at k k.nid) _ (λ nid.
      let found : Contact =
        if checksum neig.nid == checksum nid
        then Rt.get_random_valid_node (rt_of s')
        else (neig, rt_of s') in
      let asked =
        send_msg uv (λ buf. Msg.q_gp buf found.0.nid ih tok) found.0.peerinfo tx_q_gp
          (with_rt s' found.1) in
      sets_gpm uv s
        (sends (λ buf. Msg.q_gp buf found.0.nid ih tok) found.0.peerinfo tx_q_gp refl
          (sets_rt uv s a found.1 (
            if_elim (λ (c : Contact). Neutral s'.counters c.1.counters)
              (checksum neig.nid == checksum nid)
              (λ _. get_random_valid_node-Neutral _ _ (same_Neutral _)) (λ _. same_Neutral _))))
        (Gpm.register_q_gp_ihash found.0.nid ih 0 tok (gpm_of asked))
        (register_q_gp_ihash-Neutral _ _ (same_Neutral _) found.0.nid ih 0 tok))

  module _ (k : Krpc) (saddr : Peerinfo) {s' : Node} (a : Acts uv s s') where
    pub handle_q_pg-Acts : After (Acts uv s) (handle_q_pg uv k saddr s')
    unfolding handle_q_pg index is_tx is_acct
    handle_q_pg-Acts = then_After _ (k_reply k) _ (λ krp.
        insert_saddr-Acts uv s
          (sends (λ buf. Msg.r_pg buf krp) saddr tx_r_pg refl (counts uv s a rx_q_pg refl)) k saddr)

    pub handle_q_fn-Acts : After (Acts uv s) (handle_q_fn uv k saddr s')
    unfolding handle_q_fn index is_tx is_acct
    handle_q_fn-Acts = then_After _ (nih_at k k.target) _ (λ target.
        let found = Rt.get_neighbor_contact target (rt_of (count_stat rx_q_fn s')) in
        then_After _ (k_reply k) _ (λ krp.
          insert_saddr-Acts uv s
            (sends (λ buf. Msg.r_fn buf krp found.0) saddr tx_r_fn refl
              (sets_rt uv s (counts uv s a rx_q_fn refl) found.1
                (get_neighbor_contact-Neutral _ target _ (same_Neutral _))))
            k saddr))

    pub handle_q_gp-Acts : After (Acts uv s) (handle_q_gp uv k saddr s')
    unfolding handle_q_gp index is_tx is_acct
    handle_q_gp-Acts =
        let token = Gpm.decide_pursue_q_gp_ih (gpm_of (count_stat rx_q_gp s')) in
        let s₁ = with_gpm (count_stat rx_q_gp s') token.gpm in
        let decided =
          sets_gpm uv s (counts uv s a rx_q_gp refl) token.gpm
            (decide_pursue_q_gp_ih-Neutral _ (gpm_of (count_stat rx_q_gp s')) (same_Neutral _)) in
        then_After _ (nih_at k k.ih) _ (λ ih.
          let found = Rt.get_neighbor_contact ih (rt_of s₁) in
          bind_After _ _ (pursue_ih uv token.tok k ih found.0 (with_rt s₁ found.1)) _
            (pursue_ih-Acts k
              (sets_rt uv s decided found.1 (get_neighbor_contact-Neutral _ ih _ (same_Neutral _)))
              token.tok ih found.0)
            (λ p b. then_After _ (k_reply k) _ (λ krp.
              insert_saddr-Acts uv s (sends (λ buf. Msg.r_gp buf krp p.0) saddr tx_r_gp refl b) k
                saddr)))

    pub handle_q_ap-Acts : After (Acts uv s) (handle_q_ap uv k saddr s')
    unfolding handle_q_ap index is_tx is_acct
    handle_q_ap-Acts =
        let before = counts uv s a rx_q_ap refl in
        let reply : Run Node = k_reply k >>= λ krp.
        ok (send_msg uv (λ buf. Msg.r_pg buf krp) saddr tx_r_ap (count_stat rx_q_ap s')) in
        let replies : After (Acts uv s) reply =
          then_After _ (k_reply k) _
            (λ krp. sends (λ buf. Msg.r_pg buf krp) saddr tx_r_ap refl before) in
        if_Acts (ltb 0 k.ap_name_len) _ reply
          (then_After _ (name_at k) _ (λ name.
            if_Acts (is_valid_utf8 name k.ap_name_len) reply _ replies
              (counts uv s before uv.bm_ap_bad_name is_uv.bad_name)))
          replies
