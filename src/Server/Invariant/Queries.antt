-- ===== src/Server/Invariant/Queries.antt =====
-- cht/server.hpp: the queries of `handle_recv` keep the invariant.
use dht_cpp.Base.{
  ℕ, ◌≤◌, Option, none, some, length, ltb, ◌==◌, if◌then◌else◌, if_elim, Run, ok, After, bind_After,
  then_After, if_After, ◌≡◌, ◌>>=◌,
}
use dht_cpp.Dht.{Nih, IsNih, PNode, checksum}
use dht_cpp.Gpm
use dht_cpp.Gpm.{Gpm}
use dht_cpp.Krpc.Reply.{k_reply}
use dht_cpp.Krpc.Safety.Shape.{IsSafe}
use dht_cpp.Krpc.State.{Krpc}
use dht_cpp.Msg
use dht_cpp.Msg.Fits.{r_pg-Fits, r_fn-Fits, r_gp-Fits, q_gp-Fits}
use dht_cpp.Rt
use dht_cpp.Rt.Contacts.{IsRt}
use dht_cpp.Rt.Search.{insert_contact-IsRt}
use dht_cpp.Rt.{Rt, Contact}
use dht_cpp.Server.Handlers.{
  nih_at, name_at, net_port, insert_sender, on_q_pg, on_q_fn, on_q_gp, on_q_ap, pursue,
}
use dht_cpp.Server.Invariant.Parts.{
  nih_at-IsNih, IsShort, k_reply-IsShort, get_random_valid_node-cells, get_neighbor_contact-cells,
  decide_pursue_q_gp_ih-IsGpm, register_q_gp_ihash-IsGpm,
}
use dht_cpp.Server.Invariant.{IsServer, set_rt, set_gpm, set_count, send_msg-IsServer}
use dht_cpp.Server.Send.{send_msg}
use dht_cpp.Server.State.{
  Server, Endpoint, as_endpoint, in_addr, gpm_of, with_gpm, rt_of, with_rt, count_stat,
}
use dht_cpp.Stat.{rx_q_pg, rx_q_fn, rx_q_gp, rx_q_ap, bd_z_ap_bad_name}
use dht_cpp.Util.Utf8.{is_valid_utf8}

same_IsRt : (t t' : Rt) → t'.cells ≡ t.cells → IsRt t → IsRt t'
same_IsRt t t' e r = rw e r

-- A message that points into the `n` bytes received.
module _ (k : Krpc) (n : ℕ) (safe : IsSafe k n) (long : n ≤ length k.bytes) where
  pub insert_sender-IsServer :
      (sender : Endpoint) (port : ℕ) (s : Server)
      → IsServer s
      → After IsServer (insert_sender k sender port s)
  unfolding insert_sender
  insert_sender-IsServer sender port s h =
      bind_After IsNih IsServer (nih_at k k.nid) _ (nih_at-IsNih k n safe long k.nid safe.nid)
        (λ nid is.
          set_rt s h (Rt.insert_contact nid (in_addr sender) port (rt_of s))
            (insert_contact-IsRt nid (in_addr sender) port (rt_of s) is h.rt))

  pub on_q_pg-IsServer :
      (sender : Endpoint) (s : Server) → IsServer s → After IsServer (on_q_pg k sender s)
  unfolding on_q_pg
  on_q_pg-IsServer sender s h =
      bind_After (IsShort k n safe long) IsServer (k_reply k) _ (k_reply-IsShort k n safe long)
        (λ krp short. insert_sender-IsServer sender (net_port sender) _ (
          send_msg-IsServer _ (set_count s h rx_q_pg) (λ buf. Msg.r_pg buf krp) sender
            (r_pg-Fits krp short)))

  pub on_q_fn-IsServer :
      (sender : Endpoint) (s : Server) → IsServer s → After IsServer (on_q_fn k sender s)
  unfolding on_q_fn
  on_q_fn-IsServer sender s h = then_After IsServer (nih_at k k.target) _ (λ target.
      let s' = count_stat rx_q_fn s in
      let found = Rt.get_neighbor_contact target (rt_of s') in
      bind_After (IsShort k n safe long) IsServer (k_reply k) _ (k_reply-IsShort k n safe long)
        (λ krp short. insert_sender-IsServer sender (net_port sender) _ (
          send_msg-IsServer (with_rt s' found.1)
            (set_rt s' (set_count s h rx_q_fn) found.1
              (same_IsRt (rt_of s') found.1 (get_neighbor_contact-cells target (rt_of s')) h.rt))
            (λ buf. Msg.r_fn buf krp found.0) sender (r_fn-Fits krp short found.0))))

  pursue-IsServer :
      (tok : Option ℕ) (ih : Nih) (neig : PNode) (s : Server)
      → IsServer s
      → After (λ (p : PNode × Server). IsServer p.1) (pursue tok k ih neig s)
  unfolding pursue
  pursue-IsServer none ih neig s h = h
  pursue-IsServer (some tok) ih neig s h = then_After _ (nih_at k k.nid) _ (λ nid.
      let found : Contact =
        if checksum neig.nid == checksum nid
        then Rt.get_random_valid_node (rt_of s)
        else (neig, rt_of s) in
      let asked =
        send_msg (λ buf. Msg.q_gp buf found.0.nid ih tok) (as_endpoint found.0.peerinfo)
          (with_rt s found.1) in
      let h₁ =
        send_msg-IsServer (with_rt s found.1)
          (set_rt s h found.1 (
            if_elim (λ (c : Contact). IsRt c.1) (checksum neig.nid == checksum nid)
              (λ _.
                same_IsRt (rt_of s) (Rt.get_random_valid_node (rt_of s)).1
                  (get_random_valid_node-cells (rt_of s)) h.rt)
              (λ _. h.rt)))
          (λ buf. Msg.q_gp buf found.0.nid ih tok) (as_endpoint found.0.peerinfo)
          (q_gp-Fits found.0.nid ih tok) in
      set_gpm asked h₁ (Gpm.register_q_gp_ihash found.0.nid ih 0 tok (gpm_of asked))
        (register_q_gp_ihash-IsGpm (gpm_of asked) h₁.gpm found.0.nid ih 0 tok))

  pub on_q_gp-IsServer :
      (sender : Endpoint) (s : Server) → IsServer s → After IsServer (on_q_gp k sender s)
  unfolding on_q_gp
  on_q_gp-IsServer sender s h =
      let s₀ = count_stat rx_q_gp s in
      let token = Gpm.decide_pursue_q_gp_ih (gpm_of s₀) in
      let s₁ = with_gpm s₀ token.gpm in
      let h₁ =
        set_gpm s₀ (set_count s h rx_q_gp) token.gpm
          (decide_pursue_q_gp_ih-IsGpm (gpm_of s₀) h.gpm) in
      then_After IsServer (nih_at k k.ih) _ (λ ih.
        let found = Rt.get_neighbor_contact ih (rt_of s₁) in
        bind_After (λ (p : PNode × Server). IsServer p.1) IsServer
          (pursue token.tok k ih found.0 (with_rt s₁ found.1)) _
          (pursue-IsServer token.tok ih found.0 (with_rt s₁ found.1) (
            set_rt s₁ h₁ found.1
              (same_IsRt (rt_of s₁) found.1 (get_neighbor_contact-cells ih (rt_of s₁)) h.rt)))
          (λ p h₂.
            bind_After (IsShort k n safe long) IsServer (k_reply k) _
              (k_reply-IsShort k n safe long)
              (λ krp short. insert_sender-IsServer sender (net_port sender) _ (
                send_msg-IsServer p.1 h₂ (λ buf. Msg.r_gp buf krp p.0) sender
                  (r_gp-Fits krp short p.0)))))

  pub on_q_ap-IsServer :
      (sender : Endpoint) (s : Server) → IsServer s → After IsServer (on_q_ap k sender s)
  unfolding on_q_ap
  on_q_ap-IsServer sender s h =
      let s' = count_stat rx_q_ap s in
      let h' = set_count s h rx_q_ap in
      let reply : Run Server =
        k_reply k >>= λ krp. ok (send_msg (λ buf. Msg.r_pg buf krp) sender s') in
      let replies : After IsServer reply =
        bind_After (IsShort k n safe long) IsServer (k_reply k) _ (k_reply-IsShort k n safe long)
          (λ krp short.
            send_msg-IsServer s' h' (λ buf. Msg.r_pg buf krp) sender (r_pg-Fits krp short)) in
      if_After IsServer (ltb 0 k.ap_name_len) _ reply
        (then_After IsServer (name_at k) _ (λ name.
          if_After IsServer (is_valid_utf8 name k.ap_name_len) reply _ replies
            (set_count s' h' bd_z_ap_bad_name)))
        replies
