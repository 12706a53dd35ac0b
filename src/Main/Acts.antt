-- ===== src/Main/Acts.antt =====
-- cht/main.cpp: what `handle_msg` does to the state, as a sequence of sends and of quiet changes.
pub mod Queries
pub mod Replies
pub mod Receives
use dht_cpp.Base.{
  ℕ, ◌+◌, ◌%◌, ◌^◌, Bool, true, false, List, [], ◌∷◌, Option, none, some, Bytes, ltb, ◌==◌,
  if◌then◌else◌, if_elim, Run, ok, crash, After, then_After, bind_After, ◌≡◌, refl,
}
use dht_cpp.Ctl.{ctl_decide_ping}
use dht_cpp.Dht.{Nih, PNode, Peerinfo, checksum}
use dht_cpp.Gpm
use dht_cpp.Gpm.Hops.{NextHop}
use dht_cpp.Gpm.{Gpm, GpmStatus, Extracted, Token}
use dht_cpp.Krpc.Reply.{k_reply}
use dht_cpp.Krpc.State.{Krpc}
use dht_cpp.Main.Handlers.{
  insert_saddr, handle_q_pg, handle_q_fn, pursue_ih, handle_q_gp, handle_q_ap, ping_sweep_nodes,
  handle_r_fn, ask_hop, ask_hops, click_hops, handle_values, ask_next, handle_nodes, handle_r_gp,
  handle_r_pg, handle_msg,
}
use dht_cpp.Main.Neutral.{
  is_acct, is_tx, Neutral, same_Neutral, st_inc-Neutral, insert_contact-Neutral,
  get_random_valid_node-Neutral, get_neighbor_contact-Neutral, take_tok-Neutral,
  register_q_gp_ihash-Neutral, clear_tok-Neutral, extract_tok-Neutral, spam_check_tx_pg-Neutral,
  spam_check_tx_q_gp-Neutral,
}
use dht_cpp.Main.Send.{send_msg}
use dht_cpp.Main.State.{Uv, Node, count_stat, gpm_of, with_gpm, rt_of, with_rt}
use dht_cpp.Msg.{Written}
use dht_cpp.Rt
use dht_cpp.Rt.{Rt, Nodeinfo}
use dht_cpp.Server.Handlers.{nih_at, nodes_of, name_at}
use dht_cpp.Spam.{Tables, spam_check_tx_pg, spam_check_tx_q_gp}
use dht_cpp.Stat.Counters.{Counters, st_inc}
use dht_cpp.Stat.Rollover.{Statics}
use dht_cpp.Stat.{Stat, index, tx_r_pg, rx_q_pg}
use dht_cpp.Util.Random.{World}

-- The statistics that the source names without declaring them are none of those of sending.
pub record IsUv (uv : Uv) : Type 0 where
  pub too_short : is_tx (index uv.bm_too_short) ≡ false
  pub bad_name : is_tx (index uv.bm_ap_bad_name) ≡ false

-- A change that leaves the buffers, the requests and the statistics of sending alone.
pub record Keeps (s s' : Node) : Type 0 where
  pub krpcs : s'.krpcs ≡ s.krpcs
  pub n_krpcs : s'.n_krpcs ≡ s.n_krpcs
  pub recv_buf_pool : s'.recv_buf_pool ≡ s.recv_buf_pool
  pub krpc_map : s'.krpc_map ≡ s.krpc_map
  pub send_req_pool : s'.send_req_pool ≡ s.send_req_pool
  pub pending : s'.pending ≡ s.pending
  pub n_sends : s'.n_sends ≡ s.n_sends
  pub counters : Neutral s.counters s'.counters

pub data Acts (uv : Uv) (s : Node) : Node → Type 0 where
  stays : Acts uv s s
  sends :
      {s' : Node}
      → (write_fn : Bytes → Written) (dest : Peerinfo) (acct : Stat) → is_acct (index acct) ≡ true
      → Acts uv s s'
      → Acts uv s (send_msg uv write_fn dest acct s')
  changes : {s' s'' : Node} → Keeps s' s'' → Acts uv s s' → Acts uv s s''

-- The quiet changes.
module _ (uv : Uv) (s : Node) {s' : Node} (a : Acts uv s s') where
  pub sets :
      (t : Tables) (f : ℕ → GpmStatus) (r : ℕ → Nodeinfo) (c : Counters) (w : World) (v : Statics)
      → Neutral s'.counters c
      → Acts uv s
          (record s' { tables = t; g_ifl_buf = f; cells = r; counters = c; world = w; statics = v })
  sets t f r c w v n =
      changes
        (record {
          krpcs = refl;
          n_krpcs = refl;
          recv_buf_pool = refl;
          krpc_map = refl;
          send_req_pool = refl;
          pending = refl;
          n_sends = refl;
          counters = n;
        })
        a

  pub counts : (stat : Stat) → is_tx (index stat) ≡ false → Acts uv s (count_stat stat s')
  counts stat quiet =
      sets s'.tables s'.g_ifl_buf s'.cells (st_inc stat s'.counters) s'.world s'.statics
        (st_inc-Neutral stat quiet (same_Neutral s'.counters))

  pub sets_rt : (t : Rt) → Neutral s'.counters t.counters → Acts uv s (with_rt s' t)
  sets_rt t n = sets s'.tables s'.g_ifl_buf t.cells t.counters t.world s'.statics n

  pub sets_gpm : (g : Gpm) → Neutral s'.counters g.counters → Acts uv s (with_gpm s' g)
  sets_gpm g n = sets s'.tables g.g_ifl_buf s'.cells g.counters g.world s'.statics n

  pub sets_tables :
      (t : Tables) (c : Counters)
      → Neutral s'.counters c
      → Acts uv s (record s' { tables = t; counters = c })
  sets_tables t c n = sets t s'.g_ifl_buf s'.cells c s'.world s'.statics n

  pub insert_saddr-Acts : (k : Krpc) (a : Peerinfo) → After (Acts uv s) (insert_saddr k a s')
  unfolding insert_saddr
  insert_saddr-Acts k a = then_After _ (nih_at k k.nid) _ (λ nid.
      sets_rt (Rt.insert_contact nid a.in_addr a.sin_port (rt_of s'))
        (insert_contact-Neutral _ _ (same_Neutral s'.counters) nid a.in_addr a.sin_port))
