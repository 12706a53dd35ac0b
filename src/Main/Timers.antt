-- ===== src/Main/Timers.antt =====
-- cht/main.cpp: the callbacks of the timers.
use dht_cpp.Dht.{Nih}
use dht_cpp.Main.Send.{send_msg}
use dht_cpp.Main.State.{Uv, Node}
use dht_cpp.Msg
use dht_cpp.Rt.{bootstrap_node}
use dht_cpp.Stat.Rollover.{Calls, st_rollover}
use dht_cpp.Stat.{tx_q_fn}

-- `loop_bootstrap_cb`, for the target that `getrandom` gives.
unfoldable pub loop_bootstrap_cb : Uv → Nih → Node → Node
unfolding send_msg
loop_bootstrap_cb uv random_target s =
    send_msg uv (λ buf. Msg.q_fn buf bootstrap_node.nid random_target) bootstrap_node.peerinfo
      tx_q_fn s

-- `loop_statgather_cb`
unfoldable pub loop_statgather_cb : Calls → Node → Node
unfolding st_rollover
loop_statgather_cb calls s =
    let r = st_rollover calls (record {
      tables = s.tables;
      counters = s.counters;
      statics = s.statics;
      printed = s.printed;
    }) in
    record s { tables = r.tables; counters = r.counters; statics = r.statics; printed = r.printed }
