-- ===== src/Server/Timer.antt =====
-- cht/server.hpp: `loop_bootstrap_cb`, the callback that asks the bootstrap node.
use dht_cpp.Dht.{Nih}
use dht_cpp.Msg
use dht_cpp.Rt.{bootstrap_node}
use dht_cpp.Server.Send.{send_msg}
use dht_cpp.Server.State.{Server, as_endpoint}

-- For the target that `getrandom` gives.
unfoldable pub loop_bootstrap_cb : Nih → Server → Server
unfolding send_msg
loop_bootstrap_cb random_target s =
    send_msg (λ buf. Msg.q_fn buf bootstrap_node.nid random_target)
      (as_endpoint bootstrap_node.peerinfo) s
