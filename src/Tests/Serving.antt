-- ===== src/Tests/Serving.antt =====
-- The server of cht/server.hpp at concrete states.
use dht_cpp.Base.{
  ◌<◌, ◌≡◌, refl, arith, false, [], ◌∷◌, ◌++◌, Bytes, replicate, ok, length, ◌-◌, take,
}
use dht_cpp.Dht.{our_tok_pg}
use dht_cpp.Krpc.Flags.{maxlen, r_pg}
use dht_cpp.Krpc.State.{Krpc}
use dht_cpp.Msg
use dht_cpp.Msg.Exchange
use dht_cpp.Msg.RoundTrip.{Reads}
use dht_cpp.Server.Answers.{handle_recv-q_pg}
use dht_cpp.Server.Invariant.Runs.{
  Reach, start, then_step, receive, sent, bootstrap, replenished, epoch, Reach-IsServer,
}
use dht_cpp.Server.Invariant.{IsServer}
use dht_cpp.Server.Receive.{handle_recv}
use dht_cpp.Server.Send.{send_done}
use dht_cpp.Server.State.{Server, Packet, Endpoint}
use dht_cpp.Server.Timer.{loop_bootstrap_cb}
use dht_cpp.Spam.Buckets.{tokens}
use dht_cpp.Spam.{find, max_rx}
use dht_cpp.Tests.Samples.{
  some_id, some_id-AreBytes, blank, no_counts, no_pursuits, no_contacts, sevens, send_buf,
}

abbrev zeros : Bytes
zeros = replicate (maxlen - 55) 0

abbrev ping : Bytes
ping = Exchange.sent (Msg.q_pg send_buf some_id)

abbrev some_server : Server
some_server = record {
  krpc = blank (ping ++ zeros);
  tables = record { g_rx_spamtable = []; g_pg_spamtable = []; getpeers_spamtable = [] };
  g_ifl_buf = no_pursuits.g_ifl_buf;
  cells = no_contacts.cells;
  counters = no_counts;
  world = sevens;
  send_bufs = [];
  garbage = send_buf;
  in_flight = [];
}

some_server-IsServer : IsServer some_server
unfolding Exchange.sent Msg.q_pg
some_server-IsServer = record {
  bytes = refl;
  tables = record { rx = tt; pg = tt; gp = tt };
  gpm = λ i. (omega arith, omega arith);
  rt = λ i. refl;
  send_bufs = tt;
  garbage = refl;
  in_flight = tt;
}

abbrev some_sender : Endpoint
some_sender = record { addr = 0x01020304; port = 6881 }

some_left : 0 < tokens max_rx some_sender.addr some_server.tables.g_rx_spamtable
unfolding find
some_left = omega arith

handle_recv-q_pg_example :
    (s' : Server) × (p : Packet) × (r' : Krpc) × (handle_recv false
        (length ping)
        some_sender
        some_server
      ≡ ok s')
    × (s'.in_flight ≡ p ∷ some_server.in_flight)
    × (p.dest ≡ some_sender)
    × Reads (blank []) [] (take p.len p.buf) r_pg some_id (our_tok_pg ∷ []) r'
unfolding find
handle_recv-q_pg_example =
    handle_recv-q_pg (blank []) [] send_buf zeros some_id some_sender some_server refl refl
      some_id-AreBytes some_server-IsServer some_left refl

-- It is answered again, here within a run.
abbrev pinged : Server
pinged =
    (handle_recv-q_pg (blank []) [] send_buf zeros some_id some_sender some_server refl refl
      some_id-AreBytes some_server-IsServer some_left refl).0

abbrev last : Server
last = send_done 0 (epoch (loop_bootstrap_cb some_id pinged))

first_step : Reach some_server pinged
unfolding Exchange.sent Msg.q_pg
first_step =
    let got =
      handle_recv-q_pg (blank []) [] send_buf zeros some_id some_sender some_server refl refl
        some_id-AreBytes some_server-IsServer some_left refl in
    then_step start (receive (ping ++ zeros) refl false (length ping) some_sender got.3)

some_run : Reach some_server last
some_run = then_step (then_step (then_step first_step (bootstrap some_id)) replenished) (sent 0)

Reach-IsServer_example : IsServer last
Reach-IsServer_example = Reach-IsServer some_run some_server-IsServer
