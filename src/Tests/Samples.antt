-- ===== src/Tests/Samples.antt =====
-- The test data: ids, a `KRPC` with a buffer, counters, and a world of random numbers.
use dht_cpp.Base.{AreBytes, arith, false, none, Bytes, codes, replicate}
use dht_cpp.Dht.{Nih, PNode}
use dht_cpp.Gpm.{Gpm}
use dht_cpp.Krpc.Flags.{any}
use dht_cpp.Krpc.State.{Krpc}
use dht_cpp.Msg.{msg_buf_len}
use dht_cpp.Rt.{Rt}
use dht_cpp.Stat.Counters.{Counters}
use dht_cpp.Stat.{st_enum_start}
use dht_cpp.Util.Random.{World, IsWorld}

abbrev pub blank : Bytes → Krpc
blank bytes = record {
  bytes = bytes;
  status = st_enum_start;
  method = any;
  nid = none;
  ih = none;
  target = none;
  tok_len = 0;
  tok = none;
  n_nodes = 0;
  nodes = none;
  n_peers = 0;
  peers = none;
  token_len = 0;
  token = none;
  ap_port = 0;
  ap_name_len = 0;
  ap_name = none;
  ap_implied_port = false;
}

abbrev pub some_id : Nih
some_id = codes "abcdefghij0123456789"

pub some_id-AreBytes : AreBytes some_id
some_id-AreBytes = omega arith

abbrev pub other_id : Nih
other_id = codes "mnopqrstuvwxyz123456"

abbrev pub some_node : PNode
some_node = record { nid = other_id; peerinfo = record { in_addr = 0x04030201; sin_port = 0xe11a } }

abbrev pub ping_text : Bytes
ping_text = codes "d1:ad2:id20:abcdefghij0123456789e1:q4:ping1:t2:aa1:y1:qe"

abbrev pub no_counts : Counters
no_counts = record { ctr = λ i. 0; ctr_old = λ i. 0 }

-- `rand` returns 7 again and again.
abbrev pub sevens : World
sevens = record { rand_max = 0x7fffffff; rand = λ i. 7; draws = 0; clock = λ i. 1000; ticks = 0 }

pub sevens-IsWorld : IsWorld sevens
sevens-IsWorld = record { rand-le = λ i. omega arith }

abbrev pub no_pursuits : Gpm
no_pursuits = record {
  g_ifl_buf = λ i. record {
    ih = replicate 20 0;
    last_nid_checksum = 0;
    hop_ctr = 0;
    last_reponse_ms = 0;
    is_set = false;
  };
  world = sevens;
  counters = no_counts;
}

abbrev pub no_contacts : Rt
no_contacts = record {
  cells = λ i. record { nih_l = replicate 18 0; peerinfo = record { in_addr = 0; sin_port = 0 } };
  counters = no_counts;
  world = sevens;
}

abbrev pub send_buf : Bytes
send_buf = replicate msg_buf_len 0
