-- ===== src/Tests/Program.antt =====
-- The program of cht/main.cpp at concrete states.
use dht_cpp.Krpc.Tokens.Queries.{Question, nodes_near, text_of}
use dht_cpp.Main.Answers.Queries.{CanAnswer, Replies}
use dht_cpp.Main.Answers.Packets.{base_of, arrived, cb_alloc-cb_recv_msg-Replies}
use dht_cpp.Main.Receive.{bytes, cb_recv_msg}
use dht_cpp.Rt.Address.{validate_addr}
use dht_cpp.Spam.{spam_check_rx}
use dht_cpp.Dht.{Peerinfo}
use dht_cpp.Msg.{decimal}
use dht_cpp.Tests.Samples.{other_id}
use dht_cpp.Base.{
  none, ok, Bytes, codes, ◌++◌, ◌≡◌, refl, arith, true, false, [], ◌∷◌, some, ◌==◌, replicate, map,
  suc, length,
}
use dht_cpp.Main.Acts.{IsUv}
use dht_cpp.Main.Neutral.{is_tx, is_acct}
use dht_cpp.Main.Receive.{cb_alloc}
use dht_cpp.Main.State.{Uv, Node, new_krpc}
use dht_cpp.Main.Steps.Pool.{Grows, cb_alloc-cb_alloc, Reach-Grows}
use dht_cpp.Main.Steps.{Reach, start, then_step, alloc, bootstrap, statgather}
use dht_cpp.Main.Timers.{loop_bootstrap_cb, loop_statgather_cb}
use dht_cpp.Msg.{msg_buf_len}
use dht_cpp.Stat.Rollover.{csv_of, csv_names, aux_names, aux_of, Statics, Calls, Rolled}
use dht_cpp.Stat.Rows.{value_of, csv_names-csv_of, rollovers, Later, rollovers-Later}
use dht_cpp.Stat.{bd_z_ap_bad_name, bd_x_msg_too_short, index}
use dht_cpp.Tests.Samples.{some_id, no_counts, no_pursuits, no_contacts, sevens}

-- Every packet but the first is refused.
abbrev pub some_uv : Uv
some_uv = record {
  takes = λ n. n == 0;
  garbage = replicate msg_buf_len 0;
  bm_too_short = bd_x_msg_too_short;
  bm_ap_bad_name = bd_z_ap_bad_name;
}

pub some_uv-IsUv : IsUv some_uv
unfolding is_tx is_acct index
some_uv-IsUv = record { too_short = refl; bad_name = refl }

abbrev pub no_statics : Statics
no_statics = record {
  st_time_now = 0;
  st_time_old = 0;
  g_dkad_ctr = λ i. 0;
  g_n_hops_ctr = λ i. 0;
  write_csv = 3;
  next_heartbeat = 59;
  ctl_ping_window = 0;
}

abbrev pub some_calls : Calls
some_calls = record { now = 5; time = 1000; csv_opens = true; aux_opens = false }

-- One buffer is in the pool.
abbrev idle : Node
idle = record {
  krpcs = λ i. new_krpc;
  n_krpcs = 1;
  recv_buf_pool = 0 ∷ [];
  krpc_map = 0 ∷ [];
  send_req_pool = [];
  pending = [];
  n_sends = 0;
  tables = record { g_rx_spamtable = []; g_pg_spamtable = []; getpeers_spamtable = [] };
  g_ifl_buf = no_pursuits.g_ifl_buf;
  cells = no_contacts.cells;
  counters = no_counts;
  world = sevens;
  statics = no_statics;
  printed = [];
}

abbrev asked : Node
asked = loop_bootstrap_cb some_uv some_id idle

abbrev rolled : Node
rolled = loop_statgather_cb some_calls (cb_alloc 65536 asked).1

some_run : Reach some_uv idle rolled
some_run =
    then_step (then_step (then_step start (bootstrap some_id)) (alloc 65536))
      (statgather some_calls)

Reach-Grows_example : Grows idle rolled
Reach-Grows_example = Reach-Grows some_uv-IsUv (omega arith) some_run

cb_alloc-cb_alloc_example :
    ((cb_alloc 65536 idle).0 ≡ some 0)
    × ((cb_alloc 65536 (cb_alloc 65536 idle).1).0 ≡ some 0)
    × ((cb_alloc 65536 (cb_alloc 65536 idle).1).1.recv_buf_pool ≡ 0 ∷ [])
    × ((cb_alloc 65536 (cb_alloc 65536 idle).1).1.n_krpcs ≡ 1)
cb_alloc-cb_alloc_example = cb_alloc-cb_alloc 65536 65536 0 [] idle (omega arith) (omega arith) refl

abbrev before : Rolled
before = record { tables = idle.tables; counters = no_counts; statics = no_statics; printed = [] }

-- The second of two rollovers prints a row, the first a heartbeat.
rollovers-Later_example : Later 2 before (rollovers (some_calls ∷ some_calls ∷ []) before)
rollovers-Later_example =
    rollovers-Later (some_calls ∷ some_calls ∷ []) before (omega arith) (omega arith)
      (refl, (refl, tt))

csv_names-csv_of_example :
    (csv_of 7 no_counts ≡ map (value_of 7 no_counts) csv_names)
    × (length aux_names ≡ suc (length (aux_of no_statics)))
csv_names-csv_of_example = csv_names-csv_of 7 no_counts no_statics

-- libuv takes every packet.
abbrev open_uv : Uv
open_uv = record some_uv { takes = λ n. true }

abbrev question : Question
question = nodes_near other_id

-- With a tok of two bytes, and without a version.
abbrev text : Bytes
text = text_of question some_id (codes "aa") none

abbrev asking : Peerinfo
asking = record { in_addr = 0x04030201; sin_port = 0xe11a }

idle-CanAnswer : CanAnswer open_uv asking idle
unfolding validate_addr spam_check_rx
idle-CanAnswer = record {
  valid = refl;
  passes = refl;
  takes = λ n. refl;
  bufs = (tt, refl);
  rt = λ i. refl;
}

cb_alloc-cb_recv_msg-Replies_example :
    ((cb_alloc 65536 idle).0 ≡ some (base_of idle))
    × ((s' : Node) × (cb_recv_msg open_uv
            (base_of idle)
            (bytes (length text))
            (some asking)
            (arrived 65536 (text ++ []) idle)
          ≡ ok s')
        × Replies question some_id (codes "aa") asking (arrived 65536 (text ++ []) idle) s')
unfolding decimal
cb_alloc-cb_recv_msg-Replies_example =
    cb_alloc-cb_recv_msg-Replies open_uv 65536 [] question some_id (codes "aa") none asking idle
      refl refl (omega arith) (omega arith) (omega arith) (omega arith) idle-CanAnswer
