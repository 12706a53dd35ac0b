-- ===== src/Main/Start.antt =====
-- cht/main.cpp: the start of the program, `init_subsystems` and `main`.
use dht_cpp.Base.{
  ℕ, Bool, false, List, [], ◌∷◌, Bytes, codes, Option, none, some, if◌then◌else◌, replicate, ◌≡◌,
  refl,
}
use dht_cpp.Dht.{nih_len}
use dht_cpp.Main.State.{Uv, Node, new_krpc}
use dht_cpp.Main.Acts.{IsUv}
use dht_cpp.Main.Steps.Books.{IsBooked, taken, refused}
use dht_cpp.Main.Steps.Runs.{Reach-IsBooked}
use dht_cpp.Main.Steps.{Reach}
use dht_cpp.Rt.File.{File, Posix, Loaded, exited, mapped, load_rt, cell_at}
use dht_cpp.Stat.Rollover.{Calls, st_init}
use dht_cpp.Util.Random.{World}

-- `STAT_ROLLOVER_FREQ_MS`
abbrev pub stat_rollover_freq_ms : ℕ
stat_rollover_freq_ms = 1000

-- The calls of libuv that prepare the loop: the address and the port that the socket is bound to, and
-- the delay and the period of a timer.
pub data Setup : Type 0 where
  udp_init udp_recv_start statgather_init bootstrap_init : Setup
  udp_bind : Bytes → ℕ → Setup
  statgather_start bootstrap_start : ℕ → ℕ → Setup

-- What libuv and the C library answer at the start: which calls return a negative status.
pub record Startup : Type 0 where
  pub fails : Setup → Bool
  pub calls : Calls
  pub world : World

-- How the start ends: with a status of the process, or in the event loop, behind calls of which the
-- newest is the first.
pub data Started : Type 0 where
  exits : ℕ → Started
  running : List Setup → Node → Started

-- The variables before `main`, with the table that `g_rt` has mapped.
unfoldable pub globals : File → World → Node
globals memory world = record {
  krpcs = λ i. new_krpc;
  n_krpcs = 0;
  recv_buf_pool = [];
  krpc_map = [];
  send_req_pool = [];
  pending = [];
  n_sends = 0;
  tables = record { g_rx_spamtable = []; g_pg_spamtable = []; getpeers_spamtable = [] };
  g_ifl_buf = λ i. record {
    ih = replicate nih_len 0;
    last_nid_checksum = 0;
    hop_ctr = 0;
    last_reponse_ms = 0;
    is_set = false;
  };
  cells = cell_at memory;
  counters = record { ctr = λ i. 0; ctr_old = λ i. 0 };
  world = world;
  statics = record {
    st_time_now = 0;
    st_time_old = 0;
    g_dkad_ctr = λ i. 0;
    g_n_hops_ctr = λ i. 0;
    write_csv = 0;
    next_heartbeat = 0;
    ctl_ping_window = 0;
  };
  printed = [];
}

-- `init_subsystems`; `ctl_init` does nothing.
unfoldable pub init_subsystems : Calls → Node → Node
unfolding st_init
init_subsystems calls s =
    let r = st_init calls (record {
      tables = s.tables;
      counters = s.counters;
      statics = s.statics;
      printed = s.printed;
    }) in
    record s { tables = r.tables; counters = r.counters; statics = r.statics; printed = r.printed }

-- `CHECK`
unfoldable pub check : Bool → Started → Started
check failed go_on = if failed then exits 1 else go_on

-- A call behind others, and `CHECK` of its status.
unfoldable pub call : Startup → Setup → (List Setup → Started) → List Setup → Started
unfolding check
call up c go_on made = check (up.fails c) (go_on (c ∷ made))

-- `argv[1]`, or any address.
abbrev pub address : Option Bytes → Bytes
address none = codes "0.0.0.0"
address (some a) = a

-- `main`. The status of `uv_timer_start` is not stored for the first timer, so that the status of
-- `uv_timer_init` is looked at again.
unfoldable pub main : Startup → Option Bytes → Node → Started
unfolding init_subsystems check call
main up argument s =
    let timers = λ (made : List Setup). check (up.fails statgather_init) (
      call up bootstrap_init
        (call up (bootstrap_start 100 250) (λ all. running all (init_subsystems up.calls s)))
        (statgather_start stat_rollover_freq_ms stat_rollover_freq_ms ∷ made)) in
    call up udp_init
      (call up (udp_bind (address argument) 6881)
        (call up udp_recv_start (call up statgather_init timers)))
      []

-- Behind the initialisation of `g_rt`, which ends the process with `exit(-1)` if the file does not map.
unfoldable pub enter_main : Startup → Option Bytes → Loaded → Started
unfolding main globals
enter_main up argument exited = exits 255
enter_main up argument (mapped memory) = main up argument (globals memory up.world)

-- The process, with the file of the routing table.
unfoldable pub process : Posix → File → Startup → Option Bytes → Started
unfolding enter_main
process sys file up argument = enter_main up argument (load_rt sys file)

-- The calls whose status `main` looks at succeed.
pub record IsReady (up : Startup) (argument : Option Bytes) : Type 0 where
  pub udp : up.fails udp_init ≡ false
  pub bind : up.fails (udp_bind (address argument) 6881) ≡ false
  pub recv : up.fails udp_recv_start ≡ false
  pub statgather : up.fails statgather_init ≡ false
  pub bootstrap : up.fails bootstrap_init ≡ false
  pub timer : up.fails (bootstrap_start 100 250) ≡ false

-- Where the event loop starts.
abbrev pub prepared : File → Startup → Node
prepared memory up = init_subsystems up.calls (globals memory up.world)

-- The calls on the way.
abbrev pub all_calls : Option Bytes → List Setup
all_calls argument =
    bootstrap_start 100 250
    ∷ bootstrap_init
    ∷ statgather_start stat_rollover_freq_ms stat_rollover_freq_ms
    ∷ statgather_init
    ∷ udp_recv_start
    ∷ udp_bind (address argument) 6881
    ∷ udp_init
    ∷ []

process-running :
    (sys : Posix) (file memory : File) (up : Startup) (argument : Option Bytes)
    → load_rt sys file ≡ mapped memory
    → IsReady up argument
    → process sys file up argument ≡ running (all_calls argument) (prepared memory up)
unfolding process enter_main main check call
process-running sys file memory up argument loads h =
    rw (loads, h.udp, h.bind, h.recv, h.statgather, h.bootstrap, h.timer) refl

prepared-IsBooked : (uv : Uv) (memory : File) (up : Startup) → IsBooked uv (prepared memory up)
unfolding init_subsystems globals st_init taken refused
prepared-IsBooked uv memory up = record { valid = tt; total = refl; early = refl; kinds = refl }

-- If the file of the routing table maps, and libuv fails in none of the calls whose status `main` looks
-- at, whatever `uv_timer_start` answers for the timer of the statistics, the process comes to the
-- event loop, after all seven calls and with the contacts of the file. In every state that the callbacks reach from there, each pending packet has an address that
-- `validate_addr` accepts, `tx_tot` is the number of packets that `uv_udp_send` took,
-- `tx_msg_drop_early_error` that of those it refused, and the seven statistics of the messages sent
-- add up to `tx_tot`, all modulo 2 ^ 64; the two statistics that are not declared are taken to be
-- other ones.
pub process-IsBooked :
    (sys : Posix) (file memory : File) (up : Startup) (argument : Option Bytes)
    → load_rt sys file ≡ mapped memory
    → IsReady up argument
    → {uv : Uv} {s : Node} → IsUv uv
    → Reach uv (prepared memory up) s
    → (process sys file up argument ≡ running (all_calls argument) (prepared memory up))
      × IsBooked uv s
process-IsBooked sys file memory up argument loads h {uv} is_uv r = (
  process-running sys file memory up argument loads h,
  Reach-IsBooked is_uv r (prepared-IsBooked uv memory up),
)
