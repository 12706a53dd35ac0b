-- ===== src/Tests/Starting.antt =====
-- The start of cht/main.cpp at concrete answers of libuv.
use dht_cpp.Base.{Bool, true, false, none, ◌≡◌, refl}
use dht_cpp.Main.Start.{
  Setup, statgather_start, Startup, running, process, all_calls, prepared, process-IsBooked,
}
use dht_cpp.Main.State.{Node}
use dht_cpp.Main.Receive.{cb_alloc}
use dht_cpp.Main.Steps.Books.{IsBooked}
use dht_cpp.Main.Steps.{Reach, start, then_step, alloc, bootstrap, statgather}
use dht_cpp.Main.Timers.{loop_bootstrap_cb, loop_statgather_cb}
use dht_cpp.Rt.File.{load_rt}
use dht_cpp.Tests.File.{linux, short_file, contents}
use dht_cpp.Tests.Program.{some_uv, some_uv-IsUv, some_calls}
use dht_cpp.Tests.Samples.{some_id, sevens}

-- The timer of the statistics does not start.
abbrev timer_fails : Setup → Bool
timer_fails (statgather_start delay period) = true
timer_fails _ = false

abbrev starting : Startup
starting = record { fails = timer_fails; calls = some_calls; world = sevens }

abbrev begun : Node
begun = prepared contents starting

abbrev rolled : Node
rolled =
    let asked = loop_bootstrap_cb some_uv some_id begun in
    loop_statgather_cb some_calls (cb_alloc 65536 asked).1

some_run : Reach some_uv begun rolled
some_run =
    then_step (then_step (then_step start (bootstrap some_id)) (alloc 65536))
      (statgather some_calls)

process-IsBooked_example :
    (process linux short_file starting none ≡ running (all_calls none) begun)
    × IsBooked some_uv rolled
unfolding load_rt
process-IsBooked_example =
    process-IsBooked linux short_file contents starting none refl
      (record {
        udp = refl;
        bind = refl;
        recv = refl;
        statgather = refl;
        bootstrap = refl;
        timer = refl;
      })
      some_uv-IsUv some_run
