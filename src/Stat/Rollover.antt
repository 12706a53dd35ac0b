-- ===== src/Stat/Rollover.antt =====
-- cht/stat.cpp: the rollover of the statistics, with what it prints, in a build with `STAT_CSV` and
-- `STAT_AUX`, as the Makefile sets them.
use dht_cpp.Base.{
  ℕ, zero, suc, ◌+◌, ◌-◌, ◌*◌, ◌%◌, ◌^◌, Bool, List, [], ◌∷◌, ◌++◌, ltb, leb, ◌==◌, ◌!=◌,
  if◌then◌else◌, Run, ok, crash, assertion,
}
use dht_cpp.Ctl.{ctl_rollover_hook}
use dht_cpp.Gpm.{gp_max_hops}
use dht_cpp.Spam.{Tables, spam_run_epoch}
use dht_cpp.Stat.Counters.{Counters, rollover, st_get}
use dht_cpp.Stat.{index, st_enum_end, tx_tot, rx_tot}

-- `STAT_CSV_EVERY` and `STAT_HB_EVERY`
abbrev pub stat_csv_every : ℕ
stat_csv_every = 5

abbrev pub stat_hb_every : ℕ
stat_hb_every = 60

-- The variables of the file but for the counters, those of `st_rollover` and `ctl_ping_window`.
pub record Statics : Type 0 where
  pub st_time_now : ℕ
  pub st_time_old : ℕ
  pub g_dkad_ctr : ℕ → ℕ
  pub g_n_hops_ctr : ℕ → ℕ
  pub write_csv : ℕ
  pub next_heartbeat : ℕ
  pub ctl_ping_window : ℕ

-- What the C and C++ libraries answer during a rollover: the two clocks, and whether the files open.
pub record Calls : Type 0 where
  pub now : ℕ
  pub time : ℕ
  pub csv_opens : Bool
  pub aux_opens : Bool

-- A name in the header of a file: of the time, of the statistic at an index, of a distance, or of a
-- number of hops.
pub data Column : Type 0 where
  time_name : Column
  stat_name dkad_name hops_name : ℕ → Column

-- A line that is printed: the heartbeat with the packets sent and received, a header, and a row of
-- each file.
pub data Line : Type 0 where
  csv_header aux_header : List Column → Line
  heartbeat : ℕ → ℕ → Line
  csv_row aux_row : List ℕ → Line

-- `printed` has the newest line first.
pub record Rolled : Type 0 where
  pub tables : Tables
  pub counters : Counters
  pub statics : Statics
  pub printed : List Line

unfoldable pub rollover_time : ℕ → Statics → Statics
rollover_time now v = record v { st_time_old = v.st_time_now; st_time_now = now }

-- The elements of an array from `ix` on, as many as `n`.
unfoldable pub elements {ℓ} : {A : Type ℓ} → ℕ → ℕ → (ℕ → A) → List A
elements zero ix arr = []
elements (suc n) ix arr = arr ix ∷ elements n (ix + 1) arr

-- The loop starts with 1, and ends in front of `ST__ST_ENUM_END - 1`.
abbrev pub csv_of : ℕ → Counters → List ℕ
csv_of time g = time % 2 ^ 64 ∷ elements (index st_enum_end - 2) 1 g.ctr

-- The hops are printed up to `GP_MAX_HOPS - 1`.
abbrev pub aux_of : Statics → List ℕ
aux_of v = elements 161 0 v.g_dkad_ctr ++ elements gp_max_hops 0 v.g_n_hops_ctr

abbrev pub csv_names : List Column
csv_names = time_name ∷ elements (index st_enum_end - 2) 1 stat_name

-- The names of the hops go up to `GP_MAX_HOPS`.
abbrev pub aux_names : List Column
aux_names = elements 161 0 dkad_name ++ elements (gp_max_hops + 1) 0 hops_name

unfoldable pub st_init : Calls → Rolled → Rolled
unfolding rollover_time elements
st_init calls r =
    let csv = if calls.csv_opens then csv_header csv_names ∷ [] else [] in
    let aux = if calls.aux_opens then aux_header aux_names ∷ [] else [] in
    record r { statics = rollover_time calls.now r.statics; printed = aux ++ (csv ++ r.printed) }

-- The heartbeat of every 60th call.
unfoldable pub beat : Rolled → Rolled
unfolding st_get
beat r =
    let v = r.statics in
    if v.next_heartbeat != stat_hb_every - 1
    then record r { statics = record v { next_heartbeat = v.next_heartbeat + 1 } }
    else record r {
      statics = record v { next_heartbeat = 0 };
      printed = heartbeat (st_get tx_tot r.counters) (st_get rx_tot r.counters) ∷ r.printed;
    }

-- The rows of every fifth call.
unfoldable pub write_rows : Calls → Rolled → Rolled
unfolding elements
write_rows calls r =
    let v = r.statics in
    let row = if calls.csv_opens then csv_row (csv_of calls.time r.counters) ∷ [] else [] in
    let aux = if calls.aux_opens then aux_row (aux_of v) ∷ [] else [] in
    if v.write_csv != stat_csv_every - 1
    then record r { statics = record v { write_csv = v.write_csv + 1 } }
    else record r { statics = record v { write_csv = 0 }; printed = aux ++ (row ++ r.printed) }

-- What stands in front of the heartbeat.
unfoldable pub roll : Calls → Rolled → Rolled
unfolding spam_run_epoch rollover_time ctl_rollover_hook rollover
roll calls r =
    let (tables, counters) = spam_run_epoch r.tables r.counters in
    let v = rollover_time calls.now r.statics in
    record r {
      tables = tables;
      counters = rollover counters;
      statics = record v { ctl_ping_window = ctl_rollover_hook v.ctl_ping_window };
    }

unfoldable pub st_rollover : Calls → Rolled → Rolled
unfolding roll beat write_rows
st_rollover calls r = write_rows calls (beat (roll calls r))

-- `++` on an element of an array of u64.
abbrev pub click : ℕ → (ℕ → ℕ) → ℕ → ℕ
click ix arr i = if ix == i then (arr i + 1) % 2 ^ 64 else arr i

unfoldable pub st_click_dkad : ℕ → Statics → Run Statics
st_click_dkad dkad v =
    if leb dkad 160 then ok (record v { g_dkad_ctr = click dkad v.g_dkad_ctr }) else crash assertion

-- `sizeof(g_n_hops_ctr)`, the bytes of an array of nine u64.
abbrev pub sizeof_n_hops_ctr : ℕ
sizeof_n_hops_ctr = 8 * (gp_max_hops + 1)

-- `st_click_gp_n_hops`: what it lets through from the ninth element on lies behind the array.
unfoldable pub st_click_gp_n_hops : ℕ → Statics → Run Statics
st_click_gp_n_hops n_hops v =
    if ltb n_hops sizeof_n_hops_ctr
    then ok (record v { g_n_hops_ctr = click n_hops v.g_n_hops_ctr })
    else crash assertion
