-- ===== src/Stat/Rows.antt =====
-- cht/stat.cpp: when the rollover prints, over any number of rollovers.
use dht_cpp.Base.{
  ℕ, suc, ◌+◌, ◌-◌, ◌/◌, ◌%◌, ◌^◌, map, ◌<◌, Bool, true, false, List, [], ◌∷◌, ◌++◌, length, ◌!=◌,
  if◌then◌else◌, if_elim, ◌≡◌, refl, arith, Bool-cases, inl, inr, ◌∙◌,
}
use dht_cpp.Spam.{spam_run_epoch}
use dht_cpp.Stat.{index}
use dht_cpp.Stat.Counters.{Counters, rollover}
use dht_cpp.Stat.Rollover.{
  Calls, Column, Line, Rolled, Statics, aux_names, aux_of, aux_row, beat, csv_names, csv_of,
  csv_row, elements, heartbeat, roll, rollover_time, st_rollover, stat_csv_every, stat_hb_every,
  stat_name, time_name, write_rows,
}

-- The rows of the first file, and the heartbeats.
abbrev pub rows : List Line → ℕ
rows [] = 0
rows (csv_row row ∷ lines) = suc (rows lines)
rows (_ ∷ lines) = rows lines

abbrev pub beats : List Line → ℕ
beats [] = 0
beats (heartbeat tx rx ∷ lines) = suc (beats lines)
beats (_ ∷ lines) = beats lines

beat-counters : (r : Rolled) → (beat r).counters ≡ r.counters
unfolding beat
beat-counters r =
    if_elim (λ (x : Rolled). x.counters ≡ r.counters)
      (r.statics.next_heartbeat != stat_hb_every - 1) (λ _. refl) (λ _. refl)

write_rows-counters : (calls : Calls) (r : Rolled) → (write_rows calls r).counters ≡ r.counters
unfolding write_rows
write_rows-counters calls r =
    if_elim (λ (x : Rolled). x.counters ≡ r.counters) (r.statics.write_csv != stat_csv_every - 1)
      (λ _. refl) (λ _. refl)

pub st_rollover-counters :
    (calls : Calls) (r : Rolled)
    → (st_rollover calls r).counters ≡ rollover (spam_run_epoch r.tables r.counters).1
unfolding st_rollover roll
st_rollover-counters calls r =
    write_rows-counters calls (beat (roll calls r)) ∙ beat-counters (roll calls r)

-- The rollovers of a run, one for each answer of the libraries.
abbrev pub rollovers : List Calls → Rolled → Rolled
rollovers [] r = r
rollovers (calls ∷ later) r = rollovers later (st_rollover calls r)

abbrev pub AllOpen : List Calls → Type 0
AllOpen [] = Unit
AllOpen (calls ∷ later) = (calls.csv_opens ≡ true) × AllOpen later

-- Where `r'` stands against `r` behind `n` rollovers.
pub record Later (n : ℕ) (r r' : Rolled) : Type 0 where
  pub csv : r'.statics.write_csv ≡ (r.statics.write_csv + n) % stat_csv_every
  pub hb : r'.statics.next_heartbeat ≡ (r.statics.next_heartbeat + n) % stat_hb_every
  pub rows_of : rows r'.printed ≡ rows r.printed + (r.statics.write_csv + n) / stat_csv_every
  pub beats_of : beats r'.printed ≡ beats r.printed + (r.statics.next_heartbeat + n) / stat_hb_every

beat-Later :
    (r : Rolled)
    → r.statics.next_heartbeat < stat_hb_every
    → ((beat r).statics.next_heartbeat ≡ (r.statics.next_heartbeat + 1) % stat_hb_every)
      × ((beat r).statics.write_csv ≡ r.statics.write_csv)
      × (rows (beat r).printed ≡ rows r.printed)
      × (beats (beat r).printed ≡ beats r.printed + (r.statics.next_heartbeat + 1) / stat_hb_every)
unfolding beat
beat-Later r h = elim (Bool-cases (r.statics.next_heartbeat != stat_hb_every - 1)) [
  | inl wait ↦ rw wait (ground arith, refl, refl, ground arith)
  | inr now ↦ rw now (ground arith, refl, refl, ground arith)
]

aux_rows :
    (opens : Bool) (row : List ℕ) (lines : List Line)
    → (rows ((if opens then aux_row row ∷ [] else []) ++ lines) ≡ rows lines)
      × (beats ((if opens then aux_row row ∷ [] else []) ++ lines) ≡ beats lines)
aux_rows true row lines = (refl, refl)
aux_rows false row lines = (refl, refl)

write_rows-Later :
    (calls : Calls) (r : Rolled)
    → r.statics.write_csv < stat_csv_every
    → calls.csv_opens ≡ true
    → ((write_rows calls r).statics.write_csv ≡ (r.statics.write_csv + 1) % stat_csv_every)
      × ((write_rows calls r).statics.next_heartbeat ≡ r.statics.next_heartbeat)
      × (rows (write_rows calls r).printed
          ≡ rows r.printed + (r.statics.write_csv + 1) / stat_csv_every)
      × (beats (write_rows calls r).printed ≡ beats r.printed)
unfolding write_rows
write_rows-Later calls r h o = elim (Bool-cases (r.statics.write_csv != stat_csv_every - 1)) [
  | inl wait ↦ rw wait (ground arith, refl, ground arith, refl)
  | inr now ↦
      let aux =
        aux_rows calls.aux_opens (aux_of r.statics)
          (csv_row (csv_of calls.time r.counters) ∷ r.printed) in
      rw (now, o, aux.0, aux.1) (ground arith, refl, ground arith, refl)
]

st_rollover-Later :
    (calls : Calls) (r : Rolled)
    → r.statics.write_csv < stat_csv_every
    → r.statics.next_heartbeat < stat_hb_every
    → calls.csv_opens ≡ true
    → Later 1 r (st_rollover calls r)
unfolding st_rollover roll rollover_time
st_rollover-Later calls r c h o =
    let (hb, csv, rows, beats) = beat-Later (roll calls r) h in
    let (csv', hb', rows', beats') =
      write_rows-Later calls (beat (roll calls r)) (omega (arith, csv)) o in
    record {
      csv = omega (arith, csv, csv');
      hb = omega (arith, hb, hb');
      rows_of = omega (arith, csv, rows, rows');
      beats_of = omega (arith, beats, beats');
    }

-- If the file opens at every rollover, then n rollovers print a row for every fifth of them and a
-- heartbeat for every sixtieth, counted from where the two counters stand, which are below 5 and 60.
pub rollovers-Later :
    (later : List Calls) (r : Rolled)
    → r.statics.write_csv < stat_csv_every
    → r.statics.next_heartbeat < stat_hb_every
    → AllOpen later
    → Later (length later) r (rollovers later r)
rollovers-Later [] r c h o = record {
  csv = omega arith;
  hb = omega arith;
  rows_of = omega arith;
  beats_of = omega arith;
}
rollovers-Later (calls ∷ later) r c h (o, os) =
    let first = st_rollover-Later calls r c h o in
    let rest =
      rollovers-Later later (st_rollover calls r) (omega (arith, first.csv))
        (omega (arith, first.hb)) os in
    record {
      csv = omega (arith, first.csv, rest.csv);
      hb = omega (arith, first.hb, rest.hb);
      rows_of = omega (arith, first.csv, first.rows_of, rest.rows_of);
      beats_of = omega (arith, first.hb, first.beats_of, rest.beats_of);
    }

-- What a row has under a name of its header.
abbrev pub value_of : ℕ → Counters → Column → ℕ
value_of now g time_name = now % 2 ^ 64
value_of now g (stat_name ix) = g.ctr ix
value_of now g _ = 0

-- A row of the first file has the time and the statistics under the names of its header, in the order
-- of the header, at any time and for any counters; a row of the second file is one value shorter
-- than its header.
pub csv_names-csv_of :
    (now : ℕ) (g : Counters) (v : Statics)
    → (csv_of now g ≡ map (value_of now g) csv_names) × (length aux_names ≡ suc (length (aux_of v)))
unfolding elements index
csv_names-csv_of now g v = (refl, refl)
