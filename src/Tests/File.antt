-- ===== src/Tests/File.antt =====
-- The file of the routing table at concrete contents.
use dht_cpp.Base.{ℕ, true, ltb, if◌then◌else◌, ◌≡◌, refl, arith}
use dht_cpp.Rt.File.{File, Posix, IsTruncated, Loads, cell_at, load_rt, mapped, load_rt-Loads}
use dht_cpp.Rt.Memory.{IsTable, store_cell, set_cell-store_cell}
use dht_cpp.Rt.{get_cell, nih_low, rt_size, set_cell}
use dht_cpp.Tests.Samples.{some_id, no_contacts}

-- A call of `ftruncate` that does what POSIX says.
abbrev cut : ℕ → File → File
cut n file = record { size = n; byte = λ i. if ltb i file.size then file.byte i else 0 }

abbrev pub linux : Posix
linux = record { opens = true; stats = true; truncates = true; maps = true; ftruncate = cut }

cut-IsTruncated : (n : ℕ) (file : File) → IsTruncated n file (cut n file)
cut-IsTruncated n file = record {
  sized = refl;
  kept = λ i h l. ground (arith, h);
  zeroed = λ i h l. ground (arith, h);
}

-- A file of 60 bytes, two cells and a half.
abbrev pub short_file : File
short_file = record { size = 60; byte = λ i. 7 }

load_rt-Loads_example :
    (memory : File) × (load_rt linux short_file ≡ mapped memory) × Loads short_file memory
load_rt-Loads_example =
    load_rt-Loads linux short_file refl refl refl refl (cut-IsTruncated rt_size short_file)

-- A mapped table, whose first cells have the sevens of the file.
abbrev pub contents : File
contents = cut rt_size short_file

set_cell-store_cell_example :
    IsTable
      (store_cell (get_cell some_id) (nih_low some_id) 0x04030201 6881 contents)
      (set_cell some_id 0x04030201 6881 (record no_contacts { cells = cell_at contents }))
set_cell-store_cell_example =
    set_cell-store_cell some_id 0x04030201 6881 contents
      (record no_contacts { cells = cell_at contents }) refl (omega arith) (omega arith)
      (λ ix. refl)
