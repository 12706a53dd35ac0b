-- ===== src/Rt/File.antt =====
-- cht/rt.cpp: `RT::load_rt`, which maps the file of the routing table to memory.
use dht_cpp.Base.{
  ℕ, zero, suc, ◌+◌, ◌*◌, ◌≤◌, ◌<◌, Bool, true, [], ◌∷◌, Bytes, ◌!=◌, if◌then◌else◌, Bool-cases,
  inl, inr, ◌≡◌, refl, sym, ap, subst, arith,
}
use dht_cpp.Dht.{u32_of}
use dht_cpp.Rt.{Nodeinfo, rt_size, is_empty, low_checksum}

-- A file, or the memory that it is mapped to: its size in bytes and the byte at each offset.
pub record File : Type 0 where
  pub size : ℕ
  pub byte : ℕ → ℕ

-- What the operating system answers: whether `open`, `fstat`, `ftruncate` and `mmap` succeed, and the
-- file that `ftruncate` leaves.
pub record Posix : Type 0 where
  pub opens : Bool
  pub stats : Bool
  pub truncates : Bool
  pub maps : Bool
  pub ftruncate : ℕ → File → File

-- `exit(-1)`, or the memory.
pub data Loaded : Type 0 where
  exited : Loaded
  mapped : File → Loaded

unfoldable pub map_file : Posix → File → Loaded
map_file sys file = if sys.maps then mapped file else exited

-- `load_rt`, on the file that `open` finds or creates.
unfoldable pub load_rt : Posix → File → Loaded
unfolding map_file
load_rt sys file =
    let resized = if sys.truncates then map_file sys (sys.ftruncate rt_size file) else exited in
    if sys.opens
    then (if sys.stats
        then (if file.size != rt_size then resized else map_file sys file)
        else exited)
    else exited

-- The bytes from an offset on, as many as `n`.
unfoldable pub window : ℕ → ℕ → (ℕ → ℕ) → Bytes
window zero start byte = []
window (suc n) start byte = byte start ∷ window n (start + 1) byte

-- `__rt[ix]`: the 18 bytes of the id, the four of the address and the two of the port.
unfoldable pub cell_at : File → ℕ → Nodeinfo
unfolding window u32_of
cell_at file ix = record {
  nih_l = window 18 (24 * ix) file.byte;
  peerinfo = record {
    in_addr = u32_of (window 4 (24 * ix + 18) file.byte);
    sin_port = file.byte (24 * ix + 22) + 0x100 * file.byte (24 * ix + 23);
  };
}

-- What `ftruncate` does to a file, as POSIX has it: the size is the one asked for, the bytes that were
-- there stay, and the others are zero.
pub record IsTruncated (n : ℕ) (file file' : File) : Type 0 where
  pub sized : file'.size ≡ n
  pub kept : (i : ℕ) → i < file.size → i < n → file'.byte i ≡ file.byte i
  pub zeroed : (i : ℕ) → file.size ≤ i → i < n → file'.byte i ≡ 0

window_cong :
    (n start : ℕ) (f g : ℕ → ℕ)
    → ((i : ℕ) → start ≤ i → i < start + n → f i ≡ g i)
    → window n start f ≡ window n start g
unfolding window
window_cong zero start f g h = refl
window_cong (suc n) start f g h = rw (h start (omega arith) (omega arith)) (
    ap (λ bs. g start ∷ bs)
      (window_cong n (start + 1) f g (λ i l m. h i (omega arith) (omega arith))))

pub cell_at_cong :
    (f g : File) (ix : ℕ)
    → ((i : ℕ) → 24 * ix ≤ i → i < 24 * ix + 24 → f.byte i ≡ g.byte i)
    → cell_at f ix ≡ cell_at g ix
unfolding cell_at
cell_at_cong f g ix h =
    let low = window_cong 18 (24 * ix) (f.byte) (g.byte) (λ i l m. h i l (omega arith)) in
    let addr =
      window_cong 4 (24 * ix + 18) (f.byte) (g.byte) (λ i l m. h i (omega arith) (omega arith)) in
    let port = h (24 * ix + 22) (omega arith) (omega arith) in
    let port' = h (24 * ix + 23) (omega arith) (omega arith) in
    λ j. record {
      nih_l = low j;
      peerinfo = record { in_addr = u32_of (addr j); sin_port = port j + 0x100 * port' j };
    }

-- Of the memory that is mapped for a file.
pub record Loads (file memory : File) : Type 0 where
  pub sized : memory.size ≡ rt_size
  pub kept :
      (ix : ℕ) → 24 * ix + 24 ≤ file.size → ix < 256 * 256 → cell_at memory ix ≡ cell_at file ix
  pub empty : (ix : ℕ) → file.size ≤ 24 * ix → ix < 256 * 256 → is_empty (cell_at memory ix) ≡ true

zeros-is_empty :
    (f : File) (ix : ℕ)
    → ((i : ℕ) → 24 * ix ≤ i → i < 24 * ix + 24 → f.byte i ≡ 0)
    → is_empty (cell_at f ix) ≡ true
unfolding is_empty low_checksum cell_at window u32_of
zeros-is_empty f ix h =
    subst (λ cell. is_empty cell ≡ true)
      (sym (cell_at_cong f (record { size = 0; byte = λ _. 0 }) ix h)) refl

truncated-Loads : (file memory : File) → IsTruncated rt_size file memory → Loads file memory
truncated-Loads file memory t = record {
  sized = t.sized;
  kept = λ ix h l. cell_at_cong memory file ix (λ i a b. t.kept i (omega arith) (omega arith));
  empty = λ ix h l. zeros-is_empty memory ix (λ i a b. t.zeroed i (omega arith) (omega arith));
}

whole-Loads : (file : File) → file.size ≡ rt_size → Loads file file
whole-Loads file e = record {
  sized = e;
  kept = λ ix h l. refl;
  empty = λ ix h l. absurd (omega arith);
}

-- If every call succeeds, and `ftruncate` does what POSIX says, then `load_rt` maps a table of 256 * 256
-- cells: those that lie in the file are the file's, and those behind its end are empty.
pub load_rt-Loads :
    (sys : Posix) (file : File)
    → sys.opens ≡ true
    → sys.stats ≡ true
    → sys.truncates ≡ true
    → sys.maps ≡ true
    → IsTruncated rt_size file (sys.ftruncate rt_size file)
    → (memory : File) × (load_rt sys file ≡ mapped memory) × Loads file memory
unfolding load_rt map_file
load_rt-Loads sys file o s t m h = elim (Bool-cases (file.size != rt_size)) [
  | inl other ↦ (
    sys.ftruncate rt_size file,
    rw (o, s, other, t, m) refl,
    truncated-Loads file (sys.ftruncate rt_size file) h,
  )
  | inr whole ↦ (file, rw (o, s, whole, m) refl, whole-Loads file (ground (arith, whole)))
]
