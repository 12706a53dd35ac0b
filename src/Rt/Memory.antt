-- ===== src/Rt/Memory.antt =====
-- cht/rt.cpp: `RT::set_cell`, on the bytes that `load_rt` maps.
use dht_cpp.Base.{
  ℕ, zero, suc, ◌+◌, ◌*◌, ◌-◌, ◌/◌, ◌%◌, ◌^◌, ◌≤◌, ◌<◌, true, false, ◌&&◌, [], ◌∷◌, Bytes, get_or,
  length, length-drop, ltb, leb, ◌==◌, if◌then◌else◌, Bool-cases, inl, inr, ◌≡◌, refl, sym, ap, ◌∙◌,
  subst, arith,
}
use dht_cpp.Dht.{Nih, IsNih, u32_of}
use dht_cpp.Rt.File.{File, window, cell_at, cell_at_cong}
use dht_cpp.Rt.{Rt, get_cell, nih_low, set_cell}

-- The byte at an offset in a `Nodeinfo`, which is packed; numbers have their least byte first.
unfoldable pub byte_of : Bytes → ℕ → ℕ → ℕ → ℕ
byte_of low in_addr sin_port i =
    if ltb i 18
    then get_or low i 0
    else if ltb i 22
    then in_addr / 256 ^ (i - 18) % 256
    else sin_port / 256 ^ (i - 22) % 256

-- The assignments of `set_cell` to the cell at `ix`.
unfoldable pub store_cell : ℕ → Bytes → ℕ → ℕ → File → File
unfolding byte_of
store_cell ix low in_addr sin_port file = record file {
  byte = λ i.
      if leb (24 * ix) i && ltb i (24 * ix + 24)
      then byte_of low in_addr sin_port (i - 24 * ix)
      else file.byte i;
}

window_list :
    (xs : Bytes) (start : ℕ) (f : ℕ → ℕ)
    → ((i : ℕ) → i < length xs → f (start + i) ≡ get_or xs i 0)
    → window (length xs) start f ≡ xs
unfolding window
window_list [] start f h = refl
window_list (x ∷ xs) start f h =
    let head : f start ≡ x = subst (λ s. f s ≡ x) (omega arith) (h 0 (omega arith)) in
    let rest =
      window_list xs (start + 1) f
        (λ i l. subst (λ s. f s ≡ get_or xs i 0) (omega arith) (h (suc i) (omega arith))) in
    λ j. head j ∷ rest j

window_shift :
    (n s d : ℕ) (f g : ℕ → ℕ)
    → ((i : ℕ) → i < n → f (s + i) ≡ g (d + i))
    → window n s f ≡ window n d g
unfolding window
window_shift zero s d f g h = refl
window_shift (suc n) s d f g h =
    let head : f s ≡ g d =
      subst (λ x. f x ≡ g d) (omega arith)
        (subst (λ y. f (s + 0) ≡ g y) (omega arith) (h 0 (omega arith))) in
    let rest = window_shift n (s + 1) (d + 1) f g (λ i l.
      subst (λ x. f x ≡ g (d + 1 + i)) (omega arith)
        (subst (λ y. f (s + suc i) ≡ g y) (omega arith) (h (suc i) (omega arith)))) in
    λ j. head j ∷ rest j

module _ (ix : ℕ) (low : Bytes) (in_addr sin_port : ℕ) (file : File) where
  abbrev stored : File
  stored = store_cell ix low in_addr sin_port file

  stored-inside : (i : ℕ) → i < 24 → stored.byte (24 * ix + i) ≡ byte_of low in_addr sin_port i
  unfolding store_cell
  stored-inside i h =
      let inside : (leb (24 * ix) (24 * ix + i) && ltb (24 * ix + i) (24 * ix + 24)) ≡ true =
        ground arith in
      let offset : 24 * ix + i - 24 * ix ≡ i = omega arith in
      rw inside (ap (byte_of low in_addr sin_port) offset)

  stored-outside :
      (i : ℕ) → (leb (24 * ix) i && ltb i (24 * ix + 24)) ≡ false → stored.byte i ≡ file.byte i
  unfolding store_cell
  stored-outside i h = rw h refl

  stored-window :
      (o n : ℕ)
      → o + n ≤ 24
      → window n (24 * ix + o) stored.byte ≡ window n o (byte_of low in_addr sin_port)
  stored-window o n h =
      window_shift n (24 * ix + o) o stored.byte (byte_of low in_addr sin_port) (λ i m.
        subst (λ x. stored.byte x ≡ byte_of low in_addr sin_port (o + i)) (omega arith)
          (stored-inside (o + i) (omega arith)))

  stored-low : length low ≡ 18 → window 18 (24 * ix) stored.byte ≡ low
  unfolding byte_of
  stored-low e =
      let start : 24 * ix ≡ 24 * ix + 0 = omega arith in
      let bytes = window_list low 0 (byte_of low in_addr sin_port) (λ i l. ground arith) in
      subst (λ s. window 18 s stored.byte ≡ low) (sym start)
        (stored-window 0 18 (omega arith)
          ∙ subst (λ n. window n 0 (byte_of low in_addr sin_port) ≡ low) e bytes)

  stored-addr : in_addr < 2 ^ 32 → u32_of (window 4 (24 * ix + 18) stored.byte) ≡ in_addr
  unfolding window u32_of byte_of
  stored-addr l = ap u32_of (stored-window 18 4 (omega arith)) ∙ omega arith

  stored-port :
      sin_port < 2 ^ 16 → stored.byte (24 * ix + 22) + 0x100 * stored.byte (24 * ix + 23) ≡ sin_port
  unfolding byte_of
  stored-port l = rw (stored-inside 22 (omega arith), stored-inside 23 (omega arith)) (omega arith)

  store_cell-same :
      length low ≡ 18
      → in_addr < 2 ^ 32
      → sin_port < 2 ^ 16
      → cell_at stored ix
        ≡ record { nih_l = low; peerinfo = record { in_addr = in_addr; sin_port = sin_port } }
  unfolding cell_at
  store_cell-same e l l' = λ j. record {
    nih_l = stored-low e j;
    peerinfo = record { in_addr = stored-addr l j; sin_port = stored-port l' j };
  }

  store_cell-other : (j : ℕ) → (ix == j) ≡ false → cell_at stored j ≡ cell_at file j
  store_cell-other j h = cell_at_cong stored file j (λ i l m. stored-outside i (ground arith))

-- The memory has the cells of the table.
abbrev pub IsTable : File → Rt → Type 0
IsTable memory t = (ix : ℕ) → cell_at memory ix ≡ t.cells ix

-- With an id of 20 bytes, an address of 32 bits and a port of 16: on memory that has the cells of the
-- table, the assignments of `set_cell` to the bytes of the cell of the id leave memory that has the
-- cells of the table behind `set_cell`, the other cells included.
pub set_cell-store_cell :
    (nid : Nih) (in_addr sin_port : ℕ) (memory : File) (t : Rt)
    → IsNih nid
    → in_addr < 2 ^ 32
    → sin_port < 2 ^ 16
    → IsTable memory t
    → IsTable
        (store_cell (get_cell nid) (nih_low nid) in_addr sin_port memory)
        (set_cell nid in_addr sin_port t)
unfolding set_cell
set_cell-store_cell nid in_addr sin_port memory t n a p same ix =
    let size : length (nih_low nid) ≡ 18 = length-drop 2 nid ∙ ap (λ k. k - 2) n in
    elim (Bool-cases (get_cell nid == ix)) [
      | inl here ↦
          let at : get_cell nid ≡ ix = ground (arith, here) in
          rw here (
            subst
              (λ i.
                cell_at (store_cell (get_cell nid) (nih_low nid) in_addr sin_port memory) i
                ≡ record {
                  nih_l = nih_low nid;
                  peerinfo = record { in_addr = in_addr; sin_port = sin_port };
                })
              at (store_cell-same (get_cell nid) (nih_low nid) in_addr sin_port memory size a p))
      | inr there ↦
          rw there (
            store_cell-other (get_cell nid) (nih_low nid) in_addr sin_port memory ix there
            ∙ same ix)
    ]
