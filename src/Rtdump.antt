-- ===== src/Rtdump.antt =====
-- rtdump/main.c: what it prints of a file of nodes.
pub mod Records
use mathlib.Core.List.{append_assoc}
use dht_cpp.Base.{
  ℕ, zero, suc, ◌+◌, ◌*◌, ◌/◌, ◌≤◌, ◌<◌, Bool, true, List, [], ◌∷◌, ◌++◌, Bytes, get_or, take, drop,
  slice, replicate, bytes_eq, AreBytes, each_byte, all_below, all_below_sound, ◌==◌, ==_iff, sym,
  Bool-cases, inl, inr, length, length-append, ltb, if◌then◌else◌, bit_and, ◌≡◌, refl, ap, arith,
}

-- A line of the output: the id as five words, the bytes of the address, the port, and the quality.
pub record Line : Type 0 where
  pub words : List ℕ
  pub ip : List ℕ
  pub port : ℕ
  pub qual : ℕ

-- `be32toh` of the four bytes at `ix`.
unfoldable pub word_at : Bytes → ℕ → ℕ
word_at buf ix =
    0x1000000 * get_or buf ix 0
    + 0x10000 * get_or buf (ix + 1) 0
    + 0x100 * get_or buf (ix + 2) 0
    + get_or buf (ix + 3) 0

-- `memcmp(buf, g_zero, 20)`
unfoldable pub is_null : ℕ → Bytes → Bool
is_null zero buf = true
is_null (suc n) [] = true
is_null (suc n) (zero ∷ buf) = is_null n buf
is_null (suc n) (suc b ∷ buf) = Bool.false

-- `format_rt`, which prints no line for a node with the id 0.
unfoldable pub format_rt : Bytes → List Line
unfolding word_at is_null
format_rt buf =
    if is_null 20 buf
    then []
    else record {
      words = word_at buf 0 ∷ word_at buf 4 ∷ word_at buf 8 ∷ word_at buf 12 ∷ word_at buf 16 ∷ [];
      ip = get_or buf 20 0 ∷ get_or buf 21 0 ∷ get_or buf 22 0 ∷ get_or buf 23 0 ∷ [];
      port = 0x100 * get_or buf 24 0 + get_or buf 25 0;
      qual = bit_and (get_or buf 25 0) 0xe0 / 32;
    }
      ∷ []

-- The loop of `main`, over what is left of the file; it is left when `fread` has fewer than 32 bytes.
unfoldable pub dump : ℕ → Bytes → List Line
unfolding format_rt
dump zero file = []
dump (suc n) file =
    let rest = dump n (drop 32 file) in
    if ltb (length file) 32 then [] else format_rt (take 32 file) ++ rest

-- `main`, on a file that opens.
abbrev pub main : Bytes → List Line
main file = dump (256 * 256 * 256) file
