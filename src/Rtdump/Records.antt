-- ===== src/Rtdump/Records.antt =====
-- rtdump/main.c: the lines that it prints, by record.
use mathlib.Core.List.{append_assoc}
use dht_cpp.Base.{
  ℕ, zero, suc, ◌+◌, ◌*◌, ◌/◌, ◌≤◌, ◌<◌, Bool, List, [], ◌∷◌, ◌++◌, Bytes, get_or, take, drop,
  slice, replicate, bytes_eq, AreBytes, all_below, all_below_sound, ◌==◌, ==_iff, sym, Bool-cases,
  inl, inr, length, length-append, ltb, if◌then◌else◌, bit_and, ◌≡◌, refl, ap, arith,
}
use dht_cpp.Rtdump.{Line, word_at, is_null, format_rt, dump, main}

-- Records of 32 bytes, one behind the other.
abbrev pub file_of : List Bytes → Bytes
file_of [] = []
file_of (r ∷ rs) = r ++ file_of rs

abbrev pub AreRecords : List Bytes → Type 0
AreRecords [] = Unit
AreRecords (r ∷ rs) = (length r ≡ 32) × AreBytes r × AreRecords rs

-- A number from its bytes, the first of which counts most.
abbrev pub number : ℕ → Bytes → ℕ
number high [] = high
number high (b ∷ bs) = number (256 * high + b) bs

-- The line of a record: five words of its first 20 bytes, the four bytes behind them, the port, and
-- the upper three bits of the second byte of the port.
abbrev pub line_of : Bytes → Line
line_of r = record {
  words =
      number 0 (slice r 0 4)
      ∷ number 0 (slice r 4 4)
      ∷ number 0 (slice r 8 4)
      ∷ number 0 (slice r 12 4)
      ∷ number 0 (slice r 16 4)
      ∷ [];
  ip = slice r 20 4;
  port = number 0 (slice r 24 2);
  qual = number 0 (slice r 25 1) / 32;
}

abbrev pub lines_of : List Bytes → List Line
lines_of [] = []
lines_of (r ∷ rs) =
    if bytes_eq (take 20 r) (replicate 20 0) then lines_of rs else line_of r ∷ lines_of rs

is_null-bytes_eq :
    (n : ℕ) (buf : Bytes) → n ≤ length buf → is_null n buf ≡ bytes_eq (take n buf) (replicate n 0)
unfolding is_null
is_null-bytes_eq zero buf h = refl
is_null-bytes_eq (suc n) [] h = absurd (omega arith)
is_null-bytes_eq (suc n) (zero ∷ buf) h = is_null-bytes_eq n buf (omega arith)
is_null-bytes_eq (suc n) (suc b ∷ buf) h = ground arith

-- The upper three bits of a byte.
upper_bits : (b : ℕ) → b < 256 → bit_and b 0xe0 / 32 ≡ b / 32
unfolding all_below
upper_bits b h =
    (==_iff (bit_and b 0xe0 / 32) (b / 32)).0
      (all_below_sound 256 (λ b. bit_and b 0xe0 / 32 == b / 32) b refl h)

take-append : (n : ℕ) (xs ys : Bytes) → length xs ≡ n → take n (xs ++ ys) ≡ xs
take-append zero [] ys h = refl
take-append zero (x ∷ xs) ys h = absurd (omega arith)
take-append (suc n) [] ys h = absurd (omega arith)
take-append (suc n) (x ∷ xs) ys h = ap (λ zs. x ∷ zs) (take-append n xs ys (omega arith))

drop-append : (n : ℕ) (xs ys : Bytes) → length xs ≡ n → drop n (xs ++ ys) ≡ ys
drop-append zero [] ys h = refl
drop-append zero (x ∷ xs) ys h = absurd (omega arith)
drop-append (suc n) [] ys h = absurd (omega arith)
drop-append (suc n) (x ∷ xs) ys h = drop-append n xs ys (omega arith)

-- The bytes of a slice, one by one.
slice_cons :
    (r : Bytes) (ix n : ℕ) → ix < length r → slice r ix (suc n) ≡ get_or r ix 0 ∷ slice r (ix + 1) n
slice_cons [] ix n h = absurd (omega arith)
slice_cons (b ∷ r) zero n h = refl
slice_cons (b ∷ r) (suc ix) n h =
    let next : suc ix + 1 ≡ suc (ix + 1) = omega arith in rw next (slice_cons r ix n (omega arith))

get_or-byte : (r : Bytes) (ix : ℕ) → AreBytes r → get_or r ix 0 < 256
get_or-byte [] ix h = omega arith
get_or-byte (b ∷ r) zero (h, hs) = h
get_or-byte (b ∷ r) (suc ix) (h, hs) = get_or-byte r ix hs

slice_four :
    (r : Bytes) (ix : ℕ)
    → ix + 3 < length r
    → slice r ix 4
      ≡ get_or r ix 0 ∷ get_or r (ix + 1) 0 ∷ get_or r (ix + 2) 0 ∷ get_or r (ix + 3) 0 ∷ []
slice_four r ix h =
    let next : ix + 1 + 1 ≡ ix + 2 = omega arith in
    let last : ix + 2 + 1 ≡ ix + 3 = omega arith in
    rw
      (
        slice_cons r ix 3 (omega arith),
        slice_cons r (ix + 1) 2 (omega arith),
        next,
        slice_cons r (ix + 2) 1 (omega arith),
        last,
        slice_cons r (ix + 3) 0 (omega arith),
      )
      refl

word_at-number : (r : Bytes) (ix : ℕ) → ix + 3 < length r → word_at r ix ≡ number 0 (slice r ix 4)
unfolding word_at
word_at-number r ix h = rw (slice_four r ix h) (omega arith)

-- `format_rt` prints the line of a record, or none for the id 0, in front of the other lines.
format_rt-append :
    (r : Bytes) (rest : List Line)
    → length r ≡ 32
    → AreBytes r
    → format_rt r ++ rest
      ≡ (if bytes_eq (take 20 r) (replicate 20 0) then rest else line_of r ∷ rest)
unfolding format_rt
format_rt-append r rest h bytes =
    let port : 0x100 * get_or r 24 0 + get_or r 25 0 ≡ number 0 (slice r 24 2) =
      rw (slice_cons r 24 1 (omega arith), slice_cons r 25 0 (omega arith)) (omega arith) in
    let qual : bit_and (get_or r 25 0) 0xe0 / 32 ≡ number 0 (slice r 25 1) / 32 =
      rw (slice_cons r 25 0 (omega arith), upper_bits (get_or r 25 0) (get_or-byte r 25 bytes))
        (omega arith) in
    let ip = sym (slice_four r 20 (omega arith)) in
    let w₀ = word_at-number r 0 (omega arith) in
    let w₁ = word_at-number r 4 (omega arith) in
    let w₂ = word_at-number r 8 (omega arith) in
    let w₃ = word_at-number r 12 (omega arith) in
    let w₄ = word_at-number r 16 (omega arith) in
    let null = is_null-bytes_eq 20 r (omega arith) in
    elim (Bool-cases (bytes_eq (take 20 r) (replicate 20 0))) [
      | inl zeroes ↦ rw (null, zeroes) refl
      | inr some_id ↦
          rw (null, some_id)
            (λ i.
              record {
                words = w₀ i ∷ w₁ i ∷ w₂ i ∷ w₃ i ∷ w₄ i ∷ [];
                ip = ip i;
                port = port i;
                qual = qual i;
              }
              ∷ rest)
    ]

dump-file_of :
    (n : ℕ) (records : List Bytes) (rest : Bytes)
    → AreRecords records
    → length records ≤ n
    → length rest < 32
    → dump n (file_of records ++ rest) ≡ lines_of records
unfolding dump
dump-file_of zero [] rest a l h = refl
dump-file_of zero (r ∷ rs) rest a l h = absurd (omega arith)
dump-file_of (suc n) [] rest a l h = ground arith
dump-file_of (suc n) (r ∷ rs) rest (e, bytes, es) l h =
    let long = length-append r (file_of rs ++ rest) in
    let whole : ltb (length (r ++ (file_of rs ++ rest))) 32 ≡ Bool.false = ground (arith, long) in
    rw
      (
        append_assoc r (file_of rs) rest,
        whole,
        take-append 32 r (file_of rs ++ rest) e,
        drop-append 32 r (file_of rs ++ rest) e,
        dump-file_of n rs rest es (omega arith) h,
      )
      (format_rt-append r (lines_of rs) e bytes)

-- Of a file of up to 256 * 256 * 256 records of 32 bytes, and fewer than 32 bytes behind them, `main`
-- prints the records in their order, without those whose first 20 bytes are all 0: of each its first
-- 20 bytes as five big-endian words, the next four bytes, the two behind them as a big-endian port,
-- and the upper three bits of the second of these.
pub main-file_of :
    (records : List Bytes) (rest : Bytes)
    → AreRecords records
    → length records ≤ 256 * 256 * 256
    → length rest < 32
    → main (file_of records ++ rest) ≡ lines_of records
main-file_of records rest a l h = dump-file_of (256 * 256 * 256) records rest a l h
