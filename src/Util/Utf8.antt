-- ===== src/Util/Utf8.antt =====
-- cht/util.cpp: `is_valid_utf8`. The bytes are those of the memory from the text on, of which the
-- text is the first `maxlen`.
pub mod Fuel
pub mod Ranges
pub mod Table
pub mod Accepts
use dht_cpp.Base.{
  ℕ, zero, suc, ◌+◌, ◌-◌, ◌%◌, ◌^◌, Bool, true, false, ◌&&◌, ◌||◌, bit_and, Bytes, get_or, ltb,
  ◌==◌, ◌!=◌, if◌then◌else◌,
}

-- `maxlen - k`, on a `u64`.
abbrev pub before_end : ℕ → ℕ → ℕ
before_end maxlen k = (maxlen + 2 ^ 64 - k) % 2 ^ 64

-- What one round of the loop decides: to go on behind a sequence of this length, or to refuse.
pub data Verdict : Type 0 where
  advance : ℕ → Verdict
  refuse : Verdict

-- A byte 10xxxxxx.
abbrev pub is_continuation : ℕ → Bool
is_continuation c = bit_and c 0xc0 == 0x80

unfoldable pub two_bytes : ℕ → ℕ → Verdict
two_bytes a b = if bit_and b 0xc0 != 0x80 || bit_and a 0xfe == 0xc0 then refuse else advance 2

unfoldable pub three_bytes : ℕ → ℕ → ℕ → Verdict
three_bytes a b c =
    if bit_and b 0xc0 != 0x80
      || bit_and c 0xc0 != 0x80
      || a == 0xe0 && bit_and b 0xe0 == 0x80
      || a == 0xed && bit_and b 0xe0 == 0xa0
      || a == 0xef && b == 0xbf && bit_and c 0xfe == 0xbe
    then refuse
    else advance 3

unfoldable pub four_bytes : ℕ → ℕ → ℕ → ℕ → Verdict
four_bytes a b c d =
    if bit_and b 0xc0 != 0x80
      || bit_and c 0xc0 != 0x80
      || bit_and d 0xc0 != 0x80
      || a == 0xf0 && bit_and b 0xf0 == 0x80
      || a == 0xf4 && ltb 0x8f b
      || ltb 0xf4 a
    then refuse
    else advance 4

-- One round at `ix`.
unfoldable pub sequence_at : Bytes → ℕ → ℕ → Verdict
unfolding two_bytes three_bytes four_bytes
sequence_at s maxlen ix =
    let a = get_or s ix 0 in
    let b = get_or s (ix + 1) 0 in
    let c = get_or s (ix + 2) 0 in
    let d = get_or s (ix + 3) 0 in
    if ltb a 0x80
    then advance 1
    else if ltb ix (before_end maxlen 1) && bit_and a 0xe0 == 0xc0
    then two_bytes a b
    else if ltb ix (before_end maxlen 2) && bit_and a 0xf0 == 0xe0
    then three_bytes a b c
    else if ltb ix (before_end maxlen 3) && bit_and a 0xf8 == 0xf0
    then four_bytes a b c d
    else refuse

-- The loop, on fuel; every round advances.
unfoldable pub utf8_loop : ℕ → Bytes → ℕ → ℕ → Bool
unfolding sequence_at
utf8_loop zero s maxlen ix = false
utf8_loop (suc fuel) s maxlen ix =
    if ltb ix maxlen
    then elim (sequence_at s maxlen ix) [
      | advance n ↦ utf8_loop fuel s maxlen (ix + n)
      | refuse ↦ false
    ]
    else true

unfoldable pub is_valid_utf8 : Bytes → ℕ → Bool
unfolding utf8_loop
is_valid_utf8 s maxlen = utf8_loop (suc maxlen) s maxlen 0
