-- ===== src/Util/Utf8/Table.antt =====
-- cht/util.cpp: the sequences that `is_valid_utf8` lets through, against the table of the well-formed
-- byte sequences in the Unicode Standard (table 3-7).
use dht_cpp.Base.{
  ℕ, ◌<◌, Bool, true, ◌&&◌, ◌||◌, not, ◌==◌, ltb, leb, ◌≡◌, if◌then◌else◌, arith, false, Bool-cases,
  inl, inr,
}
use dht_cpp.Util.Utf8.{advance, refuse, two_bytes, three_bytes, four_bytes}
use dht_cpp.Util.Utf8.Ranges.{
  between, continuation, overlong_two, low_three, high_three, last_two, low_four,
}

-- U+0080 to U+07FF.
abbrev pub is_two : ℕ → ℕ → Bool
is_two a b = between 0xc2 0xdf a && between 0x80 0xbf b

-- U+0800 to U+FFFD without the surrogates.
abbrev pub is_three : ℕ → ℕ → ℕ → Bool
is_three a b c =
    between 0x80 0xbf c
    && (a == 0xe0 && between 0xa0 0xbf b
        || between 0xe1 0xec a && between 0x80 0xbf b
        || a == 0xed && between 0x80 0x9f b
        || a == 0xee && between 0x80 0xbf b
        || a == 0xef && between 0x80 0xbf b && not (b == 0xbf && leb 0xbe c))

-- U+10000 to U+10FFFF.
abbrev pub is_four : ℕ → ℕ → ℕ → ℕ → Bool
is_four a b c d =
    between 0x80 0xbf c
    && between 0x80 0xbf d
    && (a == 0xf0 && between 0x90 0xbf b
        || between 0xf1 0xf3 a && between 0x80 0xbf b
        || a == 0xf4 && between 0x80 0x8f b)

module _ (a b : ℕ) (ha : a < 256) (hb : b < 256) where
  pub two_bytes-is_two :
      between 0xc0 0xdf a ≡ true → two_bytes a b ≡ (if is_two a b then advance 2 else refuse)
  unfolding two_bytes
  two_bytes-is_two h = ground (arith, h, continuation b hb, overlong_two a ha)

  module _ (c : ℕ) (hc : c < 256) where
    pub three_bytes-is_three :
        between 0xe0 0xef a ≡ true
        → three_bytes a b c ≡ (if is_three a b c then advance 3 else refuse)
    unfolding three_bytes
    three_bytes-is_three h = ground (
      arith,
      h,
      continuation b hb,
      continuation c hc,
      low_three b hb,
      high_three b hb,
      last_two c hc,
    )

    pub four_bytes-is_four :
        (d : ℕ)
        → d < 256
        → between 0xf0 0xf7 a ≡ true
        → four_bytes a b c d ≡ (if is_four a b c d then advance 4 else refuse)
    unfolding four_bytes
    four_bytes-is_four d hd h =
        ground (arith, h, continuation b hb, continuation c hc, continuation d hd, low_four b hb)

not_two : (a b : ℕ) → between 0xc0 0xdf a ≡ false → is_two a b ≡ false
not_two a b h = ground arith

not_three : (a b c : ℕ) → between 0xe0 0xef a ≡ false → is_three a b c ≡ false
not_three a b c h = ground arith

not_four : (a b c d : ℕ) → between 0xf0 0xf7 a ≡ false → is_four a b c d ≡ false
not_four a b c d h = ground arith

-- The four kinds of sequences, by their first byte; the first three Booleans say how many bytes
-- are left.
module _ (g h i : Bool) (a b c d : ℕ) (ha : a < 256) (hb : b < 256) (hc : c < 256)
    (hd : d < 256) where
  pub kinds :
      (if ltb a 0x80
        then advance 1
        else if g && between 0xc0 0xdf a
        then two_bytes a b
        else if h && between 0xe0 0xef a
        then three_bytes a b c
        else if i && between 0xf0 0xf7 a
        then four_bytes a b c d
        else refuse)
      ≡ (if ltb a 0x80
          then advance 1
          else if g && is_two a b
          then advance 2
          else if h && is_three a b c
          then advance 3
          else if i && is_four a b c d
          then advance 4
          else refuse)
  kinds = elim (Bool-cases (between 0xc0 0xdf a)) [
    | inl two ↦
        rw
          (
            two_bytes-is_two a b ha hb two,
            not_three a b c (ground arith),
            not_four a b c d (ground arith),
          )
          (ground arith)
    | inr e ↦ elim (Bool-cases (between 0xe0 0xef a)) [
      | inl three ↦
          rw
            (
              three_bytes-is_three a b ha hb c hc three,
              not_two a b e,
              not_four a b c d (ground arith),
            )
            (ground arith)
      | inr f ↦ elim (Bool-cases (between 0xf0 0xf7 a)) [
        | inl four ↦
            rw (four_bytes-is_four a b ha hb c hc d hd four, not_two a b e, not_three a b c f)
              (ground arith)
        | inr o ↦ rw (e, f, o, not_two a b e, not_three a b c f, not_four a b c d o) (ground arith)
      ]
    ]
  ]
