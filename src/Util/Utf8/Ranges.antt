-- ===== src/Util/Utf8/Ranges.antt =====
-- cht/util.cpp: the masks of `is_valid_utf8` as ranges of bytes.
use dht_cpp.Base.{
  ℕ, ◌<◌, Bool, true, ◌&&◌, bit_and, leb, ◌==◌, ◌≡◌, refl, all_below, all_below_sound, same,
  same_sound,
}

abbrev pub between : ℕ → ℕ → ℕ → Bool
between lo hi a = leb lo a && leb a hi

mask_range :
    (mask v lo hi : ℕ)
    → all_below 256 (λ a. same (bit_and a mask == v) (between lo hi a)) ≡ true
    → (a : ℕ) → a < 256
    → (bit_and a mask == v) ≡ between lo hi a
mask_range mask v lo hi h a l =
    same_sound (bit_and a mask == v) (between lo hi a)
      (all_below_sound 256 (λ a. same (bit_and a mask == v) (between lo hi a)) a h l)

pub continuation : (a : ℕ) → a < 256 → (bit_and a 0xc0 == 0x80) ≡ between 0x80 0xbf a
unfolding all_below
continuation = mask_range 0xc0 0x80 0x80 0xbf refl

pub lead_two : (a : ℕ) → a < 256 → (bit_and a 0xe0 == 0xc0) ≡ between 0xc0 0xdf a
unfolding all_below
lead_two = mask_range 0xe0 0xc0 0xc0 0xdf refl

pub overlong_two : (a : ℕ) → a < 256 → (bit_and a 0xfe == 0xc0) ≡ between 0xc0 0xc1 a
unfolding all_below
overlong_two = mask_range 0xfe 0xc0 0xc0 0xc1 refl

pub lead_three : (a : ℕ) → a < 256 → (bit_and a 0xf0 == 0xe0) ≡ between 0xe0 0xef a
unfolding all_below
lead_three = mask_range 0xf0 0xe0 0xe0 0xef refl

pub low_three : (a : ℕ) → a < 256 → (bit_and a 0xe0 == 0x80) ≡ between 0x80 0x9f a
unfolding all_below
low_three = mask_range 0xe0 0x80 0x80 0x9f refl

pub high_three : (a : ℕ) → a < 256 → (bit_and a 0xe0 == 0xa0) ≡ between 0xa0 0xbf a
unfolding all_below
high_three = mask_range 0xe0 0xa0 0xa0 0xbf refl

pub last_two : (a : ℕ) → a < 256 → (bit_and a 0xfe == 0xbe) ≡ between 0xbe 0xbf a
unfolding all_below
last_two = mask_range 0xfe 0xbe 0xbe 0xbf refl

pub lead_four : (a : ℕ) → a < 256 → (bit_and a 0xf8 == 0xf0) ≡ between 0xf0 0xf7 a
unfolding all_below
lead_four = mask_range 0xf8 0xf0 0xf0 0xf7 refl

pub low_four : (a : ℕ) → a < 256 → (bit_and a 0xf0 == 0x80) ≡ between 0x80 0x8f a
unfolding all_below
low_four = mask_range 0xf0 0x80 0x80 0x8f refl
