-- ===== src/Util/Utf8/Accepts.antt =====
-- cht/util.cpp: the texts that `is_valid_utf8` accepts.
use dht_cpp.Base.{
  ℕ, zero, suc, ◌+◌, ◌-◌, ◌<◌, ◌≤◌, ◌^◌, Bool, true, false, ◌&&◌, Bytes, get_or, ltb, leb, ◌≡◌, ◌↔◌,
  refl, sym, subst, if◌then◌else◌, Bool-cases, inl, inr, if_elim, and_parts, leb→le, lt→ltb, arith,
}
use dht_cpp.Util.Utf8.{Verdict, advance, refuse, before_end, sequence_at, utf8_loop, is_valid_utf8}
use dht_cpp.Util.Utf8.Ranges.{lead_two, lead_three, lead_four}
use dht_cpp.Util.Utf8.Table.{is_two, is_three, is_four, kinds}

ends_before : (n k ix : ℕ) → k ≤ n → n < 2 ^ 64 → ltb ix (before_end n k) ≡ leb (ix + (k + 1)) n
ends_before n k ix h l = ground arith

-- A sequence of the table at `ix`, with its number of bytes.
pub data Sequence (s : Bytes) (ix : ℕ) : ℕ → Type 0 where
  one : ltb (get_or s ix 0) 0x80 ≡ true → Sequence s ix 1
  two : is_two (get_or s ix 0) (get_or s (ix + 1) 0) ≡ true → Sequence s ix 2
  three :
      is_three (get_or s ix 0) (get_or s (ix + 1) 0) (get_or s (ix + 2) 0) ≡ true → Sequence s ix 3
  four :
      is_four (get_or s ix 0) (get_or s (ix + 1) 0) (get_or s (ix + 2) 0) (get_or s (ix + 3) 0)
        ≡ true
      → Sequence s ix 4

-- The bytes from `ix` up to `n` are sequences of the table, one behind the other.
pub data IsUtf8 (s : Bytes) (n : ℕ) : ℕ → Type 0 where
  end : {ix : ℕ} → ix ≡ n → IsUtf8 s n ix
  next : {ix k : ℕ} → Sequence s ix k → ix + k ≤ n → IsUtf8 s n (ix + k) → IsUtf8 s n ix

data Fits (s : Bytes) (n ix : ℕ) : Verdict → Type 0 where
  fits : {k : ℕ} → Sequence s ix k → ix + k ≤ n → Fits s n ix (advance k)
  misfit : Fits s n ix refuse

module _ (s : Bytes) (n : ℕ) where
  -- The first of the four kinds of sequences that stands at `ix` and ends in front of `n`.
  abbrev table_at : ℕ → Verdict
  table_at ix =
      let a = get_or s ix 0 in
      let b = get_or s (ix + 1) 0 in
      let c = get_or s (ix + 2) 0 in
      let d = get_or s (ix + 3) 0 in
      if ltb a 0x80
      then advance 1
      else if leb (ix + 2) n && is_two a b
      then advance 2
      else if leb (ix + 3) n && is_three a b c
      then advance 3
      else if leb (ix + 4) n && is_four a b c d
      then advance 4
      else refuse

  module _ (bytes : (i : ℕ) → get_or s i 0 < 256) (long : 2 < n) (short : n < 2 ^ 64) where
    sequence_at-table_at : (ix : ℕ) → ix < n → sequence_at s n ix ≡ table_at ix
    unfolding sequence_at
    sequence_at-table_at ix l =
        let a = get_or s ix 0 in
        let b = get_or s (ix + 1) 0 in
        let c = get_or s (ix + 2) 0 in
        let d = get_or s (ix + 3) 0 in
        rw
          (
            ends_before n 1 ix (omega arith) short,
            ends_before n 2 ix (omega arith) short,
            ends_before n 3 ix (omega arith) short,
            lead_two a (bytes ix),
            lead_three a (bytes ix),
            lead_four a (bytes ix),
          )
          (kinds (leb (ix + 2) n) (leb (ix + 3) n) (leb (ix + 4) n) a b c d (bytes ix)
            (bytes (ix + 1)) (bytes (ix + 2)) (bytes (ix + 3)))

    if_Fits :
        {ix : ℕ} {v : Verdict} (k : ℕ) (e : Bool)
        → (e ≡ true → Sequence s ix k)
        → Fits s n ix v
        → Fits s n ix (if leb (ix + k) n && e then advance k else v)
    if_Fits {ix} k e f g =
        if_elim (Fits s n ix) (leb (ix + k) n && e)
          (λ h.
            let (room, found) = and_parts (leb (ix + k) n) e h in
            fits (f found) (leb→le (ix + k) n room))
          (λ _. g)

    table_at-Fits : (ix : ℕ) → ix < n → Fits s n ix (table_at ix)
    table_at-Fits ix l =
        let a = get_or s ix 0 in
        let b = get_or s (ix + 1) 0 in
        let c = get_or s (ix + 2) 0 in
        let d = get_or s (ix + 3) 0 in
        if_elim (Fits s n ix) (ltb a 0x80) (λ e. fits (one e) (omega arith))
          (λ _.
            if_Fits 2 (is_two a b) two
              (if_Fits 3 (is_three a b c) three (if_Fits 4 (is_four a b c d) four misfit)))

    Sequence-table_at : {ix k : ℕ} → Sequence s ix k → ix + k ≤ n → table_at ix ≡ advance k
    Sequence-table_at (one e) h = rw e refl
    Sequence-table_at (two e) h = ground (arith, e)
    Sequence-table_at (three e) h = ground (arith, e)
    Sequence-table_at (four e) h = ground (arith, e)

    utf8_loop-IsUtf8 : (fuel ix : ℕ) → ix ≤ n → utf8_loop fuel s n ix ≡ true → IsUtf8 s n ix
    unfolding utf8_loop
    utf8_loop-IsUtf8 zero ix l e = absurd (ground (arith, e))
    utf8_loop-IsUtf8 (suc fuel) ix l e = elim (Bool-cases (ltb ix n)) [
      | inr stop ↦ end (ground (arith, stop))
      | inl more ↦
          go (sequence_at s n ix)
            (subst (Fits s n ix) (sym (sequence_at-table_at ix (ground arith)))
              (table_at-Fits ix (ground arith)))
            (utf8_loop-IsUtf8 fuel) (rw more at e)
    ]
      where
        go :
            (v : Verdict)
            → Fits s n ix v
            → ((ix' : ℕ) → ix' ≤ n → utf8_loop fuel s n ix' ≡ true → IsUtf8 s n ix')
            → elim v [ advance k ↦ utf8_loop fuel s n (ix + k) | refuse ↦ false ] ≡ true
            → IsUtf8 s n ix
        go (advance k) (fits c h) rest e' = next c h (rest (ix + k) h e')
        go refuse misfit rest e' = absurd (ground (arith, e'))

    positive : {ix k : ℕ} → Sequence s ix k → 0 < k
    positive (one e) = omega arith
    positive (two e) = omega arith
    positive (three e) = omega arith
    positive (four e) = omega arith

    IsUtf8-utf8_loop : (fuel ix : ℕ) → n - ix < fuel → IsUtf8 s n ix → utf8_loop fuel s n ix ≡ true
    unfolding utf8_loop
    IsUtf8-utf8_loop zero ix h u = absurd (omega arith)
    IsUtf8-utf8_loop (suc fuel) ix h (end e) = ground arith
    IsUtf8-utf8_loop (suc fuel) ix h (next {k} c l u) =
        let p = positive c in
        rw (lt→ltb ix n (omega arith), sequence_at-table_at ix (omega arith), Sequence-table_at c l)
          (IsUtf8-utf8_loop fuel (ix + k) (omega arith) u)

-- For a text of 3 bytes to 2^64 - 1, is_valid_utf8 answers true exactly if the bytes of the text are
-- sequences of the table of the Unicode Standard, one behind the other, without U+FFFE and U+FFFF,
-- the last one ending where the text ends.
pub is_valid_utf8-IsUtf8 :
    (s : Bytes) (maxlen : ℕ)
    → ((i : ℕ) → get_or s i 0 < 256)
    → 2 < maxlen
    → maxlen < 2 ^ 64
    → (is_valid_utf8 s maxlen ≡ true) ↔ IsUtf8 s maxlen 0
unfolding is_valid_utf8
is_valid_utf8-IsUtf8 s maxlen bytes long short = (
  utf8_loop-IsUtf8 s maxlen bytes long short (suc maxlen) 0 (omega arith),
  IsUtf8-utf8_loop s maxlen bytes long short (suc maxlen) 0 (omega arith),
)
