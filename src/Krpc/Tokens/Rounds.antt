-- ===== src/Krpc/Tokens/Rounds.antt =====
-- cht/krpc.cpp: a round of `xdecode` in front of a token does what the token says.
use dht_cpp.Krpc.Tokens.Strings.{take_string-payload}
use dht_cpp.Base.{
  ℕ, ◌+◌, ◌%◌, ◌^◌, ◌≤◌, ◌<◌, true, false, ◌||◌, [], ◌∷◌, ◌++◌, Bytes, get_or, drop, length,
  length-append, ltb, ◌==◌, ◌≡◌, refl, ap, ◌∙◌, arith,
}
use mathlib.Core.List.{append_assoc}
use dht_cpp.Krpc.Atoi.{Atoi, is_digit, krpc_bdecode_atoi}
use dht_cpp.Krpc.Decode.Chars.{read_int, read_int_value, int_case}
use dht_cpp.Krpc.Decode.{read_payload, read_sized, read_length, read_string, step}
use dht_cpp.Krpc.State.{
  Krpc, XdState, xd_start, xd_okey, xd_ikey, xd_oval, xd_ival, xd_ivlist, Decoder, Step,
}
use dht_cpp.Krpc.Tokens.{
  Token, open_dict, open_list, close, num, str, print_token, prefix, AreShort, take_string,
  take_num, take_token, behind, number_at,
}
use dht_cpp.Krpc.Tokens.Numbers.{atoi-decimal, drop_head, drop_more, decimal-head}
use dht_cpp.Msg.{decimal}
use dht_cpp.Stat.{index, bd_a_no_error}

-- The decoder stands in front of the bytes of a token, which lie in the message.
module _ (d : Decoder) (n : ℕ) (rest : Bytes) (small : n < 2 ^ 32) where
  -- The number in front of `stop`.
  number_read :
      (pos v stop : ℕ) (more : Bytes)
      → (stop == b'e' || stop == b':') ≡ true
      → v < 1000000
      → drop pos d.krpc.bytes ≡ (decimal 6 v ++ stop ∷ []) ++ more
      → pos + length (decimal 6 v ++ stop ∷ []) ≤ n
      → krpc_bdecode_atoi d.krpc.bytes pos n ≡ record {
        result = bd_a_no_error;
        dest = v;
        cur_pos = pos + length (decimal 6 v ++ stop ∷ []);
      }
  number_read pos v stop more s h got fits =
      let size = length-append (decimal 6 v) (stop ∷ []) in
      let end : pos + length (decimal 6 v) + 1 ≡ pos + length (decimal 6 v ++ stop ∷ []) =
        omega (arith, size) in
      atoi-decimal v d.krpc.bytes more pos n stop s h
        (got ∙ append_assoc (decimal 6 v) (stop ∷ []) more) (omega (arith, size))
      ∙ λ i. record { result = bd_a_no_error; dest = v; cur_pos = end i }

  after_length : Atoi → Step
  after_length r =
      let k : Krpc = record d.krpc { status = r.result } in
      read_sized (record d { krpc = k; cur_pos = r.cur_pos }) r.dest n

  length_read :
      (s : Bytes)
      → length s < 1000000
      → drop d.cur_pos d.krpc.bytes ≡ print_token (str s) ++ rest
      → d.cur_pos + length (print_token (str s)) ≤ n
      → read_length d n
        ≡ read_payload d.xd_state (behind s d) (d.cur_pos + length (prefix (length s))) (length s)
  unfolding read_length read_sized index
  length_read s h got fits =
      let size = length-append (prefix (length s)) s in
      let r =
        number_read d.cur_pos (length s) b':' (s ++ rest) refl h
          (got ∙ append_assoc (prefix (length s)) s rest) (omega (arith, size)) in
      let inside : ltb n ((d.cur_pos + length (prefix (length s)) + length s) % 2 ^ 32) ≡ false =
        ground (arith, size) in
      rw (r, inside) refl

  payload_read :
      (s : Bytes) (st : XdState)
      → (st ≡ xd_start → ⊥)
      → d.xd_state ≡ st
      → length s < 1000000
      → drop d.cur_pos d.krpc.bytes ≡ print_token (str s) ++ rest
      → d.cur_pos + length (print_token (str s)) ≤ n
      → read_length d n ≡ take_string st s (behind s d) (d.cur_pos + length (prefix (length s)))
  payload_read s st other e h got fits =
      let start = d.cur_pos + length (prefix (length s)) in
      length_read s h got fits
      ∙ ap (λ x. read_payload x (behind s d) start (length s)) e
      ∙ take_string-payload st s rest (behind s d) start
          (drop_more d.cur_pos d.krpc.bytes (prefix (length s))
            (got ∙ append_assoc (prefix (length s)) s rest))
          other

  string_read :
      (s : Bytes) (st : XdState)
      → d.xd_state ≡ st
      → length s < 1000000
      → drop d.cur_pos d.krpc.bytes ≡ print_token (str s) ++ rest
      → d.cur_pos + length (print_token (str s)) ≤ n
      → read_string st d n ≡ take_string st s (behind s d) (d.cur_pos + length (prefix (length s)))
  unfolding read_string take_string
  string_read s xd_start e h got fits = refl
  string_read s xd_okey e h got fits = payload_read s xd_okey (λ x. cc) e h got fits
  string_read s xd_ikey e h got fits = payload_read s xd_ikey (λ x. cc) e h got fits
  string_read s xd_oval e h got fits = payload_read s xd_oval (λ x. cc) e h got fits
  string_read s xd_ival e h got fits = payload_read s xd_ival (λ x. cc) e h got fits
  string_read s xd_ivlist e h got fits = payload_read s xd_ivlist (λ x. cc) e h got fits

  int_read :
      (v : ℕ) (st : XdState)
      → v < 1000000
      → drop d.cur_pos d.krpc.bytes ≡ print_token (num v) ++ rest
      → d.cur_pos + length (print_token (num v)) ≤ n
      → read_int st d n ≡ take_num st v d
  unfolding read_int read_int_value take_num
  int_read v st h got fits =
      let next = (drop_head d.cur_pos d.krpc.bytes got).1 in
      let r = number_read (d.cur_pos + 1) v b'e' rest refl h next (omega arith) in
      let end : d.cur_pos + 1 + length (decimal 6 v ++ b'e' ∷ []) ≡ (number_at v d).cur_pos =
        omega arith in
      let same : krpc_bdecode_atoi d.krpc.bytes (d.cur_pos + 1) n ≡ number_at v d =
        r ∙ λ i. record { result = bd_a_no_error; dest = v; cur_pos = end i } in
      ints st same
    where
      ints :
          (st : XdState)
          → krpc_bdecode_atoi d.krpc.bytes (d.cur_pos + 1) n ≡ number_at v d
          → read_int st d n ≡ take_num st v d
      ints xd_oval e = ap (int_case false d) e
      ints xd_ival e = ap (int_case true d) e
      ints xd_start e = refl
      ints xd_ivlist e = refl
      ints xd_ikey e = refl
      ints xd_okey e = refl

  -- A round of the loop takes the token off.
  pub step-take_token :
      (t : Token)
      → AreShort (t ∷ [])
      → drop d.cur_pos d.krpc.bytes ≡ print_token t ++ rest
      → d.cur_pos + length (print_token t) ≤ n
      → step d n ≡ take_token t d
  unfolding step take_token
  step-take_token open_dict h got fits = rw ((drop_head d.cur_pos d.krpc.bytes got).0) refl
  step-take_token open_list h got fits = rw ((drop_head d.cur_pos d.krpc.bytes got).0) refl
  step-take_token close h got fits = rw ((drop_head d.cur_pos d.krpc.bytes got).0) refl
  step-take_token (num v) h got fits =
      rw ((drop_head d.cur_pos d.krpc.bytes got).0) (int_read v d.xd_state h.0 got fits)
  step-take_token (str s) h got fits =
      let (x, xs, e, low, high) = decimal-head 5 (length s) in
      let first : get_or d.krpc.bytes d.cur_pos 0 ≡ x =
        (drop_head d.cur_pos d.krpc.bytes (got ∙ ap (λ b. ((b ++ b':' ∷ []) ++ s) ++ rest) e)).0 in
      let not_d : x == b'd' ≡ false = ground arith in
      let not_e : x == b'e' ≡ false = ground arith in
      let not_i : x == b'i' ≡ false = ground arith in
      let not_l : x == b'l' ≡ false = ground arith in
      let digit : is_digit x ≡ true = ground arith in
      rw (first, not_d, not_e, not_i, not_l, digit) (string_read s d.xd_state refl h.0 got fits)
