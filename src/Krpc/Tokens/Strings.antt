-- ===== src/Krpc/Tokens/Strings.antt =====
-- cht/krpc.cpp: a string that has been read, by its bytes instead of its offset.

use dht_cpp.Base.{
  ℕ, [], ◌∷◌, ◌++◌, Bytes, codes, get_or, take, drop, slice, bytes_eq, length, ◌==◌, if◌then◌else◌,
  Bool-cases, inl, inr, ◌≡◌, refl, ap, ◌∙◌, arith,
}
use dht_cpp.Krpc.Decode.Common.{xd_match}
use dht_cpp.Krpc.Decode.Keys.{read_okey, okey_case, ikey_case}
use dht_cpp.Krpc.Decode.Values.{read_query, read_type, read_oval}
use dht_cpp.Krpc.Decode.{read_payload}
use dht_cpp.Krpc.Flags.{okey_q, okey_y}
use dht_cpp.Krpc.State.{XdState, xd_start, xd_okey, xd_ikey, xd_oval, xd_ival, xd_ivlist, Decoder}
use dht_cpp.Krpc.Tokens.{is_named, take_string}
use dht_cpp.Krpc.Tokens.Numbers.{drop_head}

pub take-append : (s rest : Bytes) → take (length s) (s ++ rest) ≡ s
take-append [] rest = refl
take-append (x ∷ xs) rest = ap (◌∷◌ x) (take-append xs rest)

-- A string that has been read stands at `start`.
module _ (s rest : Bytes) (d : Decoder) (start : ℕ)
    (got : drop start d.krpc.bytes ≡ s ++ rest) where
  xd_match-is_named : xd_match d start (length s) ≡ is_named s
  xd_match-is_named =
      let same : slice d.krpc.bytes start (length s) ≡ s =
        ap (take (length s)) got ∙ take-append s rest in
      λ i name. bytes_eq (same i) (codes name)

okey_string :
    (s rest : Bytes) (d : Decoder) (start : ℕ)
    → drop start d.krpc.bytes ≡ s ++ rest
    → read_okey d start (length s) ≡ okey_case d (length s) (get_or s 0 0)
unfolding read_okey
okey_string [] rest d start got = refl
okey_string (x ∷ xs) rest d start got = rw ((drop_head start d.krpc.bytes got).0) refl

type_string :
    (s rest : Bytes) (d : Decoder) (start : ℕ)
    → drop start d.krpc.bytes ≡ s ++ rest
    → read_type d (length s) (get_or d.krpc.bytes start 0) ≡ read_type d (length s) (get_or s 0 0)
unfolding read_type
type_string [] rest d start got = refl
type_string (x ∷ xs) rest d start got = rw ((drop_head start d.krpc.bytes got).0) refl

module _ (s rest : Bytes) (d : Decoder) (start : ℕ)
    (got : drop start d.krpc.bytes ≡ s ++ rest) where
  oval_string : read_oval d start (length s) ≡ (
      if d.hist.current_key == okey_q
      then read_query d (length s) (is_named s)
      else if d.hist.current_key == okey_y
      then read_type d (length s) (get_or s 0 0)
      else read_oval d start (length s))
  unfolding read_oval
  oval_string = elim (Bool-cases (d.hist.current_key == okey_q)) [
    | inl q ↦ rw q (ap (read_query d (length s)) (xd_match-is_named s rest d start got))
    | inr q ↦ elim (Bool-cases (d.hist.current_key == okey_y)) [
      | inl y ↦ ground (arith, q, y, type_string s rest d start got)
      | inr y ↦ rw (q, y) refl
    ]
  ]

pub take_string-payload :
    (st : XdState) (s rest : Bytes) (d : Decoder) (start : ℕ)
    → drop start d.krpc.bytes ≡ s ++ rest
    → (st ≡ xd_start → ⊥)
    → read_payload st d start (length s) ≡ take_string st s d start
unfolding read_payload take_string
take_string-payload xd_start s rest d start got h = absurd (h refl)
take_string-payload xd_okey s rest d start got h =
    okey_string s rest (record d { xd_state = xd_oval }) start got
take_string-payload xd_ikey s rest d start got h =
    let d' : Decoder = record d { xd_state = xd_ival } in
    ap (ikey_case d' (length s)) (xd_match-is_named s rest d' start got)
take_string-payload xd_oval s rest d start got h =
    oval_string s rest (record d { xd_state = xd_okey }) start got
take_string-payload xd_ival s rest d start got h = refl
take_string-payload xd_ivlist s rest d start got h = refl
