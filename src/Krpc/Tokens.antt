-- ===== src/Krpc/Tokens.antt =====
-- cht/krpc.cpp: what `xdecode` does with a message that is a sequence of bencode tokens, told without
-- the characters of the message.
pub mod Numbers
pub mod Moves
pub mod Strings
pub mod Rounds
pub mod Lexing
pub mod Queries
pub mod Offsets
pub mod Fits
pub mod Accepts
pub mod Refusals
use Prim.Native.String.{String}
use dht_cpp.Base.{
  ℕ, zero, suc, ◌+◌, ◌*◌, ◌<◌, Bool, true, false, List, [], ◌∷◌, ◌++◌, Bytes, codes, length, get_or,
  bytes_eq, ◌==◌, if◌then◌else◌, assertion,
}
use dht_cpp.Krpc.Atoi.{Atoi}
use dht_cpp.Krpc.Decode.Chars.{read_dict, read_end, read_list, int_case}
use dht_cpp.Krpc.Decode.Common.{fail}
use dht_cpp.Krpc.Decode.Keys.{okey_case, ikey_case}
use dht_cpp.Krpc.Decode.Values.{read_query, read_type, read_oval, read_ival, read_ivlist}
use dht_cpp.Krpc.Decode.{Outcome, returned, died, step}
use dht_cpp.Krpc.Flags.{okey_q, okey_y}
use dht_cpp.Krpc.State.{
  Krpc, XdState, xd_start, xd_okey, xd_ikey, xd_oval, xd_ival, xd_ivlist, Decoder, Step, continue,
  return, crashed,
}
use dht_cpp.Msg.{decimal}
use dht_cpp.Stat.{bd_a_no_error, bd_z_naked_value, bd_z_rogue_int}

pub data Token : Type 0 where
  open_dict open_list close : Token
  num : ℕ → Token
  str : Bytes → Token

-- The number of digits up to which numbers are written.
abbrev pub max_digits : ℕ
max_digits = 6

-- The length in front of a string.
abbrev pub prefix : ℕ → Bytes
prefix n = decimal max_digits n ++ b':' ∷ []

abbrev pub print_token : Token → Bytes
print_token open_dict = b'd' ∷ []
print_token open_list = b'l' ∷ []
print_token close = b'e' ∷ []
print_token (num n) = b'i' ∷ (decimal max_digits n ++ b'e' ∷ [])
print_token (str s) = prefix (length s) ++ s

abbrev pub print_tokens : List Token → Bytes
print_tokens [] = []
print_tokens (t ∷ ts) = print_token t ++ print_tokens ts

-- The numbers and lengths have up to six digits.
abbrev pub AreShort : List Token → Type 0
AreShort [] = Unit
AreShort (num n ∷ ts) = (n < 1000000) × AreShort ts
AreShort (str s ∷ ts) = (length s < 1000000) × AreShort ts
AreShort (t ∷ ts) = AreShort ts

abbrev pub is_named : Bytes → String → Bool
is_named s name = bytes_eq s (codes name)

-- The string `s`, of which `start` is the offset in the message.
unfoldable pub take_string : XdState → Bytes → Decoder → ℕ → Step
unfolding okey_case ikey_case read_query read_type read_oval read_ival read_ivlist
take_string xd_start s d start = fail d bd_z_naked_value
take_string xd_okey s d start =
    okey_case (record d { xd_state = xd_oval }) (length s) (get_or s 0 0)
take_string xd_ikey s d start = ikey_case (record d { xd_state = xd_ival }) (length s) (is_named s)
take_string xd_oval s d start =
    let d' : Decoder = record d { xd_state = xd_okey } in
    if d.hist.current_key == okey_q
    then read_query d' (length s) (is_named s)
    else if d.hist.current_key == okey_y
    then read_type d' (length s) (get_or s 0 0)
    else read_oval d' start (length s)
take_string xd_ival s d start = read_ival (record d { xd_state = xd_ikey }) start (length s)
take_string xd_ivlist s d start = read_ivlist d start (length s)

-- The decoder behind the length of a string and the string, without an error so far.
abbrev pub behind : Bytes → Decoder → Decoder
behind s d = record d {
  krpc = record d.krpc { status = bd_a_no_error };
  cur_pos = d.cur_pos + length (prefix (length s)) + length s;
}

-- The number `n`, read where the decoder stands.
abbrev pub number_at : ℕ → Decoder → Atoi
number_at n d = record {
  result = bd_a_no_error;
  dest = n;
  cur_pos = d.cur_pos + length (print_token (num n));
}

unfoldable pub take_num : XdState → ℕ → Decoder → Step
unfolding int_case
take_num xd_start n d = fail d bd_z_naked_value
take_num xd_oval n d = int_case false d (number_at n d)
take_num xd_ival n d = int_case true d (number_at n d)
take_num _ n d = fail d bd_z_rogue_int

-- What the decoder does with one token.
unfoldable pub take_token : Token → Decoder → Step
unfolding read_dict read_list read_end take_num take_string
take_token open_dict d = read_dict d.xd_state d
take_token open_list d = read_list d.xd_state d
take_token close d = read_end d.xd_state d
take_token (num n) d = take_num d.xd_state n d
take_token (str s) d =
    take_string d.xd_state s (behind s d) (d.cur_pos + length (prefix (length s)))

-- What it does with a message, which must come to a `return`.
unfoldable pub take_tokens : List Token → Decoder → Outcome
unfolding take_token
take_tokens [] d = died assertion
take_tokens (t ∷ ts) d = elim (take_token t d) [
  | continue d' ↦ take_tokens ts d'
  | return k ↦ returned k
  | crashed c ↦ died c
]
