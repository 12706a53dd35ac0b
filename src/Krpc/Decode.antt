-- ===== src/Krpc/Decode.antt =====
-- cht/krpc.cpp: the loop of `KRPC::xdecode`. Its cases are in the children.
pub mod Common
pub mod Chars
pub mod Keys
pub mod Values
use dht_cpp.Base.{
  ℕ, zero, suc, ◌+◌, ◌%◌, ◌^◌, ltb, ◌==◌, if◌then◌else◌, get_or, bit_or, Crash, assertion,
}
use dht_cpp.Krpc.Atoi.{is_digit, krpc_bdecode_atoi}
use dht_cpp.Krpc.Flags.{r_any, q_any, nokey}
use dht_cpp.Krpc.State.{
  Krpc, XdState, xd_start, xd_okey, xd_ikey, xd_oval, xd_ival, xd_ivlist, Decoder, Step, continue,
  return, crashed,
}
use dht_cpp.Krpc.Validate.{xd_fail}
use dht_cpp.Stat.{bd_a_no_error, bd_x_bad_eom, bd_x_bad_char, bd_z_naked_value, stat_eq}
use dht_cpp.Krpc.Decode.Common.{fail}
use dht_cpp.Krpc.Decode.Chars.{read_dict, read_end, read_int, read_list}
use dht_cpp.Krpc.Decode.Keys.{read_okey, read_ikey}
use dht_cpp.Krpc.Decode.Values.{read_oval, read_ival, read_ivlist}

-- The switch on the state behind the length of a string.
unfoldable pub read_payload : XdState → Decoder → ℕ → ℕ → Step
unfolding read_okey read_ikey read_oval read_ival read_ivlist
read_payload xd_okey d start slen = read_okey (record d { xd_state = xd_oval }) start slen
read_payload xd_ikey d start slen = read_ikey (record d { xd_state = xd_ival }) start slen
read_payload xd_oval d start slen = read_oval (record d { xd_state = xd_okey }) start slen
read_payload xd_ival d start slen = read_ival (record d { xd_state = xd_ikey }) start slen
read_payload xd_ivlist d start slen = read_ivlist d start slen
read_payload xd_start d start slen = crashed assertion

-- The string read behind its length: it must end within the message.
unfoldable pub read_sized : Decoder → ℕ → ℕ → Step
unfolding read_payload
read_sized d slen data_len =
    if ltb data_len ((d.cur_pos + slen) % 2 ^ 32)
    then fail d bd_x_bad_eom
    else read_payload d.xd_state (record d { cur_pos = d.cur_pos + slen }) d.cur_pos slen

-- The cases of the digits, behind the test of `XD_START`.
unfoldable pub read_length : Decoder → ℕ → Step
unfolding read_sized
read_length d data_len =
    let r = krpc_bdecode_atoi d.krpc.bytes d.cur_pos data_len in
    let k : Krpc = record d.krpc { status = r.result } in
    if stat_eq r.result bd_a_no_error
    then read_sized (record d { krpc = k; cur_pos = r.cur_pos }) r.dest data_len
    else xd_fail k r.result

unfoldable pub read_string : XdState → Decoder → ℕ → Step
unfolding read_length
read_string xd_start d data_len = fail d bd_z_naked_value
read_string _ d data_len = read_length d data_len

-- One round of the loop: the switch on the character at `cur_pos`.
unfoldable pub step : Decoder → ℕ → Step
unfolding read_dict read_end read_int read_list read_string
step d data_len =
    let c = get_or d.krpc.bytes d.cur_pos 0 in
    if c == b'd'
    then read_dict d.xd_state d
    else if c == b'e'
    then read_end d.xd_state d
    else if c == b'i'
    then read_int d.xd_state d data_len
    else if c == b'l'
    then read_list d.xd_state d
    else if is_digit c
    then read_string d.xd_state d data_len
    else fail d bd_x_bad_char

-- How `xdecode` ends; `out_of_fuel` is for the fuel of the model alone.
pub data Outcome : Type 0 where
  returned : Krpc → Outcome
  died : Crash → Outcome
  out_of_fuel : Outcome

-- The loop. Behind it stands `assert(0)`.
unfoldable pub loop : ℕ → Decoder → ℕ → Outcome
unfolding step
loop zero d data_len = out_of_fuel
loop (suc fuel) d data_len =
    if ltb d.cur_pos data_len
    then elim (step d data_len) [
      | continue d' ↦ loop fuel d' data_len
      | return k ↦ returned k
      | crashed c ↦ died c
    ]
    else died assertion

-- The decoder before its first round.
abbrev pub initial : Krpc → Decoder
initial k = record {
  krpc = k;
  cur_pos = 0;
  xd_state = xd_start;
  hist = record { current_key = nokey; seen_keys = nokey; msg_kind = bit_or r_any q_any };
}

-- `xdecode`. Each round reads a byte at least, so `data_len + 1` rounds are enough.
unfoldable pub xdecode : Krpc → ℕ → Outcome
unfolding loop
xdecode k data_len = loop (suc data_len) (initial k) data_len

-- `parse_msg`
unfoldable pub parse_msg : Krpc → ℕ → Outcome
unfolding xdecode
parse_msg k nread = xdecode (record k { status = bd_a_no_error }) nread
