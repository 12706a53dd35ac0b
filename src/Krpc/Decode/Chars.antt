-- ===== src/Krpc/Decode/Chars.antt =====
-- cht/krpc.cpp, `xdecode`: the cases of the characters 'd', 'e', 'i' and 'l'.
use dht_cpp.Base.{ℕ, ◌+◌, ◌-◌, ◌%◌, ◌^◌, Bool, true, false, ◌&&◌, ltb, ◌==◌, if◌then◌else◌}
use dht_cpp.Krpc.Atoi.{Atoi, krpc_bdecode_atoi}
use dht_cpp.Krpc.Flags.{ikey_port}
use dht_cpp.Krpc.State.{
  Krpc, XdState, xd_start, xd_okey, xd_ikey, xd_oval, xd_ival, xd_ivlist, Decoder, Step, continue,
}
use dht_cpp.Krpc.Validate.{xd_fail, validate}
use dht_cpp.Stat.{
  bd_a_no_error, bd_x_bad_eom, bd_x_dict_is_key, bd_y_port_overflow, bd_z_naked_value,
  bd_z_rogue_int, bd_z_unexpected_list, bd_z_dicts_too_deep, stat_eq,
}
use dht_cpp.Krpc.Decode.Common.{fail, enter}

-- `case 'd'`
unfoldable pub read_dict : XdState → Decoder → Step
read_dict xd_start d = enter d xd_okey
read_dict xd_oval d = enter d xd_ikey
read_dict xd_ikey d = fail d bd_x_dict_is_key
read_dict xd_okey d = fail d bd_x_dict_is_key
read_dict xd_ivlist d = fail d bd_z_dicts_too_deep
read_dict xd_ival d = fail d bd_z_dicts_too_deep

-- `case 'e'`
unfoldable pub read_end : XdState → Decoder → Step
read_end xd_okey d = validate d.krpc d.hist
read_end xd_ikey d = enter d xd_okey
read_end xd_ivlist d = enter d xd_ikey
read_end xd_start d = fail d bd_x_bad_eom
read_end xd_oval d = fail d bd_x_bad_eom
read_end xd_ival d = fail d bd_x_bad_eom

-- Behind the number of an integer where a value may stand; `inner` says that the state is `XD_IVAL`.
unfoldable pub int_case : Bool → Decoder → Atoi → Step
int_case inner d r =
    let k : Krpc = record d.krpc { status = r.result } in
    let port = r.dest in
    let is_port = inner && d.hist.current_key == ikey_port in
    let next = if inner then xd_ikey else xd_okey in
    if stat_eq r.result bd_a_no_error
    then (if is_port && ltb (2 ^ 16 - 1) port
        then xd_fail k bd_y_port_overflow
        else continue (record d {
          krpc = record k { ap_port = if is_port then port % 2 ^ 16 else k.ap_port };
          cur_pos = r.cur_pos;
          xd_state = next;
        }))
    else xd_fail k r.result

unfoldable pub read_int_value : Bool → Decoder → ℕ → Step
unfolding int_case
read_int_value inner d data_len =
    int_case inner d (krpc_bdecode_atoi d.krpc.bytes (d.cur_pos + 1) data_len)

-- `case 'i'`
unfoldable pub read_int : XdState → Decoder → ℕ → Step
unfolding read_int_value
read_int xd_oval d data_len = read_int_value false d data_len
read_int xd_ival d data_len = read_int_value true d data_len
read_int xd_start d data_len = fail d bd_z_naked_value
read_int xd_ivlist d data_len = fail d bd_z_rogue_int
read_int xd_ikey d data_len = fail d bd_z_rogue_int
read_int xd_okey d data_len = fail d bd_z_rogue_int

-- `case 'l'`
unfoldable pub read_list : XdState → Decoder → Step
read_list xd_ival d = enter d xd_ivlist
read_list _ d = fail d bd_z_unexpected_list
