-- ===== src/Krpc/Atoi.antt =====
-- cht/krpc.cpp: `krpc_bdecode_atoi`.
pub mod Bounds
use dht_cpp.Base.{
  ℕ, zero, suc, ◌+◌, ◌-◌, ◌*◌, ◌/◌, ◌%◌, ◌^◌, Bool, ◌&&◌, ◌||◌, Bytes, ltb, leb, ◌==◌,
  if◌then◌else◌, get_or,
}
use dht_cpp.Stat.{Stat, bd_a_no_error, bd_x_msg_too_long, bd_x_bad_char, bd_z_negative_int}

abbrev pub uint32_max : ℕ
uint32_max = 2 ^ 32 - 1

-- The bound of the loop on the number read so far, `UINT32_MAX >> 4`.
abbrev pub atoi_limit : ℕ
atoi_limit = uint32_max / 2 ^ 4

abbrev pub is_digit : ℕ → Bool
is_digit c = leb b'0' c && leb c b'9'

-- The result, the number read, and the position behind the last byte read.
pub record Atoi : Type 0 where
  pub result : Stat
  pub dest : ℕ
  pub cur_pos : ℕ

-- The loop, with `left` bytes up to `data_len`.
unfoldable pub atoi_loop : Bytes → ℕ → ℕ → ℕ → Atoi
atoi_loop bytes zero dest pos = record { result = bd_x_msg_too_long; dest = dest; cur_pos = pos }
atoi_loop bytes (suc left) dest pos =
    let val = get_or bytes pos 0 in
    let rest = atoi_loop bytes left ((10 * dest + (val - 0x30)) % 2 ^ 32) (pos + 1) in
    let stop =
      λ (s : Stat). let r : Atoi = record { result = s; dest = dest; cur_pos = pos + 1 } in r in
    if ltb dest atoi_limit
    then (if val == b'-'
        then stop bd_z_negative_int
        else if is_digit val
        then rest
        else if val == b'e' || val == b':'
        then stop bd_a_no_error
        else stop bd_x_bad_char)
    else record { result = bd_x_msg_too_long; dest = dest; cur_pos = pos }

-- `krpc_bdecode_atoi`, from `cur_pos` in a message of `data_len` bytes.
unfoldable pub krpc_bdecode_atoi : Bytes → ℕ → ℕ → Atoi
krpc_bdecode_atoi bytes cur_pos data_len = atoi_loop bytes (data_len - cur_pos) 0 cur_pos
