-- ===== src/Krpc/Decode/Common.antt =====
-- cht/krpc.cpp: what the cases of `xdecode` share.
use Prim.Native.String.{String}
use dht_cpp.Base.{ℕ, ◌+◌, Bool, codes, slice, bytes_eq}
use dht_cpp.Krpc.State.{XdState, Decoder, Step, continue}
use dht_cpp.Krpc.Validate.{xd_fail}
use dht_cpp.Stat.{Stat}

-- `XD_FAIL` within the loop.
abbrev pub fail : Decoder → Stat → Step
fail d code = xd_fail d.krpc code

-- `xd_state = s; cur_pos++; continue;`
abbrev pub enter : Decoder → XdState → Step
enter d s = continue (record d { xd_state = s; cur_pos = d.cur_pos + 1 })

-- `XD_KEY_MATCH` and `XD_VAL_MATCH`, of a name as long as the string read.
abbrev pub xd_match : Decoder → ℕ → ℕ → String → Bool
xd_match d start slen name = bytes_eq (slice d.krpc.bytes start slen) (codes name)
