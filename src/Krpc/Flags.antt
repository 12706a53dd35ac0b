-- ===== src/Krpc/Flags.antt =====
-- cht/krpc.hpp: the bit sets `Method` and `Key`, and the limits on what a message holds.
use dht_cpp.Base.{ℕ, Bool, ◌-◌, ◌^◌, ◌!=◌, bit_and, bit_or}

abbrev pub maxlen : ℕ
maxlen = 1024

abbrev pub maxlen_ap_name : ℕ
maxlen_ap_name = 256

abbrev pub maxlen_tok : ℕ
maxlen_tok = 32

abbrev pub maxlen_token : ℕ
maxlen_token = 32

abbrev pub max_peers : ℕ
max_peers = 36

abbrev pub max_nodes : ℕ
max_nodes = 8

-- `x & y` as a condition.
abbrev pub meets : ℕ → ℕ → Bool
meets x y = bit_and x y != 0

-- `~x` on a set of 32 bits.
abbrev pub complement : ℕ → ℕ
complement x = 2 ^ 32 - 1 - x

abbrev pub Method : Type 0
Method = ℕ

abbrev pub q_ap : Method
q_ap = 1

abbrev pub q_fn : Method
q_fn = 2

abbrev pub q_gp : Method
q_gp = 4

abbrev pub q_pg : Method
q_pg = 8

abbrev pub r_fn : Method
r_fn = 32

abbrev pub r_gp : Method
r_gp = 64

abbrev pub r_pg : Method
r_pg = 128

abbrev pub r_any : Method
r_any = bit_or r_fn (bit_or r_gp r_pg)

abbrev pub q_any : Method
q_any = bit_or q_ap (bit_or q_fn (bit_or q_gp q_pg))

abbrev pub any : Method
any = bit_or r_any q_any

-- A set of keys, or one key.
abbrev pub Key : Type 0
Key = ℕ

abbrev pub nokey : Key
nokey = 0

abbrev pub ikey_values : Key
ikey_values = 1

abbrev pub ikey_nodes : Key
ikey_nodes = 2

abbrev pub ikey_token : Key
ikey_token = 4

abbrev pub ikey_ih : Key
ikey_ih = 8

abbrev pub ikey_nid : Key
ikey_nid = 16

abbrev pub ikey_target : Key
ikey_target = 32

abbrev pub ikey_implport : Key
ikey_implport = 64

abbrev pub ikey_port : Key
ikey_port = 128

abbrev pub ikey_ap_name : Key
ikey_ap_name = 256

abbrev pub okey_a : Key
okey_a = 512

abbrev pub okey_t : Key
okey_t = 1024

abbrev pub okey_q : Key
okey_q = 2048

abbrev pub okey_r : Key
okey_r = 4096

abbrev pub okey_y : Key
okey_y = 8192

abbrev pub ikey_any_body : Key
ikey_any_body =
    bit_or ikey_nodes (bit_or ikey_values (bit_or ikey_ih (bit_or ikey_target ikey_token)))

abbrev pub ikey_any_non_token_body : Key
ikey_any_non_token_body = bit_or ikey_nodes (bit_or ikey_values (bit_or ikey_ih ikey_target))
