-- ===== src/Rt/Address.antt =====
-- cht/rt.cpp: `validate_addr`. The address and the port are in network byte order, on a machine whose
-- least significant byte is the first.
pub mod Reserved
use dht_cpp.Base.{
  ℕ, ◌+◌, ◌*◌, ◌/◌, ◌%◌, ◌^◌, Bool, true, false, not, ◌&&◌, ◌||◌, bit_and, leb, ◌==◌, if◌then◌else◌,
}

-- `be16toh`, and its inverse `htobe16`: the two bytes change places.
abbrev pub be16toh : ℕ → ℕ
be16toh x = x % 0x100 * 0x100 + x / 0x100 % 0x100

-- `be32toh`, and its inverse `htobe32`.
abbrev pub be32toh : ℕ → ℕ
be32toh x =
    x % 0x100 * 0x1000000
    + x / 0x100 % 0x100 * 0x10000
    + x / 0x10000 % 0x100 * 0x100
    + x / 0x1000000 % 0x100

-- The condition on the four bytes, in the order of the address.
unfoldable pub is_special : ℕ → ℕ → ℕ → ℕ → Bool
is_special a b c d =
    bit_and a 0xf0 == 240
    || a == 0
    || a == 10
    || a == 127
    || a == 100 && bit_and b 0xc0 == 64
    || a == 172 && bit_and b 0xf0 == 16
    || a == 198 && bit_and b 0xfe == 18
    || a == 169 && b == 254
    || a == 192 && b == 168
    || a == 192 && b == 0 && c == 0
    || a == 192 && b == 0 && c == 2
    || a == 192 && b == 31 && c == 196
    || a == 192 && b == 51 && c == 100
    || a == 192 && b == 52 && c == 193
    || a == 192 && b == 175 && c == 48
    || a == 198 && b == 51 && c == 100
    || a == 203 && b == 0 && c == 113
    || a == 255 && b == 255 && c == 255 && d == 255

unfoldable pub validate_addr : ℕ → ℕ → Bool
unfolding is_special
validate_addr in_addr sin_port =
    let a = in_addr % 0x100 in
    let b = in_addr / 0x100 % 0x100 in
    let c = in_addr / 0x10000 % 0x100 in
    let d = in_addr / 0x1000000 % 0x100 in
    if leb (be16toh sin_port) 1024 then false else if is_special a b c d then false else true
