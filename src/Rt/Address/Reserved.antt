-- ===== src/Rt/Address/Reserved.antt =====
-- cht/rt.cpp: `validate_addr` against the networks that it is to refuse, written as prefixes.
use dht_cpp.Base.{
  ℕ, ◌+◌, ◌*◌, ◌/◌, ◌%◌, ◌^◌, ◌<◌, Bool, true, false, not, ◌&&◌, ◌||◌, bit_and, List, [], ◌∷◌, leb,
  ltb, ◌==◌, if◌then◌else◌, ◌≡◌, refl, arith, all_below, all_below_sound, same, same_sound,
}
use dht_cpp.Rt.Address.{be16toh, be32toh, is_special, validate_addr}

-- The address a.b.c.d in host byte order.
abbrev ip : ℕ → ℕ → ℕ → ℕ → ℕ
ip a b c d = a * 0x1000000 + b * 0x10000 + c * 0x100 + d

-- A network: its prefix and the size of what is behind the prefix.
abbrev Net : Type 0
Net = ℕ × ℕ

abbrev in_net : ℕ → Net → Bool
in_net x (base, size) = x / size == base / size

-- `x` is in one of the networks, or it was found before.
abbrev in_more : Bool → ℕ → List Net → Bool
in_more found x [] = found
in_more found x (net ∷ nets) = in_more (found || in_net x net) x nets

abbrev pub in_any : ℕ → List Net → Bool
in_any = in_more false

-- 240.0.0.0/4, 0.0.0.0/8, 10.0.0.0/8, 127.0.0.0/8, 100.64.0.0/10, 172.16.0.0/12, 198.18.0.0/15,
-- 169.254.0.0/16, 192.168.0.0/16, nine networks of prefix 24, and the broadcast address.
abbrev pub reserved : List Net
reserved =
    (ip 240 0 0 0, 2 ^ 28)
    ∷ (ip 0 0 0 0, 2 ^ 24)
    ∷ (ip 10 0 0 0, 2 ^ 24)
    ∷ (ip 127 0 0 0, 2 ^ 24)
    ∷ (ip 100 64 0 0, 2 ^ 22)
    ∷ (ip 172 16 0 0, 2 ^ 20)
    ∷ (ip 198 18 0 0, 2 ^ 17)
    ∷ (ip 169 254 0 0, 2 ^ 16)
    ∷ (ip 192 168 0 0, 2 ^ 16)
    ∷ (ip 192 0 0 0, 2 ^ 8)
    ∷ (ip 192 0 2 0, 2 ^ 8)
    ∷ (ip 192 31 196 0, 2 ^ 8)
    ∷ (ip 192 51 100 0, 2 ^ 8)
    ∷ (ip 192 52 193 0, 2 ^ 8)
    ∷ (ip 192 175 48 0, 2 ^ 8)
    ∷ (ip 198 51 100 0, 2 ^ 8)
    ∷ (ip 203 0 113 0, 2 ^ 8)
    ∷ (ip 255 255 255 255, 1)
    ∷ []

-- A test of the high bits of a byte is a test of its quotient.
mask_lem :
    (mask bits size : ℕ)
    → all_below 256 (λ x. same (bit_and x mask == bits) (x / size == bits / size)) ≡ true
    → (x : ℕ) → x < 256
    → (bit_and x mask == bits) ≡ (x / size == bits / size)
mask_lem mask bits size h x l =
    same_sound (bit_and x mask == bits) (x / size == bits / size)
      (all_below_sound 256 (λ x. same (bit_and x mask == bits) (x / size == bits / size)) x h l)

module _ (a b c d : ℕ) (ha : a < 256) (hb : b < 256) (hc : c < 256) (hd : d < 256) where
  net4 : (bit_and a 0xf0 == 240) ≡ in_net (ip a b c d) (ip 240 0 0 0, 2 ^ 28)
  unfolding all_below
  net4 = rw (mask_lem 0xf0 240 16 refl a ha) (ground arith)

  net8 : (n : ℕ) → (a == n) ≡ in_net (ip a b c d) (ip n 0 0 0, 2 ^ 24)
  net8 n = ground arith

  net10 : (a == 100 && bit_and b 0xc0 == 64) ≡ in_net (ip a b c d) (ip 100 64 0 0, 2 ^ 22)
  unfolding all_below
  net10 = rw (mask_lem 0xc0 64 64 refl b hb) (ground arith)

  net16 : (m n : ℕ) → n < 256 → (a == m && b == n) ≡ in_net (ip a b c d) (ip m n 0 0, 2 ^ 16)
  net16 m n h = ground arith

  net24 :
      (l m n : ℕ)
      → m < 256
      → n < 256
      → (a == l && b == m && c == n) ≡ in_net (ip a b c d) (ip l m n 0, 2 ^ 8)
  net24 l m n h h' = ground arith

  net32 :
      (a == 255 && b == 255 && c == 255 && d == 255) ≡ in_net (ip a b c d) (ip 255 255 255 255, 1)
  net32 = ground arith

  net12 : (a == 172 && bit_and b 0xf0 == 16) ≡ in_net (ip a b c d) (ip 172 16 0 0, 2 ^ 20)
  unfolding all_below
  net12 = rw (mask_lem 0xf0 16 16 refl b hb) (ground arith)

  net15 : (a == 198 && bit_and b 0xfe == 18) ≡ in_net (ip a b c d) (ip 198 18 0 0, 2 ^ 17)
  unfolding all_below
  net15 = rw (mask_lem 0xfe 18 2 refl b hb) (ground arith)

  is_special-in_any : is_special a b c d ≡ in_any (ip a b c d) reserved
  unfolding is_special
  is_special-in_any =
      rw
        (
          net4,
          net8 0,
          net8 10,
          net8 127,
          net10,
          net12,
          net15,
          net16 169 254 (omega arith),
          net16 192 168 (omega arith),
          net24 192 0 0 (omega arith) (omega arith),
          net24 192 0 2 (omega arith) (omega arith),
          net24 192 31 196 (omega arith) (omega arith),
          net24 192 51 100 (omega arith) (omega arith),
          net24 192 52 193 (omega arith) (omega arith),
          net24 192 175 48 (omega arith) (omega arith),
          net24 198 51 100 (omega arith) (omega arith),
          net24 203 0 113 (omega arith) (omega arith),
          net32,
        )
        refl

-- An address is valid exactly when its port is above 1024 and it is in none of the reserved networks.
pub validate_addr_lem :
    (in_addr sin_port : ℕ)
    → validate_addr in_addr sin_port
      ≡ (ltb 1024 (be16toh sin_port) && not (in_any (be32toh in_addr) reserved))
unfolding validate_addr
validate_addr_lem in_addr sin_port =
    let a = in_addr % 0x100 in
    let b = in_addr / 0x100 % 0x100 in
    let c = in_addr / 0x10000 % 0x100 in
    let d = in_addr / 0x1000000 % 0x100 in
    rw (is_special-in_any a b c d (omega arith) (omega arith) (omega arith) (omega arith))
      (both (be16toh sin_port) (in_any (be32toh in_addr) reserved))
  where
    both :
        (p : ℕ) (x : Bool)
        → (if leb p 1024 then false else if x then false else true) ≡ (ltb 1024 p && not x)
    both p x = ground arith
