-- ===== src/Dht.antt =====
-- cht/dht.hpp: the constants of the protocol and its packed types, as byte strings.
use dht_cpp.Base.{ℕ, Bool, ◌+◌, ◌*◌, ◌==◌, ◌≡◌, Bytes, get_or, drop, codes, length}

-- `sizeof("d1:rd2:id20:12345123451234512345e1:t0:1:y1:re") - 1`
abbrev pub min_msg_len : ℕ
min_msg_len = length (codes "d1:rd2:id20:12345123451234512345e1:t0:1:y1:re")

abbrev pub nih_len : ℕ
nih_len = 20

abbrev pub ip_len : ℕ
ip_len = 4

abbrev pub port_len : ℕ
port_len = 2

abbrev pub peerinfo_len : ℕ
peerinfo_len = ip_len + port_len

abbrev pub pnode_len : ℕ
pnode_len = nih_len + peerinfo_len

abbrev pub our_tok_pg : ℕ
our_tok_pg = 0x77

abbrev pub our_tok_gp : ℕ
our_tok_gp = 0x78

abbrev pub our_tok_fn : ℕ
our_tok_fn = 0x79

abbrev pub our_token : ℕ
our_token = 0x88

-- A node id or info hash: the bytes of `raw`.
abbrev pub Nih : Type 0
Nih = Bytes

-- The size that `static_assert(sizeof(Nih) == 20)` states.
abbrev pub IsNih : Nih → Type 0
IsNih x = length x ≡ nih_len

-- The u32 that four bytes hold, the least significant first.
unfoldable pub u32_of : Bytes → ℕ
u32_of b = get_or b 0 0 + 0x100 * get_or b 1 0 + 0x10000 * get_or b 2 0 + 0x1000000 * get_or b 3 0

-- `CSUM_OFFSET`
abbrev pub csum_offset : ℕ
csum_offset = 16

-- `Nih::checksum`, the last four bytes.
unfoldable pub checksum : Nih → ℕ
checksum x = u32_of (drop csum_offset x)

-- `operator==` on `Nih` compares the checksums alone.
unfoldable pub nih_eq : Nih → Nih → Bool
nih_eq x y = checksum x == checksum y

-- The six bytes of a `Peerinfo`, by its two fields (in network byte order).
pub record Peerinfo : Type 0 where
  pub in_addr : ℕ
  pub sin_port : ℕ

pub record PNode : Type 0 where
  pub nid : Nih
  pub peerinfo : Peerinfo
