-- ===== src/Rt.antt =====
-- cht/rt.hpp and cht/rt.cpp: the routing table, which has one cell for each first two bytes of an id.
pub mod Address
pub mod Contacts
pub mod Search
pub mod Neighbors
pub mod File
pub mod Memory
use dht_cpp.Base.{
  ℕ, zero, suc, ◌+◌, ◌-◌, ◌*◌, ◌/◌, ◌%◌, ◌^◌, Bool, true, false, not, ◌&&◌, ◌||◌, List, [], ◌∷◌,
  ◌++◌, Option, none, some, Bytes, codes, get_or, take, drop, replicate, ltb, leb, ◌==◌, ◌!=◌,
  if◌then◌else◌, Run, ok, crash, ◌>>=◌,
}
use dht_cpp.Dht.{Nih, PNode, Peerinfo, u32_of, nih_len}
use dht_cpp.Krpc.State.{Krpc, bytes_at}
use dht_cpp.Rt.Address.{validate_addr}
use dht_cpp.Stat.Counters.{Counters, st_inc}
use dht_cpp.Stat.{Stat, rt_replace_invalid, rt_replace_accept, rt_miss, err_rt_no_contacts}
use dht_cpp.Util.Random.{World, draw, randint}

-- `Nih_l`, the last 18 bytes of an id: `checksum` is the last four.
abbrev pub low_csum_offset : ℕ
low_csum_offset = 14

unfoldable pub low_checksum : Bytes → ℕ
low_checksum low = u32_of (drop low_csum_offset low)

-- `nid.rt.low`
abbrev pub nih_low : Nih → Bytes
nih_low nid = drop 2 nid

-- `RT::bootstrap_node`
abbrev pub bootstrap_node : PNode
bootstrap_node = record {
  nid =
      codes "2"
      ++ (0xf5
          ∷ (codes "NisQ"
              ++ (0xff
                  ∷ (codes "J"
                      ++ (0xec
                          ∷ (codes ")"
                              ++ (0xcd
                                  ∷ 0xba
                                  ∷ 0xab
                                  ∷ 0xf2
                                  ∷ 0xfb
                                  ∷ 0xe3
                                  ∷ (codes "F|" ++ (0xc2 ∷ codes "g")))))))));
  peerinfo = record { in_addr = 183949123; sin_port = 57626 };
}

-- `Nodeinfo`
pub record Nodeinfo : Type 0 where
  pub nih_l : Bytes
  pub peerinfo : Peerinfo

unfoldable pub is_empty : Nodeinfo → Bool
is_empty cell = low_checksum cell.nih_l == 0

-- `Nodeinfo` has 24 bytes, and there are 256 * 256.
abbrev pub rt_size : ℕ
rt_size = 24 * 256 * 256

-- `__rt`, with the counters and the random numbers that its operations use.
pub record Rt : Type 0 where
  pub cells : ℕ → Nodeinfo
  pub counters : Counters
  pub world : World

abbrev pub count_stat : Stat → Rt → Rt
count_stat stat t = record t { counters = st_inc stat t.counters }

-- `get_cell`: the index of the cell.
abbrev pub cell_of : ℕ → ℕ → ℕ
cell_of a b = 256 * a + b

unfoldable pub get_cell : Nih → ℕ
get_cell nid = cell_of (get_or nid 0 0) (get_or nid 1 0)

abbrev pub write_cell : ℕ → Nodeinfo → Rt → Rt
write_cell ix cell t = record t { cells = λ i. if ix == i then cell else t.cells i }

-- `set_cell`; the quality is not stored.
unfoldable pub set_cell : Nih → ℕ → ℕ → Rt → Rt
unfolding get_cell
set_cell nid in_addr sin_port t =
    write_cell (get_cell nid)
      (record { nih_l = nih_low nid; peerinfo = record { in_addr = in_addr; sin_port = sin_port } })
      t

-- `insert_contact`. The address that is not valid is counted, and stored all the same.
unfoldable pub insert_contact : Nih → ℕ → ℕ → Rt → Rt
unfolding set_cell
insert_contact nid in_addr sin_port t =
    let t' = if validate_addr in_addr sin_port then t else count_stat rt_replace_invalid t in
    count_stat rt_replace_accept (set_cell nid in_addr sin_port t')

-- `check_evict`, with the world that its random number comes from. Nothing calls it.
unfoldable pub check_evict : ℕ → ℕ → World → Bool
check_evict cur_qual cand_qual w =
    if leb cur_qual cand_qual then true else randint w 0 (2 ^ (cur_qual - cand_qual)) == 0

-- `adj_quality`: both branches leave the table alone.
unfoldable pub adj_quality : Nih → Rt → Rt
unfolding get_cell low_checksum
adj_quality nid t =
    if low_checksum (t.cells (get_cell nid)).nih_l != low_checksum (nih_low nid) then t else t

-- `cell.nih_l.checksum = 0`
abbrev pub clear_checksum : Nodeinfo → Nodeinfo
clear_checksum cell = record cell { nih_l = take low_csum_offset cell.nih_l ++ 0 ∷ 0 ∷ 0 ∷ 0 ∷ [] }

unfoldable pub delete_node : Nih → Rt → Rt
unfolding get_cell low_checksum
delete_node target t =
    let ix = get_cell target in
    let cell = t.cells ix in
    if low_checksum cell.nih_l == low_checksum (nih_low target)
    then write_cell ix (clear_checksum cell) t
    else t

-- The node in the cell at `ix`.
abbrev pub node_in : ℕ → Nodeinfo → PNode
node_in ix cell = record { nid = ix / 256 ∷ ix % 256 ∷ cell.nih_l; peerinfo = cell.peerinfo }

-- `{{0}}`
abbrev pub zero_node : PNode
zero_node = record { nid = replicate nih_len 0; peerinfo = record { in_addr = 0; sin_port = 0 } }

-- The inner loop of `get_random_valid_node`, over `left` values of `ix` up to `end`: the index of the
-- first cell that is not empty. `ix >> 8` is cut to a `u8`, so that the index is taken modulo 2 ^ 16.
unfoldable pub first_valid : ℕ → ℕ → Rt → Option ℕ
unfolding is_empty
first_valid zero end t = none
first_valid (suc left) end t =
    let ix = (end - suc left) % 2 ^ 16 in
    let rest = first_valid left end t in if is_empty (t.cells ix) then rest else some ix

-- The node found and the table behind the call.
abbrev pub Contact : Type 0
Contact = PNode × Rt

unfoldable pub random_from : Option ℕ → Rt → Contact
random_from (some ix) t = (node_in ix (t.cells ix), t)
random_from none t = (zero_node, count_stat err_rt_no_contacts t)

-- The outer loop sets `start` to 0 behind its first round, and so has no second.
unfoldable pub get_random_valid_node : Rt → Contact
unfolding first_valid random_from
get_random_valid_node t =
    let start = randint t.world 0 rt_size in
    let t' = record t { world = draw t.world } in
    random_from (if ltb 0 start then first_valid (rt_size - start) rt_size t' else none) t'

unfoldable pub get_neighbor_contact : Nih → Rt → Contact
unfolding get_cell is_empty get_random_valid_node
get_neighbor_contact target t =
    let cell = t.cells (get_cell target) in
    if is_empty cell
    then get_random_valid_node (count_stat rt_miss t)
    else (record { nid = take 2 target ++ cell.nih_l; peerinfo = cell.peerinfo }, t)
