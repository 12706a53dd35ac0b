-- ===== src/Tests/Contacts.antt =====
-- The routing table at concrete contacts.
use dht_cpp.Base.{arith, ℕ, ◌≡◌, ◌||◌, refl, not, ltb, ◌&&◌, ◌==◌, if◌then◌else◌}
use dht_cpp.Dht.{u32_of}
use dht_cpp.Rt.Address.Reserved.{in_any, reserved, validate_addr_lem}
use dht_cpp.Rt.Address.{be16toh, be32toh, validate_addr}
use dht_cpp.Rt.Contacts.{IsRt, get_neighbor_contact-insert, delete_node-cells}
use dht_cpp.Rt.Neighbors.{Gives, get_neighbor_contact-Gives}
use dht_cpp.Rt.Search.{Finds, get_random_valid_node-Finds, insert_contact-IsRt}
use dht_cpp.Rt.{
  Rt, get_cell, low_checksum, nih_low, is_empty, insert_contact, delete_node, get_neighbor_contact,
  get_random_valid_node, rt_size,
}
use dht_cpp.Tests.Samples.{some_id, other_id, no_contacts}
use dht_cpp.Util.Random.{randint}

abbrev one_contact : Rt
one_contact = insert_contact some_id 0x04030201 0xe11a no_contacts

one_contact-IsRt : IsRt one_contact
one_contact-IsRt = insert_contact-IsRt some_id 0x04030201 0xe11a no_contacts refl (λ i. refl)

-- 10.0.0.1 is not valid, and is given out all the same.
get_neighbor_contact-insert_example :
    get_neighbor_contact some_id (insert_contact some_id 0x0100000a 0xe11a no_contacts) ≡ (
      record { nid = some_id; peerinfo = record { in_addr = 0x0100000a; sin_port = 0xe11a } },
      insert_contact some_id 0x0100000a 0xe11a no_contacts,
    )
unfolding low_checksum u32_of
get_neighbor_contact-insert_example =
    get_neighbor_contact-insert some_id 0x0100000a 0xe11a no_contacts some_id refl refl

delete_node-cells_example :
    let ix = get_cell some_id in
    let held = low_checksum (one_contact.cells ix).nih_l == low_checksum (nih_low some_id) in
    (is_empty ((delete_node some_id one_contact).cells ix)
      ≡ (held || is_empty (one_contact.cells ix)))
    × ((if held then one_contact else delete_node some_id one_contact) ≡ one_contact)
    × ((i : ℕ)
        → (delete_node some_id one_contact).cells i
          ≡ (if ix == i then (delete_node some_id one_contact).cells ix else one_contact.cells i))
delete_node-cells_example = delete_node-cells some_id one_contact one_contact-IsRt

get_random_valid_node-Finds_example :
    Finds one_contact (randint one_contact.world 0 rt_size) (get_random_valid_node one_contact).0
get_random_valid_node-Finds_example = get_random_valid_node-Finds one_contact

get_neighbor_contact-Gives_example :
    Gives other_id one_contact (get_neighbor_contact other_id one_contact)
get_neighbor_contact-Gives_example =
    get_neighbor_contact-Gives other_id one_contact refl (omega arith)

validate_addr_lem_example :
    validate_addr 0x0100000a 0xe11a
    ≡ (ltb 1024 (be16toh 0xe11a) && not (in_any (be32toh 0x0100000a) reserved))
validate_addr_lem_example = validate_addr_lem 0x0100000a 0xe11a
