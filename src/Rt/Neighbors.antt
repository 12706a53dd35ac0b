-- ===== src/Rt/Neighbors.antt =====
-- cht/rt.cpp: which contact `get_neighbor_contact` gives out.
use dht_cpp.Base.{
  ℕ, ◌+◌, ◌*◌, ◌/◌, ◌%◌, true, false, [], ◌∷◌, ◌++◌, AreBytes, Option, none, some, take, ◌≡◌, ◌⊎◌,
  refl, arith, sym, Bool-cases, inl, inr,
}
use dht_cpp.Dht.{Nih, IsNih}
use dht_cpp.Rt.Search.{Finds, get_random_valid_node-Finds}
use dht_cpp.Rt.{
  Rt, Nodeinfo, Contact, is_empty, get_cell, get_neighbor_contact, get_random_valid_node,
  random_from, node_in, rt_size, count_stat,
}
use dht_cpp.Stat.{rt_miss}
use dht_cpp.Util.Random.{randint}

-- The cell at the first two bytes of an id is the cell whose nodes have these bytes.
node_in-get_cell :
    (target : Nih) (cell : Nodeinfo)
    → IsNih target
    → AreBytes target
    → node_in (get_cell target) cell
      ≡ record { nid = take 2 target ++ cell.nih_l; peerinfo = cell.peerinfo }
unfolding get_cell
node_in-get_cell [] cell h bytes = absurd (omega arith)
node_in-get_cell (a ∷ []) cell h bytes = absurd (omega arith)
node_in-get_cell (a ∷ b ∷ rest) cell h (low, bytes) =
    let first : (256 * a + b) / 256 ≡ a = omega (arith, bytes.0) in
    let second : (256 * a + b) % 256 ≡ b = omega (arith, bytes.0) in
    λ i. record { nid = first i ∷ second i ∷ cell.nih_l; peerinfo = cell.peerinfo }

random_from-cells : (o : Option ℕ) (t : Rt) → (random_from o t).1.cells ≡ t.cells
unfolding random_from
random_from-cells none t = refl
random_from-cells (some ix) t = refl

get_random_valid_node-cells : (t : Rt) → (get_random_valid_node t).1.cells ≡ t.cells
unfolding get_random_valid_node
get_random_valid_node-cells t = random_from-cells _ _

-- What is given out for a target, and the table behind it: the node of the cell at the first two bytes
-- of the target, or if that is empty a random contact, for which a miss has been counted.
abbrev pub Gives : Nih → Rt → Contact → Type 0
Gives target t (p, t') =
    let ix = get_cell target in
    ((is_empty (t.cells ix) ≡ false) × (p ≡ node_in ix (t.cells ix)) × (t' ≡ t))
    ⊎ ((is_empty (t.cells ix) ≡ true)
        × Finds t (randint t.world 0 rt_size) p
        × ((p, t') ≡ get_random_valid_node (count_stat rt_miss t))
        × (t'.cells ≡ t.cells))

-- For a target of 20 bytes, `get_neighbor_contact` gives out the node of the cell at the first two bytes
-- of the target, and leaves the table alone, if this cell is not empty. If it is empty, a miss is
-- counted, and it gives out a random contact: the node of a cell that is not empty, or the node of
-- zeroes, which it is only if the random start is 0 or every cell from the start to the end of the
-- range is empty; the cells stay as they are.
pub get_neighbor_contact-Gives :
    (target : Nih) (t : Rt)
    → IsNih target
    → AreBytes target
    → Gives target t (get_neighbor_contact target t)
unfolding get_neighbor_contact
get_neighbor_contact-Gives target t h bytes =
    let miss = count_stat rt_miss t in
    elim (Bool-cases (is_empty (t.cells (get_cell target)))) [
      | inl empty ↦
          rw empty
            (inr (refl, get_random_valid_node-Finds miss, refl, get_random_valid_node-cells miss))
      | inr kept ↦
          rw kept
            (inl (refl, sym (node_in-get_cell target (t.cells (get_cell target)) h bytes), refl))
    ]
