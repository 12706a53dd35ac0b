-- ===== src/Rt/Search.antt =====
-- cht/rt.cpp: the search for a random contact, and the ids of the contacts that the table gives out.
use dht_cpp.Base.{
  ℕ, zero, suc, ◌+◌, ◌-◌, ◌%◌, ◌^◌, ◌≤◌, ◌<◌, true, false, [], ◌∷◌, ◌++◌, Bytes, Option, none, some,
  length, take, ltb, ◌==◌, if_elim, ◌≡◌, ◌⊎◌, refl, arith, ap, subst, ◌∙◌, Bool-cases, inl, inr,
  ==_iff, length-append, length-take, length-drop,
}
use dht_cpp.Dht.{Nih, IsNih, PNode}
use dht_cpp.Rt.Contacts.{IsRt, insert_here, insert_elsewhere}
use dht_cpp.Rt.{
  Rt, Nodeinfo, Contact, low_checksum, nih_low, is_empty, get_cell, insert_contact, delete_node,
  get_neighbor_contact, get_random_valid_node, first_valid, random_from, node_in, zero_node,
  rt_size, low_csum_offset,
}
use dht_cpp.Stat.Counters.{st_inc}
use dht_cpp.Stat.{rt_miss}
use dht_cpp.Util.Random.{World, randint, draw}

-- What the search over the indices from `from` up to `end` comes to. An index is taken modulo 2 ^ 16.
abbrev pub Searches : Rt → ℕ → ℕ → Option ℕ → Type 0
Searches t from end (some ix) = (ix < 2 ^ 16) × (is_empty (t.cells ix) ≡ false)
Searches t from end none = (j : ℕ) → from ≤ j → j < end → is_empty (t.cells (j % 2 ^ 16)) ≡ true

module _ (t : Rt) (end : ℕ) where
  search_on :
      (from : ℕ) (o : Option ℕ)
      → is_empty (t.cells (from % 2 ^ 16)) ≡ true
      → Searches t (from + 1) end o
      → Searches t from end o
  search_on from (some ix) e s = s
  search_on from none e s = λ j l h. elim (Bool-cases (from == j)) [
    | inl same ↦ subst (λ x. is_empty (t.cells (x % 2 ^ 16)) ≡ true) ((==_iff from j).0 same) e
    | inr other ↦ s j (ground arith) h
  ]

  first_valid-Searches :
      (left : ℕ) → left ≤ end → Searches t (end - left) end (first_valid left end t)
  unfolding first_valid
  first_valid-Searches zero h = λ j l k. absurd (omega arith)
  first_valid-Searches (suc left) h =
      let from = end - suc left in
      if_elim (Searches t from end) (is_empty (t.cells (from % 2 ^ 16)))
        (λ e. search_on from (first_valid left end t) e (
          subst (λ x. Searches t x end (first_valid left end t)) (omega arith)
            (first_valid-Searches left (omega arith))))
        (λ e. (omega arith, e))

-- The two ways in which the search for a random contact ends, from `start`.
abbrev pub Finds : Rt → ℕ → PNode → Type 0
Finds t start p =
    ((ix : ℕ) × (ix < 2 ^ 16) × (is_empty (t.cells ix) ≡ false) × (p ≡ node_in ix (t.cells ix)))
    ⊎ ((p ≡ zero_node)
        × ((start ≡ 0)
            ⊎ ((j : ℕ) → start ≤ j → j < rt_size → is_empty (t.cells (j % 2 ^ 16)) ≡ true)))

random_from-Finds :
    (t : Rt) (w : World) (start : ℕ) (o : Option ℕ)
    → Searches t (rt_size - (rt_size - start)) rt_size o
    → Finds t start (random_from o (record t { world = w })).0
unfolding random_from
random_from-Finds t w start (some ix) (h, e) = inl (ix, h, e, refl)
random_from-Finds t w start none s = inr (refl, inr (λ j l h. s j (omega arith) h))

first_valid_world :
    (left end : ℕ) (t : Rt) (w : World)
    → first_valid left end (record t { world = w }) ≡ first_valid left end t
unfolding first_valid
first_valid_world zero end t w = refl
first_valid_world (suc left) end t w = rw (first_valid_world left end t w) refl

-- A random contact is the contact of a cell that is not empty, or the node of zeroes; the latter only
-- if the random start is 0, or every cell from the start to the end of the range is empty.
pub get_random_valid_node-Finds :
    (t : Rt) → Finds t (randint t.world 0 rt_size) (get_random_valid_node t).0
unfolding get_random_valid_node
get_random_valid_node-Finds t =
    let start = randint t.world 0 rt_size in
    let w = draw t.world in
    elim (Bool-cases (ltb 0 start)) [
      | inl later ↦
          rw (later, first_valid_world (rt_size - start) rt_size t w)
            (random_from-Finds t w start (first_valid (rt_size - start) rt_size t)
              (first_valid-Searches t rt_size (rt_size - start) (omega arith)))
      | inr at_zero ↦ rw at_zero (inr (refl, inl (ground arith)))
    ]

-- Insertions of ids of 20 bytes and deletions keep 18 bytes of an id in every cell.
pub insert_contact-IsRt :
    (nid : Nih) (addr port : ℕ) (t : Rt)
    → IsNih nid
    → IsRt t
    → IsRt (insert_contact nid addr port t)
insert_contact-IsRt nid addr port t h r i = elim (Bool-cases (get_cell nid == i)) [
  | inl same ↦
      subst (λ x. length ((insert_contact nid addr port t).cells x).nih_l ≡ 18)
        ((==_iff (get_cell nid) i).0 same)
        (ap (λ (c : Nodeinfo). length c.nih_l) (insert_here nid addr port t)
          ∙ (omega (arith, length-drop 2 nid)))
  | inr other ↦
      ap (λ (c : Nodeinfo). length c.nih_l) (insert_elsewhere nid addr port t i (ground arith))
      ∙ r i
]

cleared-length :
    (low : Bytes) → length low ≡ 18 → length (take low_csum_offset low ++ 0 ∷ 0 ∷ 0 ∷ 0 ∷ []) ≡ 18
cleared-length low h = omega (
  arith,
  length-append (take low_csum_offset low) (0 ∷ 0 ∷ 0 ∷ 0 ∷ []),
  length-take low_csum_offset low,
)

pub delete_node-IsRt : (target : Nih) (t : Rt) → IsRt t → IsRt (delete_node target t)
unfolding delete_node
delete_node-IsRt target t r i =
    if_elim (λ (x : Rt). length (x.cells i).nih_l ≡ 18)
      (low_checksum (t.cells (get_cell target)).nih_l == low_checksum (nih_low target))
      (λ e.
        if_elim (λ (c : Nodeinfo). length c.nih_l ≡ 18) (get_cell target == i)
          (λ e'. cleared-length (t.cells (get_cell target)).nih_l (r (get_cell target)))
          (λ e'. r i))
      (λ e. r i)

Finds-IsNih : (t : Rt) (start : ℕ) (p : PNode) → IsRt t → Finds t start p → IsNih p.nid
Finds-IsNih t start p r (inl (ix, h, e, is)) = rw is (omega (arith, r ix))
Finds-IsNih t start p r (inr (is, _)) = rw is refl

pub get_random_valid_node-IsNih : (t : Rt) → IsRt t → IsNih (get_random_valid_node t).0.nid
get_random_valid_node-IsNih t r =
    Finds-IsNih t (randint t.world 0 rt_size) (get_random_valid_node t).0 r
      (get_random_valid_node-Finds t)

-- On a table with 18 bytes of an id in every cell, the contact that is given out for a target of 20
-- bytes has an id of 20 bytes.
pub get_neighbor_contact-IsNih :
    (target : Nih) (t : Rt) → IsNih target → IsRt t → IsNih (get_neighbor_contact target t).0.nid
unfolding get_neighbor_contact
get_neighbor_contact-IsNih target t h r =
    let miss : Rt = record t { counters = st_inc rt_miss t.counters } in
    if_elim (λ (c : Contact). IsNih c.0.nid) (is_empty (t.cells (get_cell target)))
      (λ e.
        Finds-IsNih miss (randint t.world 0 rt_size) (get_random_valid_node miss).0 r
          (get_random_valid_node-Finds miss))
      (λ e. omega (
        arith,
        length-append (take 2 target) (t.cells (get_cell target)).nih_l,
        length-take 2 target,
        r (get_cell target),
      ))
