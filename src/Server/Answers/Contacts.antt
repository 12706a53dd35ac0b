-- ===== src/Server/Answers/Contacts.antt =====
-- cht/rt.cpp: the node that `get_neighbor_contact` gives out does not depend on the statistics.
use dht_cpp.Base.{
  ℕ, zero, suc, ◌-◌, ◌%◌, ◌^◌, Option, none, some, ltb, if◌then◌else◌, Bool-cases, inl, inr, ◌≡◌,
  refl, sym, ◌∙◌, ap,
}
use dht_cpp.Dht.{Nih}
use dht_cpp.Rt.{
  Rt, get_cell, is_empty, first_valid, random_from, get_random_valid_node, get_neighbor_contact,
  rt_size,
}
use dht_cpp.Stat.Counters.{Counters, st_inc}
use dht_cpp.Stat.{rt_miss}
use dht_cpp.Util.Random.{draw, randint}

-- The same table with other statistics.
abbrev counted : Rt → Counters → Rt
counted t c = record t { counters = c }

first_valid-counters :
    (left end : ℕ) (t : Rt) (c : Counters)
    → first_valid left end (counted t c) ≡ first_valid left end t
unfolding first_valid
first_valid-counters zero end t c = refl
first_valid-counters (suc left) end t c =
    ap
      (λ rest.
        if is_empty (t.cells ((end - suc left) % 2 ^ 16))
        then rest
        else some ((end - suc left) % 2 ^ 16))
      (first_valid-counters left end t c)

random_from-counters :
    (o : Option ℕ) (t : Rt) (c : Counters) → (random_from o (counted t c)).0 ≡ (random_from o t).0
unfolding random_from
random_from-counters none t c = refl
random_from-counters (some ix) t c = refl

get_random-counters :
    (t : Rt) (c : Counters) → (get_random_valid_node (counted t c)).0 ≡ (get_random_valid_node t).0
unfolding get_random_valid_node
get_random-counters t c =
    let start = randint t.world 0 rt_size in
    let t' : Rt = record t { world = draw t.world } in
    let found = λ (t : Rt). if ltb 0 start then first_valid (rt_size - start) rt_size t else none in
    let same : found (counted t' c) ≡ found t' =
      ap (λ o. if ltb 0 start then o else none)
        (first_valid-counters (rt_size - start) rt_size t' c) in
    ap (λ o. (random_from o (counted t' c)).0) same ∙ random_from-counters (found t') t' c

pub get_neighbor_contact-counters :
    (target : Nih) (t : Rt) (c : Counters)
    → (get_neighbor_contact target (counted t c)).0 ≡ (get_neighbor_contact target t).0
unfolding get_neighbor_contact
get_neighbor_contact-counters target t c =
    elim (Bool-cases (is_empty (t.cells (get_cell target)))) [
      | inl empty ↦ rw empty (
          get_random-counters t (st_inc rt_miss c)
          ∙ sym (get_random-counters t (st_inc rt_miss t.counters)))
      | inr kept ↦ rw kept refl
    ]
