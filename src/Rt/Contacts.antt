-- ===== src/Rt/Contacts.antt =====
-- cht/rt.cpp: the cell of a contact, inserted and deleted.
use dht_cpp.Base.{
  if◌then◌else◌, ◌==◌, ℕ, zero, suc, ◌<◌, true, false, List, [], ◌∷◌, ◌++◌, take, drop, get_or,
  length, Bytes, ◌==◌, ◌≡◌, ◌≢◌, refl, arith, ap, sym, ◌∙◌, ==_refl, ==_ne, Bool-cases, sym, ==_iff,
  if_elim, ◌||◌, if_elim, inl, inr, each_byte,
}
use dht_cpp.Dht.{Nih, u32_of}
use dht_cpp.Rt.{
  Nodeinfo, Rt, low_checksum, nih_low, is_empty, get_cell, set_cell, insert_contact, delete_node,
  get_neighbor_contact, low_csum_offset,
}
use dht_cpp.Rt.Address.{validate_addr}

-- Every cell holds the last 18 bytes of an id.
abbrev pub IsRt : Rt → Type 0
IsRt t = (i : ℕ) → length (t.cells i).nih_l ≡ 18

module _ {ℓ} {A : Type ℓ} where
  take-append-drop : (n : ℕ) (xs : List A) → take n xs ++ drop n xs ≡ xs
  take-append-drop zero xs = refl
  take-append-drop (suc n) [] = refl
  take-append-drop (suc n) (x ∷ xs) = ap (◌∷◌ x) (take-append-drop n xs)

  get_or-take : (n i : ℕ) (xs : List A) (d : A) → i < n → get_or (take n xs) i d ≡ get_or xs i d
  get_or-take zero i xs d h = absurd (omega arith)
  get_or-take (suc n) i [] d h = refl
  get_or-take (suc n) zero (x ∷ xs) d h = refl
  get_or-take (suc n) (suc i) (x ∷ xs) d h = get_or-take n i xs d (omega arith)

same_cell : (x y : Nih) → take 2 x ≡ take 2 y → get_cell x ≡ get_cell y
unfolding get_cell
same_cell x y e =
    let first : get_or x 0 0 ≡ get_or y 0 0 =
      sym (get_or-take 2 0 x 0 (omega arith))
      ∙ ap (λ z. get_or z 0 0) e
      ∙ get_or-take 2 0 y 0 (omega arith) in
    let second : get_or x 1 0 ≡ get_or y 1 0 =
      sym (get_or-take 2 1 x 0 (omega arith))
      ∙ ap (λ z. get_or z 1 0) e
      ∙ get_or-take 2 1 y 0 (omega arith) in
    omega (arith, first, second)

module _ (nid : Nih) (addr port : ℕ) (t : Rt) where
  -- What stands in the table behind an insertion.
  pub insert_here :
      (insert_contact nid addr port t).cells (get_cell nid)
      ≡ record { nih_l = nih_low nid; peerinfo = record { in_addr = addr; sin_port = port } }
  unfolding insert_contact set_cell
  insert_here = elim (Bool-cases (validate_addr addr port)) [
    | inl valid ↦ rw (valid, ==_refl (get_cell nid)) refl
    | inr invalid ↦ rw (invalid, ==_refl (get_cell nid)) refl
  ]

  pub insert_elsewhere :
      (i : ℕ) → get_cell nid ≢ i → (insert_contact nid addr port t).cells i ≡ t.cells i
  unfolding insert_contact set_cell
  insert_elsewhere i n = elim (Bool-cases (validate_addr addr port)) [
    | inl valid ↦ rw (valid, ==_ne (get_cell nid) i n) refl
    | inr invalid ↦ rw (invalid, ==_ne (get_cell nid) i n) refl
  ]

  -- A contact that was inserted is the answer for every target with its first two bytes, whether its
  -- address is valid or not, unless the last four bytes of its id are all zero.
  pub get_neighbor_contact-insert :
      (target : Nih)
      → take 2 target ≡ take 2 nid
      → (low_checksum (nih_low nid) == 0) ≡ false
      → get_neighbor_contact target (insert_contact nid addr port t) ≡ (
        record { nid = nid; peerinfo = record { in_addr = addr; sin_port = port } },
        insert_contact nid addr port t,
      )
  unfolding get_neighbor_contact is_empty
  get_neighbor_contact-insert target e n =
      rw (same_cell target nid e, insert_here, n, e, take-append-drop 2 nid) refl

cleared :
    (low : Bytes)
    → length low ≡ 18
    → (low_checksum (take low_csum_offset low ++ 0 ∷ 0 ∷ 0 ∷ 0 ∷ []) == 0) ≡ true
unfolding low_checksum u32_of
cleared low h =
    each_byte 18 (λ x. (low_checksum (take low_csum_offset x ++ 0 ∷ 0 ∷ 0 ∷ 0 ∷ []) == 0) ≡ true)
      (λ a b c d e f g h i j k l m n o p q r. refl) low h

-- On a table with 18 bytes of an id in every cell, deleting a node empties its cell if the cell holds
-- a node with its last four bytes; if it does not, the table is left as it is. No other cell changes.
pub delete_node-cells :
    (target : Nih) (t : Rt)
    → IsRt t
    → let ix = get_cell target in
      let held = low_checksum (t.cells ix).nih_l == low_checksum (nih_low target) in
      (is_empty ((delete_node target t).cells ix) ≡ (held || is_empty (t.cells ix)))
      × ((if held then t else delete_node target t) ≡ t)
      × ((i : ℕ)
          → (delete_node target t).cells i
            ≡ (if ix == i then (delete_node target t).cells ix else t.cells i))
unfolding delete_node is_empty low_checksum
delete_node-cells target t h =
    let ix = get_cell target in
    elim (Bool-cases (low_checksum (t.cells ix).nih_l == low_checksum (nih_low target))) [
      | inl held ↦ rw (held, ==_refl ix) (cleared (t.cells ix).nih_l (h ix), refl, (λ i. refl))
      | inr gone ↦ rw gone (
        refl,
        refl,
        (λ i. sym (
            if_elim (λ (x : Nodeinfo). x ≡ t.cells i) (ix == i)
              (λ e. ap t.cells ((==_iff ix i).0 e)) (λ e. refl))),
      )
    ]
