-- ===== src/Gpm/Choice/Insertion.antt =====
-- cht/gpmap.cpp: the inner loop of `find_best_hops` inserts a node among those that are ranked.
use mathlib.Core.List.{Perm}
use mathlib.Core.List.Perm
use dht_cpp.Base.{
  ℕ, zero, suc, ◌+◌, ◌≤◌, ◌<◌, Bool, true, false, ◌&&◌, List, [], ◌∷◌, ◌++◌, length, take, ltb,
  if◌then◌else◌, ◌≡◌, refl, arith, inl, inr, Bool-cases, ap, ◌∙◌, length-append,
}
use dht_cpp.Dht.{Nih, PNode}
use dht_cpp.Gpm.Hops.{Best, max_gp_pnodes, bullshit_dkad, displace, unranked, node_at}
use dht_cpp.Util.Dkad.{dkad}

-- The distances do not fall from one place to the next.
abbrev pub IsRanked : ℕ → List Best → Type 0
IsRanked least [] = Unit
IsRanked least (best ∷ bests) = (least ≤ best.dkad) × IsRanked best.dkad bests

-- A distance that is looked at: above `BULLSHIT_DKAD`, and below 160.
abbrev pub is_near : ℕ → Bool
is_near d = ltb bullshit_dkad d && ltb d 160

-- The nodes from the number `ix` on with such a distance, with their numbers.
abbrev pub candidates : Nih → List PNode → ℕ → List Best
candidates ih [] ix = []
candidates ih (node ∷ nodes) ix =
    let rest = candidates ih nodes (ix + 1) in
    if is_near (dkad ih node.nid) then record { dkad = dkad ih node.nid; ix = ix } ∷ rest else rest

-- A candidate goes in front of the first that is farther.
unfoldable pub insert : Best → List Best → List Best
insert this [] = this ∷ []
insert this (best ∷ bests) =
    let rest = insert this bests in
    if ltb this.dkad best.dkad then this ∷ best ∷ bests else best ∷ rest

pub insert-perm : (this : Best) (bests : List Best) → Perm (insert this bests) (this ∷ bests)
unfolding insert
insert-perm this [] = Perm.rfl
insert-perm this (best ∷ bests) = elim (Bool-cases (ltb this.dkad best.dkad)) [
  | inl nearer ↦ rw nearer Perm.rfl
  | inr farther ↦
      rw farther (Perm.trans (Perm.cons best (insert-perm this bests)) (Perm.swap this best bests))
]

pub insert-IsRanked :
    (this : Best) (least : ℕ) (bests : List Best)
    → least ≤ this.dkad
    → IsRanked least bests
    → IsRanked least (insert this bests)
unfolding insert
insert-IsRanked this least [] h r = (h, tt)
insert-IsRanked this least (best ∷ bests) h (l, r) = elim (Bool-cases (ltb this.dkad best.dkad)) [
  | inl nearer ↦ rw nearer (h, (ground arith, r))
  | inr farther ↦ rw farther (l, insert-IsRanked this best.dkad bests (ground arith) r)
]

length-insert : (this : Best) (bests : List Best) → length (insert this bests) ≡ suc (length bests)
unfolding insert
length-insert this [] = refl
length-insert this (best ∷ bests) = elim (Bool-cases (ltb this.dkad best.dkad)) [
  | inl nearer ↦ rw nearer refl
  | inr farther ↦ rw farther (ap suc (length-insert this bests))
]

-- The inner loop moves the places down, on the first `k` of a list that is long enough.
displace-moved :
    (k : ℕ) (this : Best) (bests : List Best)
    → k ≤ length bests
    → displace true this (take k bests) ≡ take k (this ∷ bests)
unfolding displace
displace-moved zero this bests h = refl
displace-moved (suc k) this [] h = absurd (omega arith)
displace-moved (suc k) this (best ∷ bests) h =
    ap (λ rest. this ∷ rest) (displace-moved k best bests (omega arith))

-- A candidate is inserted.
displace-insert :
    (k : ℕ) (this : Best) (bests : List Best)
    → bullshit_dkad < this.dkad
    → k ≤ length bests
    → displace false this (take k bests) ≡ take k (insert this bests)
unfolding displace insert
displace-insert zero this bests far h = refl
displace-insert (suc k) this [] far h = absurd (omega arith)
displace-insert (suc k) this (best ∷ bests) far h =
    let away : ltb bullshit_dkad this.dkad ≡ true = ground arith in
    elim (Bool-cases (ltb this.dkad best.dkad)) [
      | inl nearer ↦
          rw (nearer, away) (ap (λ rest. this ∷ rest) (displace-moved k best bests (omega arith)))
      | inr farther ↦
          rw farther (ap (λ rest. best ∷ rest) (displace-insert k this bests far (omega arith)))
    ]

abbrev pub Each : (Best → Type 0) → List Best → Type 0
Each P [] = Unit
Each P (best ∷ bests) = P best × Each P bests

pub insert-Each :
    (P : Best → Type 0) (this : Best) (bests : List Best)
    → P this
    → Each P bests
    → Each P (insert this bests)
unfolding insert
insert-Each P this [] h all = (h, tt)
insert-Each P this (best ∷ bests) h (here, all) = elim (Bool-cases (ltb this.dkad best.dkad)) [
  | inl nearer ↦ rw nearer (h, (here, all))
  | inr farther ↦ rw farther (here, insert-Each P this bests h all)
]

-- A distance that the places are initialised with, or one that is nearer.
abbrev IsLow : Best → Type 0
IsLow best = best.dkad ≤ 160

-- A place with the number of a node, and its distance, which is below 160.
abbrev pub IsPlace : Nih → List PNode → Best → Type 0
IsPlace ih all best = (best.dkad < 160) × (best.dkad ≡ dkad ih (node_at all best.ix).nid)

-- Any other node is passed over, in front of places up to 160.
pub displace-IsLow :
    (k : ℕ) (this : Best) (bests : List Best)
    → is_near this.dkad ≡ false
    → Each IsLow bests
    → displace false this (take k bests) ≡ take k bests
unfolding displace
displace-IsLow zero this bests h all = refl
displace-IsLow (suc k) this [] h all = refl
displace-IsLow (suc k) this (best ∷ bests) h (here, all) =
    let passed : (ltb this.dkad best.dkad && ltb bullshit_dkad this.dkad) ≡ false = ground arith in
    rw passed (ap (λ rest. best ∷ rest) (displace-IsLow k this bests h all))

pub append-IsLow :
    (ih : Nih) (all : List PNode) (near : List Best)
    → Each (IsPlace ih all) near
    → Each IsLow (near ++ unranked)
append-IsLow ih all [] h =
    let low : 160 ≤ 160 = omega arith in (low, (low, (low, (low, (low, (low, (low, (low, tt))))))))
append-IsLow ih all (best ∷ near) ((low, is), h) = (omega arith, append-IsLow ih all near h)

insert-append :
    (this : Best) (near : List Best)
    → this.dkad < 160
    → insert this (near ++ unranked) ≡ insert this near ++ unranked
unfolding insert
insert-append this [] h = let nearer : ltb this.dkad 160 ≡ true = ground arith in rw nearer refl
insert-append this (best ∷ near) h = elim (Bool-cases (ltb this.dkad best.dkad)) [
  | inl nearer ↦ rw nearer refl
  | inr farther ↦ rw farther (ap (λ rest. best ∷ rest) (insert-append this near h))
]

-- The eight places hold the first of the candidates so far, in their order, in front of places that
-- are still without a node.
abbrev pub places : List Best → List Best
places near = take max_gp_pnodes (near ++ unranked)

pub displace-places :
    (this : Best) (near : List Best)
    → is_near this.dkad ≡ true
    → displace false this (places near) ≡ places (insert this near)
displace-places this near h =
    let size : max_gp_pnodes ≤ length (near ++ unranked) =
      omega (arith, length-append near unranked) in
    displace-insert max_gp_pnodes this (near ++ unranked) (ground arith) size
    ∙ ap (take max_gp_pnodes) (insert-append this near (ground arith))
