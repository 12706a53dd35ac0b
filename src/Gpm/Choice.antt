-- ===== src/Gpm/Choice.antt =====
-- cht/gpmap.cpp: which nodes `find_best_hops` chooses.
pub mod Insertion
pub mod Ranking
use mathlib.Core.List.{Perm, perm_middle, append-nil, map}
use mathlib.Core.List.Perm
use dht_cpp.Base.{
  ℕ, zero, suc, ◌+◌, ◌≤◌, ◌<◌, min, Bool, true, false, ◌&&◌, ◌||◌, List, [], ◌∷◌, ◌++◌, length,
  take, replicate, ltb, if◌then◌else◌, ◌≡◌, refl, sym, subst, arith, inl, inr, Bool-cases, ap, ◌∙◌,
  length-append,
}
use dht_cpp.Dht.{Nih, PNode}
use dht_cpp.Gpm.Hops.{
  Best, max_gp_pnodes, bullshit_dkad, displace, rank, unranked, node_at, nodes_at, find_best_hops,
}
use dht_cpp.Util.Dkad.{dkad}
use dht_cpp.Gpm.Choice.Insertion.{IsRanked, is_near, candidates, Each, IsPlace}
use dht_cpp.Gpm.Choice.Ranking.{IsTail, IsTail-cons, IsTail-head, Ranks, rank-Ranks}

-- The nodes with a distance that is looked at, in the order in which they are given.
abbrev pub near_nodes : Nih → List PNode → List PNode
near_nodes ih [] = []
near_nodes ih (node ∷ nodes) =
    let rest = near_nodes ih nodes in if is_near (dkad ih node.nid) then node ∷ rest else rest

-- The distances do not fall from one node to the next.
abbrev pub IsNearest : Nih → ℕ → List PNode → Type 0
IsNearest ih least [] = Unit
IsNearest ih least (node ∷ nodes) =
    (least ≤ dkad ih node.nid) × IsNearest ih (dkad ih node.nid) nodes

module _ (ih : Nih) (all : List PNode) where
  nodes_at-candidates :
      (nodes : List PNode) (ix : ℕ)
      → IsTail all nodes ix
      → nodes_at all (candidates ih nodes ix) ≡ near_nodes ih nodes
  nodes_at-candidates [] ix tail = refl
  nodes_at-candidates (node ∷ nodes) ix tail =
      let rest = nodes_at-candidates nodes (ix + 1) (IsTail-cons all nodes node ix tail) in
      elim (Bool-cases (is_near (dkad ih node.nid))) [
        | inl is ↦ rw (is, IsTail-head all nodes node ix tail) (ap (λ ns. node ∷ ns) rest)
        | inr not ↦ rw not rest
      ]

  nodes_at-IsNearest :
      (least : ℕ) (near : List Best)
      → IsRanked least near
      → Each (IsPlace ih all) near
      → IsNearest ih least (nodes_at all near)
  nodes_at-IsNearest least [] r each = tt
  nodes_at-IsNearest least (best ∷ near) (l, r) ((low, is), each) = (
    omega (arith, is),
    subst (λ d. IsNearest ih d (nodes_at all near)) is (nodes_at-IsNearest best.dkad near r each),
  )

  nodes_at-map : (bests : List Best) → nodes_at all bests ≡ map (λ b. node_at all b.ix) bests
  nodes_at-map [] = refl
  nodes_at-map (best ∷ bests) = ap (λ ns. node_at all best.ix ∷ ns) (nodes_at-map bests)

  nodes_at-perm : (xs ys : List Best) → Perm xs ys → Perm (nodes_at all xs) (nodes_at all ys)
  nodes_at-perm xs ys p = rw (nodes_at-map xs, nodes_at-map ys) (Perm.map (λ b. node_at all b.ix) p)

  nodes_at-take :
      (n : ℕ) (bests : List Best) → nodes_at all (take n bests) ≡ take n (nodes_at all bests)
  nodes_at-take zero bests = refl
  nodes_at-take (suc n) [] = refl
  nodes_at-take (suc n) (best ∷ bests) = ap (λ ns. node_at all best.ix ∷ ns) (nodes_at-take n bests)

  nodes_at-append :
      (xs ys : List Best) → nodes_at all (xs ++ ys) ≡ nodes_at all xs ++ nodes_at all ys
  nodes_at-append [] ys = refl
  nodes_at-append (best ∷ xs) ys = ap (λ ns. node_at all best.ix ∷ ns) (nodes_at-append xs ys)

take-take : (n k : ℕ) (bests : List Best) → n ≤ k → take n (take k bests) ≡ take n bests
take-take zero k bests h = refl
take-take (suc n) zero bests h = absurd (omega arith)
take-take (suc n) (suc k) [] h = refl
take-take (suc n) (suc k) (best ∷ bests) h =
    ap (λ rest. best ∷ rest) (take-take n k bests (omega arith))

-- Of one node or more, `find_best_hops` pushes as many as there are, up to 8: those whose distance
-- from the info hash is above `BULLSHIT_DKAD` and below 160, ordered by their distances, and if these
-- are not enough, the first node given again and again. The ordered list has each such node as often
-- as the list that is given.
pub find_best_hops_lem :
    (node : PNode) (nodes : List PNode) (ih : Nih)
    → (near : List PNode) × Perm near (near_nodes ih (node ∷ nodes))
      × IsNearest ih 0 near
      × (find_best_hops (node ∷ nodes) ih
          ≡ take (min max_gp_pnodes (length (node ∷ nodes))) (near ++ replicate max_gp_pnodes node))
unfolding find_best_hops Ranks node_at
find_best_hops_lem node nodes ih =
    let all = node ∷ nodes in
    let n = min max_gp_pnodes (length all) in
    let tail : IsTail all all 0 = λ i. ap (node_at all) (omega arith) in
    let (near, perm, ranked, each, e) = rank-Ranks ih all all 0 [] tail tt tt in
    let whole = rw append-nil at (nodes_at-perm ih all near (candidates ih all 0 ++ []) perm) in
    (
      nodes_at all near,
      rw⁻¹ (nodes_at-candidates ih all all 0 tail) whole,
      nodes_at-IsNearest ih all 0 near ranked each,
      ap (λ bests. nodes_at all (take n bests)) e
          ∙ ap (nodes_at all) (take-take n max_gp_pnodes (near ++ unranked) (omega arith))
          ∙ nodes_at-take ih all n (near ++ unranked)
          ∙ ap (take n) (nodes_at-append ih all near unranked),
    )
