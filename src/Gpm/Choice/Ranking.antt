-- ===== src/Gpm/Choice/Ranking.antt =====
-- cht/gpmap.cpp: what `find_best_hops` has ranked behind its outer loop.
use mathlib.Core.List.{Perm, perm_middle}
use mathlib.Core.List.Perm
use dht_cpp.Base.{
  ℕ, zero, suc, ◌+◌, ◌<◌, List, [], ◌∷◌, ◌++◌, ◌≡◌, refl, sym, arith, inl, inr, Bool-cases, ap, ◌∙◌,
}
use dht_cpp.Dht.{Nih, PNode}
use dht_cpp.Gpm.Hops.{Best, max_gp_pnodes, rank, unranked, node_at}
use dht_cpp.Util.Dkad.{dkad}
use dht_cpp.Gpm.Choice.Insertion.{
  IsRanked, is_near, candidates, insert, insert-perm, insert-IsRanked, Each, insert-Each, IsPlace,
  displace-IsLow, append-IsLow, places, displace-places,
}

-- `nodes` is what is left of `all` from `ix` on.
abbrev pub IsTail : List PNode → List PNode → ℕ → Type 0
IsTail all nodes ix = (i : ℕ) → node_at all (ix + i) ≡ node_at nodes i

pub IsTail-cons :
    (all nodes : List PNode) (node : PNode) (ix : ℕ)
    → IsTail all (node ∷ nodes) ix
    → IsTail all nodes (ix + 1)
unfolding node_at
IsTail-cons all nodes node ix tail i =
    let next : ix + 1 + i ≡ ix + suc i = omega arith in ap (node_at all) next ∙ tail (suc i)

pub IsTail-head :
    (all nodes : List PNode) (node : PNode) (ix : ℕ)
    → IsTail all (node ∷ nodes) ix
    → node_at all ix ≡ node
unfolding node_at
IsTail-head all nodes node ix tail =
    let here : ix ≡ ix + zero = omega arith in ap (node_at all) here ∙ tail zero

module _ (ih : Nih) (all : List PNode) where
  -- Behind the loop over the nodes from `ix` on.
  unfoldable pub Ranks : List PNode → ℕ → List Best → Type 0
  unfolding rank
  Ranks nodes ix near =
      (near' : List Best) × Perm near' (candidates ih nodes ix ++ near)
      × IsRanked 0 near'
      × Each (IsPlace ih all) near'
      × (rank ih nodes ix (places near) ≡ places near')

  pub rank-Ranks :
      (nodes : List PNode) (ix : ℕ) (near : List Best)
      → IsTail all nodes ix
      → IsRanked 0 near
      → Each (IsPlace ih all) near
      → Ranks nodes ix near
  unfolding Ranks
  rank-Ranks [] ix near tail r each = (near, Perm.rfl, r, each, refl)
  rank-Ranks (node ∷ nodes) ix near tail r each =
      let this : Best = record { dkad = dkad ih node.nid; ix = ix } in
      let cands = candidates ih nodes (ix + 1) in
      let tail' = IsTail-cons all nodes node ix tail in
      let own = ap (λ p. dkad ih p.nid) (sym (IsTail-head all nodes node ix tail)) in
      elim (Bool-cases (is_near this.dkad)) [
        | inl is ↦
            let low : this.dkad < 160 = ground arith in
            let (near', perm, ranked, each', e) =
              rank-Ranks nodes (ix + 1) (insert this near) tail'
                (insert-IsRanked this 0 near (omega arith) r)
                (insert-Each (IsPlace ih all) this near (low, own) each) in
            let moved =
              Perm.trans (Perm.append_left cands (insert-perm this near))
                (perm_middle cands near) in
            (
              near',
              rw is (Perm.trans perm moved),
              ranked,
              each',
              ap (rank ih nodes (ix + 1)) (displace-places this near is) ∙ e,
            )
        | inr not ↦
            let (near', perm, ranked, each', e) = rank-Ranks nodes (ix + 1) near tail' r each in
            (
              near',
              rw not perm,
              ranked,
              each',
              ap (rank ih nodes (ix + 1)) (
                    displace-IsLow max_gp_pnodes this (near ++ unranked) not
                      (append-IsLow ih all near each))
                  ∙ e,
            )
      ]
