-- ===== src/Gpm/Hops.antt =====
-- cht/gpmap.cpp: `find_best_hops`, the choice of the nodes to ask next. Its calls of `st_click_dkad`,
-- which only count the distances, are `click_dkads` of Main/Handlers.
use dht_cpp.Base.{
  ℕ, zero, suc, ◌+◌, Bool, false, ◌&&◌, ◌||◌, List, [], ◌∷◌, length, min, take, replicate, ltb,
  if◌then◌else◌,
}
use dht_cpp.Dht.{Nih, PNode}
use dht_cpp.Util.Dkad.{dkad}

abbrev pub max_gp_pnodes : ℕ
max_gp_pnodes = 8

abbrev pub bullshit_dkad : ℕ
bullshit_dkad = 100

-- `NextHop`
pub record NextHop : Type 0 where
  pub ih : Nih
  pub pnodes : List PNode
  pub hop_ctr : ℕ

-- One place of the arrays `best_dkads` and `best_ixes`.
pub record Best : Type 0 where
  pub dkad : ℕ
  pub ix : ℕ

-- The inner loop: once a place is displaced, all behind it move down by one.
unfoldable pub displace : Bool → Best → List Best → List Best
displace moved this [] = []
displace moved this (best ∷ bests) =
    let moved' = moved || ltb this.dkad best.dkad && ltb bullshit_dkad this.dkad in
    let rest = displace moved' (if moved' then best else this) bests in
    (if moved' then this else best) ∷ rest

-- The outer loop, from the node at `ix` on.
unfoldable pub rank : Nih → List PNode → ℕ → List Best → List Best
unfolding displace
rank ih [] ix bests = bests
rank ih (node ∷ nodes) ix bests =
    rank ih nodes (ix + 1) (displace false (record { dkad = dkad ih node.nid; ix = ix }) bests)

abbrev pub unranked : List Best
unranked = replicate max_gp_pnodes (record { dkad = 160; ix = 0 })

-- `nodes[ix]`. Behind the last node the model has a node of no bytes.
abbrev pub no_node : PNode
no_node = record { nid = []; peerinfo = record { in_addr = 0; sin_port = 0 } }

unfoldable pub node_at : List PNode → ℕ → PNode
node_at [] i = no_node
node_at (node ∷ nodes) zero = node
node_at (node ∷ nodes) (suc i) = node_at nodes i

abbrev pub nodes_at : List PNode → List Best → List PNode
nodes_at nodes [] = []
nodes_at nodes (b ∷ bests) = node_at nodes b.ix ∷ nodes_at nodes bests

-- The nodes pushed, `n_pnodes` of them.
unfoldable pub find_best_hops : List PNode → Nih → List PNode
unfolding rank node_at
find_best_hops nodes ih =
    nodes_at nodes (take (min max_gp_pnodes (length nodes)) (rank ih nodes 0 unranked))
