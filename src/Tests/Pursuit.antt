-- ===== src/Tests/Pursuit.antt =====
-- The table of info hashes at concrete tokens and messages.
use mathlib.Core.List.{Perm}
use dht_cpp.Base.{
  replicate, take as first, ◌++◌, List, [], ◌∷◌, ◌≡◌, refl, some, Run, crash, min, ok, arith,
}
use dht_cpp.Dht.{PNode, checksum, u32_of}
use dht_cpp.Gpm.Choice.{near_nodes, IsNearest, find_best_hops_lem}
use dht_cpp.Gpm.Entries.{Answers, lookup_tok-register, clear_tok_keeps}
use dht_cpp.Gpm.Hops.{max_gp_pnodes, find_best_hops, rank, displace}
use dht_cpp.Util.Dkad.{dkad}
use dht_cpp.Gpm.Reach.{start, register, take, IsGpm, Reach-IsGpm}
use dht_cpp.Gpm.Tokens.{Takes, take_tok-Takes}
use dht_cpp.Gpm.{
  Gpm, GpmStatus, lookup_tok, register_q_gp_ihash, take_tok, clear_tok, set_ih_status, set_cell,
  tok_of, nid_checksum, unset_cell, unset_cell_at,
}
use dht_cpp.Krpc.State.{Krpc, byte_at, bytes_at}
use dht_cpp.Util.Random.{IsWorld}
use dht_cpp.Tests.Samples.{blank, some_id, other_id, some_node, no_pursuits}

-- A reply with the tok 0x34 0x12 'x' from the node of `other_id`.
abbrev reply : Krpc
reply = record (blank (0x34 ∷ 0x12 ∷ 0x78 ∷ other_id)) { tok = some 0; tok_len = 3; nid = some 3 }

abbrev pursued : Gpm
pursued = register_q_gp_ihash other_id some_id 2 0x1234 no_pursuits

reply-Answers : Answers reply 0x1234 other_id
unfolding tok_of nid_checksum byte_at bytes_at checksum
reply-Answers = record { long = refl; token = refl; sender = refl }

lookup_tok-register_example :
    (cell : GpmStatus) × (lookup_tok reply pursued ≡ ok (some cell))
    × (cell.ih ≡ some_id)
    × (cell.hop_ctr ≡ 2)
lookup_tok-register_example =
    lookup_tok-register reply other_id some_id 2 0x1234 no_pursuits reply-Answers (omega arith)

pursued-IsWorld : IsWorld pursued.world
unfolding register_q_gp_ihash set_ih_status set_cell
pursued-IsWorld = record { rand-le = λ i. omega arith }

take_tok-Takes_example : Takes pursued (take_tok pursued).tok
take_tok-Takes_example = take_tok-Takes pursued pursued-IsWorld

Reach-IsGpm_example : IsGpm (take_tok pursued).gpm
Reach-IsGpm_example =
    Reach-IsGpm {g = no_pursuits} (take (register start other_id some_id 2 0x1234))
      (λ i. (omega arith, omega arith))

-- A node near the info hash, and one nearer.
abbrev near : PNode
near = record some_node { nid = 97 ∷ replicate 19 0 }

abbrev nearer : PNode
nearer = record some_node { nid = 97 ∷ 98 ∷ replicate 18 0 }

-- The first node is pushed again where there are not enough.
find_best_hops_run :
    find_best_hops (some_node ∷ near ∷ nearer ∷ []) (97 ∷ 98 ∷ replicate 18 255)
    ≡ nearer ∷ near ∷ some_node ∷ []
unfolding dkad rank displace find_best_hops
find_best_hops_run = refl

find_best_hops_lem_example :
    (found : List PNode) × Perm found (near_nodes some_id (some_node ∷ near ∷ nearer ∷ []))
    × IsNearest some_id 0 found
    × (find_best_hops (some_node ∷ near ∷ nearer ∷ []) some_id
        ≡ first (min max_gp_pnodes 3) (found ++ replicate max_gp_pnodes some_node))
find_best_hops_lem_example = find_best_hops_lem some_node (near ∷ nearer ∷ []) some_id

-- The table behind a run that does not crash.
abbrev behind : Run Gpm → Gpm
behind (ok g) = g
behind (crash c) = no_pursuits

clear_tok_keeps_example :
    (behind (clear_tok reply pursued)).g_ifl_buf 0x1234 ≡ pursued.g_ifl_buf 0x1234
unfolding clear_tok unset_cell unset_cell_at tok_of nid_checksum byte_at bytes_at checksum u32_of
    register_q_gp_ihash set_ih_status set_cell
clear_tok_keeps_example = clear_tok_keeps reply pursued refl 0x1234
