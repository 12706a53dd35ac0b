-- ===== src/Util/Dkad.antt =====
-- cht/util.cpp: `dkad`, the distance between two ids.
pub mod Prefix
use dht_cpp.Base.{
  ℕ, zero, suc, ◌+◌, ◌-◌, ◌*◌, ◌%◌, ◌^◌, [], ◌∷◌, ◌++◌, bit_xor, Bytes, get_or, replicate, ◌==◌,
  if◌then◌else◌,
}
use dht_cpp.Dht.{Nih}

-- `g_dkad_tab`
abbrev pub g_dkad_tab : Bytes
g_dkad_tab =
    0
    ∷ 1
    ∷ (replicate 2 2
        ++ (replicate 4 3
            ++ (replicate 8 4
                ++ (replicate 16 5 ++ (replicate 32 6 ++ (replicate 64 7 ++ replicate 128 8))))))

-- The loop, over the bytes left of the two ids.
unfoldable pub dkad_loop : Bytes → Bytes → ℕ → ℕ
dkad_loop (a ∷ x) (b ∷ y) d =
    let z = bit_xor a b in
    let rest = dkad_loop x y (d - 8) in if z == 0 then rest else d - get_or g_dkad_tab z 0
dkad_loop _ _ d = 0

unfoldable pub dkad : Nih → Nih → ℕ
unfolding dkad_loop
dkad x y = dkad_loop x y 160
