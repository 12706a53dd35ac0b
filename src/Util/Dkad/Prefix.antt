-- ===== src/Util/Dkad/Prefix.antt =====
-- cht/util.cpp: what `dkad` measures.
use dht_cpp.Base.{
  AreBytes, ℕ, ◌-◌, ◌*◌, ◌^◌, ◌≤◌, ◌<◌, Bool, true, false, not, ◌&&◌, ◌||◌, [], ◌∷◌, ◌++◌, bit_xor,
  Bytes, get_or, length, ltb, leb, ◌==◌, ◌≡◌, refl, arith, ◌∙◌, all_below, all_below_sound,
  and_parts, ==_iff, le→leb, lt→ltb,
}
use dht_cpp.Dht.{Nih, IsNih}
use dht_cpp.Util.Dkad.{g_dkad_tab, dkad_loop, dkad}

-- `k` is the number of bits of the byte `z`, which is not zero.
abbrev pub HasBits : ℕ → ℕ → Type 0
HasBits z k = (2 ^ (k - 1) ≤ z) × (z < 2 ^ k) × (k ≤ 8)

xor_self : (x : ℕ) → x < 256 → (bit_xor x x == 0) ≡ true
unfolding all_below
xor_self x h = all_below_sound 256 (λ x. bit_xor x x == 0) x refl h

-- The table has the number of bits of `z`, if that is `k`.
fits : ℕ → ℕ → Bool
fits k z = not (leb (2 ^ (k - 1)) z && ltb z (2 ^ k)) || get_or g_dkad_tab z 0 == k && not (z == 0)

fits_lem : (z k : ℕ) → HasBits z k → z < 256 → fits k z ≡ true
unfolding all_below fits
fits_lem z k (_, _, small) h =
    all_below_sound 256 (fits k) z
      (all_below_sound 9 (λ k. all_below 256 (fits k)) k refl (omega arith)) h

not-true : (b : Bool) → not b ≡ true → b ≡ false
not-true b h = ground arith

tab_lem : (z k : ℕ) → HasBits z k → z < 256 → (get_or g_dkad_tab z 0 ≡ k) × ((z == 0) ≡ false)
unfolding fits
tab_lem z k h small =
    let low : leb (2 ^ (k - 1)) z ≡ true = le→leb (2 ^ (k - 1)) z h.0 in
    let high : ltb z (2 ^ k) ≡ true = lt→ltb z (2 ^ k) h.1 in
    let (tab, nonzero) =
      and_parts (get_or g_dkad_tab z 0 == k) (not (z == 0))
        (rw (low, high) at (fits_lem z k h small)) in
    ((==_iff (get_or g_dkad_tab z 0) k).0 tab, not-true (z == 0) nonzero)

dkad_loop-prefix :
    (p x y : Bytes) (a b d k : ℕ)
    → AreBytes p
    → HasBits (bit_xor a b) k
    → bit_xor a b < 256
    → dkad_loop (p ++ a ∷ x) (p ++ b ∷ y) d ≡ d - 8 * length p - k
unfolding dkad_loop
dkad_loop-prefix [] x y a b d k h l s =
    let (tab, nonzero) = tab_lem (bit_xor a b) k l s in rw (nonzero, tab) (omega arith)
dkad_loop-prefix (c ∷ p) x y a b d k (hc, h) l s =
    rw (xor_self c hc) (dkad_loop-prefix p x y a b (d - 8) k h l s ∙ omega arith)

-- Of two ids of 20 bytes that agree up to a byte, and whose XOR in it is a byte of `k` bits, the
-- distance is 160, less 8 for each byte in front, less `k`.
pub dkad-prefix :
    (p x y : Bytes) (a b k : ℕ)
    → IsNih (p ++ a ∷ x)
    → IsNih (p ++ b ∷ y)
    → AreBytes p
    → HasBits (bit_xor a b) k
    → bit_xor a b < 256
    → dkad (p ++ a ∷ x) (p ++ b ∷ y) ≡ 160 - 8 * length p - k
unfolding dkad
dkad-prefix p x y a b k _ _ h l s = dkad_loop-prefix p x y a b 160 k h l s

dkad_loop_self : (x : Bytes) (d : ℕ) → AreBytes x → dkad_loop x x d ≡ 0
unfolding dkad_loop
dkad_loop_self [] d h = refl
dkad_loop_self (a ∷ x) d (ha, h) = rw (xor_self a ha) (dkad_loop_self x (d - 8) h)

-- An id is at distance 0 from itself.
pub dkad_self : (x : Nih) → AreBytes x → dkad x x ≡ 0
unfolding dkad
dkad_self x h = dkad_loop_self x 160 h
