-- ===== src/Util/Tickets/Conserve.antt =====
-- cht/util.hpp: the tickets of a `Ticketer`, counted.
use dht_cpp.Base.{
  ℕ, zero, suc, ◌+◌, true, List, [], ◌∷◌, ◌++◌, ltb, ◌==◌, if◌then◌else◌, ok, ◌≡◌, refl, arith,
  Bool-cases, ◌∙◌, inl, inr,
}
use dht_cpp.Stat.Counters.{Counters, st_dec}
use dht_cpp.Stat.{Stat}
use dht_cpp.Util.Tickets.{Ticketer, new, below, count, erase, take, take_from, give_back}

-- How often `x` is in the two sets.
abbrev pub total : ℕ → Ticketer → ℕ
total x t = count x t.free + count x t.taken

-- Each ticket below `n` is in one of the two sets, once, and no other.
abbrev pub IsTicketer : ℕ → Ticketer → Type 0
IsTicketer n t = (x : ℕ) → total x t ≡ (if ltb x n then 1 else 0)

count-append : (x : ℕ) (xs ys : List ℕ) → count x (xs ++ ys) ≡ count x xs + count x ys
unfolding count
count-append x [] ys = omega arith
count-append x (y ∷ xs) ys = omega (arith, count-append x xs ys)

count-below : (x n : ℕ) → count x (below n) ≡ (if ltb x n then 1 else 0)
unfolding count
count-below x zero = ground arith
count-below x (suc n) = rw (count-append x (below n) (n ∷ []), count-below x n) (ground arith)

pub new-IsTicketer : (n : ℕ) → IsTicketer n (new n)
unfolding new count
new-IsTicketer n x = omega (arith, count-below x n)

count-erase :
    (x v : ℕ) (xs : List ℕ)
    → count v xs ≡ 1
    → count x (erase v xs) + (if x == v then 1 else 0) ≡ count x xs
unfolding count erase
count-erase x v [] h = absurd (omega arith)
count-erase x v (y ∷ xs) h = elim (Bool-cases (v == y)) [
  | inl same ↦ rw same (ground arith)
  | inr other ↦
      let tail : 0 + count v xs ≡ 1 = rw other at h in
      let rest = count-erase x v xs (omega (arith, tail)) in rw other (ground arith)
]

module _ (acct oflow : Stat) (n : ℕ) (t : Ticketer) (g : Counters) where
  take_from-total :
      (free : List ℕ) (x : ℕ)
      → total x (take_from free acct oflow (record t { free = free }) g).ticketer
        ≡ count x free + count x t.taken
  unfolding take_from count
  take_from-total [] x = refl
  take_from-total (v ∷ rest) x = omega arith

  -- If each ticket below `n` is in one of the two sets, once, the same holds of the sets behind a
  -- `take`.
  pub take-IsTicketer : IsTicketer n t → IsTicketer n (take acct oflow t g).ticketer
  unfolding take
  take-IsTicketer h x = take_from-total t.free x ∙ h x

-- If each ticket below `n` is in one of the two sets, once, a ticket that is out is given back
-- without a crash, and the same holds of the sets behind it.
pub give_back-IsTicketer :
    (acct : Stat) (n v : ℕ) (t : Ticketer) (g : Counters)
    → IsTicketer n t
    → count v t.taken ≡ 1
    → (r : Ticketer × Counters) × (give_back acct v t g ≡ ok r) × IsTicketer n r.0
unfolding give_back count
give_back-IsTicketer acct n v t g h out = (
  (record { free = v ∷ t.free; taken = erase v t.taken }, st_dec acct g),
  rw out refl,
  (λ x. omega (arith, h x, count-erase x v t.taken out)),
)

-- A ticket that was taken can be given back.
pub take-count :
    (acct oflow : Stat) (n : ℕ) (t : Ticketer) (g : Counters)
    → IsTicketer n t
    → (take acct oflow t g).found ≡ true
    → count (take acct oflow t g).val (take acct oflow t g).ticketer.taken ≡ 1
unfolding take count
take-count acct oflow n t g h found = taken t.free refl found
  where
    taken :
        (free : List ℕ)
        → t.free ≡ free
        → (take_from free acct oflow t g).found ≡ true
        → count (take_from free acct oflow t g).val (take_from free acct oflow t g).ticketer.taken
          ≡ 1
    taken [] e f = cc
    taken (v ∷ rest) e f =
        let once : count v (v ∷ rest) + count v t.taken ≡ (if ltb v n then 1 else 0) =
          rw e at (h v) in
        ground arith
