-- ===== src/Spam/Buckets.antt =====
-- cht/spamfilter.cpp: a `CTMap` as what it stands for, a bucket for each key, full where none is kept.
use dht_cpp.Base.{
  ℕ, ◌+◌, ◌-◌, ◌≤◌, min, Bool, [], ◌∷◌, Option, none, some, ltb, leb, ◌==◌, if◌then◌else◌, ◌≡◌, ◌≢◌,
  refl, arith, Bool-cases, ◌&&◌, ap, sym, ◌∙◌, inl, inr,
}
use dht_cpp.Spam.{CtMap, find, assign, withdraw_at, withdraw, replenish}

-- The tokens of the bucket of `key`.
abbrev full_or : ℕ → Option ℕ → ℕ
full_or max none = max
full_or max (some v) = v

abbrev pub tokens : ℕ → ℕ → CtMap → ℕ
tokens max key map = full_or max (find key map)

-- A map has one entry for a key, and no entry above the limit.
abbrev pub IsCtMap : ℕ → CtMap → Type 0
IsCtMap max [] = Unit
IsCtMap max ((k, v) ∷ map) = (find k map ≡ none) × (v ≤ max) × IsCtMap max map

find-assign_self :
    (key v w : ℕ) (map : CtMap) → find key map ≡ some w → find key (assign key v map) ≡ some v
unfolding find assign
find-assign_self key v w [] h = cc
find-assign_self key v w ((k, x) ∷ map) h = ground (arith, find-assign_self key v w map)

find-assign_ne : (key v k : ℕ) (map : CtMap) → k ≢ key → find k (assign key v map) ≡ find k map
unfolding find assign
find-assign_ne key v k [] h = refl
find-assign_ne key v k ((k', x) ∷ map) h = ground (arith, find-assign_ne key v k map)

find-assign-none :
    (key v k : ℕ) (map : CtMap) → find k map ≡ none → find k (assign key v map) ≡ none
unfolding find assign
find-assign-none key v k [] h = refl
find-assign-none key v k ((k', x) ∷ map) h = ground (arith, find-assign-none key v k map)

assign-IsCtMap :
    (max key v : ℕ) (map : CtMap) → v ≤ max → IsCtMap max map → IsCtMap max (assign key v map)
unfolding assign
assign-IsCtMap max key v [] b h = tt
assign-IsCtMap max key v ((k, x) ∷ map) b (f, l, h) = elim (Bool-cases (key == k)) [
  | inl same ↦ rw same (f, b, h)
  | inr other ↦ rw other (find-assign-none key v k map f, l, assign-IsCtMap max key v map b h)
]

find-le : (max key v : ℕ) (map : CtMap) → IsCtMap max map → find key map ≡ some v → v ≤ max
unfolding find
find-le max key v [] h e = cc
find-le max key v ((k, w) ∷ map) (f, l, h) e = ground (arith, find-le max key v map h)

module _ (max delta key : ℕ) (map : CtMap) where
  -- The answer of `withdraw` and the buckets behind it.
  abbrev pub Withdraws : Bool × CtMap → Type 0
  Withdraws (out, map') =
      (out ≡ leb delta (tokens max key map))
      × (tokens max key map' ≡ (if out then tokens max key map - delta else tokens max key map))
      × ((k : ℕ) → k ≢ key → tokens max k map' ≡ tokens max k map)
      × IsCtMap max map'

  Withdraws-at :
      (o : Option ℕ)
      → delta ≤ max
      → IsCtMap max map
      → find key map ≡ o
      → Withdraws (withdraw_at max delta key o map)
  unfolding withdraw_at find
  Withdraws-at none small h e =
      (ground arith, ground arith, (λ k n. ground arith), (e, omega arith, h))
  Withdraws-at (some v) small h e = elim (Bool-cases (ltb v delta)) [
    | inl less ↦ rw less (ground arith, refl, (λ k n. refl), h)
    | inr enough ↦ rw enough (
      ground arith,
      rw (e, find-assign_self key (v - delta) v map e) refl,
      (λ k n. rw (find-assign_ne key (v - delta) k map n) refl),
      assign-IsCtMap max key (v - delta) map (omega (arith, find-le max key v map h e)) h,
    )
  ]

  pub withdraw-Withdraws : delta ≤ max → IsCtMap max map → Withdraws (withdraw max delta key map)
  unfolding withdraw
  withdraw-Withdraws small h = Withdraws-at (find key map) small h refl

  -- On a map with one entry for a key and none above the limit, and for amounts up to the limit,
  -- `withdraw` answers whether the bucket of the key has the tokens, takes them off this bucket alone,
  -- none if it refuses, and leaves such a map.
  pub withdraw-tokens :
      delta ≤ max
      → IsCtMap max map
      → ((withdraw max delta key map).0 ≡ leb delta (tokens max key map))
        × ((k : ℕ)
            → tokens max k (withdraw max delta key map).1 ≡ (
                if k == key && leb delta (tokens max key map)
                then tokens max k map - delta
                else tokens max k map))
        × IsCtMap max (withdraw max delta key map).1
  withdraw-tokens small h =
      let (answer, own, others, h') = withdraw-Withdraws small h in
      (
        answer,
        (λ k. elim (Bool-cases (k == key)) [
          | inl same ↦
              let is : key ≡ k = ground arith in
              let before : tokens max key map ≡ tokens max k map = ap (λ x. tokens max x map) is in
              let after = ap (λ x. tokens max x (withdraw max delta key map).1) is in
              rw same (sym after ∙ own ∙ rw (answer, before) refl)
          | inr other ↦ rw other (others k (ground arith))
        ]),
        h',
      )

find-replenish-none :
    (max delta key : ℕ) (map : CtMap)
    → find key map ≡ none
    → find key (replenish max delta map) ≡ none
unfolding find replenish
find-replenish-none max delta key [] h = refl
find-replenish-none max delta key ((k, v) ∷ map) h =
    ground (arith, find-replenish-none max delta key map)

-- On a map with one entry for a key and none above the limit, `replenish` adds the amount to the
-- bucket of every key, up to the limit, and leaves such a map.
pub replenish-tokens :
    (max delta key : ℕ) (map : CtMap)
    → IsCtMap max map
    → (tokens max key (replenish max delta map) ≡ min max (tokens max key map + delta))
      × IsCtMap max (replenish max delta map)
unfolding find replenish
replenish-tokens max delta key [] h = (omega arith, tt)
replenish-tokens max delta key ((k, v) ∷ map) (f, l, h) =
    let (same, rest) = replenish-tokens max delta key map h in
    let absent = find-replenish-none max delta k map f in
    elim (Bool-cases (leb max (v + delta))) [
      | inl full ↦ rw full (ground arith, rest)
      | inr less ↦ rw less (ground arith, (absent, ground arith, rest))
    ]
