-- ===== src/Util/Utf8/Fuel.antt =====
-- cht/util.cpp: the loop of `is_valid_utf8`, and how many rounds it needs.
use dht_cpp.Base.{
  ℕ, zero, suc, ◌+◌, ◌-◌, ◌<◌, Bool, true, false, Bytes, ltb, if◌then◌else◌, Bool-cases, inl, inr,
  ◌≡◌, refl, arith,
}
use dht_cpp.Util.Utf8.{
  Verdict, advance, refuse, two_bytes, three_bytes, four_bytes, sequence_at, utf8_loop,
  is_valid_utf8,
}

data IsForward : Verdict → Type 0 where
  forward : {n : ℕ} → IsForward (advance (suc n))
  refused : IsForward refuse

if_IsForward :
    (b : Bool) {x y : Verdict}
    → (b ≡ true → IsForward x)
    → (b ≡ false → IsForward y)
    → IsForward (if b then x else y)
if_IsForward true f g = f refl
if_IsForward false f g = g refl

sequence_at-IsForward : (s : Bytes) (maxlen ix : ℕ) → IsForward (sequence_at s maxlen ix)
unfolding sequence_at two_bytes three_bytes four_bytes
sequence_at-IsForward s maxlen ix = search (if_IsForward, forward, refused) depth 8

-- A run of the loop from `ix` on, without fuel: each round decides by the sequence at its index, and
-- there are finitely many rounds.
pub data Runs (s : Bytes) (maxlen : ℕ) : ℕ → Bool → Type 0 where
  ended : {ix : ℕ} → ltb ix maxlen ≡ false → Runs s maxlen ix true
  refuses :
      {ix : ℕ} → ltb ix maxlen ≡ true → sequence_at s maxlen ix ≡ refuse → Runs s maxlen ix false
  goes_on :
      {ix n : ℕ} {valid : Bool}
      → ltb ix maxlen ≡ true
      → sequence_at s maxlen ix ≡ advance n
      → Runs s maxlen (ix + n) valid
      → Runs s maxlen ix valid

module _ (s : Bytes) (maxlen : ℕ) where
  -- A round, with the answer of the loop behind it.
  round : ℕ → ℕ → Verdict → Bool
  unfolding utf8_loop
  round fuel ix (advance n) = utf8_loop fuel s maxlen (ix + n)
  round fuel ix refuse = false

  round-Runs :
      (fuel ix : ℕ) (v : Verdict)
      → ltb ix maxlen ≡ true
      → sequence_at s maxlen ix ≡ v
      → IsForward v
      → ((n : ℕ) → Runs s maxlen (ix + suc n) (utf8_loop fuel s maxlen (ix + suc n)))
      → Runs s maxlen ix (round fuel ix v)
  unfolding round
  round-Runs fuel ix (advance (suc n)) more e forward later = goes_on more e (later n)
  round-Runs fuel ix (advance zero) more e f later = elim f [ ]
  round-Runs fuel ix refuse more e refused later = refuses more e

  -- With more fuel than the bytes left, the loop runs to its end.
  utf8_loop-Runs :
      (fuel ix : ℕ) → maxlen - ix < fuel → Runs s maxlen ix (utf8_loop fuel s maxlen ix)
  unfolding utf8_loop round
  utf8_loop-Runs zero ix h = absurd (omega arith)
  utf8_loop-Runs (suc fuel) ix h = elim (Bool-cases (ltb ix maxlen)) [
    | inl more ↦ rw more (
        round-Runs fuel ix (sequence_at s maxlen ix) more refl (sequence_at-IsForward s maxlen ix)
          (λ n. utf8_loop-Runs fuel (ix + suc n) (ground arith)))
    | inr done ↦ rw done (ended done)
  ]

-- The loop of `is_valid_utf8` ends on any text: after finitely many rounds, each at the index that the
-- round before it moved on to, it is at the end of the text or refuses a sequence, and this is the
-- answer; the fuel has not run out.
pub is_valid_utf8-Runs : (s : Bytes) (maxlen : ℕ) → Runs s maxlen 0 (is_valid_utf8 s maxlen)
unfolding is_valid_utf8
is_valid_utf8-Runs s maxlen = utf8_loop-Runs s maxlen (suc maxlen) 0 (omega arith)
