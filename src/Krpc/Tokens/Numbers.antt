-- ===== src/Krpc/Tokens/Numbers.antt =====
-- cht/krpc.cpp: `krpc_bdecode_atoi` on a number that is written down.
use dht_cpp.Base.{
  ℕ, zero, suc, ◌+◌, ◌-◌, ◌*◌, ◌/◌, ◌%◌, ◌^◌, ◌≤◌, ◌<◌, true, ◌||◌, [], ◌∷◌, ◌++◌, Bytes, get_or,
  drop, length, ltb, ◌==◌, Bool-cases, inl, inr, ◌≡◌, refl, subst, ◌∙◌, arith,
}
use dht_cpp.Krpc.Atoi.{atoi_limit, atoi_loop, krpc_bdecode_atoi}
use dht_cpp.Msg.{decimal}
use dht_cpp.Stat.{bd_a_no_error}

-- The byte at an offset, and what is behind it.
pub drop_head :
    (pos : ℕ) (bytes : Bytes) {x : ℕ} {ys : Bytes}
    → drop pos bytes ≡ x ∷ ys
    → (get_or bytes pos 0 ≡ x) × (drop (pos + 1) bytes ≡ ys)
drop_head zero [] e = ground arith
drop_head zero (b ∷ bytes) e = ground arith
drop_head (suc pos) [] e = ground arith
drop_head (suc pos) (b ∷ bytes) e = ground (arith, drop_head pos bytes e)

pub drop_more :
    (pos : ℕ) (bytes xs : Bytes) {ys : Bytes}
    → drop pos bytes ≡ xs ++ ys
    → drop (pos + length xs) bytes ≡ ys
drop_more pos bytes [] {ys} e = subst (λ p. drop p bytes ≡ ys) (omega arith) e
drop_more pos bytes (x ∷ xs) {ys} e =
    subst (λ p. drop p bytes ≡ ys) (omega arith)
      (drop_more (pos + 1) bytes xs ((drop_head pos bytes e).1))

abbrev AreDigits : Bytes → Type 0
AreDigits [] = Unit
AreDigits (x ∷ xs) = (48 ≤ x) × (x ≤ 57) × AreDigits xs

-- The number that digits continue.
value_from : ℕ → Bytes → ℕ
value_from n [] = n
value_from n (x ∷ xs) = value_from (10 * n + (x - 48)) xs

value_from-le : (n : ℕ) (xs : Bytes) → n ≤ value_from n xs
unfolding value_from
value_from-le n [] = omega arith
value_from-le n (x ∷ xs) = omega (arith, value_from-le (10 * n + (x - 48)) xs)

value_from-append :
    (n : ℕ) (xs : Bytes) (x : ℕ) → value_from n (xs ++ x ∷ []) ≡ 10 * value_from n xs + (x - 48)
unfolding value_from
value_from-append n [] x = refl
value_from-append n (y ∷ ys) x = value_from-append (10 * n + (y - 48)) ys x

AreDigits-append : (xs : Bytes) (x : ℕ) → AreDigits xs → 48 ≤ x → x ≤ 57 → AreDigits (xs ++ x ∷ [])
AreDigits-append [] x d a b = (a, b, tt)
AreDigits-append (y ∷ ys) x (p, q, d) a b = (p, q, AreDigits-append ys x d a b)

abbrev pub power : ℕ → ℕ
power zero = 1
power (suc k) = 10 * power k

decimal-AreDigits : (fuel n : ℕ) → AreDigits (decimal fuel n)
unfolding decimal
decimal-AreDigits zero n = tt
decimal-AreDigits (suc fuel) n = elim (Bool-cases (ltb n 10)) [
  | inl low ↦ rw low (omega arith, omega arith, tt)
  | inr high ↦ rw high (
      AreDigits-append (decimal fuel (n / 10)) (48 + n % 10) (decimal-AreDigits fuel (n / 10))
        (omega arith) (omega arith))
]

value_from-decimal : (fuel n : ℕ) → n < power fuel → value_from 0 (decimal fuel n) ≡ n
unfolding decimal value_from
value_from-decimal zero n h = omega arith
value_from-decimal (suc fuel) n h = elim (Bool-cases (ltb n 10)) [
  | inl low ↦ rw low (ground arith)
  | inr high ↦ rw high (
      omega (
        arith,
        value_from-append 0 (decimal fuel (n / 10)) (48 + n % 10),
        value_from-decimal fuel (n / 10) (omega arith),
      ))
]

-- The digits in front of a colon or an `e`.
atoi_loop-digits :
    (xs bytes rest : Bytes) (left dest pos stop : ℕ)
    → AreDigits xs
    → (stop == b'e' || stop == b':') ≡ true
    → drop pos bytes ≡ xs ++ stop ∷ rest
    → length xs < left
    → value_from dest xs < atoi_limit
    → atoi_loop bytes left dest pos
      ≡ record { result = bd_a_no_error; dest = value_from dest xs; cur_pos = pos + length xs + 1 }
unfolding atoi_loop value_from
atoi_loop-digits xs bytes r zero dest pos stop d s e l v = absurd (omega arith)
atoi_loop-digits [] bytes r (suc left) dest pos stop d s e l v =
    rw ((drop_head pos bytes e).0) (ground arith)
atoi_loop-digits (x ∷ xs) bytes r (suc left) dest pos stop (a, b, d) s e l v =
    let low = value_from-le (10 * dest + (x - 48)) xs in
    let same : (10 * dest + (x - 48)) % 2 ^ 32 ≡ 10 * dest + (x - 48) = omega arith in
    let digit : (ltb dest atoi_limit ≡ true) = ground arith in
    let rest =
      atoi_loop-digits xs bytes r left (10 * dest + (x - 48)) (pos + 1) stop d s
        ((drop_head pos bytes e).1) (omega arith) v in
    rw ((drop_head pos bytes e).0, same, digit) (ground (arith, rest))

-- A number of up to six digits is read back, in front of a colon or an `e`.
pub atoi-decimal :
    (n : ℕ) (bytes rest : Bytes) (pos data_len stop : ℕ)
    → (stop == b'e' || stop == b':') ≡ true
    → n < 1000000
    → drop pos bytes ≡ decimal 6 n ++ stop ∷ rest
    → pos + length (decimal 6 n) < data_len
    → krpc_bdecode_atoi bytes pos data_len
      ≡ record { result = bd_a_no_error; dest = n; cur_pos = pos + length (decimal 6 n) + 1 }
unfolding krpc_bdecode_atoi
atoi-decimal n bytes rest pos data_len stop s h e l =
    let value = value_from-decimal 6 n h in
    atoi_loop-digits (decimal 6 n) bytes rest (data_len - pos) 0 pos stop (decimal-AreDigits 6 n) s
      e (omega arith) (omega (arith, value))
    ∙ λ i. record {
      result = bd_a_no_error;
      dest = value i;
      cur_pos = pos + length (decimal 6 n) + 1;
    }

-- A number starts with a digit.
pub decimal-head :
    (fuel n : ℕ) → (x : ℕ) × (xs : Bytes) × (decimal (suc fuel) n ≡ x ∷ xs) × (48 ≤ x) × (x ≤ 57)
unfolding decimal
decimal-head fuel n = elim (Bool-cases (ltb n 10)) [
  | inl low ↦ (48 + n % 10, [], rw low refl, omega arith, omega arith)
  | inr high ↦ rw high (head_of (decimal fuel (n / 10)) (decimal-AreDigits fuel (n / 10)))
]
  where
    head_of :
        (ys : Bytes)
        → AreDigits ys
        → (x : ℕ) × (xs : Bytes) × (ys ++ (48 + n % 10) ∷ [] ≡ x ∷ xs) × (48 ≤ x) × (x ≤ 57)
    head_of [] d = (48 + n % 10, [], refl, omega arith, omega arith)
    head_of (y ∷ ys) (a, b, d) = (y, ys ++ (48 + n % 10) ∷ [], refl, a, b)
