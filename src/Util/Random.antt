-- ===== src/Util/Random.antt =====
-- cht/util.cpp: `randint`, over the random numbers and the clock of the C library. These are not code
-- of the repository: `World` is what they will return, call by call.
use dht_cpp.Base.{ℕ, ◌+◌, ◌-◌, ◌/◌, ◌<◌, ◌≤◌, arith}

pub record World : Type 0 where
  pub rand_max : ℕ
  pub rand : ℕ → ℕ
  pub draws : ℕ
  pub clock : ℕ → ℕ
  pub ticks : ℕ

-- What the C standard says of `rand`.
pub record IsWorld (w : World) : Type 0 where
  pub rand-le : (i : ℕ) → w.rand i ≤ w.rand_max

-- `rand() `
abbrev pub draw : World → World
draw w = record w { draws = w.draws + 1 }

-- The number that the next `randint(mn, mx)` returns.
unfoldable pub randint : World → ℕ → ℕ → ℕ
randint w mn mx = mn + w.rand w.draws / (w.rand_max / (mx - mn) + 1)

-- `UPDATE_NOW_MS`: the reading, and the world behind it.
abbrev pub now_ms : World → ℕ
now_ms w = w.clock w.ticks

abbrev pub tick : World → World
tick w = record w { ticks = w.ticks + 1 }

quotient_lt : (r m n : ℕ) → r ≤ m → 0 < n → r / (m / n + 1) < n
quotient_lt r m n h l = grind arith

-- If `rand` keeps to `RAND_MAX` and mn < mx, `randint(mn, mx)` is at least mn and less than mx.
pub randint_bounds :
    (w : World) (mn mx : ℕ) → IsWorld w → mn < mx → (mn ≤ randint w mn mx) × (randint w mn mx < mx)
unfolding randint
randint_bounds w mn mx h l = (
  omega arith,
  omega
      (arith, quotient_lt (w.rand w.draws) w.rand_max (mx - mn) (h.rand-le w.draws) (omega arith)),
)
