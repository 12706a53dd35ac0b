-- ===== src/Stat/Counters.antt =====
-- cht/stat.cpp: the counters and their operations, without the files that they are printed to.
use dht_cpp.Base.{ℕ, ◌+◌, ◌-◌, ◌%◌, ◌^◌, ◌==◌, if◌then◌else◌}
use dht_cpp.Stat.{Stat, index}

-- `g_ctr` and `g_ctr_old`, by the value of the enumerator.
pub record Counters : Type 0 where
  pub ctr : ℕ → ℕ
  pub ctr_old : ℕ → ℕ

-- `g_ctr[stat] = val`
unfoldable pub st_set : Stat → ℕ → Counters → Counters
st_set stat val g = record g { ctr = λ i. if index stat == i then val % 2 ^ 64 else g.ctr i }

unfoldable pub st_get : Stat → Counters → ℕ
st_get stat g = g.ctr (index stat)

unfoldable pub st_get_old : Stat → Counters → ℕ
st_get_old stat g = g.ctr_old (index stat)

unfoldable pub st_inc : Stat → Counters → Counters
unfolding st_set st_get
st_inc stat g = st_set stat (st_get stat g + 1) g

unfoldable pub st_dec : Stat → Counters → Counters
unfolding st_set st_get
st_dec stat g = st_set stat (if st_get stat g == 0 then 0 else st_get stat g - 1) g

unfoldable pub st_add : Stat → ℕ → Counters → Counters
unfolding st_set st_get
st_add stat val g = st_set stat (st_get stat g + val) g

-- The copy in `st_rollover`.
unfoldable pub rollover : Counters → Counters
rollover g = record g { ctr_old = g.ctr }
