-- ===== src/Krpc/Atoi/Bounds.antt =====
-- cht/krpc.cpp: the bounds of `krpc_bdecode_atoi`.
use dht_cpp.Base.{ℕ, zero, suc, ◌+◌, ◌-◌, ◌*◌, ◌%◌, ◌^◌, ◌≤◌, ◌<◌, Bytes, get_or, ◌≡◌, true, arith}
use dht_cpp.Krpc.Atoi.{Atoi, atoi_limit, atoi_loop, krpc_bdecode_atoi}
use dht_cpp.Stat.{index, bd_a_no_error, stat_eq}

-- Where a scan from `pos` with `left` bytes before the end may stop.
pub record StopsIn (pos left : ℕ) (r : Atoi) : Type 0 where
  pub forward : pos ≤ r.cur_pos
  pub inside : r.cur_pos ≤ pos + left
  pub small : r.dest ≤ 10 * atoi_limit
  pub reads : stat_eq r.result bd_a_no_error ≡ true → pos < r.cur_pos

atoi_loop-StopsIn :
    (bytes : Bytes) (left dest pos : ℕ)
    → dest ≤ 10 * atoi_limit
    → StopsIn pos left (atoi_loop bytes left dest pos)
unfolding atoi_loop index
atoi_loop-StopsIn bytes zero dest pos h = record {
  forward = omega arith;
  inside = omega arith;
  small = h;
  reads = λ e. cc;
}
atoi_loop-StopsIn bytes (suc left) dest pos h =
    let value = (10 * dest + (get_or bytes pos 0 - 0x30)) % 2 ^ 32 in
    ground (arith, atoi_loop-StopsIn bytes left value (pos + 1))

-- The number read never wraps: one round of the loop adds a digit to it exactly.
pub krpc_bdecode_atoi-StopsIn :
    (bytes : Bytes) (pos n : ℕ) → StopsIn pos (n - pos) (krpc_bdecode_atoi bytes pos n)
unfolding krpc_bdecode_atoi
krpc_bdecode_atoi-StopsIn bytes pos n = atoi_loop-StopsIn bytes (n - pos) 0 pos (omega arith)
