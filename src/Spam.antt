-- ===== src/Spam.antt =====
-- cht/spamfilter.cpp: the token buckets.
pub mod Buckets
pub mod Limits
use dht_cpp.Base.{
  ℕ, ◌+◌, ◌-◌, ◌%◌, ◌^◌, Bool, true, false, not, bit_xor, List, [], ◌∷◌, Option, none, some, length,
  ltb, leb, ◌==◌, if◌then◌else◌,
}
use dht_cpp.Dht.{Nih, checksum}
use dht_cpp.Stat.Counters.{Counters, st_inc, st_set}
use dht_cpp.Stat.{
  Stat, spam_size_rx, spam_size_ping, spam_size_q_gp, rx_spam, tx_ping_drop_spam, tx_q_gp_drop_spam,
}

-- The map of a `CTMap`, from a key to the tokens that it has left.
abbrev pub CtMap : Type 0
CtMap = List (ℕ × ℕ)

-- `map.find(key)`
unfoldable pub find : ℕ → CtMap → Option ℕ
find key [] = none
find key ((k, v) ∷ map) = if key == k then some v else find key map

-- `it->second = v`, for the iterator of `find(key)`.
unfoldable pub assign : ℕ → ℕ → CtMap → CtMap
assign key v [] = []
assign key v ((k, w) ∷ map) =
    let rest = assign key v map in if key == k then (k, v) ∷ map else (k, w) ∷ rest

-- `withdraw<DELTA>` of a map with `MAX_TOKENS`.
unfoldable pub withdraw_at : ℕ → ℕ → ℕ → Option ℕ → CtMap → Bool × CtMap
withdraw_at max delta key none map = (true, (key, max - delta) ∷ map)
withdraw_at max delta key (some v) map =
    if ltb v delta then (false, map) else (true, assign key (v - delta) map)

unfoldable pub withdraw : ℕ → ℕ → ℕ → CtMap → Bool × CtMap
unfolding withdraw_at find assign
withdraw max delta key map = withdraw_at max delta key (find key map) map

-- The loop of `replenish<DELTA>`: a full bucket is erased.
unfoldable pub replenish : ℕ → ℕ → CtMap → CtMap
replenish max delta [] = []
replenish max delta ((k, v) ∷ map) =
    let rest = replenish max delta map in
    if leb max (v + delta) then rest else (k, v + delta) ∷ rest

-- The three tables.
pub record Tables : Type 0 where
  pub g_rx_spamtable : CtMap
  pub g_pg_spamtable : CtMap
  pub getpeers_spamtable : CtMap

abbrev pub max_rx : ℕ
max_rx = 12

abbrev pub max_pg : ℕ
max_pg = 15

abbrev pub max_gp : ℕ
max_gp = 15

-- The size of each table is counted behind its `replenish`.
unfoldable pub spam_run_epoch : Tables → Counters → Tables × Counters
unfolding replenish
spam_run_epoch t g =
    let rx = replenish max_rx 4 t.g_rx_spamtable in
    let pg = replenish max_pg 1 t.g_pg_spamtable in
    let gp = replenish max_gp 1 t.getpeers_spamtable in
    (
      record { g_rx_spamtable = rx; g_pg_spamtable = pg; getpeers_spamtable = gp },
      st_set spam_size_q_gp (length gp)
          (st_set spam_size_ping (length pg) (st_set spam_size_rx (length rx) g)),
    )

-- A check counts its refusals.
abbrev pub counted : Bool → Stat → Counters → Counters
counted out stat g = if out then g else st_inc stat g

-- The answer, with the tables and the counters behind the check.
abbrev pub Checked : Type 0
Checked = Bool × Tables × Counters

unfoldable pub spam_check_rx : ℕ → Tables → Counters → Checked
unfolding withdraw
spam_check_rx saddr_ip t g =
    let (out, map) = withdraw max_rx 1 saddr_ip t.g_rx_spamtable in
    (out, record t { g_rx_spamtable = map }, counted out rx_spam g)

unfoldable pub spam_check_tx_pg : ℕ → Tables → Counters → Checked
unfolding withdraw
spam_check_tx_pg daddr_ip t g =
    let (out, map) = withdraw max_pg 15 daddr_ip t.g_pg_spamtable in
    (out, record t { g_pg_spamtable = map }, counted out tx_ping_drop_spam g)

unfoldable pub spam_check_tx_q_gp : ℕ → Nih → Tables → Counters → Checked
unfolding withdraw
spam_check_tx_q_gp daddr_ip ih t g =
    let (out, map) = withdraw max_gp 15 (bit_xor (checksum ih) daddr_ip) t.getpeers_spamtable in
    (out, record t { getpeers_spamtable = map }, counted out tx_q_gp_drop_spam g)
