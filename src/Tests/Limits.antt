-- ===== src/Tests/Limits.antt =====
-- The spam filter at concrete maps and events.
use dht_cpp.Base.{
  ℕ, List, [], ◌∷◌, ◌*◌, ◌+◌, ◌-◌, ◌≤◌, ◌≡◌, ◌&&◌, refl, min, leb, ◌==◌, if◌then◌else◌, arith,
}
use dht_cpp.Spam.Buckets.{tokens, IsCtMap, withdraw-tokens, replenish-tokens}
use dht_cpp.Spam.Limits.{
  Event, epoch, rx, tx_pg, tx_q_gp, granted, is_ping, is_packet, epochs, pings-le, packets-le,
}
use dht_cpp.Spam.{CtMap, Tables, withdraw, replenish, max_rx, max_pg, find}
use dht_cpp.Tests.Samples.{no_counts, some_id}

abbrev two_keys : CtMap
two_keys = (1, 3) ∷ (2, 11) ∷ []

two_keys-IsCtMap : IsCtMap 12 two_keys
unfolding find
two_keys-IsCtMap = (refl, omega arith, (refl, omega arith, tt))

abbrev tables : Tables
tables = record { g_rx_spamtable = two_keys; g_pg_spamtable = []; getpeers_spamtable = [] }

abbrev events : List Event
events = tx_pg 5 ∷ tx_pg 5 ∷ rx 1 ∷ epoch ∷ rx 1 ∷ tx_q_gp 5 some_id ∷ tx_pg 5 ∷ []

withdraw-tokens_example :
    ((withdraw 12 4 1 two_keys).0 ≡ leb 4 (tokens 12 1 two_keys))
    × ((k : ℕ)
        → tokens 12 k (withdraw 12 4 1 two_keys).1 ≡ (
            if k == 1 && leb 4 (tokens 12 1 two_keys)
            then tokens 12 k two_keys - 4
            else tokens 12 k two_keys))
    × IsCtMap 12 (withdraw 12 4 1 two_keys).1
withdraw-tokens_example = withdraw-tokens 12 4 1 two_keys (omega arith) two_keys-IsCtMap

replenish-tokens_example :
    (tokens 12 1 (replenish 12 4 two_keys) ≡ min 12 (tokens 12 1 two_keys + 4))
    × IsCtMap 12 (replenish 12 4 two_keys)
replenish-tokens_example = replenish-tokens 12 4 1 two_keys two_keys-IsCtMap

pings-le_example :
    15 * granted (is_ping 5) events tables no_counts
    ≤ tokens max_pg 5 tables.g_pg_spamtable + epochs events
pings-le_example = pings-le 5 events tables no_counts tt

packets-le_example :
    granted (is_packet 1) events tables no_counts
    ≤ tokens max_rx 1 tables.g_rx_spamtable + 4 * epochs events
packets-le_example = packets-le 1 events tables no_counts two_keys-IsCtMap
