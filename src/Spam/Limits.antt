-- ===== src/Spam/Limits.antt =====
-- cht/spamfilter.cpp: sequences of checks and epochs, and what is granted in them.
use dht_cpp.Base.{
  ℕ, ◌+◌, ◌*◌, ◌≤◌, Bool, true, false, List, [], ◌∷◌, ◌==◌, if◌then◌else◌, ◌≡◌, refl, arith, inl,
  inr, Bool-cases, ap, ==_iff,
}
use dht_cpp.Dht.{Nih}
use dht_cpp.Spam.Buckets.{tokens, IsCtMap, Withdraws, withdraw-Withdraws, replenish-tokens}
use dht_cpp.Spam.{
  CtMap, Tables, max_rx, max_pg, withdraw, spam_run_epoch, spam_check_rx, spam_check_tx_pg,
  spam_check_tx_q_gp, Checked,
}
use dht_cpp.Stat.Counters.{Counters}

-- What happens to the filter: an epoch ends, or a message is checked.
pub data Event : Type 0 where
  epoch : Event
  rx tx_pg : ℕ → Event
  tx_q_gp : ℕ → Nih → Event

-- The answer of the check, true for an epoch, with the tables and the counters behind it.
unfoldable pub happen : Event → Tables → Counters → Checked
unfolding spam_run_epoch spam_check_rx spam_check_tx_pg spam_check_tx_q_gp
happen epoch t g = let (t', g') = spam_run_epoch t g in (true, t', g')
happen (rx addr) t g = spam_check_rx addr t g
happen (tx_pg addr) t g = spam_check_tx_pg addr t g
happen (tx_q_gp addr ih) t g = spam_check_tx_q_gp addr ih t g

abbrev pub is_ping : ℕ → Event → Bool
is_ping addr (tx_pg a) = a == addr
is_ping addr _ = false

abbrev pub is_packet : ℕ → Event → Bool
is_packet addr (rx a) = a == addr
is_packet addr _ = false

abbrev pub is_epoch : Event → Bool
is_epoch epoch = true
is_epoch _ = false

-- How many of the events `p` holds of were granted.
unfoldable pub granted : (Event → Bool) → List Event → Tables → Counters → ℕ
unfolding happen
granted p [] t g = 0
granted p (e ∷ es) t g =
    let (out, t', g') = happen e t g in
    (if out then (if p e then 1 else 0) else 0) + granted p es t' g'

unfoldable pub epochs : List Event → ℕ
epochs [] = 0
epochs (e ∷ es) = (if is_epoch e then 1 else 0) + epochs es

module _ (addr max delta : ℕ) where
  -- What a check of the bucket of `a` grants is paid for by the bucket of `addr`.
  abbrev Pays : ℕ → CtMap → Bool × CtMap → Type 0
  Pays a map (out, map') =
      (delta * (if out then (if a == addr then 1 else 0) else 0) + tokens max addr map'
        ≤ tokens max addr map)
      × IsCtMap max map'

  -- The bucket of `a` in a map.
  Pays-from : (a : ℕ) (map : CtMap) (w : Bool × CtMap) → Withdraws max delta a map w → Pays a map w
  Pays-from a map (out, map') (answer, own, others, h) = elim (Bool-cases (a == addr)) [
    | inl same ↦
        let is : a ≡ addr = (==_iff a addr).0 same in
        let before : tokens max a map ≡ tokens max addr map = ap (λ k. tokens max k map) is in
        let after : tokens max a map' ≡ tokens max addr map' = ap (λ k. tokens max k map') is in
        (rw same (ground arith), h)
    | inr other ↦
        let kept : tokens max addr map' ≡ tokens max addr map = others addr (ground arith) in
        (rw other (ground arith), h)
  ]

  withdraw-Pays :
      (a : ℕ) (map : CtMap) → delta ≤ max → IsCtMap max map → Pays a map (withdraw max delta a map)
  withdraw-Pays a map small h =
      Pays-from a map (withdraw max delta a map) (withdraw-Withdraws max delta a map small h)

  -- What an event grants is paid for by the bucket of `addr` and the tokens of an epoch.
  abbrev Paid : ℕ → CtMap → CtMap → Event → ℕ → Type 0
  Paid gain map map' e n =
      (delta * n + tokens max addr map'
        ≤ tokens max addr map + gain * (if is_epoch e then 1 else 0))
      × IsCtMap max map'

nothing : (b : Bool) → ◌≡◌ {A = ℕ} (if b then 0 else 0) 0
nothing true = refl
nothing false = refl

module _ (addr : ℕ) where
  ping-Paid :
      (e : Event) (t : Tables) (g : Counters)
      → IsCtMap max_pg t.g_pg_spamtable
      → let (out, t', g') = happen e t g in
        Paid addr max_pg 15 1 t.g_pg_spamtable t'.g_pg_spamtable e
          (if out then (if is_ping addr e then 1 else 0) else 0)
  unfolding happen spam_run_epoch spam_check_rx spam_check_tx_pg spam_check_tx_q_gp
  ping-Paid epoch t g h =
      let (grown, h') = replenish-tokens max_pg 1 addr t.g_pg_spamtable h in
      (omega (arith, grown), h')
  ping-Paid (rx a) t g h = (omega (arith, nothing (spam_check_rx a t g).0), h)
  ping-Paid (tx_pg a) t g h =
      let (paid, h') = withdraw-Pays addr max_pg 15 a t.g_pg_spamtable (omega arith) h in
      (omega (arith, paid), h')
  ping-Paid (tx_q_gp a ih) t g h = (omega (arith, nothing (spam_check_tx_q_gp a ih t g).0), h)

  -- From a map with one entry for a key and none above the limit, over any events: the pings let
  -- through to an address cost, at 15 tokens each, no more than the tokens of its bucket at the
  -- start and one for each epoch.
  pub pings-le :
      (es : List Event) (t : Tables) (g : Counters)
      → IsCtMap max_pg t.g_pg_spamtable
      → 15 * granted (is_ping addr) es t g ≤ tokens max_pg addr t.g_pg_spamtable + epochs es
  unfolding granted epochs
  pings-le [] t g h = omega arith
  pings-le (e ∷ es) t g h =
      let (paid, h') = ping-Paid e t g h in
      omega (arith, paid, pings-le es (happen e t g).1 (happen e t g).2 h')

  packet-Paid :
      (e : Event) (t : Tables) (g : Counters)
      → IsCtMap max_rx t.g_rx_spamtable
      → let (out, t', g') = happen e t g in
        Paid addr max_rx 1 4 t.g_rx_spamtable t'.g_rx_spamtable e
          (if out then (if is_packet addr e then 1 else 0) else 0)
  unfolding happen spam_run_epoch spam_check_rx spam_check_tx_pg spam_check_tx_q_gp
  packet-Paid epoch t g h =
      let (grown, h') = replenish-tokens max_rx 4 addr t.g_rx_spamtable h in
      (omega (arith, grown), h')
  packet-Paid (rx a) t g h =
      let (paid, h') = withdraw-Pays addr max_rx 1 a t.g_rx_spamtable (omega arith) h in
      (omega (arith, paid), h')
  packet-Paid (tx_pg a) t g h = (omega (arith, nothing (spam_check_tx_pg a t g).0), h)
  packet-Paid (tx_q_gp a ih) t g h = (omega (arith, nothing (spam_check_tx_q_gp a ih t g).0), h)

  -- From a map with one entry for a key and none above the limit, over any events: the packets
  -- accepted from an address are no more than the tokens of its bucket at the start and four for
  -- each epoch.
  pub packets-le :
      (es : List Event) (t : Tables) (g : Counters)
      → IsCtMap max_rx t.g_rx_spamtable
      → granted (is_packet addr) es t g ≤ tokens max_rx addr t.g_rx_spamtable + 4 * epochs es
  unfolding granted epochs
  packets-le [] t g h = omega arith
  packets-le (e ∷ es) t g h =
      let (paid, h') = packet-Paid e t g h in
      omega (arith, paid, packets-le es (happen e t g).1 (happen e t g).2 h')
