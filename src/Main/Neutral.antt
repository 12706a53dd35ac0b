-- ===== src/Main/Neutral.antt =====
-- cht/main.cpp: the statistics of sending, which the other parts of the program leave alone.
use dht_cpp.Base.{
  ℕ, Bool, true, false, ◌||◌, List, Option, none, some, ltb, ◌==◌, if_elim, After, then_After,
  bind_After, ◌≡◌, refl, arith, Bool-cases, inl, inr, not,
}
use dht_cpp.Dht.{Nih, PNode}
use dht_cpp.Gpm.{
  Gpm, GpmStatus, Extracted, Scan, vacant, stale, full, take_tok, took, scan, register_q_gp_ihash,
  set_ih_status, set_cell, extract_tok, extract_from, lookup_tok, unset_cell, unset_cell_at, tok_of,
  nid_checksum, clear_tok, decide_pursue_q_gp_ih, n_bins, gp_max_hops,
}
use dht_cpp.Krpc.State.{Krpc}
use dht_cpp.Rt
use dht_cpp.Rt.{
  Rt, insert_contact, get_random_valid_node, get_neighbor_contact, random_from, first_valid,
}
use dht_cpp.Rt.Address.{validate_addr}
use dht_cpp.Spam.{
  Tables, counted, spam_run_epoch, spam_check_rx, spam_check_tx_pg, spam_check_tx_q_gp,
}
use dht_cpp.Stat.Counters.{Counters, st_inc, st_set}
use dht_cpp.Stat.{
  Stat, index, rt_replace_accept, rt_replace_invalid, rt_miss, err_rt_no_contacts,
  gpm_ih_drop_buf_overflow, gpm_ih_drop_too_many_hops, gpm_ih_inserted, gpm_r_gp_lookup_failed,
  rx_spam, tx_ping_drop_spam, tx_q_gp_drop_spam, spam_size_rx, spam_size_ping, spam_size_q_gp,
}

-- The statistics that `send_msg` is called with, by their values.
unfoldable pub is_acct : ℕ → Bool
is_acct i = i == 31 || i == 32 || i == 33 || i == 35 || i == 36 || i == 37 || i == 38

-- Those, and the ones that `send_msg` itself counts.
unfoldable pub is_tx : ℕ → Bool
unfolding is_acct
is_tx i = is_acct i || i == 24 || i == 26 || i == 29

-- `c'` has the same of these as `c`.
pub record Neutral (c c' : Counters) : Type 0 where
  pub kept : (i : ℕ) → is_tx i ≡ true → c'.ctr i ≡ c.ctr i

pub same_Neutral : (c : Counters) → Neutral c c
same_Neutral c = record { kept = λ i t. refl }

module _ {c c' : Counters} (stat : Stat) (quiet : is_tx (index stat) ≡ false)
    (n : Neutral c c') where
  pub st_set-Neutral : (v : ℕ) → Neutral c (st_set stat v c')
  unfolding st_set
  st_set-Neutral v = record {
    kept = λ i t. elim (Bool-cases (index stat == i)) [
      | inl same ↦ let is : index stat ≡ i = ground arith in cc
      | inr other ↦ rw other (n.kept i t)
    ];
  }

  pub st_inc-Neutral : Neutral c (st_inc stat c')
  unfolding st_inc
  st_inc-Neutral = st_set-Neutral _

-- The routing table.
module _ (c : Counters) (t : Rt) (n : Neutral c t.counters) where
  pub insert_contact-Neutral :
      (nid : Nih) (in_addr sin_port : ℕ)
      → Neutral c (insert_contact nid in_addr sin_port t).counters
  unfolding insert_contact Rt.set_cell index is_tx
  insert_contact-Neutral nid in_addr sin_port = st_inc-Neutral rt_replace_accept refl (
      if_elim (λ (x : Rt). Neutral c x.counters) (validate_addr in_addr sin_port) (λ _. n)
        (λ _. st_inc-Neutral rt_replace_invalid refl n))

  random_from-Neutral : (o : Option ℕ) → Neutral c (random_from o t).1.counters
  unfolding random_from index is_tx
  random_from-Neutral (some ix) = n
  random_from-Neutral none = st_inc-Neutral err_rt_no_contacts refl n

pub get_random_valid_node-Neutral :
    (c : Counters) (t : Rt) → Neutral c t.counters → Neutral c (get_random_valid_node t).1.counters
unfolding get_random_valid_node
get_random_valid_node-Neutral c t n = random_from-Neutral c _ n _

pub get_neighbor_contact-Neutral :
    (c : Counters) (target : Nih) (t : Rt)
    → Neutral c t.counters
    → Neutral c (get_neighbor_contact target t).1.counters
unfolding get_neighbor_contact index is_tx
get_neighbor_contact-Neutral c target t n =
    if_elim (λ (x : Rt.Contact). Neutral c x.1.counters)
      (Rt.is_empty (t.cells (Rt.get_cell target)))
      (λ _.
        get_random_valid_node-Neutral c (Rt.count_stat rt_miss t) (st_inc-Neutral rt_miss refl n))
      (λ _. n)

-- The table of info hashes.
module _ (c : Counters) (g : Gpm) (n : Neutral c g.counters) where
  unset_cell_at-Neutral : (tok : ℕ) → Neutral c (unset_cell_at tok g).counters
  unfolding unset_cell_at
  unset_cell_at-Neutral tok =
      if_elim (λ (x : Gpm). Neutral c x.counters) (not (g.g_ifl_buf tok).is_set) (λ _. n) (λ _. n)

  pub took-Neutral : (s : Scan) → Neutral c (took s g).gpm.counters
  unfolding took index is_tx
  took-Neutral (vacant tok) = n
  took-Neutral (stale tok) = unset_cell_at-Neutral tok
  took-Neutral full = st_inc-Neutral gpm_ih_drop_buf_overflow refl n

  pub register_q_gp_ihash-Neutral :
      (nid ih : Nih) (hop tok : ℕ) → Neutral c (register_q_gp_ihash nid ih hop tok g).counters
  unfolding register_q_gp_ihash set_ih_status set_cell index is_tx
  register_q_gp_ihash-Neutral nid ih hop tok =
      if_elim (λ (x : Gpm). Neutral c x.counters) (ltb gp_max_hops hop)
        (λ _. st_inc-Neutral gpm_ih_drop_too_many_hops refl n)
        (λ _. st_inc-Neutral gpm_ih_inserted refl n)

  pub clear_tok-Neutral : (k : Krpc) → After (λ (x : Gpm). Neutral c x.counters) (clear_tok k g)
  unfolding clear_tok unset_cell
  clear_tok-Neutral k = then_After _ (tok_of k) _ (λ tok. then_After _ (nid_checksum k) _ (λ sum.
      if_elim (λ (x : Gpm). Neutral c x.counters) ((g.g_ifl_buf tok).last_nid_checksum == sum)
        (λ _. unset_cell_at-Neutral tok) (λ _. n)))

  extract_from-Neutral :
      (k : Krpc) (nodes : List PNode) (found : Option GpmStatus)
      → After (λ (e : Extracted). Neutral c e.gpm.counters) (extract_from k nodes found g)
  unfolding extract_from index is_tx clear_tok
  extract_from-Neutral k nodes none = st_inc-Neutral gpm_r_gp_lookup_failed refl n
  extract_from-Neutral k nodes (some cell) =
      bind_After (λ (x : Gpm). Neutral c x.counters) _ (unset_cell k g) _ (clear_tok-Neutral k)
        (λ g' n'. n')

  pub extract_tok-Neutral :
      (k : Krpc) (nodes : List PNode)
      → After (λ (e : Extracted). Neutral c e.gpm.counters) (extract_tok k nodes g)
  unfolding extract_tok
  extract_tok-Neutral k nodes =
      if_elim (After (λ (e : Extracted). Neutral c e.gpm.counters)) (k.n_nodes == 0) (λ _. tt)
        (λ _. then_After _ (lookup_tok k g) _ (λ found. extract_from-Neutral k nodes found))

pub take_tok-Neutral :
    (c : Counters) (g : Gpm) → Neutral c g.counters → Neutral c (take_tok g).gpm.counters
unfolding take_tok
take_tok-Neutral c g n = took-Neutral c _ n (scan n_bins _ _ g)

pub decide_pursue_q_gp_ih-Neutral :
    (c : Counters) (g : Gpm)
    → Neutral c g.counters
    → Neutral c (decide_pursue_q_gp_ih g).gpm.counters
unfolding decide_pursue_q_gp_ih
decide_pursue_q_gp_ih-Neutral c g n = take_tok-Neutral c g n

-- The spam filter.
module _ (c : Counters) (t : Tables) (g : Counters) (n : Neutral c g) where
  counted-Neutral :
      (out : Bool) (stat : Stat) → is_tx (index stat) ≡ false → Neutral c (counted out stat g)
  counted-Neutral true stat quiet = n
  counted-Neutral false stat quiet = st_inc-Neutral stat quiet n

  pub spam_check_rx-Neutral : (a : ℕ) → Neutral c (spam_check_rx a t g).2
  unfolding spam_check_rx index is_tx
  spam_check_rx-Neutral a = counted-Neutral _ rx_spam refl

  pub spam_check_tx_pg-Neutral : (a : ℕ) → Neutral c (spam_check_tx_pg a t g).2
  unfolding spam_check_tx_pg index is_tx
  spam_check_tx_pg-Neutral a = counted-Neutral _ tx_ping_drop_spam refl

  pub spam_check_tx_q_gp-Neutral : (a : ℕ) (ih : Nih) → Neutral c (spam_check_tx_q_gp a ih t g).2
  unfolding spam_check_tx_q_gp index is_tx
  spam_check_tx_q_gp-Neutral a ih = counted-Neutral _ tx_q_gp_drop_spam refl

  pub spam_run_epoch-Neutral : Neutral c (spam_run_epoch t g).1
  unfolding spam_run_epoch index is_tx
  spam_run_epoch-Neutral =
      st_set-Neutral spam_size_q_gp refl
        (st_set-Neutral spam_size_ping refl (st_set-Neutral spam_size_rx refl n _) _) _
