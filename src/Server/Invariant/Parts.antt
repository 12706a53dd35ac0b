-- ===== src/Server/Invariant/Parts.antt =====
-- cht/server.hpp: what the parts of the program keep of the invariant.
use dht_cpp.Base.{
  ℕ, ◌%◌, ◌≤◌, List, Option, none, some, Bytes, [], drop, length, length-take, length-drop, ◌==◌,
  if◌then◌else◌, if_elim, Run, ok, After, bind_After, then_After, ok_After, if_After, ◌≡◌, refl,
  arith, bit_xor,
}
use dht_cpp.Dht.{Nih, IsNih, PNode, nih_len, checksum}
use dht_cpp.Gpm.Reach.{IsGpm, start, register, take, clear, extract, Reach-IsGpm}
use dht_cpp.Gpm.{
  Gpm, Extracted, take_tok, decide_pursue_q_gp_ih, register_q_gp_ihash, clear_tok, extract_tok,
}
use dht_cpp.Krpc.Flags.{maxlen_tok}
use dht_cpp.Krpc.Reply.{KReply, k_reply}
use dht_cpp.Krpc.Safety.Shape.{IsSafe, EndsBy}
use dht_cpp.Krpc.State.{Krpc, bytes_at}
use dht_cpp.Rt
use dht_cpp.Rt.{Rt, get_random_valid_node, get_neighbor_contact, random_from, Contact}
use dht_cpp.Server.Handlers.{nih_at}
use dht_cpp.Server.Invariant.{IsTables}
use dht_cpp.Spam.Buckets.{withdraw-Withdraws}
use dht_cpp.Spam.{
  Tables, max_rx, max_pg, max_gp, spam_check_rx, spam_check_tx_pg, spam_check_tx_q_gp,
}
use dht_cpp.Stat.Counters.{Counters}
use dht_cpp.Stat.{stat_eq, st_enum_start}

-- The message: what it points at was received, into a buffer of at least `n` bytes.
module _ (k : Krpc) (n : ℕ) (safe : IsSafe k n) (long : n ≤ length k.bytes) where
  pub nih_at-IsNih : (p : Option ℕ) → EndsBy p nih_len n → After IsNih (nih_at k p)
  unfolding bytes_at
  nih_at-IsNih none e = tt
  nih_at-IsNih (some p) e =
      omega (arith, length-take nih_len (drop p k.bytes), length-drop p k.bytes)

  abbrev pub IsShort : KReply → Type 0
  IsShort krp = length krp.tok ≤ maxlen_tok

  copies :
      (p : Option ℕ)
      → After (λ (tok : Bytes). length tok ≤ maxlen_tok) (bytes_at k p (k.tok_len % 0x100))
  unfolding bytes_at
  copies none = tt
  copies (some p) = omega (arith, length-take (k.tok_len % 0x100) (drop p k.bytes), safe.tok_len)

  pub k_reply-IsShort : After IsShort (k_reply k)
  unfolding k_reply
  k_reply-IsShort =
      let len = k.tok_len % 0x100 in
      let copied : Run Bytes = if len == 0 then ok [] else bytes_at k k.tok len in
      then_After _ (bytes_at k k.nid nih_len) _ (λ nid.
        if_After IsShort (stat_eq k.status st_enum_start) _ _ tt (
          bind_After (λ tok. length tok ≤ maxlen_tok) _ copied _
            (if_After (λ (tok : Bytes). length tok ≤ maxlen_tok) (len == 0) _ _ (omega arith)
              (copies k.tok))
            (λ tok l. l)))

-- The routing table hands contacts out, and stays what it is.
random_from-cells : (o : Option ℕ) (t : Rt) → (random_from o t).1.cells ≡ t.cells
unfolding random_from
random_from-cells none t = refl
random_from-cells (some ix) t = refl

pub get_random_valid_node-cells : (t : Rt) → (get_random_valid_node t).1.cells ≡ t.cells
unfolding get_random_valid_node
get_random_valid_node-cells t = random_from-cells _ _

pub get_neighbor_contact-cells :
    (target : Nih) (t : Rt) → (get_neighbor_contact target t).1.cells ≡ t.cells
unfolding get_neighbor_contact
get_neighbor_contact-cells target t =
    if_elim (λ (c : Contact). c.1.cells ≡ t.cells) (Rt.is_empty (t.cells (Rt.get_cell target)))
      (λ _. get_random_valid_node-cells _) (λ _. refl)

-- The table of info hashes.
module _ (g : Gpm) (h : IsGpm g) where
  pub take_tok-IsGpm : IsGpm (take_tok g).gpm
  take_tok-IsGpm = Reach-IsGpm (take start) h

  pub decide_pursue_q_gp_ih-IsGpm : IsGpm (decide_pursue_q_gp_ih g).gpm
  unfolding decide_pursue_q_gp_ih
  decide_pursue_q_gp_ih-IsGpm = take_tok-IsGpm

  pub register_q_gp_ihash-IsGpm :
      (nid ih : Nih) (hop tok : ℕ) → IsGpm (register_q_gp_ihash nid ih hop tok g)
  register_q_gp_ihash-IsGpm nid ih hop tok = Reach-IsGpm (register start nid ih hop tok) h

  pub clear_tok-IsGpm : (k : Krpc) → After IsGpm (clear_tok k g)
  clear_tok-IsGpm k = ok_After IsGpm (clear_tok k g) (λ g' e. Reach-IsGpm (clear start k e) h)

  pub extract_tok-IsGpm :
      (k : Krpc) (nodes : List PNode)
      → After (λ (e : Extracted). IsGpm e.gpm) (extract_tok k nodes g)
  extract_tok-IsGpm k nodes =
      ok_After _ (extract_tok k nodes g) (λ x e. Reach-IsGpm (extract start k nodes e) h)

-- The spam filter.
module _ (t : Tables) (c : Counters) (h : IsTables t) where
  pub spam_check_rx-IsTables : (a : ℕ) → IsTables (spam_check_rx a t c).1
  unfolding spam_check_rx
  spam_check_rx-IsTables a =
      let (answer, own, others, h') =
        withdraw-Withdraws max_rx 1 a t.g_rx_spamtable (omega arith) h.rx in
      record { rx = h'; pg = h.pg; gp = h.gp }

  pub spam_check_tx_pg-IsTables : (a : ℕ) → IsTables (spam_check_tx_pg a t c).1
  unfolding spam_check_tx_pg
  spam_check_tx_pg-IsTables a =
      let (answer, own, others, h') =
        withdraw-Withdraws max_pg 15 a t.g_pg_spamtable (omega arith) h.pg in
      record { rx = h.rx; pg = h'; gp = h.gp }

  pub spam_check_tx_q_gp-IsTables : (a : ℕ) (ih : Nih) → IsTables (spam_check_tx_q_gp a ih t c).1
  unfolding spam_check_tx_q_gp
  spam_check_tx_q_gp-IsTables a ih =
      let (answer, own, others, h') =
        withdraw-Withdraws max_gp 15 (bit_xor (checksum ih) a) t.getpeers_spamtable (omega arith)
          h.gp in
      record { rx = h.rx; pg = h.pg; gp = h' }
