-- ===== src/Krpc/Accept.antt =====
-- cht/krpc.cpp: the checks of `validate`, on a message that is accepted.
pub mod Rounds
use dht_cpp.Base.{
  ℕ, zero, suc, ◌+◌, ◌<◌, Bool, true, false, ◌≡◌, ◌≢◌, refl, Option, ◌⊎◌, ◌||◌, Bytes, none, some,
  get_or, ltb, ◌==◌, ◌!=◌, if◌then◌else◌, Crash, assertion, Bool-cases, inl, inr, arith, sym, ◌∙◌,
}
use dht_cpp.Dht.{our_tok_pg, our_tok_gp, our_tok_fn, our_token}
use dht_cpp.Krpc.Decode.Chars.{read_dict, read_end, read_int_value, read_int, read_list}
use dht_cpp.Krpc.Decode.Common.{fail, enter}
use dht_cpp.Krpc.Decode.Keys.{read_okey, read_ikey}
use dht_cpp.Krpc.Decode.Values.{
  read_oval, read_query, read_type, read_nodes, read_ival, read_ivlist,
}
use dht_cpp.Krpc.Decode.{
  read_payload, read_sized, read_length, read_string, step, Outcome, returned, died, out_of_fuel,
  loop, xdecode, parse_msg,
}
use dht_cpp.Krpc.Flags.{Method, q_ap, q_fn, q_gp, q_pg, r_fn, r_gp, r_pg}
use dht_cpp.Krpc.State.{
  Krpc, XdState, xd_start, xd_okey, xd_ikey, xd_oval, xd_ival, xd_ivlist, XdHist, Decoder, Step,
  continue, return, crashed,
}
use dht_cpp.Krpc.Validate.{
  xd_fail, accept, on_byte, filter_ap, validate_query, validate_reply, validate,
}
use dht_cpp.Stat.{Stat, index, stat_eq, bd_a_no_error}

-- `p[i]` is `b`.
pub data IsByte (bytes : Bytes) : Option ℕ → ℕ → ℕ → Type 0 where
  is_byte : {p i b : ℕ} → get_or bytes (p + i) 0 ≡ b → IsByte bytes (some p) i b

-- The method of an accepted message is one of the seven, and with it: an announcement has a token of
-- another length than 1 that begins with ours, and a reply brings the tok of our queries of its kind
-- back, a get_peers reply with a node or a peer at least.
pub data IsAccepted (k : Krpc) : Type 0 where
  ping : k.method ≡ q_pg → IsAccepted k
  find_node : k.method ≡ q_fn → IsAccepted k
  get_peers : k.method ≡ q_gp → IsAccepted k
  announce :
      k.method ≡ q_ap
      → (k.token_len != 1) ≡ true
      → IsByte k.bytes k.token 0 our_token
      → IsAccepted k
  ping_reply :
      k.method ≡ r_pg → (k.tok_len != 1) ≡ false → IsByte k.bytes k.tok 0 our_tok_pg → IsAccepted k
  find_node_reply :
      k.method ≡ r_fn → (k.tok_len != 1) ≡ false → IsByte k.bytes k.tok 0 our_tok_fn → IsAccepted k
  get_peers_reply :
      k.method ≡ r_gp
      → (k.tok_len != 3) ≡ false
      → IsByte k.bytes k.tok 2 our_tok_gp
      → (k.n_nodes + k.n_peers == 0) ≡ false
      → IsAccepted k

-- A round that returns a message without an error has accepted it.
pub data Judges : Step → Type 0 where
  continues : {d : Decoder} → Judges (continue d)
  rejected : {k : Krpc} → stat_eq k.status bd_a_no_error ≡ false → Judges (return k)
  accepted : {k : Krpc} → IsAccepted k → Judges (return k)
  crashes : {c : Crash} → Judges (crashed c)

pub if_Judges :
    (b : Bool) {x y : Step}
    → (b ≡ true → Judges x)
    → (b ≡ false → Judges y)
    → Judges (if b then x else y)
if_Judges true f g = f refl
if_Judges false f g = g refl

on_byte-Judges :
    (k : Krpc) (p : Option ℕ) (i b : ℕ) {x y : Step}
    → (IsByte k.bytes p i b → Judges x)
    → Judges y
    → Judges (on_byte k p i b x y)
on_byte-Judges k none i b f g = crashes
on_byte-Judges k (some p) i b f g =
    if_Judges (get_or k.bytes (p + i) 0 == b) (λ e. f (is_byte (ground arith))) (λ _. g)

module _ (k : Krpc) where
  announces :
      (k.token_len != 1) ≡ true → IsByte k.bytes k.token 0 our_token → Judges (accept k q_ap)
  announces l b =
      accepted {k = record k { method = q_ap; status = bd_a_no_error }} (announce refl l b)

  queries : (m : Method) → (m ≡ q_pg) ⊎ (m ≡ q_fn) ⊎ (m ≡ q_gp) → Judges (accept k m)
  queries m (inl e) = accepted {k = record k { method = m; status = bd_a_no_error }} (ping e)
  queries m (inr (inl e)) =
      accepted {k = record k { method = m; status = bd_a_no_error }} (find_node e)
  queries m (inr (inr e)) =
      accepted {k = record k { method = m; status = bd_a_no_error }} (get_peers e)

  replies_pg : (k.tok_len != 1) ≡ false → IsByte k.bytes k.tok 0 our_tok_pg → Judges (accept k r_pg)
  replies_pg l b =
      accepted {k = record k { method = r_pg; status = bd_a_no_error }} (ping_reply refl l b)

  replies_fn : (k.tok_len != 1) ≡ false → IsByte k.bytes k.tok 0 our_tok_fn → Judges (accept k r_fn)
  replies_fn l b =
      accepted {k = record k { method = r_fn; status = bd_a_no_error }} (find_node_reply refl l b)

  replies_gp :
      (k.tok_len != 3) ≡ false
      → IsByte k.bytes k.tok 2 our_tok_gp
      → (k.n_nodes + k.n_peers == 0) ≡ false
      → Judges (accept k r_gp)
  replies_gp l b n =
      accepted {k = record k { method = r_gp; status = bd_a_no_error }} (get_peers_reply refl l b n)

module _ (k : Krpc) (hist : XdHist) where
  filter_ap-Judges : Judges (filter_ap k)
  unfolding filter_ap index
  filter_ap-Judges = search (if_Judges, on_byte-Judges, rejected, announces) depth 8

  get_peers_kind :
      (hist.msg_kind == q_ap || hist.msg_kind == q_gp) ≡ true
      → hist.msg_kind == q_ap ≡ false
      → Judges (accept k hist.msg_kind)
  get_peers_kind a b = queries k hist.msg_kind (inr (inr (ground arith)))

  find_node_kind : Judges (accept k q_fn)
  find_node_kind = queries k q_fn (inr (inl refl))

  ping_kind : Judges (accept k q_pg)
  ping_kind = queries k q_pg (inl refl)

  validate_query-Judges : Judges (validate_query k hist)
  unfolding validate_query index
  validate_query-Judges =
      search (if_Judges, filter_ap-Judges, rejected, get_peers_kind, find_node_kind, ping_kind)
        depth 10

  validate_reply-Judges : Judges (validate_reply k hist)
  unfolding validate_reply index
  validate_reply-Judges =
      search (if_Judges, on_byte-Judges, rejected, replies_gp, replies_fn, replies_pg) depth 12

  pub validate-Judges : Judges (validate k hist)
  unfolding validate index
  validate-Judges =
      search (if_Judges, validate_query-Judges, validate_reply-Judges, rejected, crashes) depth 9
