-- ===== src/Main/Acts/Receives.antt =====
-- cht/main.cpp: what `cb_recv_msg` does to the state.
use dht_cpp.Base.{
  ℕ, Bool, true, false, Option, none, some, ltb, ◌==◌, if◌then◌else◌, if_elim, Run, ok, crash,
  After, bind_After, After-ok, ◌≡◌, refl, assertion, ◌&&◌, leb, arith,
}
use dht_cpp.Dht.{Peerinfo, min_msg_len}
use dht_cpp.Krpc.Decode.{Outcome, returned, died, out_of_fuel, parse_msg}
use dht_cpp.Krpc.Flags.{maxlen}
use dht_cpp.Krpc.State.{Krpc}
use dht_cpp.Krpc.Status.Rounds.{parse_msg-IsVerdict}
use dht_cpp.Krpc.Status.{IsVerdict}
use dht_cpp.Main.Acts.Replies.{handle_msg-Acts}
use dht_cpp.Main.Acts.{IsUv, Acts, stays, counts, sets_tables}
use dht_cpp.Main.Handlers.{handle_msg}
use dht_cpp.Main.Neutral.{is_tx, is_acct, Neutral, same_Neutral, spam_check_rx-Neutral}
use dht_cpp.Main.Receive.{
  Nread, failed, bytes, free_krpc, after_parse, recv_found, cb_recv_msg, is_mapped,
}
use dht_cpp.Main.State.{Uv, Node, store, count_stat}
use dht_cpp.Spam.{Tables, spam_check_rx}
use dht_cpp.Stat.Counters.{Counters}
use dht_cpp.Stat.{Stat, index, rx_err, rx_tot, bd_x_msg_too_long, bd_a_no_error, stat_eq}

-- A message is decoded into the store and acted upon; its `KRPC` goes back to the pool or not.
pub data Receives (uv : Uv) (krpc : ℕ) (s : Node) : Node → Type 0 where
  frees :
      {s' : Node}
      → (krpcs : ℕ → Krpc) → Acts uv (record s { krpcs = krpcs }) s'
      → Receives uv krpc s (free_krpc krpc s')
  drops :
      {s' : Node}
      → (krpcs : ℕ → Krpc) → Acts uv (record s { krpcs = krpcs }) s'
      → Receives uv krpc s s'

verdict_is_tx : (i : ℕ) → (leb 52 i && leb i 88) ≡ true → is_tx i ≡ false
unfolding is_tx is_acct
verdict_is_tx i h = ground arith

IsVerdict-is_tx : (stat : Stat) → IsVerdict stat → is_tx (index stat) ≡ false
unfolding index
IsVerdict-is_tx stat h = verdict_is_tx (index stat) h

module _ (uv : Uv) (is_uv : IsUv uv) (krpc : ℕ) (s : Node) where
  if_Receives :
      (b : Bool) (x y : Run Node)
      → After (Receives uv krpc s) x
      → After (Receives uv krpc s) y
      → After (Receives uv krpc s) (if b then x else y)
  if_Receives b x y f g = if_elim (After (Receives uv krpc s)) b (λ _. f) (λ _. g)

  -- A change of tables and counters, and the buffer given back.
  freed : {s' : Node} → Acts uv s s' → Receives uv krpc s (free_krpc krpc s')
  freed a = frees s.krpcs a

  module _ (t : Tables) (c : Counters) (n : Neutral s.counters c) where
    abbrev checked : Node
    checked = record s { tables = t; counters = c }

    after_parse-Receives :
        (o : Outcome) (saddr : Peerinfo)
        → ((k : Krpc) → o ≡ returned k → IsVerdict k.status)
        → After (Receives uv krpc s) (after_parse uv krpc o saddr checked)
    unfolding after_parse index is_tx is_acct
    after_parse-Receives (returned k) saddr v =
        let krpcs = λ (i : ℕ). if krpc == i then k else s.krpcs i in
        let s₀ : Node = record s { krpcs = krpcs } in
        let begun : Acts uv s₀ (store krpc k checked) = sets_tables uv s₀ stays t c n in
        if_Receives (stat_eq k.status bd_a_no_error) _ _
          (bind_After _ _ (handle_msg uv k saddr (count_stat rx_tot (store krpc k checked))) _
            (handle_msg-Acts uv is_uv s₀ k saddr (counts uv s₀ begun rx_tot refl))
            (λ s' a. frees krpcs a))
          (drops krpcs (counts uv s₀ begun k.status (IsVerdict-is_tx k.status (v k refl))))
    after_parse-Receives (died c') saddr v = tt
    after_parse-Receives out_of_fuel saddr v = tt

  recv_found-Receives :
      (nread : Nread) (saddr : Option Peerinfo)
      → After (Receives uv krpc s) (recv_found uv krpc nread saddr s)
  unfolding recv_found index is_tx is_acct
  recv_found-Receives nread none = freed stays
  recv_found-Receives failed (some saddr) = freed (counts uv s stays rx_err refl)
  recv_found-Receives (bytes nread) (some saddr) =
      let check = spam_check_rx saddr.in_addr s.tables s.counters in
      let n = spam_check_rx-Neutral _ _ _ (same_Neutral s.counters) saddr.in_addr in
      let passed = sets_tables uv s stays check.1 check.2 n in
      if_Receives (nread == 0) _ _ (freed stays) (
        if_Receives (ltb nread min_msg_len) _ _
          (freed (counts uv s stays uv.bm_too_short is_uv.too_short))
          (if_Receives (nread == maxlen) _ _ (freed (counts uv s stays bd_x_msg_too_long refl)) (
            if_Receives check.0 _ _
              (after_parse-Receives check.1 check.2 n (parse_msg (s.krpcs krpc) nread) saddr
                (λ k e. (parse_msg-IsVerdict (s.krpcs krpc) nread e).1))
              (freed passed))))

-- A call of `cb_recv_msg` that does not crash gives the buffer back, or drops it, behind a sequence of
-- sends and quiet changes.
pub cb_recv_msg-Receives :
    (uv : Uv) (base : ℕ) (nread : Nread) (saddr : Option Peerinfo) (s : Node) {s' : Node}
    → IsUv uv
    → cb_recv_msg uv base nread saddr s ≡ ok s'
    → Receives uv base s s'
unfolding cb_recv_msg
cb_recv_msg-Receives uv base nread saddr s is_uv e =
    After-ok (Receives uv base s) _
      (if_Receives uv is_uv base s (is_mapped base s.krpc_map) _ (crash assertion)
        (recv_found-Receives uv is_uv base s nread saddr) tt)
      e
