-- ===== src/Main/Steps/Books.antt =====
-- cht/main.cpp: the packets that were sent, against the statistics and the rules for addresses.
use dht_cpp.Base.{
  ℕ, zero, suc, ◌+◌, ◌%◌, ◌^◌, true, false, List, [], ◌∷◌, Bytes, ◌==◌, if◌then◌else◌, ◌≡◌, refl,
  arith, Bool-cases, inl, inr, sym, ◌∙◌, subst,
}
use dht_cpp.Dht.{Peerinfo}
use dht_cpp.Main.Acts.{Keeps, Acts, stays, sends, changes}
use dht_cpp.Main.Neutral.{is_acct, is_tx}
use dht_cpp.Main.Send.{send_msg, take_request}
use dht_cpp.Main.State.{Uv, Node, Request, count_stat}
use dht_cpp.Msg.{Written}
use dht_cpp.Rt.Address.{validate_addr}
use dht_cpp.Stat.Counters.{st_inc, st_set, st_get}
use dht_cpp.Stat.{Stat, index, tx_tot, tx_msg_drop_early_error}

-- Of the first `n` packets, those that `uv_udp_send` took and those that it refused.
unfoldable pub taken : Uv → ℕ → ℕ
taken uv zero = 0
taken uv (suc n) = taken uv n + (if uv.takes n then 1 else 0)

unfoldable pub refused : Uv → ℕ → ℕ
refused uv zero = 0
refused uv (suc n) = refused uv n + (if uv.takes n then 0 else 1)

-- Every pending request is for an address that `validate_addr` accepts.
abbrev pub AllValid : List Request → Type 0
AllValid [] = Unit
AllValid (r ∷ rs) = (validate_addr r.dest.in_addr r.dest.sin_port ≡ true) × AllValid rs

-- The packets sent, as the statistics of the seven kinds of messages count them.
abbrev pub sum_of : (ℕ → ℕ) → ℕ
sum_of ctr = ctr 31 + ctr 32 + ctr 33 + ctr 35 + ctr 36 + ctr 37 + ctr 38

pub record IsBooked (uv : Uv) (s : Node) : Type 0 where
  pub valid : AllValid s.pending
  pub total : s.counters.ctr 29 ≡ taken uv s.n_sends % 2 ^ 64
  pub early : s.counters.ctr 24 ≡ refused uv s.n_sends % 2 ^ 64
  pub kinds : sum_of s.counters.ctr % 2 ^ 64 ≡ s.counters.ctr 29

sum_inc :
    (ctr : ℕ → ℕ) (i : ℕ)
    → is_acct i ≡ true
    → sum_of (λ j. if i == j then (ctr i + 1) % 2 ^ 64 else ctr j) % 2 ^ 64
      ≡ (sum_of ctr + 1) % 2 ^ 64
unfolding is_acct
sum_inc ctr i h = ground arith

not_own : (i : ℕ) → is_acct i ≡ true → ((i == 29) ≡ false) × ((i == 24) ≡ false)
unfolding is_acct
not_own i h = ground arith

module _ (uv : Uv) where
  next_taken :
      (n : ℕ)
      → uv.takes n ≡ true
      → (taken uv (suc n) ≡ taken uv n + 1) × (refused uv (suc n) ≡ refused uv n)
  unfolding taken refused
  next_taken n h = rw h (refl, omega arith)

  next_refused :
      (n : ℕ)
      → uv.takes n ≡ false
      → (taken uv (suc n) ≡ taken uv n) × (refused uv (suc n) ≡ refused uv n + 1)
  unfolding taken refused
  next_refused n h = rw h (omega arith, refl)

  pub Keeps-IsBooked : (s s' : Node) → Keeps s s' → IsBooked uv s → IsBooked uv s'
  unfolding is_tx is_acct
  Keeps-IsBooked s s' k b =
      let same = k.counters.kept in
      record {
        valid = subst AllValid (sym k.pending) b.valid;
        total = rw (k.n_sends) (same 29 refl ∙ b.total);
        early = rw (k.n_sends) (same 24 refl ∙ b.early);
        kinds =
            rw
              (
                same 29 refl,
                same 31 refl,
                same 32 refl,
                same 33 refl,
                same 35 refl,
                same 36 refl,
                same 37 refl,
                same 38 refl,
              )
              b.kinds;
      }

  take_request-IsBooked :
      (bufs : List Bytes) (s : Node) → IsBooked uv s → IsBooked uv (take_request uv bufs s).1
  unfolding take_request st_inc st_set st_get index
  take_request-IsBooked [] s b = record {
    valid = b.valid;
    total = b.total;
    early = b.early;
    kinds = b.kinds;
  }
  take_request-IsBooked (buf ∷ bufs) s b = record {
    valid = b.valid;
    total = b.total;
    early = b.early;
    kinds = b.kinds;
  }

  -- The packet in the hands of `uv_udp_send`.
  posted-IsBooked :
      (s : Node) (r : Request) (acct : Stat)
      → is_acct (index acct) ≡ true
      → validate_addr r.dest.in_addr r.dest.sin_port ≡ true
      → IsBooked uv s
      → IsBooked uv (
          if uv.takes s.n_sends
          then count_stat tx_tot
              (count_stat acct (record s { n_sends = suc s.n_sends; pending = r ∷ s.pending }))
          else count_stat tx_msg_drop_early_error (record s { n_sends = suc s.n_sends }))
  unfolding st_inc st_set st_get index
  posted-IsBooked s r acct is v b = elim (Bool-cases (uv.takes s.n_sends)) [
    | inl took ↦
        let next = next_taken s.n_sends took in
        let (tot, early) = not_own (index acct) is in
        rw took (record {
          valid = (v, b.valid);
          total = rw tot (omega (arith, b.total, next));
          early = rw early (omega (arith, b.early, next));
          kinds = rw tot (omega (arith, sum_inc s.counters.ctr (index acct) is, b.kinds));
        })
    | inr kept_out ↦
        let next = next_refused s.n_sends kept_out in
        rw kept_out (record {
          valid = b.valid;
          total = omega (arith, b.total, next);
          early = omega (arith, b.early, next);
          kinds = b.kinds;
        })
  ]

  pub send_msg-IsBooked :
      (write_fn : Bytes → Written) (dest : Peerinfo) (acct : Stat) (s : Node)
      → is_acct (index acct) ≡ true
      → IsBooked uv s
      → IsBooked uv (send_msg uv write_fn dest acct s)
  unfolding send_msg st_inc st_set st_get index
  send_msg-IsBooked write_fn dest acct s is b =
      elim (Bool-cases (validate_addr dest.in_addr dest.sin_port)) [
        | inl fine ↦ rw fine (
            let (buf, s₁) = take_request uv s.send_req_pool s in
            let (written, len) = write_fn buf in
            posted-IsBooked s₁ (record { buf = written; len = len; dest = dest }) acct is fine
              (take_request-IsBooked s.send_req_pool s b))
        | inr bad ↦
            rw bad (record { valid = b.valid; total = b.total; early = b.early; kinds = b.kinds })
      ]

  pub Acts-IsBooked : {s s' : Node} → Acts uv s s' → IsBooked uv s → IsBooked uv s'
  Acts-IsBooked stays b = b
  Acts-IsBooked (sends {s'} write_fn dest acct is a) b =
      send_msg-IsBooked write_fn dest acct s' is (Acts-IsBooked a b)
  Acts-IsBooked (changes {s'} {s''} k a) b = Keeps-IsBooked s' s'' k (Acts-IsBooked a b)
