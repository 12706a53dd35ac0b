-- ===== src/Main/Answers/Receives.antt =====
-- cht/main.cpp: what `cb_recv_msg` does in front of `handle_msg`.
use dht_cpp.Base.{
  if◌then◌else◌, ℕ, ◌≤◌, ◌<◌, true, false, ltb, ◌==◌, some, Run, ok, ◌>>=◌, ◌≡◌, refl, ap, ◌∙◌,
  arith,
}
use dht_cpp.Dht.{Peerinfo, min_msg_len}
use dht_cpp.Krpc.Decode.{returned, parse_msg}
use dht_cpp.Krpc.Flags.{maxlen}
use dht_cpp.Krpc.State.{Krpc}
use dht_cpp.Main.Handlers.{handle_msg}
use dht_cpp.Main.Receive.{bytes, is_mapped, free_krpc, after_parse, recv_found, cb_recv_msg}
use dht_cpp.Main.State.{Uv, Node, count_stat, store}
use dht_cpp.Spam.{spam_check_rx}
use dht_cpp.Stat.{bd_a_no_error, rx_tot, index, stat_eq}

-- The state in which `after_parse` is called.
abbrev pub checked : Peerinfo → Node → Node
checked saddr s =
    let check = spam_check_rx saddr.in_addr s.tables s.counters in
    record s { tables = check.1; counters = check.2 }

pub cb_recv_msg-after_parse :
    (uv : Uv) (base nread : ℕ) (saddr : Peerinfo) (s : Node) (k : Krpc)
    → min_msg_len ≤ nread
    → nread < maxlen
    → is_mapped base s.krpc_map ≡ true
    → (spam_check_rx saddr.in_addr s.tables s.counters).0 ≡ true
    → parse_msg (s.krpcs base) nread ≡ returned k
    → cb_recv_msg uv base (bytes nread) (some saddr) s
      ≡ after_parse uv base (returned k) saddr (checked saddr s)
unfolding cb_recv_msg recv_found
cb_recv_msg-after_parse uv base nread saddr s k l u known passed parsed =
    let some_bytes : nread == 0 ≡ false = ground arith in
    let enough : ltb nread min_msg_len ≡ false = ground arith in
    let fits : nread == maxlen ≡ false = ground arith in
    rw (known, some_bytes, enough, fits, passed, parsed) refl

fine-stat_eq : (k : Krpc) → k.status ≡ bd_a_no_error → stat_eq k.status bd_a_no_error ≡ true
unfolding index
fine-stat_eq k fine = ap (λ stat. stat_eq stat bd_a_no_error) fine

pub after_parse-handle_msg :
    (uv : Uv) (base : ℕ) (saddr : Peerinfo) (s s' : Node) (k : Krpc)
    → k.status ≡ bd_a_no_error
    → handle_msg uv k saddr (count_stat rx_tot (store base k s)) ≡ ok s'
    → after_parse uv base (returned k) saddr s ≡ ok (free_krpc base s')
unfolding after_parse
after_parse-handle_msg uv base saddr s s' k fine runs =
    let handled = handle_msg uv k saddr (count_stat rx_tot (store base k s)) in
    let freed = λ (r : Run Node). r >>= λ s''. ok (free_krpc base s'') in
    ap (λ b. if b then freed handled else ok (count_stat k.status (store base k s)))
      (fine-stat_eq k fine)
    ∙ ap freed runs
