-- ===== src/Server/Answers/Refusals.antt =====
-- cht/server.hpp: messages of other nodes that are refused.
use dht_cpp.Base.{
  ℕ, ◌≤◌, ◌<◌, Bool, true, false, List, ◌++◌, Bytes, length, ltb, leb, ◌==◌, if◌then◌else◌, Run, ok,
  ◌≡◌, refl, subst, ◌∙◌, arith,
}
use dht_cpp.Dht.{min_msg_len}
use dht_cpp.Krpc.Decode.{returned, parse_msg}
use dht_cpp.Krpc.Flags.{maxlen}
use dht_cpp.Krpc.State.{Krpc, clear}
use dht_cpp.Krpc.Tokens.Fits.{NumsShort}
use dht_cpp.Krpc.Tokens.Refusals.{
  Refusal, long_tok, announcement, failure, IsRefusal, reason, bytes_of, parse_msg-refuse,
}
use dht_cpp.Krpc.Tokens.{Token}
use dht_cpp.Server.Receive.{after_parse, handle_recv}
use dht_cpp.Server.State.{Server, Endpoint}
use dht_cpp.Spam.{spam_check_rx}
use dht_cpp.Stat.Counters.{st_inc}
use dht_cpp.Stat.{Stat, bd_a_no_error, stat_eq, index}

-- From `s` to `s'` the message of the sender was dropped: for the reason `stat` if the sender had a
-- token left, which is then the only thing that is counted in addition to the check of the sender.
pub record Drops (sender : Endpoint) (stat : Stat) (s s' : Server) : Type 0 where
  pub in_flight : s'.in_flight ≡ s.in_flight
  pub cells : s'.cells ≡ s.cells
  pub g_ifl_buf : s'.g_ifl_buf ≡ s.g_ifl_buf
  pub send_bufs : s'.send_bufs ≡ s.send_bufs
  pub bytes : s'.krpc.bytes ≡ s.krpc.bytes
  pub tables : s'.tables ≡ (spam_check_rx sender.addr s.tables s.counters).1
  pub counters :
      let (out, _, counters) = spam_check_rx sender.addr s.tables s.counters in
      s'.counters ≡ (if out then st_inc stat counters else counters)

module _ (nread : ℕ) (sender : Endpoint) (s : Server) (k : Krpc) (l : min_msg_len ≤ nread)
    (u : nread < maxlen) (parsed : parse_msg (clear s.krpc) nread ≡ returned k)
    (same : k.bytes ≡ s.krpc.bytes) (bad : stat_eq k.status bd_a_no_error ≡ false) where
  abbrev checked : Server
  checked =
      let (_, tables, counters) = spam_check_rx sender.addr s.tables s.counters in
      record s { tables = tables; counters = counters }

  abbrev gated : Bool → Run Server
  gated out = if out then after_parse (returned k) sender checked else ok checked

  handle_recv-gated :
      handle_recv false nread sender s ≡ gated (spam_check_rx sender.addr s.tables s.counters).0
  unfolding handle_recv
  handle_recv-gated =
      let some_bytes : nread == 0 ≡ false = ground arith in
      let enough : ltb nread min_msg_len ≡ false = ground arith in
      let fits : leb maxlen nread ≡ false = ground arith in
      rw (some_bytes, enough, fits, parsed) refl

  gated-Drops :
      (out : Bool)
      → (spam_check_rx sender.addr s.tables s.counters).0 ≡ out
      → (s' : Server) × (gated out ≡ ok s') × Drops sender k.status s s'
  unfolding after_parse
  gated-Drops true e = (
    record checked { krpc = k; counters = st_inc k.status checked.counters },
    rw bad refl,
    record {
      in_flight = refl;
      cells = refl;
      g_ifl_buf = refl;
      send_bufs = refl;
      bytes = same;
      tables = refl;
      counters = rw e refl;
    },
  )
  gated-Drops false e = (
    checked,
    refl,
    record {
      in_flight = refl;
      cells = refl;
      g_ifl_buf = refl;
      send_bufs = refl;
      bytes = refl;
      tables = refl;
      counters = rw e refl;
    },
  )

  refused-Drops :
      (s' : Server) × (handle_recv false nread sender s ≡ ok s') × Drops sender k.status s s'
  refused-Drops =
      let (s', runs, drops) = gated-Drops (spam_check_rx sender.addr s.tables s.counters).0 refl in
      (s', handle_recv-gated ∙ runs, drops)

reason-stat_eq : (f : Refusal) → stat_eq (reason f) bd_a_no_error ≡ false
unfolding index
reason-stat_eq (long_tok q id tok) = refl
reason-stat_eq (announcement id x port token) = refl
reason-stat_eq failure = refl

-- In any state a server drops a message that starts as a ping, find_node or get_peers query up to a
-- tok of more than `MAXLEN_TOK` bytes, or as an announce_peer query with an info hash, a port and a
-- token of up to `MAXLEN_TOKEN` bytes, in this order, up to its name, or as an error message, a list
-- under the key `e`; ids and info hashes have 20 bytes. The message may go on with any tokens, with
-- numbers of up to six digits, and is neither shorter than `MIN_MSG_LEN` nor as long as `MAXLEN`.
-- `handle_recv` does not crash, nothing is sent, the routing table, the table of info hashes and the
-- buffer of the message stay as they are. If the address of the sender has a token left, it is
-- counted that the tok is too long, that the query is unknown, or that a list is not expected.
pub handle_recv-Drops :
    (rest : Bytes) (f : Refusal) (ts : List Token) (sender : Endpoint) (s : Server)
    → IsRefusal f
    → NumsShort ts
    → min_msg_len ≤ length (bytes_of f ts)
    → length (bytes_of f ts) < maxlen
    → s.krpc.bytes ≡ bytes_of f ts ++ rest
    → (s' : Server) × (handle_recv false (length (bytes_of f ts)) sender s ≡ ok s')
      × Drops sender (reason f) s s'
handle_recv-Drops rest f ts sender s h nums enough fits got =
    let (r, parsed, why, same) = parse_msg-refuse s.krpc rest f ts h nums fits got in
    let (s', runs, drops) =
      refused-Drops _ sender s r enough fits parsed same (rw why (reason-stat_eq f)) in
    (s', runs, subst (λ stat. Drops sender stat s s') why drops)
