-- ===== src/Server/Invariant/Runs.antt =====
-- cht/server.hpp: the invariant over any run of the callbacks.
use dht_cpp.Base.{
  ℕ, zero, suc, ◌≤◌, Bool, List, [], ◌∷◌, Bytes, length, ltb, leb, ◌==◌, ok, After, After-ok,
  if_After, ◌≡◌, refl, arith, Bool-cases, inl, inr,
}
use dht_cpp.Dht.{Nih, min_msg_len}
use dht_cpp.Krpc.Decode.{Outcome, returned, died, out_of_fuel, parse_msg}
use dht_cpp.Krpc.Flags.{maxlen}
use dht_cpp.Krpc.Safety.Loop.{Ends, parse_msg-Ends}
use dht_cpp.Krpc.State.{Krpc, clear}
use dht_cpp.Krpc.Status.Rounds.{parse_msg-IsVerdict}
use dht_cpp.Msg
use dht_cpp.Msg.Fits.{q_fn-Fits}
use dht_cpp.Rt.{bootstrap_node}
use dht_cpp.Server.Invariant.Parts.{spam_check_rx-IsTables}
use dht_cpp.Server.Invariant.Replies.{dispatch-IsServer}
use dht_cpp.Server.Invariant.{
  IsServer, AllSized, AllFit, set_tables, set_krpc, set_count, send_msg-IsServer,
}
use dht_cpp.Server.Receive.{after_parse, handle_recv}
use dht_cpp.Server.Send.{send_done, remove_packet, release_all}
use dht_cpp.Server.State.{Server, Packet, Endpoint, as_endpoint}
use dht_cpp.Server.Timer.{loop_bootstrap_cb}
use dht_cpp.Spam.Buckets.{replenish-tokens}
use dht_cpp.Spam.{spam_run_epoch, spam_check_rx, max_rx, max_pg, max_gp}
use dht_cpp.Stat.{stat_eq, bd_a_no_error, rx_tot, bd_x_msg_too_short, bd_x_msg_too_long}

after_parse-IsServer :
    (o : Outcome) (n : ℕ) (sender : Endpoint) (s : Server)
    → Ends n o
    → n ≤ maxlen
    → ((k : Krpc) → o ≡ returned k → k.bytes ≡ s.krpc.bytes)
    → IsServer s
    → After IsServer (after_parse o sender s)
unfolding after_parse
after_parse-IsServer (died c) n sender s e small same h = tt
after_parse-IsServer out_of_fuel n sender s e small same h = tt
after_parse-IsServer (returned k) n sender s safe small same h =
    let s' : Server = record s { krpc = k } in
    let sized : length k.bytes ≡ maxlen = rw (same k refl) h.bytes in
    let h' = set_krpc s h k sized in
    if_After IsServer (stat_eq k.status bd_a_no_error) _ _
      (dispatch-IsServer k n safe (omega arith) sender _ (set_count s' h' rx_tot))
      (set_count s' h' k.status)

handle_recv-IsServer :
    (ec : Bool) (nread : ℕ) (sender : Endpoint) (s : Server)
    → IsServer s
    → After IsServer (handle_recv ec nread sender s)
unfolding handle_recv clear
handle_recv-IsServer ec nread sender s h =
    let check = spam_check_rx sender.addr s.tables s.counters in
    let checked : Server = record s { tables = check.1; counters = check.2 } in
    let h' =
      set_tables s h check.1 check.2
        (spam_check_rx-IsTables s.tables s.counters h.tables sender.addr) in
    if_After IsServer ec _ _ h (
      if_After IsServer (nread == 0) _ _ h (
        if_After IsServer (ltb nread min_msg_len) _ _ (set_count s h bd_x_msg_too_short)
          (elim (Bool-cases (leb maxlen nread)) [
            | inl long ↦ rw long (set_count s h bd_x_msg_too_long)
            | inr short ↦ rw short (
                if_After IsServer check.0 _ _
                  (after_parse-IsServer (parse_msg (clear s.krpc) nread) nread sender checked
                    (parse_msg-Ends s.krpc nread (ground arith)) (ground arith)
                    (λ k e. (parse_msg-IsVerdict (clear s.krpc) nread e).0) h')
                  h')
          ])))

AllFit-remove_packet : (n : ℕ) (ps : List Packet) → AllFit ps → AllFit (remove_packet n ps)
unfolding remove_packet
AllFit-remove_packet n [] a = a
AllFit-remove_packet zero (p ∷ ps) (b, l, a) = a
AllFit-remove_packet (suc n) (p ∷ ps) (b, l, a) = (b, l, AllFit-remove_packet n ps a)

AllSized-release_all :
    (ps : List Packet) (n : ℕ) (bufs : List Bytes)
    → AllFit ps
    → AllSized bufs
    → AllSized (release_all ps n bufs)
unfolding release_all
AllSized-release_all [] n bufs a b = b
AllSized-release_all (p ∷ ps) zero bufs (size, l, a) b = (size, b)
AllSized-release_all (p ∷ ps) (suc n) bufs (size, l, a) b = AllSized-release_all ps n bufs a b

send_done-IsServer : (n : ℕ) (s : Server) → IsServer s → IsServer (send_done n s)
unfolding send_done
send_done-IsServer n s h = record {
  bytes = h.bytes;
  tables = h.tables;
  gpm = h.gpm;
  rt = h.rt;
  send_bufs = AllSized-release_all s.in_flight n s.send_bufs h.in_flight h.send_bufs;
  garbage = h.garbage;
  in_flight = AllFit-remove_packet n s.in_flight h.in_flight;
}

-- The epoch of the spam filter.
abbrev pub epoch : Server → Server
epoch s =
    let (tables, counters) = spam_run_epoch s.tables s.counters in
    record s { tables = tables; counters = counters }

epoch-IsServer : (s : Server) → IsServer s → IsServer (epoch s)
unfolding spam_run_epoch
epoch-IsServer s h =
    let t = s.tables in
    set_tables s h _ _ (record {
      rx = (replenish-tokens max_rx 4 0 t.g_rx_spamtable h.tables.rx).1;
      pg = (replenish-tokens max_pg 1 0 t.g_pg_spamtable h.tables.pg).1;
      gp = (replenish-tokens max_gp 1 0 t.getpeers_spamtable h.tables.gp).1;
    })

-- One call of a callback, which does not crash; a packet is received into a buffer of `MAXLEN` bytes.
pub data Step (s : Server) : Server → Type 0 where
  receive :
      {s' : Server}
      → (contents : Bytes) → length contents ≡ maxlen
      → (ec : Bool) (nread : ℕ) (sender : Endpoint)
      → handle_recv ec nread sender (record s { krpc = record s.krpc { bytes = contents } }) ≡ ok s'
      → Step s s'
  sent : (n : ℕ) → Step s (send_done n s)
  bootstrap : (random_target : Nih) → Step s (loop_bootstrap_cb random_target s)
  replenished : Step s (epoch s)

pub data Reach (s : Server) : Server → Type 0 where
  start : Reach s s
  then_step : {s' s'' : Server} → Reach s s' → Step s' s'' → Reach s s''

Step-IsServer : {s s' : Server} → Step s s' → IsServer s → IsServer s'
unfolding loop_bootstrap_cb
Step-IsServer {s} (receive contents sized ec nread sender e) h =
    let k : Krpc = record s.krpc { bytes = contents } in
    After-ok IsServer (handle_recv ec nread sender (record s { krpc = k }))
      (handle_recv-IsServer ec nread sender _ (set_krpc s h k sized)) e
Step-IsServer {s} (sent n) h = send_done-IsServer n s h
Step-IsServer {s} (bootstrap target) h =
    send_msg-IsServer s h (λ buf. Msg.q_fn buf bootstrap_node.nid target)
      (as_endpoint bootstrap_node.peerinfo) (q_fn-Fits bootstrap_node.nid target)
Step-IsServer {s} replenished h = epoch-IsServer s h

-- In every state that the callbacks reach, with packets received into buffers of `MAXLEN` bytes: every
-- packet on its way is in a buffer of `MSG_BUF_LEN` bytes and not longer, every free buffer has that
-- size, the cells of the routing table have 18 bytes of an id, the hops of an info hash are at most 8,
-- its time fits 56 bits, and a spam table has one entry for a key and none above its limit, if this
-- holds at the start.
pub Reach-IsServer : {s s' : Server} → Reach s s' → IsServer s → IsServer s'
Reach-IsServer start h = h
Reach-IsServer (then_step r step) h = Step-IsServer step (Reach-IsServer r h)
