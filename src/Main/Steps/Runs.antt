-- ===== src/Main/Steps/Runs.antt =====
-- cht/main.cpp: the books over any run of the callbacks.
use dht_cpp.Base.{
  ℕ, zero, suc, Bool, true, false, List, [], ◌∷◌, ◌==◌, if_elim, Option, ◌≡◌, refl, ap, ◌∙◌, subst,
  sym,
}
use dht_cpp.Main.Acts.Receives.{Receives, frees, drops, cb_recv_msg-Receives}
use dht_cpp.Main.Acts.{IsUv}
use dht_cpp.Main.Neutral.{is_acct, Neutral, same_Neutral, spam_run_epoch-Neutral}
use dht_cpp.Main.Receive.{cb_alloc, take_krpc, map_insert, is_mapped}
use dht_cpp.Main.Send.{cb_send_msg, remove_request}
use dht_cpp.Main.State.{Uv, Node, Request}
use dht_cpp.Main.Steps.Books.{AllValid, IsBooked, Keeps-IsBooked, send_msg-IsBooked, Acts-IsBooked}
use dht_cpp.Main.Steps.{
  Step, alloc, receive, sent, bootstrap, statgather, Reach, start, then_step, deliver,
}
use dht_cpp.Main.Timers.{loop_bootstrap_cb, loop_statgather_cb}
use dht_cpp.Msg
use dht_cpp.Rt.{bootstrap_node}
use dht_cpp.Stat.Counters.{Counters, st_inc, st_set, st_get, rollover}
use dht_cpp.Stat.Rollover.{Calls, Rolled, st_rollover}
use dht_cpp.Stat.Rows.{st_rollover-counters}
use dht_cpp.Stat.{index, tx_q_fn}

AllValid-remove_request : (n : ℕ) (rs : List Request) → AllValid rs → AllValid (remove_request n rs)
unfolding remove_request
AllValid-remove_request n [] v = v
AllValid-remove_request zero (r ∷ rs) (v, vs) = vs
AllValid-remove_request (suc n) (r ∷ rs) (v, vs) = (v, AllValid-remove_request n rs vs)

module _ (uv : Uv) where
  -- The books are those of the requests, the calls and the counters.
  same_books :
      (s s' : Node)
      → s'.pending ≡ s.pending
      → s'.n_sends ≡ s.n_sends
      → s'.counters ≡ s.counters
      → IsBooked uv s
      → IsBooked uv s'
  same_books s s' p n c b = record {
    valid = subst AllValid (sym p) b.valid;
    total = rw (c, n) b.total;
    early = rw (c, n) b.early;
    kinds = rw c b.kinds;
  }

  map_insert-IsBooked : (base : ℕ) (s : Node) → IsBooked uv s → IsBooked uv (map_insert base s)
  unfolding map_insert
  map_insert-IsBooked base s b =
      if_elim (IsBooked uv) (is_mapped base s.krpc_map) (λ _. b)
        (λ _. same_books s _ refl refl refl b)

  take_krpc-IsBooked : (pool : List ℕ) (s : Node) → IsBooked uv s → IsBooked uv (take_krpc pool s).1
  unfolding take_krpc st_inc st_set st_get index
  take_krpc-IsBooked [] s b = record {
    valid = b.valid;
    total = b.total;
    early = b.early;
    kinds = b.kinds;
  }
  take_krpc-IsBooked (krpc ∷ pool) s b = same_books s _ refl refl refl b

  cb_alloc-IsBooked : (size : ℕ) (s : Node) → IsBooked uv s → IsBooked uv (cb_alloc size s).1
  unfolding cb_alloc
  cb_alloc-IsBooked size s b =
      let (krpc, s') = take_krpc s.recv_buf_pool s in
      if_elim (λ (x : Option ℕ × Node). IsBooked uv x.1) (size == 0) (λ _. b)
        (λ _. map_insert-IsBooked krpc s' (take_krpc-IsBooked s.recv_buf_pool s b))

  cb_send_msg-IsBooked :
      (failed : Bool) (n : ℕ) (s : Node) → IsBooked uv s → IsBooked uv (cb_send_msg failed n s)
  unfolding cb_send_msg st_inc st_set st_get index
  cb_send_msg-IsBooked true n s b = record {
    valid = AllValid-remove_request n s.pending b.valid;
    total = b.total;
    early = b.early;
    kinds = b.kinds;
  }
  cb_send_msg-IsBooked false n s b = record {
    valid = AllValid-remove_request n s.pending b.valid;
    total = b.total;
    early = b.early;
    kinds = b.kinds;
  }

  rollover_Neutral :
      (calls : Calls) (r : Rolled) → Neutral r.counters (st_rollover calls r).counters
  unfolding rollover
  rollover_Neutral calls r =
      let n = spam_run_epoch-Neutral _ r.tables _ (same_Neutral r.counters) in
      record {
        kept = λ i t. ap (λ (c : Counters). c.ctr i) (st_rollover-counters calls r) ∙ n.kept i t;
      }

  loop_statgather_cb-IsBooked :
      (calls : Calls) (s : Node) → IsBooked uv s → IsBooked uv (loop_statgather_cb calls s)
  unfolding loop_statgather_cb
  loop_statgather_cb-IsBooked calls s = Keeps-IsBooked uv s _ (record {
    krpcs = refl;
    n_krpcs = refl;
    recv_buf_pool = refl;
    krpc_map = refl;
    send_req_pool = refl;
    pending = refl;
    n_sends = refl;
    counters = rollover_Neutral calls (record {
      tables = s.tables;
      counters = s.counters;
      statics = s.statics;
      printed = s.printed;
    });
  })

  Receives-IsBooked :
      (base : ℕ) {s s' : Node} → Receives uv base s s' → IsBooked uv s → IsBooked uv s'
  Receives-IsBooked base {s} (frees {s'} krpcs a) b =
      same_books s' _ refl refl refl (Acts-IsBooked uv a (same_books s _ refl refl refl b))
  Receives-IsBooked base {s} (drops krpcs a) b =
      Acts-IsBooked uv a (same_books s _ refl refl refl b)

  Step-IsBooked : {s s' : Node} → IsUv uv → Step uv s s' → IsBooked uv s → IsBooked uv s'
  unfolding loop_bootstrap_cb index is_acct
  Step-IsBooked {s} is_uv (alloc size) b = cb_alloc-IsBooked size s b
  Step-IsBooked {s} is_uv (receive base contents nread saddr e) b =
      Receives-IsBooked base
        (cb_recv_msg-Receives uv base nread saddr (deliver base contents s) is_uv e)
        (same_books s (deliver base contents s) refl refl refl b)
  Step-IsBooked {s} is_uv (sent failed n) b = cb_send_msg-IsBooked failed n s b
  Step-IsBooked {s} is_uv (bootstrap target) b =
      send_msg-IsBooked uv (λ buf. Msg.q_fn buf bootstrap_node.nid target) bootstrap_node.peerinfo
        tx_q_fn s refl b
  Step-IsBooked {s} is_uv (statgather calls) b = loop_statgather_cb-IsBooked calls s b

-- In every state that the callbacks reach: each pending packet has an address that `validate_addr`
-- accepts, `tx_tot` is the number of packets that `uv_udp_send` took, `tx_msg_drop_early_error` that
-- of those it refused, and the seven statistics of the messages sent add up to `tx_tot`, all modulo
-- 2 ^ 64, if this holds at the start and the two statistics that are not declared are other ones.
pub Reach-IsBooked :
    {uv : Uv} {s s' : Node} → IsUv uv → Reach uv s s' → IsBooked uv s → IsBooked uv s'
Reach-IsBooked is_uv start b = b
Reach-IsBooked {uv} is_uv (then_step r step) b =
    Step-IsBooked uv is_uv step (Reach-IsBooked is_uv r b)
