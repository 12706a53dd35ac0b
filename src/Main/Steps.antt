-- ===== src/Main/Steps.antt =====
-- cht/main.cpp: the callbacks that the event loop calls, one after the other.
pub mod Books
pub mod Pool
pub mod Runs
use dht_cpp.Base.{ℕ, Bool, Bytes, Option, ok, ◌≡◌}
use dht_cpp.Dht.{Nih, Peerinfo}
use dht_cpp.Krpc.State.{Krpc}
use dht_cpp.Main.Receive.{Nread, cb_alloc, cb_recv_msg}
use dht_cpp.Main.Send.{cb_send_msg}
use dht_cpp.Main.State.{Uv, Node, store}
use dht_cpp.Main.Timers.{loop_bootstrap_cb, loop_statgather_cb}
use dht_cpp.Stat.Rollover.{Calls}

-- The socket writes a packet into a buffer.
abbrev pub deliver : ℕ → Bytes → Node → Node
deliver base contents s =
    let k : Krpc = record (s.krpcs base) { bytes = contents } in store base k s

-- One call of a callback, which does not crash.
pub data Step (uv : Uv) (s : Node) : Node → Type 0 where
  alloc : (suggested_size : ℕ) → Step uv s (cb_alloc suggested_size s).1
  receive :
      {s' : Node}
      → (base : ℕ) (contents : Bytes) (nread : Nread) (saddr : Option Peerinfo)
      → cb_recv_msg uv base nread saddr (deliver base contents s) ≡ ok s'
      → Step uv s s'
  sent : (failed : Bool) (n : ℕ) → Step uv s (cb_send_msg failed n s)
  bootstrap : (random_target : Nih) → Step uv s (loop_bootstrap_cb uv random_target s)
  statgather : (calls : Calls) → Step uv s (loop_statgather_cb calls s)

-- The states that are reached from `s`.
pub data Reach (uv : Uv) (s : Node) : Node → Type 0 where
  start : Reach uv s s
  then_step : {s' s'' : Node} → Reach uv s s' → Step uv s' s'' → Reach uv s s''
