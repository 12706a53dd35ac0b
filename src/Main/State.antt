-- ===== src/Main/State.antt =====
-- cht/main.cpp: the global variables, with the state of the parts that the callbacks use.
use dht_cpp.Base.{ℕ, Bool, false, List, none, Bytes, replicate, ◌==◌, if◌then◌else◌}
use dht_cpp.Dht.{Peerinfo}
use dht_cpp.Gpm.{Gpm, GpmStatus}
use dht_cpp.Krpc.Flags.{any, maxlen}
use dht_cpp.Krpc.State.{Krpc}
use dht_cpp.Rt.{Rt, Nodeinfo}
use dht_cpp.Spam.{Tables}
use dht_cpp.Stat.Counters.{Counters, st_inc}
use dht_cpp.Stat.Rollover.{Statics, Line}
use dht_cpp.Stat.{Stat, st_enum_start}
use dht_cpp.Util.Random.{World}

-- What is not in the repository: whether `uv_udp_send` takes its nth packet, what a new buffer for
-- sending holds, and the two statistics that cht/stat.hpp does not declare.
pub record Uv : Type 0 where
  pub takes : ℕ → Bool
  pub garbage : Bytes
  pub bm_too_short : Stat
  pub bm_ap_bad_name : Stat

-- A request in the hands of the socket, with its buffer. The address is in network byte order, as in
-- a `sockaddr_in`.
pub record Request : Type 0 where
  pub buf : Bytes
  pub len : ℕ
  pub dest : Peerinfo

-- A `KRPC` is called by the number of its allocation, and so is its buffer; `krpcs` is the store. The
-- last element of a vector is the head of the list. A free request is its buffer of `MSG_SEND_LEN`
-- bytes; `pending` has the newest request first, and `n_sends` counts the calls of `uv_udp_send`.
pub record Node : Type 0 where
  pub krpcs : ℕ → Krpc
  pub n_krpcs : ℕ
  pub recv_buf_pool : List ℕ
  pub krpc_map : List ℕ
  pub send_req_pool : List Bytes
  pub pending : List Request
  pub n_sends : ℕ
  pub tables : Tables
  pub g_ifl_buf : ℕ → GpmStatus
  pub cells : ℕ → Nodeinfo
  pub counters : Counters
  pub world : World
  pub statics : Statics
  pub printed : List Line

-- `KRPC()`, of which every byte is zero but for the initialisers.
abbrev pub new_krpc : Krpc
new_krpc = record {
  bytes = replicate maxlen 0;
  status = st_enum_start;
  method = any;
  nid = none;
  ih = none;
  target = none;
  tok_len = 0;
  tok = none;
  n_nodes = 0;
  nodes = none;
  n_peers = 0;
  peers = none;
  token_len = 0;
  token = none;
  ap_port = 0;
  ap_name_len = 0;
  ap_name = none;
  ap_implied_port = false;
}

abbrev pub count_stat : Stat → Node → Node
count_stat stat s = record s { counters = st_inc stat s.counters }

-- `*krpc = k`
abbrev pub store : ℕ → Krpc → Node → Node
store krpc k s = record s { krpcs = λ i. if krpc == i then k else s.krpcs i }

-- The table of info hashes and the routing table, with what their operations use.
abbrev pub gpm_of : Node → Gpm
gpm_of s = record { g_ifl_buf = s.g_ifl_buf; world = s.world; counters = s.counters }

abbrev pub with_gpm : Node → Gpm → Node
with_gpm s g = record s { g_ifl_buf = g.g_ifl_buf; counters = g.counters; world = g.world }

abbrev pub rt_of : Node → Rt
rt_of s = record { cells = s.cells; counters = s.counters; world = s.world }

abbrev pub with_rt : Node → Rt → Node
with_rt s t = record s { cells = t.cells; counters = t.counters; world = t.world }
