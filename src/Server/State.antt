-- ===== src/Server/State.antt =====
-- cht/server.hpp: the state of `KRPCServer`, with the global state of the parts that it uses.
use dht_cpp.Base.{ℕ, List, Bytes}
use dht_cpp.Dht.{Peerinfo}
use dht_cpp.Gpm.{Gpm, GpmStatus}
use dht_cpp.Krpc.State.{Krpc}
use dht_cpp.Rt.Address.{be16toh, be32toh}
use dht_cpp.Rt.{Rt, Nodeinfo}
use dht_cpp.Spam.{Tables}
use dht_cpp.Stat.Counters.{Counters, st_inc}
use dht_cpp.Stat.{Stat}
use dht_cpp.Util.Random.{World}

-- `udp::endpoint`, in host byte order.
pub record Endpoint : Type 0 where
  pub addr : ℕ
  pub port : ℕ

unfoldable pub as_endpoint : Peerinfo → Endpoint
as_endpoint p = record { addr = be32toh p.in_addr; port = be16toh p.sin_port }

unfoldable pub as_peerinfo : Endpoint → Peerinfo
as_peerinfo ep = record { in_addr = be32toh ep.addr; sin_port = be16toh ep.port }

unfoldable pub in_addr : Endpoint → ℕ
in_addr ep = be32toh ep.addr

-- A message that is on its way: its buffer is not free before the socket is done with it.
pub record Packet : Type 0 where
  pub buf : Bytes
  pub len : ℕ
  pub dest : Endpoint

-- `garbage` is what a new buffer of `SEND_LEN` bytes holds; `in_flight` has the newest packet first.
pub record Server : Type 0 where
  pub krpc : Krpc
  pub tables : Tables
  pub g_ifl_buf : ℕ → GpmStatus
  pub cells : ℕ → Nodeinfo
  pub counters : Counters
  pub world : World
  pub send_bufs : List Bytes
  pub garbage : Bytes
  pub in_flight : List Packet

abbrev pub count_stat : Stat → Server → Server
count_stat stat s = record s { counters = st_inc stat s.counters }

-- The table of info hashes, with what its operations use, and the server behind an operation.
abbrev pub gpm_of : Server → Gpm
gpm_of s = record { g_ifl_buf = s.g_ifl_buf; world = s.world; counters = s.counters }

abbrev pub with_gpm : Server → Gpm → Server
with_gpm s g = record s { g_ifl_buf = g.g_ifl_buf; counters = g.counters; world = g.world }

-- The same for the routing table.
abbrev pub rt_of : Server → Rt
rt_of s = record { cells = s.cells; counters = s.counters; world = s.world }

abbrev pub with_rt : Server → Rt → Server
with_rt s t = record s { cells = t.cells; counters = t.counters; world = t.world }
