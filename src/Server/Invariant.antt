-- ===== src/Server/Invariant.antt =====
-- cht/server.hpp: what holds of the server between two of its callbacks.
pub mod Parts
pub mod Queries
pub mod Replies
pub mod Runs
use dht_cpp.Base.{
  ℕ, zero, suc, ◌≤◌, Bool, true, false, List, [], ◌∷◌, Bytes, length, Run, After, then_After, ◌≡◌,
  refl, ◌∙◌, subst, sym, Option,
}
use dht_cpp.Dht.{Nih, IsNih, nih_len}
use dht_cpp.Gpm.Reach.{IsGpm}
use dht_cpp.Gpm.{Gpm}
use dht_cpp.Krpc.Flags.{maxlen}
use dht_cpp.Krpc.State.{Krpc}
use dht_cpp.Msg.Fits.{Fits}
use dht_cpp.Msg.{Written, msg_buf_len}
use dht_cpp.Rt.Contacts.{IsRt}
use dht_cpp.Rt.{Rt}
use dht_cpp.Server.Send.{take_from, take_send_buf, send_msg}
use dht_cpp.Server.State.{Server, Packet, Endpoint, gpm_of, with_gpm, rt_of, with_rt, count_stat}
use dht_cpp.Spam.Buckets.{IsCtMap}
use dht_cpp.Spam.{Tables, max_rx, max_pg, max_gp}
use dht_cpp.Stat.Counters.{Counters}
use dht_cpp.Stat.{Stat}

-- Every free buffer has its size, and every packet is within its buffer.
abbrev pub AllSized : List Bytes → Type 0
AllSized [] = Unit
AllSized (buf ∷ bufs) = (length buf ≡ msg_buf_len) × AllSized bufs

abbrev pub AllFit : List Packet → Type 0
AllFit [] = Unit
AllFit (p ∷ ps) = (length p.buf ≡ msg_buf_len) × (p.len ≤ msg_buf_len) × AllFit ps

pub record IsTables (t : Tables) : Type 0 where
  pub rx : IsCtMap max_rx t.g_rx_spamtable
  pub pg : IsCtMap max_pg t.g_pg_spamtable
  pub gp : IsCtMap max_gp t.getpeers_spamtable

pub record IsServer (s : Server) : Type 0 where
  pub bytes : length s.krpc.bytes ≡ maxlen
  pub tables : IsTables s.tables
  pub gpm : IsGpm (gpm_of s)
  pub rt : IsRt (rt_of s)
  pub send_bufs : AllSized s.send_bufs
  pub garbage : length s.garbage ≡ msg_buf_len
  pub in_flight : AllFit s.in_flight

module _ (s : Server) (h : IsServer s) where
  pub set_rt : (t : Rt) → IsRt t → IsServer (with_rt s t)
  set_rt t r = record {
    bytes = h.bytes;
    tables = h.tables;
    gpm = h.gpm;
    rt = r;
    send_bufs = h.send_bufs;
    garbage = h.garbage;
    in_flight = h.in_flight;
  }

  pub set_gpm : (g : Gpm) → IsGpm g → IsServer (with_gpm s g)
  set_gpm g r = record {
    bytes = h.bytes;
    tables = h.tables;
    gpm = r;
    rt = h.rt;
    send_bufs = h.send_bufs;
    garbage = h.garbage;
    in_flight = h.in_flight;
  }

  pub set_tables :
      (t : Tables) (c : Counters) → IsTables t → IsServer (record s { tables = t; counters = c })
  set_tables t c r = record {
    bytes = h.bytes;
    tables = r;
    gpm = h.gpm;
    rt = h.rt;
    send_bufs = h.send_bufs;
    garbage = h.garbage;
    in_flight = h.in_flight;
  }

  pub set_krpc : (k : Krpc) → length k.bytes ≡ maxlen → IsServer (record s { krpc = k })
  set_krpc k b = record {
    bytes = b;
    tables = h.tables;
    gpm = h.gpm;
    rt = h.rt;
    send_bufs = h.send_bufs;
    garbage = h.garbage;
    in_flight = h.in_flight;
  }

  pub set_count : (stat : Stat) → IsServer (count_stat stat s)
  set_count stat = set_rt (rt_of (count_stat stat s)) h.rt

  pub take_send_buf-IsServer :
      (bufs : List Bytes)
      → AllSized bufs
      → (length (take_from bufs s).0 ≡ msg_buf_len) × IsServer (take_from bufs s).1
  unfolding take_from
  take_send_buf-IsServer [] a = (h.garbage, set_count _)
  take_send_buf-IsServer (buf ∷ bufs) (b, a) = (
    b,
    record {
      bytes = h.bytes;
      tables = h.tables;
      gpm = h.gpm;
      rt = h.rt;
      send_bufs = a;
      garbage = h.garbage;
      in_flight = h.in_flight;
    },
  )

  pub send_msg-IsServer :
      (write_fn : Bytes → Written) (dest : Endpoint)
      → Fits write_fn
      → IsServer (send_msg write_fn dest s)
  unfolding send_msg take_send_buf
  send_msg-IsServer write_fn dest f =
      let (buf, s') = take_from s.send_bufs s in
      let (b, h') = take_send_buf-IsServer s.send_bufs h.send_bufs in
      record {
        bytes = h'.bytes;
        tables = h'.tables;
        gpm = h'.gpm;
        rt = h'.rt;
        send_bufs = h'.send_bufs;
        garbage = h'.garbage;
        in_flight = (f.size buf ∙ b, f.len buf, h'.in_flight);
      }
