-- ===== src/Server/Send.antt =====
-- cht/server.hpp: the send buffers and `send_msg`.
use dht_cpp.Base.{ℕ, zero, suc, List, [], ◌∷◌, Bytes}
use dht_cpp.Msg.{Written}
use dht_cpp.Server.State.{Server, Packet, Endpoint, count_stat}
use dht_cpp.Stat.{ctl_n_send_bufs}

-- A free buffer, or a new one. The last buffer released is the head of the list.
unfoldable pub take_from : List Bytes → Server → Bytes × Server
take_from [] s = (s.garbage, count_stat ctl_n_send_bufs s)
take_from (buf ∷ bufs) s = (buf, record s { send_bufs = bufs })

unfoldable pub take_send_buf : Server → Bytes × Server
unfolding take_from
take_send_buf s = take_from s.send_bufs s

unfoldable pub release_send_buf : Bytes → Server → Server
release_send_buf buf s = record s { send_bufs = buf ∷ s.send_bufs }

-- `send_msg`; the statistic that it is given is not counted.
unfoldable pub send_msg : (Bytes → Written) → Endpoint → Server → Server
unfolding take_send_buf
send_msg write_fn dest s =
    let (buf, s') = take_send_buf s in
    let (written, len) = write_fn buf in
    record s' { in_flight = record { buf = written; len = len; dest = dest } ∷ s'.in_flight }

-- The socket is done with a packet, the `n`th from the newest: its buffer is released.
unfoldable pub remove_packet : ℕ → List Packet → List Packet
remove_packet n [] = []
remove_packet zero (p ∷ ps) = ps
remove_packet (suc n) (p ∷ ps) = p ∷ remove_packet n ps

unfoldable pub release_all : List Packet → ℕ → List Bytes → List Bytes
release_all [] n bufs = bufs
release_all (p ∷ ps) zero bufs = p.buf ∷ bufs
release_all (p ∷ ps) (suc n) bufs = release_all ps n bufs

unfoldable pub send_done : ℕ → Server → Server
unfolding remove_packet release_all
send_done n s = record s {
  send_bufs = release_all s.in_flight n s.send_bufs;
  in_flight = remove_packet n s.in_flight;
}
