-- ===== src/Tests/Messages.antt =====
-- Messages decoded, and exchanged between two nodes.
use dht_cpp.Base.{[], ◌∷◌, ◌++◌, ◌≡◌, refl, ok, arith}
use dht_cpp.Dht.{our_tok_pg, our_tok_fn, our_tok_gp, pnode_len}
use dht_cpp.Krpc.Accept.Rounds.{parse_msg-IsAccepted}
use dht_cpp.Krpc.Accept.{IsAccepted}
use dht_cpp.Krpc.Decode.{Outcome, returned, died, out_of_fuel, parse_msg}
use dht_cpp.Krpc.Flags.{q_pg, q_fn, q_gp, r_pg, r_fn, r_gp}
use dht_cpp.Krpc.Safety.Loop.{Ends, parse_msg-Ends}
use dht_cpp.Krpc.Status.Rounds.{parse_msg-IsVerdict}
use dht_cpp.Krpc.Status.{IsVerdict}
use dht_cpp.Krpc.State.{Krpc, clear, bytes_at}
use dht_cpp.Msg
use dht_cpp.Msg.Exchange.{Exchanges, sent, ping_exchange, find_node_exchange, get_peers_exchange}
use dht_cpp.Msg.{pnode_raw, u16_bytes}
use dht_cpp.Krpc.Atoi.{krpc_bdecode_atoi, atoi_loop}
use dht_cpp.Krpc.Validate.{validate}
use dht_cpp.Stat.{index}
use dht_cpp.Tests.Samples.{
  blank, some_id, some_id-AreBytes, other_id, some_node, ping_text, send_buf,
}

parse_msg-Ends_example : Ends 56 (parse_msg (clear (blank ping_text)) 56)
parse_msg-Ends_example = parse_msg-Ends (blank ping_text) 56 (omega arith)

-- The message behind a run that returns one.
abbrev message : Outcome → Krpc
message (returned k) = k
message (died c) = blank []
message out_of_fuel = blank []

parse_msg-IsAccepted_example : IsAccepted (message (parse_msg (blank ping_text) 56))
unfolding parse_msg index krpc_bdecode_atoi atoi_loop validate
parse_msg-IsAccepted_example = parse_msg-IsAccepted (blank ping_text) 56 refl refl

parse_msg-IsVerdict_example :
    let r = message (parse_msg (blank ping_text) 56) in (r.bytes ≡ ping_text) × IsVerdict r.status
unfolding parse_msg index krpc_bdecode_atoi atoi_loop validate
parse_msg-IsVerdict_example = parse_msg-IsVerdict (blank ping_text) 56 refl

abbrev box : Krpc
box = blank []

ping_exchange_example :
    (r' : Krpc) × Exchanges box box [] [] send_buf send_buf refl refl some_id refl some_id-AreBytes
      (sent (Msg.q_pg send_buf some_id))
      (Msg.r_pg send_buf)
      q_pg
      r_pg
      (our_tok_pg ∷ [])
      r'
ping_exchange_example =
    ping_exchange box box [] [] send_buf send_buf refl refl some_id refl some_id-AreBytes

find_node_exchange_example :
    (r' : Krpc) × Exchanges box box [] [] send_buf send_buf refl refl some_id refl some_id-AreBytes
      (sent (Msg.q_fn send_buf some_id other_id))
      (λ k. Msg.r_fn send_buf k some_node)
      q_fn
      r_fn
      (our_tok_fn ∷ [])
      r'
    × (r'.n_nodes ≡ 1)
    × (bytes_at r' r'.nodes pnode_len ≡ ok (pnode_raw some_node))
find_node_exchange_example =
    find_node_exchange box box [] [] send_buf send_buf refl refl some_id refl some_id-AreBytes
      other_id some_node refl refl

get_peers_exchange_example :
    (r' : Krpc) × Exchanges box box [] [] send_buf send_buf refl refl some_id refl some_id-AreBytes
      (sent (Msg.q_gp send_buf some_id other_id 0x1234))
      (λ k. Msg.r_gp send_buf k some_node)
      q_gp
      r_gp
      (u16_bytes 0x1234 ++ our_tok_gp ∷ [])
      r'
    × (r'.n_nodes ≡ 1)
    × (bytes_at r' r'.nodes pnode_len ≡ ok (pnode_raw some_node))
get_peers_exchange_example =
    get_peers_exchange box box [] [] send_buf send_buf refl refl some_id refl some_id-AreBytes
      other_id some_node 0x1234 refl refl
