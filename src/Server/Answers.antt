-- ===== src/Server/Answers.antt =====
-- cht/server.hpp: a query that is accepted is answered.
pub mod Queries
pub mod Contacts
pub mod Dispatch
pub mod Refusals
use dht_cpp.Base.{
  AreBytes, ℕ, ◌≤◌, ◌<◌, true, false, List, [], ◌∷◌, ◌++◌, Bytes, length, take, ltb, leb, ◌==◌, ok,
  >>=-eq-ok, ◌≡◌, refl, sym, ap, subst, ◌∙◌, arith, each_byte, le→leb,
}
use dht_cpp.Dht.{Nih, IsNih, nih_len, min_msg_len, our_tok_pg}
use dht_cpp.Krpc.Decode.{returned, parse_msg}
use dht_cpp.Krpc.Flags.{maxlen, q_pg, r_pg}
use dht_cpp.Krpc.Reply.{KReply, k_reply}
use dht_cpp.Krpc.State.{Krpc, clear, bytes_at}
use dht_cpp.Msg
use dht_cpp.Msg.Exchange.{sent, sent-Has, ping_exchange}
use dht_cpp.Msg.Layout.{sid, sid-IsNih, ping_query}
use dht_cpp.Msg.RoundTrip.{Reads, receive}
use dht_cpp.Msg.Writers.{q_pg-Has}
use dht_cpp.Msg.{Written, msg_buf_len}
use dht_cpp.Rt
use dht_cpp.Server.Handlers.{nih_at, insert_sender, net_port, on_q_pg, dispatch}
use dht_cpp.Server.Invariant.{IsServer, take_send_buf-IsServer}
use dht_cpp.Server.Receive.{after_parse, handle_recv}
use dht_cpp.Server.Send.{take_from, take_send_buf, send_msg}
use dht_cpp.Server.State.{Server, Packet, Endpoint, count_stat, in_addr, rt_of, with_rt}
use dht_cpp.Spam.Buckets.{tokens, withdraw-Withdraws}
use dht_cpp.Spam.{spam_check_rx, max_rx}
use dht_cpp.Stat.{Stat, bd_a_no_error, rx_tot, rx_q_pg, index}

length-ping_query : (id : Nih) → IsNih id → length (ping_query id) ≡ 55
unfolding ping_query
length-ping_query =
    each_byte nih_len (λ x. length (ping_query x) ≡ 55)
      (λ a b c d e f g h i j k l m n o p q r s t. refl)

-- The state in which the message was decoded.
abbrev pub decoded : Krpc → Endpoint → Server → Server
decoded k sender s =
    let check = spam_check_rx sender.addr s.tables s.counters in
    record s { krpc = k; tables = check.1; counters = check.2 }

-- An accepted message of a length within the limits, from an address with a token left, is handed to
-- the switch on the methods.
pub accepted_dispatch :
    (nread : ℕ) (sender : Endpoint) (s : Server) (k : Krpc)
    → min_msg_len ≤ nread
    → nread < maxlen
    → (spam_check_rx sender.addr s.tables s.counters).0 ≡ true
    → parse_msg (clear s.krpc) nread ≡ returned k
    → k.status ≡ bd_a_no_error
    → handle_recv false nread sender s ≡ dispatch k sender (count_stat rx_tot (decoded k sender s))
unfolding handle_recv after_parse index
accepted_dispatch nread sender s k l u passed parsed fine =
    let some_bytes : nread == 0 ≡ false = ground arith in
    let enough : ltb nread min_msg_len ≡ false = ground arith in
    let fits : leb maxlen nread ≡ false = ground arith in
    rw (some_bytes, enough, fits, passed, parsed, fine) refl

-- The packet that answers a ping.
abbrev pub ping_answer : KReply → Endpoint → Server → Packet
ping_answer krp sender s =
    let (written, len) = Msg.r_pg (take_send_buf s).0 krp in
    record { buf = written; len = len; dest = sender }

take_from_same :
    (bufs : List Bytes) (stat : Stat) (s : Server)
    → ((take_from bufs (count_stat stat s)).0 ≡ (take_from bufs s).0)
      × ((take_from bufs (count_stat stat s)).1.in_flight ≡ s.in_flight)
unfolding take_from
take_from_same [] stat s = (refl, refl)
take_from_same (buf ∷ bufs) stat s = (refl, refl)

pub send_msg_flight :
    (write_fn : Bytes → Written) (dest : Endpoint) (stat : Stat) (s : Server)
    → let (written, len) = write_fn (take_send_buf s).0 in
      (send_msg write_fn dest (count_stat stat s)).in_flight
      ≡ record { buf = written; len = len; dest = dest } ∷ s.in_flight
unfolding send_msg take_send_buf
send_msg_flight write_fn dest stat s =
    let (same_buf, same) = take_from_same s.send_bufs stat s in rw (same_buf, same) refl

-- A reply can only be made of a message with an id.
pub reply_id :
    (k : Krpc) {krp : KReply} → k_reply k ≡ ok krp → (nid : Nih) × (nih_at k k.nid ≡ ok nid)
unfolding k_reply
reply_id k e = let (nid, id, _) = >>=-eq-ok (bytes_at k k.nid nih_len) _ e in (nid, id)

pub ping_dispatch :
    (k : Krpc) (sender : Endpoint) (s : Server) {krp : KReply}
    → k.method ≡ q_pg
    → k_reply k ≡ ok krp
    → (s' : Server) × (dispatch k sender s ≡ ok s')
      × (s'.in_flight ≡ ping_answer krp sender s ∷ s.in_flight)
unfolding dispatch on_q_pg insert_sender
ping_dispatch k sender s {krp} m e =
    let (nid, id) = reply_id k e in
    let s₁ = send_msg (λ buf. Msg.r_pg buf krp) sender (count_stat rx_q_pg s) in
    (
      with_rt s₁ (Rt.insert_contact nid (in_addr sender) (net_port sender) (rt_of s₁)),
      rw (e, id, m) refl,
      send_msg_flight (λ buf. Msg.r_pg buf krp) sender rx_q_pg s,
    )

pub same_take_from :
    (bufs : List Bytes) (s s' : Server)
    → s'.garbage ≡ s.garbage
    → (take_from bufs s').0 ≡ (take_from bufs s).0
unfolding take_from
same_take_from [] s s' e = e
same_take_from (buf ∷ bufs) s s' e = refl

pub passes :
    (s : Server) (sender : Endpoint)
    → IsServer s
    → 0 < tokens max_rx sender.addr s.tables.g_rx_spamtable
    → (spam_check_rx sender.addr s.tables s.counters).0 ≡ true
unfolding spam_check_rx
passes s sender h left =
    let (out, _, _, _) =
      withdraw-Withdraws max_rx 1 sender.addr s.tables.g_rx_spamtable (omega arith) h.tables.rx in
    out ∙ le→leb 1 (tokens max_rx sender.addr s.tables.g_rx_spamtable) (omega arith)

-- A server that keeps its invariant and has a token left for the address of the sender answers the
-- ping that another node writes with `q_pg`: it does not crash, and puts one packet on its way, to the
-- sender, in front of those that are on their way; the asking node accepts the bytes of this packet as
-- the reply of the node that it pinged. The ids have 20 bytes, and the buffer has `MSG_BUF_LEN`.
pub handle_recv-q_pg :
    (a : Krpc) (rest_a buf_a rest : Bytes) (nid : Nih) (sender : Endpoint) (s : Server)
    → length buf_a ≡ msg_buf_len
    → IsNih nid
    → AreBytes nid
    → IsServer s
    → 0 < tokens max_rx sender.addr s.tables.g_rx_spamtable
    → s.krpc.bytes ≡ sent (Msg.q_pg buf_a nid) ++ rest
    → (s' : Server) × (p : Packet) × (r' : Krpc) × (handle_recv false
          (length (sent (Msg.q_pg buf_a nid)))
          sender
          s
        ≡ ok s')
      × (s'.in_flight ≡ p ∷ s.in_flight)
      × (p.dest ≡ sender)
      × Reads a rest_a (take p.len p.buf) r_pg nid (our_tok_pg ∷ []) r'
unfolding sent receive take_send_buf
handle_recv-q_pg a rest_a buf_a rest nid sender s sized id bytes h left got =
    let buf_b = (take_send_buf s).0 in
    let (r', (r, k, query, reply, answer)) =
      ping_exchange a s.krpc rest_a rest buf_a buf_b sized
        ((take_send_buf-IsServer s h s.send_bufs h.send_bufs).0) nid id bytes in
    let text = sent-Has (q_pg-Has buf_a sized nid id) in
    let len : length (sent (Msg.q_pg buf_a nid)) ≡ 55 =
      ap length text ∙ length-ping_query (sid nid) (sid-IsNih nid id) in
    let (s', runs, flight) =
      ping_dispatch r sender (count_stat rx_tot (decoded r sender s)) query.kind reply in
    let parsed : parse_msg (clear s.krpc) (length (sent (Msg.q_pg buf_a nid))) ≡ returned r =
      subst
        (λ b.
          parse_msg (clear (record s.krpc { bytes = b })) (length (sent (Msg.q_pg buf_a nid)))
          ≡ returned r)
        (sym got) query.returns in
    let handled =
      accepted_dispatch _ sender s r (omega (arith, len)) (omega (arith, len))
        (passes s sender h left) parsed query.status in
    (
      s',
      ping_answer k sender (count_stat rx_tot (decoded r sender s)),
      r',
      handled ∙ runs,
      flight,
      refl,
      rw (same_take_from s.send_bufs s (count_stat rx_tot (decoded r sender s)) refl) answer,
    )
