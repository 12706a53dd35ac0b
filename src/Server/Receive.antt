-- ===== src/Server/Receive.antt =====
-- cht/server.hpp: `handle_recv`, from the socket's report to the switch on the method.
use dht_cpp.Base.{ℕ, Bool, ltb, leb, ◌==◌, if◌then◌else◌, Run, ok, crash, assertion}
use dht_cpp.Dht.{min_msg_len}
use dht_cpp.Krpc.Decode.{Outcome, returned, died, out_of_fuel, parse_msg}
use dht_cpp.Krpc.Flags.{maxlen}
use dht_cpp.Krpc.State.{clear}
use dht_cpp.Server.Handlers.{dispatch}
use dht_cpp.Server.State.{Server, Endpoint, count_stat}
use dht_cpp.Spam.{spam_check_rx}
use dht_cpp.Stat.{bd_x_msg_too_short, bd_x_msg_too_long, bd_a_no_error, rx_tot, stat_eq}

-- Behind `parse_msg`. The fuel of the decoder does not run out (`parse_msg-Ends`).
unfoldable pub after_parse : Outcome → Endpoint → Server → Run Server
unfolding dispatch
after_parse (returned k) sender s =
    let s' = record s { krpc = k } in
    if stat_eq k.status bd_a_no_error
    then dispatch k sender (count_stat rx_tot s')
    else ok (count_stat k.status s')
after_parse (died c) sender s = crash c
after_parse out_of_fuel sender s = crash assertion

-- `handle_recv`, for an error of the socket or `nread` bytes, which stand in the buffer of `krpc`.
unfoldable pub handle_recv : Bool → ℕ → Endpoint → Server → Run Server
unfolding after_parse
handle_recv ec nread sender s =
    let (out, tables, counters) = spam_check_rx sender.addr s.tables s.counters in
    let checked = record s { tables = tables; counters = counters } in
    let parsed = parse_msg (clear s.krpc) nread in
    if ec
    then ok s
    else if nread == 0
    then ok s
    else if ltb nread min_msg_len
    then ok (count_stat bd_x_msg_too_short s)
    else if leb maxlen nread
    then ok (count_stat bd_x_msg_too_long s)
    else if out
    then after_parse parsed sender checked
    else ok checked
