-- ===== src/Main/Receive.antt =====
-- cht/main.cpp: `cb_alloc` and `cb_recv_msg`, the callbacks of the socket.
use dht_cpp.Base.{
  ℕ, ◌+◌, Bool, false, ◌||◌, List, [], ◌∷◌, Option, none, some, ltb, ◌==◌, if◌then◌else◌, Run, ok,
  crash, ◌>>=◌, assertion,
}
use dht_cpp.Dht.{Peerinfo, min_msg_len}
use dht_cpp.Krpc.Decode.{Outcome, returned, died, out_of_fuel, parse_msg}
use dht_cpp.Krpc.Flags.{maxlen}
use dht_cpp.Krpc.State.{clear}
use dht_cpp.Main.Handlers.{handle_msg}
use dht_cpp.Main.State.{Uv, Node, count_stat, store, new_krpc}
use dht_cpp.Spam.{spam_check_rx}
use dht_cpp.Stat.{ctl_n_recv_bufs, rx_err, rx_tot, bd_x_msg_too_long, bd_a_no_error, stat_eq}

-- `krpc_map.find(base) != krpc_map.end()`
unfoldable pub is_mapped : ℕ → List ℕ → Bool
is_mapped base [] = false
is_mapped base (b ∷ bs) = (base == b) || is_mapped base bs

-- `krpc_map.insert({buf->base, krpc})`, which leaves an entry alone that is there.
unfoldable pub map_insert : ℕ → Node → Node
unfolding is_mapped
map_insert base s =
    if is_mapped base s.krpc_map then s else record s { krpc_map = base ∷ s.krpc_map }

-- The last `KRPC` of the pool, which stays in the pool, or a new one.
unfoldable pub take_krpc : List ℕ → Node → ℕ × Node
unfolding clear
take_krpc (krpc ∷ pool) s = (krpc, store krpc (clear (s.krpcs krpc)) s)
take_krpc [] s = (
  s.n_krpcs,
  count_stat ctl_n_recv_bufs (store s.n_krpcs new_krpc (record s { n_krpcs = s.n_krpcs + 1 })),
)

-- `cb_alloc`: the buffer for the next packet; none where its length is set to 0.
unfoldable pub cb_alloc : ℕ → Node → Option ℕ × Node
unfolding take_krpc map_insert
cb_alloc suggested_size s =
    let (krpc, s') = take_krpc s.recv_buf_pool s in
    if suggested_size == 0 then (none, s) else (some krpc, map_insert krpc s')

-- `recv_buf_pool.push_back(krpc)`
abbrev pub free_krpc : ℕ → Node → Node
free_krpc krpc s = record s { recv_buf_pool = krpc ∷ s.recv_buf_pool }

-- `nread`: negative, or a number of bytes.
pub data Nread : Type 0 where
  failed : Nread
  bytes : ℕ → Nread

module _ (uv : Uv) where
  -- Behind `parse_msg`, whose fuel does not run out (`parse_msg-Ends`). A message with an error is
  -- not given back to the pool.
  unfoldable pub after_parse : ℕ → Outcome → Peerinfo → Node → Run Node
  unfolding handle_msg
  after_parse krpc (returned k) saddr s =
      let s' = store krpc k s in
      let handled =
        handle_msg uv k saddr (count_stat rx_tot s') >>= λ s''. ok (free_krpc krpc s'') in
      if stat_eq k.status bd_a_no_error then handled else ok (count_stat k.status s')
  after_parse krpc (died c) saddr s = crash c
  after_parse krpc out_of_fuel saddr s = crash assertion

  -- Behind the search in `krpc_map`; the sender is none for `saddr == nullptr`.
  unfoldable pub recv_found : ℕ → Nread → Option Peerinfo → Node → Run Node
  unfolding after_parse
  recv_found krpc nread none s = ok (free_krpc krpc s)
  recv_found krpc failed (some saddr) s = ok (free_krpc krpc (count_stat rx_err s))
  recv_found krpc (bytes nread) (some saddr) s =
      let (out, tables, counters) = spam_check_rx saddr.in_addr s.tables s.counters in
      let checked = record s { tables = tables; counters = counters } in
      if nread == 0
      then ok (free_krpc krpc s)
      else if ltb nread min_msg_len
      then ok (free_krpc krpc (count_stat uv.bm_too_short s))
      else if nread == maxlen
      then ok (free_krpc krpc (count_stat bd_x_msg_too_long s))
      else if out
      then after_parse krpc (parse_msg (s.krpcs krpc) nread) saddr checked
      else ok (free_krpc krpc checked)

  unfoldable pub cb_recv_msg : ℕ → Nread → Option Peerinfo → Node → Run Node
  unfolding is_mapped recv_found
  cb_recv_msg base nread saddr s =
      if is_mapped base s.krpc_map then recv_found base nread saddr s else crash assertion
