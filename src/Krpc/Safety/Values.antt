-- ===== src/Krpc/Safety/Values.antt =====
-- cht/krpc.cpp: the strings that are values, for the bounds of a message.
use Prim.Native.String.{String}
use dht_cpp.Base.{
  Bool, ℕ, ◌+◌, ◌*◌, ◌≤◌, ◌<◌, some, ◌≡◌, arith, true, false, ltb, if◌then◌else◌, ◌/◌, ◌!=◌,
}
use dht_cpp.Krpc.State.{Krpc, Decoder, continue}
use dht_cpp.Krpc.Safety.Shape.{
  IsSafe, Advances, IsSafe-mono, if_Advances, continues, returns, set_tok, set_token, set_nodes,
  set_ap_name, set_nid, set_ih, set_target, add_peer, set_status,
}
use dht_cpp.Krpc.Decode.Values.{
  read_oval, read_query, read_type, store, read_nodes, read_ival, read_ivlist, or_start,
}
use dht_cpp.Krpc.Decode.Common.{fail}
use dht_cpp.Stat.{Stat}
use dht_cpp.Dht.{nih_len, pnode_len, peerinfo_len}
use dht_cpp.Krpc.Flags.{maxlen_tok, maxlen_token, maxlen_ap_name, max_nodes, max_peers}

-- The string [start, start + slen) has been read, and `d` stands behind it.
module _ (n start slen pos : ℕ) (d : Decoder) (safe : IsSafe d.krpc start)
    (behind : d.cur_pos ≡ start + slen) (inside : d.cur_pos ≤ n) (forward : pos < start) where
  here : IsSafe d.krpc d.cur_pos
  here = IsSafe-mono d.krpc start d.cur_pos (omega arith) safe

  pub fail-Advances : (s : Stat) → Advances n pos (fail d s)
  fail-Advances s = returns (set_status d.krpc n s (IsSafe-mono d.krpc start n (omega arith) safe))

  pub read_query-Advances : (named : String → Bool) → Advances n pos (read_query d slen named)
  unfolding read_query
  read_query-Advances named = search (if_Advances, fail-Advances, continues, here, arith) depth 8

  pub read_type-Advances : (c : ℕ) → Advances n pos (read_type d slen c)
  unfolding read_type
  read_type-Advances c = search (if_Advances, fail-Advances, continues, here, arith) depth 8

  stay : Advances n pos (continue d)
  stay = continues here (omega arith) inside

  stores : {k : Krpc} → IsSafe k d.cur_pos → Advances n pos (store d k)
  stores s = continues s (omega arith) inside

  store_tok :
      ltb maxlen_tok slen ≡ false
      → Advances n pos (store d (record d.krpc { tok_len = slen; tok = some start }))
  store_tok l = stores (set_tok d.krpc d.cur_pos start slen here (omega arith) (ground arith))

  store_token :
      ltb maxlen_token slen ≡ false
      → Advances n pos (store d (record d.krpc { token_len = slen; token = some start }))
  store_token l = stores (set_token d.krpc d.cur_pos start slen here (omega arith) (ground arith))

  store_ap_name :
      ltb maxlen_ap_name slen ≡ false
      → Advances n pos (store d (record d.krpc { ap_name_len = slen; ap_name = some start }))
  store_ap_name l =
      stores (set_ap_name d.krpc d.cur_pos start slen here (omega arith) (ground arith))

  fits : slen != nih_len ≡ false → start + nih_len ≤ d.cur_pos
  fits l = ground arith

  store_nid :
      slen != nih_len ≡ false → Advances n pos (store d (record d.krpc { nid = some start }))
  store_nid l = stores (set_nid d.krpc d.cur_pos start here (fits l))

  store_ih : slen != nih_len ≡ false → Advances n pos (store d (record d.krpc { ih = some start }))
  store_ih l = stores (set_ih d.krpc d.cur_pos start here (fits l))

  store_target :
      slen != nih_len ≡ false → Advances n pos (store d (record d.krpc { target = some start }))
  store_target l = stores (set_target d.krpc d.cur_pos start here (fits l))

  abbrev kept : ℕ
  kept = if ltb (pnode_len * max_nodes) slen then pnode_len * max_nodes else slen

  store_nodes :
      Advances n pos (store d (record d.krpc { n_nodes = kept / pnode_len; nodes = some start }))
  store_nodes =
      stores
        (set_nodes d.krpc d.cur_pos start (kept / pnode_len) here (ground arith) (ground arith))

  store_peer :
      slen != peerinfo_len ≡ false
      → ltb d.krpc.n_peers max_peers ≡ true
      → Advances n pos (
          store d
            (record d.krpc { n_peers = d.krpc.n_peers + 1; peers = or_start d.krpc.peers start }))
  store_peer l m = stores (add_peer d.krpc d.cur_pos start safe (ground arith) (ground arith))

  pub read_oval-Advances : Advances n pos (read_oval d start slen)
  unfolding read_oval
  read_oval-Advances =
      search (if_Advances, read_query-Advances, read_type-Advances, fail-Advances, store_tok, stay)
        depth 9

  read_nodes-Advances : Advances n pos (read_nodes d start slen)
  unfolding read_nodes
  read_nodes-Advances = search (if_Advances, fail-Advances, store_nodes)

  pub read_ival-Advances : Advances n pos (read_ival d start slen)
  unfolding read_ival
  read_ival-Advances =
      search
        (
          if_Advances, read_nodes-Advances, fail-Advances, store_token, store_target, store_nid,
          store_ih, store_ap_name, stay,
        )
        depth 14

  pub read_ivlist-Advances : Advances n pos (read_ivlist d start slen)
  unfolding read_ivlist
  read_ivlist-Advances = search (if_Advances, fail-Advances, store_peer, stay) depth 9
