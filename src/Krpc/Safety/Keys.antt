-- ===== src/Krpc/Safety/Keys.antt =====
-- cht/krpc.cpp: the strings that are keys, for the bounds of a message.
use dht_cpp.Base.{ℕ, ◌+◌, ◌≤◌, ◌<◌, ◌≡◌, arith}
use dht_cpp.Krpc.State.{Decoder}
use dht_cpp.Krpc.Safety.Shape.{IsSafe, Advances, IsSafe-mono, if_Advances, continues}
use dht_cpp.Krpc.Safety.Values.{fail-Advances}
use dht_cpp.Krpc.Decode.Keys.{read_okey, read_ikey}
use dht_cpp.Krpc.Decode.Common.{fail}
use dht_cpp.Stat.{Stat}

module _ (n start slen pos : ℕ) (d : Decoder) (safe : IsSafe d.krpc start)
    (behind : d.cur_pos ≡ start + slen) (inside : d.cur_pos ≤ n) (forward : pos < start) where
  here : IsSafe d.krpc d.cur_pos
  here = IsSafe-mono d.krpc start d.cur_pos (omega arith) safe

  fails : (s : Stat) → Advances n pos (fail d s)
  fails = fail-Advances n start slen pos d safe behind inside forward

  pub read_okey-Advances : Advances n pos (read_okey d start slen)
  unfolding read_okey
  read_okey-Advances = search (if_Advances, fails, continues, here, arith) depth 12

  pub read_ikey-Advances : Advances n pos (read_ikey d start slen)
  unfolding read_ikey
  read_ikey-Advances = search (if_Advances, fails, continues, here, arith) depth 14
