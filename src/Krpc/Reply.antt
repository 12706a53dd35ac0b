-- ===== src/Krpc/Reply.antt =====
-- cht/krpc.hpp: `KReply`, the part of a query that its reply is written from.
use dht_cpp.Base.{ℕ, ◌%◌, Bytes, ◌==◌, if◌then◌else◌, Run, ok, crash, ◌>>=◌, assertion, []}
use dht_cpp.Dht.{Nih, nih_len}
use dht_cpp.Krpc.State.{Krpc, bytes_at}
use dht_cpp.Stat.{st_enum_start, stat_eq}

-- `tok` is the part of the array that `tok_len` counts.
pub record KReply : Type 0 where
  pub nid : Nih
  pub tok_len : ℕ
  pub tok : Bytes

-- The constructor. A copy of no bytes does not read its source.
unfoldable pub k_reply : Krpc → Run KReply
unfolding bytes_at
k_reply k =
    let len = k.tok_len % 0x100 in
    let copied : Run Bytes = if len == 0 then ok [] else bytes_at k k.tok len in
    bytes_at k k.nid nih_len >>= λ nid.
    if stat_eq k.status st_enum_start
    then crash assertion
    else copied >>= λ tok. ok (record { nid = nid; tok_len = len; tok = tok })
