-- ===== src/Krpc/State.antt =====
-- cht/krpc.hpp: a message with what was decoded of it, and the state of the decoder's loop.
use dht_cpp.Base.{
  ℕ, ◌+◌, Bool, false, Option, none, some, Bytes, get_or, slice, Crash, null_pointer, Run, ok,
  crash,
}
use dht_cpp.Krpc.Flags.{Method, any, Key}
use dht_cpp.Stat.{Stat, st_enum_start}

-- `KRPC`. The buffer `data` is `bytes`; a pointer into it is the offset that it points at, and a
-- null pointer is `none`.
pub record Krpc : Type 0 where
  pub bytes : Bytes
  pub status : Stat
  pub method : Method
  pub nid : Option ℕ
  pub ih : Option ℕ
  pub target : Option ℕ
  pub tok_len : ℕ
  pub tok : Option ℕ
  pub n_nodes : ℕ
  pub nodes : Option ℕ
  pub n_peers : ℕ
  pub peers : Option ℕ
  pub token_len : ℕ
  pub token : Option ℕ
  pub ap_port : ℕ
  pub ap_name_len : ℕ
  pub ap_name : Option ℕ
  pub ap_implied_port : Bool

-- `KRPC::clear`, which leaves the buffer alone.
unfoldable pub clear : Krpc → Krpc
clear k = record k {
  status = st_enum_start;
  method = any;
  nid = none;
  ih = none;
  target = none;
  tok_len = 0;
  tok = none;
  n_nodes = 0;
  nodes = none;
  n_peers = 0;
  peers = none;
  token_len = 0;
  token = none;
  ap_port = 0;
  ap_name_len = 0;
  ap_name = none;
  ap_implied_port = false;
}

-- `p[i]` for a pointer `p` into the buffer.
unfoldable pub byte_at : Krpc → Option ℕ → ℕ → Run ℕ
byte_at k none i = crash null_pointer
byte_at k (some p) i = ok (get_or k.bytes (p + i) 0)

-- The `len` bytes at a pointer.
unfoldable pub bytes_at : Krpc → Option ℕ → ℕ → Run Bytes
bytes_at k none len = crash null_pointer
bytes_at k (some p) len = ok (slice k.bytes p len)

-- `XDState`
pub data XdState : Type 0 where
  xd_start xd_okey xd_ikey xd_oval xd_ival xd_ivlist : XdState

-- `XDHist`, without the field `fail`, which is set once and not read.
pub record XdHist : Type 0 where
  pub current_key : Key
  pub seen_keys : Key
  pub msg_kind : Method

-- The variables of the loop in `xdecode`, with the message that it fills in.
pub record Decoder : Type 0 where
  pub krpc : Krpc
  pub cur_pos : ℕ
  pub xd_state : XdState
  pub hist : XdHist

-- How one round of the loop ends: by `continue`, by `return`, or in a crash.
pub data Step : Type 0 where
  continue : Decoder → Step
  return : Krpc → Step
  crashed : Crash → Step
