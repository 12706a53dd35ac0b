-- ===== src/Krpc/Status.antt =====
-- cht/krpc.cpp: the status of a message that `xdecode` returns, and the buffer behind it.
pub mod Rounds
use dht_cpp.Base.{
  ℕ, zero, suc, ◌+◌, ◌-◌, ◌≡◌, refl, Bool, true, false, ◌&&◌, leb, Option, none, some, Bytes,
  get_or, ◌==◌, if◌then◌else◌, Crash,
}
use dht_cpp.Krpc.Atoi.{Atoi, atoi_loop, krpc_bdecode_atoi}
use dht_cpp.Krpc.State.{Krpc, XdHist, Decoder, Step, continue, return, crashed}
use dht_cpp.Krpc.Validate.{
  xd_fail, accept, on_byte, filter_ap, validate_query, validate_reply, validate,
}
use dht_cpp.Stat.{Stat, index, bd_a_no_error, bd_z_negative_int}

-- The statistics of the decoder, which end in front of those of the handlers.
abbrev pub IsVerdict : Stat → Type 0
IsVerdict s =
    (leb (index bd_a_no_error) (index s) && leb (index s) (index bd_z_negative_int)) ≡ true

-- What a round does with a message of the given buffer.
pub data Reports (bytes : Bytes) : Step → Type 0 where
  continues : {d : Decoder} → d.krpc.bytes ≡ bytes → Reports bytes (continue d)
  returns : {k : Krpc} → k.bytes ≡ bytes → IsVerdict k.status → Reports bytes (return k)
  crashes : {c : Crash} → Reports bytes (crashed c)

pub if_Reports :
    {bytes : Bytes} (b : Bool) {x y : Step}
    → Reports bytes x
    → Reports bytes y
    → Reports bytes (if b then x else y)
if_Reports true f g = f
if_Reports false f g = g

data Reads : Atoi → Type 0 where
  reads : {r : Atoi} → IsVerdict r.result → Reads r

if_Reads : (b : Bool) {x y : Atoi} → Reads x → Reads y → Reads (if b then x else y)
if_Reads true f g = f
if_Reads false f g = g

atoi_loop-Reads : (bytes : Bytes) (left dest pos : ℕ) → Reads (atoi_loop bytes left dest pos)
unfolding atoi_loop index
atoi_loop-Reads bytes zero dest pos = reads refl
atoi_loop-Reads bytes (suc left) dest pos =
    search (if_Reads, reads, atoi_loop-Reads bytes left) depth 8

pub krpc_bdecode_atoi-IsVerdict :
    (bytes : Bytes) (pos len : ℕ) → IsVerdict (krpc_bdecode_atoi bytes pos len).result
unfolding krpc_bdecode_atoi
krpc_bdecode_atoi-IsVerdict bytes pos len = elim (atoi_loop-Reads bytes (len - pos) 0 pos) [
  | reads v ↦ v
]

on_byte-Reports :
    {bytes : Bytes} (k : Krpc) (p : Option ℕ) (i b : ℕ) {x y : Step}
    → Reports bytes x
    → Reports bytes y
    → Reports bytes (on_byte k p i b x y)
on_byte-Reports k none i b f g = crashes
on_byte-Reports k (some p) i b f g = if_Reports (get_or k.bytes (p + i) 0 == b) f g

module _ (bytes : Bytes) (k : Krpc) (hist : XdHist) (same : k.bytes ≡ bytes) where
  filter_ap-Reports : Reports bytes (filter_ap k)
  unfolding filter_ap index
  filter_ap-Reports = search (if_Reports, on_byte-Reports, returns) depth 8

  validate_query-Reports : Reports bytes (validate_query k hist)
  unfolding validate_query index
  validate_query-Reports = search (if_Reports, filter_ap-Reports, returns) depth 10

  validate_reply-Reports : Reports bytes (validate_reply k hist)
  unfolding validate_reply index
  validate_reply-Reports = search (if_Reports, on_byte-Reports, returns) depth 12

  pub validate-Reports : Reports bytes (validate k hist)
  unfolding validate index
  validate-Reports =
      search (if_Reports, validate_query-Reports, validate_reply-Reports, returns, crashes) depth 9
