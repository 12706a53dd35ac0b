-- ===== src/Krpc/Status/Rounds.antt =====
-- cht/krpc.cpp: the rounds of `xdecode`, for the status of a message.
use Prim.Native.String.{String}
use dht_cpp.Base.{
  subst, ℕ, zero, suc, Bool, true, false, ◌≡◌, refl, ltb, assertion, Bool-cases, inl, inr, Bytes,
}
use dht_cpp.Krpc.Atoi.{krpc_bdecode_atoi}
use dht_cpp.Krpc.Decode.Chars.{read_dict, read_end, read_int_value, read_int, read_list}
use dht_cpp.Krpc.Decode.Keys.{read_okey, read_ikey}
use dht_cpp.Krpc.Decode.Values.{
  read_oval, read_query, read_type, read_nodes, read_ival, read_ivlist,
}
use dht_cpp.Krpc.Decode.{
  read_payload, read_sized, read_length, read_string, step, returned, died, loop, initial, xdecode,
  parse_msg,
}
use dht_cpp.Krpc.Loop.{next, loop-step}
use dht_cpp.Krpc.State.{
  Krpc, XdState, xd_start, xd_okey, xd_ikey, xd_oval, xd_ival, xd_ivlist, Decoder, Step, continue,
  return, crashed,
}
use dht_cpp.Krpc.Status.{
  IsVerdict, Reports, continues, returns, crashes, if_Reports, validate-Reports,
  krpc_bdecode_atoi-IsVerdict,
}
use dht_cpp.Stat.{index, bd_a_no_error}

module _ (bytes : Bytes) (d : Decoder) (same : d.krpc.bytes ≡ bytes) where
  module _ (start slen : ℕ) where
    read_okey-Reports : Reports bytes (read_okey d start slen)
    unfolding read_okey index
    read_okey-Reports = search (if_Reports, returns, continues) depth 12

    read_ikey-Reports : Reports bytes (read_ikey d start slen)
    unfolding read_ikey index
    read_ikey-Reports = search (if_Reports, continues) depth 14

    read_query-Reports : (named : String → Bool) → Reports bytes (read_query d slen named)
    unfolding read_query index
    read_query-Reports named = search (if_Reports, returns, continues) depth 8

    read_type-Reports : (c : ℕ) → Reports bytes (read_type d slen c)
    unfolding read_type index
    read_type-Reports c = search (if_Reports, returns, continues) depth 8

    read_oval-Reports : Reports bytes (read_oval d start slen)
    unfolding read_oval index
    read_oval-Reports =
        search (if_Reports, returns, continues, read_query-Reports, read_type-Reports) depth 8

    read_nodes-Reports : Reports bytes (read_nodes d start slen)
    unfolding read_nodes index
    read_nodes-Reports = search (if_Reports, returns, continues) depth 6

    read_ival-Reports : Reports bytes (read_ival d start slen)
    unfolding read_ival index
    read_ival-Reports = search (if_Reports, returns, continues, read_nodes-Reports) depth 14

    read_ivlist-Reports : Reports bytes (read_ivlist d start slen)
    unfolding read_ivlist index
    read_ivlist-Reports = search (if_Reports, returns, continues) depth 8

read_payload-Reports :
    (bytes : Bytes) (s : XdState) (d : Decoder) (start slen : ℕ)
    → d.krpc.bytes ≡ bytes
    → Reports bytes (read_payload s d start slen)
unfolding read_payload
read_payload-Reports bytes xd_start d start slen h = crashes
read_payload-Reports bytes xd_okey d start slen h =
    read_okey-Reports bytes (record d { xd_state = xd_oval }) h start slen
read_payload-Reports bytes xd_ikey d start slen h =
    read_ikey-Reports bytes (record d { xd_state = xd_ival }) h start slen
read_payload-Reports bytes xd_oval d start slen h =
    read_oval-Reports bytes (record d { xd_state = xd_okey }) h start slen
read_payload-Reports bytes xd_ival d start slen h =
    read_ival-Reports bytes (record d { xd_state = xd_ikey }) h start slen
read_payload-Reports bytes xd_ivlist d start slen h = read_ivlist-Reports bytes d h start slen

read_sized-Reports :
    (bytes : Bytes) (d : Decoder) (slen n : ℕ)
    → d.krpc.bytes ≡ bytes
    → Reports bytes (read_sized d slen n)
unfolding read_sized index
read_sized-Reports bytes d slen n h = search (if_Reports, returns, read_payload-Reports)

module _ (bytes : Bytes) (n : ℕ) (d : Decoder) (same : d.krpc.bytes ≡ bytes) where
  atoi-IsVerdict : (pos : ℕ) → IsVerdict (krpc_bdecode_atoi d.krpc.bytes pos n).result
  atoi-IsVerdict pos = krpc_bdecode_atoi-IsVerdict d.krpc.bytes pos n

  read_length-Reports : Reports bytes (read_length d n)
  unfolding read_length
  read_length-Reports = search (if_Reports, returns, read_sized-Reports, atoi-IsVerdict)

  read_string-Reports : (s : XdState) → Reports bytes (read_string s d n)
  unfolding read_string index
  read_string-Reports xd_start = returns same refl
  read_string-Reports _ = read_length-Reports

  read_int_value-Reports : (inner : Bool) → Reports bytes (read_int_value inner d n)
  unfolding read_int_value index
  read_int_value-Reports inner = search (if_Reports, returns, continues, atoi-IsVerdict) depth 8

  read_int-Reports : (s : XdState) → Reports bytes (read_int s d n)
  unfolding read_int index
  read_int-Reports xd_oval = read_int_value-Reports false
  read_int-Reports xd_ival = read_int_value-Reports true
  read_int-Reports _ = returns same refl

  read_dict-Reports : (s : XdState) → Reports bytes (read_dict s d)
  unfolding read_dict index
  read_dict-Reports xd_start = continues same
  read_dict-Reports xd_oval = continues same
  read_dict-Reports _ = returns same refl

  read_end-Reports : (s : XdState) → Reports bytes (read_end s d)
  unfolding read_end index
  read_end-Reports xd_okey = validate-Reports bytes d.krpc d.hist same
  read_end-Reports xd_ikey = continues same
  read_end-Reports xd_ivlist = continues same
  read_end-Reports _ = returns same refl

  read_list-Reports : (s : XdState) → Reports bytes (read_list s d)
  unfolding read_list index
  read_list-Reports xd_ival = continues same
  read_list-Reports _ = returns same refl

  step-Reports : Reports bytes (step d n)
  unfolding step index
  step-Reports =
      search
        (
          if_Reports, returns, read_dict-Reports, read_end-Reports, read_int-Reports,
          read_list-Reports, read_string-Reports,
        )
        depth 12

-- What is left to say of a message that was returned.
abbrev pub Judged : Bytes → Krpc → Type 0
Judged bytes k = (k.bytes ≡ bytes) × IsVerdict k.status

loop-Judged :
    (bytes : Bytes) (fuel n : ℕ) (d : Decoder) {k : Krpc}
    → d.krpc.bytes ≡ bytes
    → loop fuel d n ≡ returned k
    → Judged bytes k
loop-Judged bytes zero n d h e = unfold loop in cc
loop-Judged bytes (suc fuel) n d {k} h e = elim (Bool-cases (ltb d.cur_pos n)) [
  | inl more ↦
      go (step d n) (step-Reports bytes n d h) (λ d' h' e'. loop-Judged bytes fuel n d' h' e')
        (rw (loop-step fuel n d, more) at e)
  | inr stop ↦ let x : died assertion ≡ returned k = rw (loop-step fuel n d, stop) at e in cc
]
  where
    go :
        (t : Step)
        → Reports bytes t
        → ((d' : Decoder) → d'.krpc.bytes ≡ bytes → loop fuel d' n ≡ returned k → Judged bytes k)
        → next fuel n t ≡ returned k
        → Judged bytes k
    go (continue d') (continues h') ih e' = ih d' h' e'
    go (return k') (returns h' v) ih e' =
        let same : k' ≡ k = cc in subst (Judged bytes) same (h', v)
    go (crashed c) crashes ih e' = cc

-- On any bytes, from any `KRPC`: a message that `parse_msg` returns has the bytes that were received,
-- and its status is one of those from `bd_a_no_error` to `bd_z_negative_int`.
pub parse_msg-IsVerdict :
    (k : Krpc) (n : ℕ) {r : Krpc}
    → parse_msg k n ≡ returned r
    → (r.bytes ≡ k.bytes) × IsVerdict r.status
unfolding parse_msg xdecode
parse_msg-IsVerdict k n e =
    loop-Judged k.bytes (suc n) n (initial (record k { status = bd_a_no_error })) refl e
