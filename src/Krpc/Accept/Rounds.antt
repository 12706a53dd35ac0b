-- ===== src/Krpc/Accept/Rounds.antt =====
-- cht/krpc.cpp: the rounds of `xdecode`, for the checks that `validate` makes.
use mathlib.Core.Bool.{false≢true}
use Prim.Native.String.{String}
use dht_cpp.Base.{
  sym, ap, ◌∙◌, subst, ℕ, zero, suc, Bool, true, false, ◌≡◌, refl, ltb, assertion, Bool-cases, inl,
  inr,
}
use dht_cpp.Krpc.Accept.{
  IsAccepted, Judges, continues, rejected, accepted, crashes, if_Judges, validate-Judges,
}
use dht_cpp.Krpc.Decode.Chars.{read_dict, read_end, read_int_value, read_int, read_list}
use dht_cpp.Krpc.Decode.Keys.{read_okey, read_ikey}
use dht_cpp.Krpc.Decode.Values.{
  read_oval, read_query, read_type, read_nodes, read_ival, read_ivlist,
}
use dht_cpp.Krpc.Decode.{
  read_payload, read_sized, read_length, read_string, step, returned, died, loop, initial, xdecode,
  parse_msg,
}
use dht_cpp.Krpc.Loop.{next, loop-step}
use dht_cpp.Krpc.State.{
  Krpc, XdState, xd_start, xd_okey, xd_ikey, xd_oval, xd_ival, xd_ivlist, Decoder, Step, continue,
  return, crashed,
}
use dht_cpp.Stat.{index, stat_eq, bd_a_no_error}

module _ (d : Decoder) (start slen n : ℕ) where
  read_okey-Judges : Judges (read_okey d start slen)
  unfolding read_okey index
  read_okey-Judges = search (if_Judges, rejected, continues) depth 12

  read_ikey-Judges : Judges (read_ikey d start slen)
  unfolding read_ikey index
  read_ikey-Judges = search (if_Judges, continues) depth 14

  read_query-Judges : (named : String → Bool) → Judges (read_query d slen named)
  unfolding read_query index
  read_query-Judges named = search (if_Judges, rejected, continues) depth 8

  read_type-Judges : (c : ℕ) → Judges (read_type d slen c)
  unfolding read_type index
  read_type-Judges c = search (if_Judges, rejected, continues) depth 8

  read_oval-Judges : Judges (read_oval d start slen)
  unfolding read_oval index
  read_oval-Judges =
      search (if_Judges, rejected, continues, read_query-Judges, read_type-Judges) depth 8

  read_nodes-Judges : Judges (read_nodes d start slen)
  unfolding read_nodes index
  read_nodes-Judges = search (if_Judges, rejected, continues)

  read_ival-Judges : Judges (read_ival d start slen)
  unfolding read_ival index
  read_ival-Judges = search (if_Judges, rejected, continues, read_nodes-Judges) depth 14

  read_ivlist-Judges : Judges (read_ivlist d start slen)
  unfolding read_ivlist index
  read_ivlist-Judges = search (if_Judges, rejected, continues) depth 8

read_payload-Judges :
    (s : XdState) (d : Decoder) (start slen : ℕ) → Judges (read_payload s d start slen)
unfolding read_payload
read_payload-Judges xd_start d start slen = crashes
read_payload-Judges xd_okey d start slen =
    read_okey-Judges (record d { xd_state = xd_oval }) start slen 0
read_payload-Judges xd_ikey d start slen =
    read_ikey-Judges (record d { xd_state = xd_ival }) start slen 0
read_payload-Judges xd_oval d start slen =
    read_oval-Judges (record d { xd_state = xd_okey }) start slen 0
read_payload-Judges xd_ival d start slen =
    read_ival-Judges (record d { xd_state = xd_ikey }) start slen 0
read_payload-Judges xd_ivlist d start slen = read_ivlist-Judges _ start slen 0

read_sized-Judges : (d : Decoder) (slen n : ℕ) → Judges (read_sized d slen n)
unfolding read_sized index
read_sized-Judges d slen n = search (if_Judges, rejected, read_payload-Judges)

read_length-Judges : (d : Decoder) (n : ℕ) → Judges (read_length d n)
unfolding read_length
read_length-Judges d n = search (if_Judges, rejected, read_sized-Judges)

read_string-Judges : (s : XdState) (d : Decoder) (n : ℕ) → Judges (read_string s d n)
unfolding read_string index
read_string-Judges xd_start d n = rejected refl
read_string-Judges _ d n = read_length-Judges d n

read_int_value-Judges : (inner : Bool) (d : Decoder) (n : ℕ) → Judges (read_int_value inner d n)
unfolding read_int_value index
read_int_value-Judges inner d n = search (if_Judges, rejected, continues)

read_int-Judges : (s : XdState) (d : Decoder) (n : ℕ) → Judges (read_int s d n)
unfolding read_int index
read_int-Judges xd_oval d n = read_int_value-Judges false d n
read_int-Judges xd_ival d n = read_int_value-Judges true d n
read_int-Judges _ d n = rejected refl

read_dict-Judges : (s : XdState) (d : Decoder) → Judges (read_dict s d)
unfolding read_dict index
read_dict-Judges xd_start d = continues
read_dict-Judges xd_oval d = continues
read_dict-Judges _ d = rejected refl

read_end-Judges : (s : XdState) (d : Decoder) → Judges (read_end s d)
unfolding read_end index
read_end-Judges xd_okey d = validate-Judges d.krpc d.hist
read_end-Judges xd_ikey d = continues
read_end-Judges xd_ivlist d = continues
read_end-Judges _ d = rejected refl

read_list-Judges : (s : XdState) (d : Decoder) → Judges (read_list s d)
unfolding read_list index
read_list-Judges xd_ival d = continues
read_list-Judges _ d = rejected refl

step-Judges : (d : Decoder) (n : ℕ) → Judges (step d n)
unfolding step index
step-Judges d n =
    search
      (
        if_Judges, rejected, read_dict-Judges, read_end-Judges, read_int-Judges, read_list-Judges,
        read_string-Judges,
      )
      depth 12

loop-IsAccepted :
    (fuel n : ℕ) (d : Decoder) {k : Krpc}
    → loop fuel d n ≡ returned k
    → stat_eq k.status bd_a_no_error ≡ true
    → IsAccepted k
loop-IsAccepted zero n d e s = unfold loop in cc
loop-IsAccepted (suc fuel) n d {k} e s = elim (Bool-cases (ltb d.cur_pos n)) [
  | inl more ↦
      go (step d n) (step-Judges d n) (λ d' e'. loop-IsAccepted fuel n d' e' s)
        (rw (loop-step fuel n d, more) at e)
  | inr stop ↦ let x : died assertion ≡ returned k = rw (loop-step fuel n d, stop) at e in cc
]
  where
    go :
        (t : Step)
        → Judges t
        → ((d' : Decoder) → loop fuel d' n ≡ returned k → IsAccepted k)
        → next fuel n t ≡ returned k
        → IsAccepted k
    go (continue d') continues ih e' = ih d' e'
    go (return k') (rejected r) ih e' =
        let same : k' ≡ k = cc in
        absurd (false≢true (sym r ∙ ap (λ x. stat_eq x.status bd_a_no_error) same ∙ s))
    go (return k') (accepted a) ih e' = let same : k' ≡ k = cc in subst IsAccepted same a
    go (crashed c) crashes ih e' = cc

-- On any bytes, from any `KRPC`: a message that `parse_msg` returns without an error has one of the
-- seven methods; an announcement has a token of another length than 1 that begins with ours, a
-- reply brings the tok of our queries of its kind back, and a get_peers reply has a node or a peer.
pub parse_msg-IsAccepted :
    (k : Krpc) (n : ℕ) {r : Krpc}
    → parse_msg k n ≡ returned r
    → r.status ≡ bd_a_no_error
    → IsAccepted r
unfolding parse_msg xdecode
parse_msg-IsAccepted k n e s =
    loop-IsAccepted (suc n) n (initial (record k { status = bd_a_no_error })) e
      (rw s (unfold index in refl))
