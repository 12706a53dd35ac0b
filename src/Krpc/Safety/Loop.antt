-- ===== src/Krpc/Safety/Loop.antt =====
-- cht/krpc.cpp: the loop of `xdecode`, for its end and the bounds of a message.
use dht_cpp.Base.{
  ℕ, zero, suc, ◌+◌, ◌-◌, ◌*◌, ◌%◌, ◌^◌, ◌≤◌, ◌<◌, ◌≡◌, true, false, ltb, Bool-cases, inl, inr,
  arith, refl,
}
use dht_cpp.Krpc.Atoi.Bounds.{StopsIn, krpc_bdecode_atoi-StopsIn}
use dht_cpp.Krpc.Atoi.{Atoi, atoi_limit, krpc_bdecode_atoi}
use dht_cpp.Krpc.Decode.{
  read_payload, read_sized, read_length, read_string, step, Outcome, returned, died, out_of_fuel,
  loop, initial, xdecode, parse_msg,
}
use dht_cpp.Krpc.Flags.{maxlen}
use dht_cpp.Krpc.Loop.{next, loop-step}
use dht_cpp.Krpc.Safety.Keys.{read_okey-Advances, read_ikey-Advances}
use dht_cpp.Krpc.Safety.Rounds.{
  read_dict-Advances, read_end-Advances, read_int-Advances, read_list-Advances,
}
use dht_cpp.Krpc.Safety.Shape.{
  IsSafe, Advances, IsSafe-mono, if_Advances, continues, returns, crashes, set_status,
}
use dht_cpp.Krpc.Safety.Values.{read_oval-Advances, read_ival-Advances, read_ivlist-Advances}
use dht_cpp.Krpc.State.{
  Krpc, clear, XdState, xd_start, xd_okey, xd_ikey, xd_oval, xd_ival, xd_ivlist, Decoder, Step,
  continue, return, crashed,
}
use dht_cpp.Krpc.Decode.Common.{fail}
use dht_cpp.Krpc.Validate.{xd_fail}
use dht_cpp.Stat.{Stat, bd_a_no_error, stat_eq}

-- The length of a string ends at `d.cur_pos`, behind `pos`.
module _ (n pos slen : ℕ) (d : Decoder) (safe : IsSafe d.krpc d.cur_pos)
    (forward : pos < d.cur_pos) where
  abbrev behind : Decoder
  behind = record d { cur_pos = d.cur_pos + slen }

  read_payload-Advances :
      (s : XdState) → d.cur_pos + slen ≤ n → Advances n pos (read_payload s behind d.cur_pos slen)
  unfolding read_payload
  read_payload-Advances xd_start h = crashes
  read_payload-Advances xd_okey h =
      read_okey-Advances n d.cur_pos slen pos (record behind { xd_state = xd_oval }) safe refl h
        forward
  read_payload-Advances xd_ikey h =
      read_ikey-Advances n d.cur_pos slen pos (record behind { xd_state = xd_ival }) safe refl h
        forward
  read_payload-Advances xd_oval h =
      read_oval-Advances n d.cur_pos slen pos (record behind { xd_state = xd_okey }) safe refl h
        forward
  read_payload-Advances xd_ival h =
      read_ival-Advances n d.cur_pos slen pos (record behind { xd_state = xd_ikey }) safe refl h
        forward
  read_payload-Advances xd_ivlist h =
      read_ivlist-Advances n d.cur_pos slen pos behind safe refl h forward

  module _ (small : n ≤ maxlen) (inside : d.cur_pos ≤ n) (bounded : slen ≤ 10 * atoi_limit) where
    -- The sum that the code compares with the length does not wrap.
    payload_Advances :
        ltb n ((d.cur_pos + slen) % 2 ^ 32) ≡ false
        → Advances n pos (read_payload d.xd_state behind d.cur_pos slen)
    payload_Advances e = read_payload-Advances d.xd_state (ground arith)

    too_long_Advances : (s : Stat) → Advances n pos (fail d s)
    too_long_Advances s =
        returns (set_status d.krpc n s (IsSafe-mono d.krpc d.cur_pos n inside safe))

    read_sized-Advances : Advances n pos (read_sized d slen n)
    unfolding read_sized
    read_sized-Advances = search (if_Advances, payload_Advances, too_long_Advances)

module _ (n : ℕ) (small : n ≤ maxlen) (d : Decoder) (safe : IsSafe d.krpc d.cur_pos)
    (inside : d.cur_pos < n) where
  abbrev len_atoi : Atoi
  len_atoi = krpc_bdecode_atoi d.krpc.bytes d.cur_pos n

  stop : StopsIn d.cur_pos (n - d.cur_pos) len_atoi
  stop = krpc_bdecode_atoi-StopsIn d.krpc.bytes d.cur_pos n

  at_end : IsSafe d.krpc n
  at_end = IsSafe-mono d.krpc d.cur_pos n (omega arith) safe

  rejects : (s t : Stat) → Advances n d.cur_pos (xd_fail (record d.krpc { status = s }) t)
  rejects s t = returns (set_status d.krpc n t at_end)

  sized_Advances :
      stat_eq len_atoi.result bd_a_no_error ≡ true
      → Advances n d.cur_pos (
          read_sized
            (record d {
              krpc = record d.krpc { status = len_atoi.result };
              cur_pos = len_atoi.cur_pos;
            })
            len_atoi.dest
            n)
  sized_Advances e =
      read_sized-Advances n d.cur_pos len_atoi.dest
        (record d { krpc = record d.krpc { status = len_atoi.result }; cur_pos = len_atoi.cur_pos })
        (set_status d.krpc _ _ (IsSafe-mono d.krpc d.cur_pos _ stop.forward safe)) (stop.reads e)
        small (omega (arith, stop.inside)) stop.small

  read_length-Advances : Advances n d.cur_pos (read_length d n)
  unfolding read_length
  read_length-Advances = search (if_Advances, sized_Advances, rejects)

  read_string-Advances : (s : XdState) → Advances n d.cur_pos (read_string s d n)
  unfolding read_string
  read_string-Advances xd_start = returns (set_status d.krpc n _ at_end)
  read_string-Advances _ = read_length-Advances

  step-Advances : Advances n d.cur_pos (step d n)
  unfolding step
  step-Advances =
      search
        (
          if_Advances,
          read_dict-Advances n d safe inside,
          read_end-Advances n d safe inside,
          read_int-Advances n d safe inside,
          read_list-Advances n d safe inside,
          read_string-Advances,
          rejects d.krpc.status,
        )
        depth 12

-- The decoder comes to an end, and a message that it returns is safe.
abbrev pub Ends : ℕ → Outcome → Type 0
Ends n (returned k) = IsSafe k n
Ends n (died c) = Unit
Ends n out_of_fuel = ⊥

loop-Ends :
    (fuel n : ℕ) (d : Decoder)
    → n ≤ maxlen
    → IsSafe d.krpc d.cur_pos
    → d.cur_pos ≤ n
    → n - d.cur_pos < fuel
    → Ends n (loop fuel d n)
loop-Ends zero n d small safe inside h = absurd (omega arith)
loop-Ends (suc fuel) n d small safe inside h =
    rw (loop-step fuel n d) (elim (Bool-cases (ltb d.cur_pos n)) [
      | inl more ↦ rw more (
          go (step d n) (step-Advances n small d safe (ground arith))
            (λ d' s f i. loop-Ends fuel n d' small s i (ground arith)))
      | inr stop ↦ rw stop tt
    ])
  where
    go :
        (s : Step)
        → Advances n d.cur_pos s
        → ((d' : Decoder)
            → IsSafe d'.krpc d'.cur_pos
            → d.cur_pos < d'.cur_pos
            → d'.cur_pos ≤ n
            → Ends n (loop fuel d' n))
        → Ends n (next fuel n s)
    go (continue d') (continues s f i) ih = ih d' s f i
    go (return k) (returns s) ih = s
    go (crashed c) crashes ih = tt

clear-IsSafe : (k : Krpc) (s : Stat) → IsSafe (record (clear k) { status = s }) 0
unfolding clear
clear-IsSafe k s = omega arith

-- On at most `MAXLEN` bytes, and from a cleared `KRPC`, the decoder ends within its fuel, by a
-- return or by a crash; a message that it returns points into the bytes received only, and every
-- length in it is within its limit.
pub parse_msg-Ends : (k : Krpc) (n : ℕ) → n ≤ maxlen → Ends n (parse_msg (clear k) n)
unfolding parse_msg xdecode
parse_msg-Ends k n small =
    loop-Ends (suc n) n (initial (record (clear k) { status = bd_a_no_error })) small
      (clear-IsSafe k _) (omega arith) (omega arith)
