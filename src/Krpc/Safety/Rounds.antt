-- ===== src/Krpc/Safety/Rounds.antt =====
-- cht/krpc.cpp: the rounds of `xdecode`, for the bounds of a message.
use dht_cpp.Base.{ℕ, ◌+◌, ◌<◌, ◌≡◌, Bool, true, false, Option, none, some, arith}
use dht_cpp.Krpc.State.{
  Krpc, XdState, xd_start, xd_okey, xd_ikey, xd_oval, xd_ival, xd_ivlist, XdHist, Decoder, Step,
  continue,
}
use dht_cpp.Krpc.Safety.Shape.{
  IsSafe, Advances, IsSafe-mono, if_Advances, continues, returns, crashes, set_status, set_method,
  set_port,
}
use dht_cpp.Krpc.Decode.Common.{fail, enter}
use dht_cpp.Krpc.Decode.Chars.{read_dict, read_end, read_int_value, read_int, read_list}
use dht_cpp.Krpc.Validate.{xd_fail, on_byte, filter_ap, validate_query, validate_reply, validate}
use dht_cpp.Krpc.Atoi.{Atoi, krpc_bdecode_atoi}
use dht_cpp.Krpc.Atoi.Bounds.{krpc_bdecode_atoi-StopsIn}
use dht_cpp.Stat.{Stat, stat_eq, bd_a_no_error}

on_byte-Advances :
    {n pos : ℕ} (k : Krpc) (p : Option ℕ) (i b : ℕ) {x y : Step}
    → Advances n pos x
    → Advances n pos y
    → Advances n pos (on_byte k p i b x y)
on_byte-Advances k none i b f g = crashes
on_byte-Advances k (some p) i b f g = if_Advances _ (λ _. f) (λ _. g)

-- `validate` changes the method and the status alone.
module _ (n pos : ℕ) (k : Krpc) (hist : XdHist) (safe : IsSafe k n) where
  rejects : (s : Stat) → Advances n pos (xd_fail k s)
  rejects s = returns (set_status k n s safe)

  accepts : (m : ℕ) (s : Stat) → Advances n pos (xd_fail (record k { method = m }) s)
  accepts m s = returns (set_method k n m s safe)

  filter_ap-Advances : Advances n pos (filter_ap k)
  unfolding filter_ap
  filter_ap-Advances = search (if_Advances, on_byte-Advances, rejects, accepts) depth 7

  validate_query-Advances : Advances n pos (validate_query k hist)
  unfolding validate_query
  validate_query-Advances = search (if_Advances, filter_ap-Advances, rejects, accepts) depth 10

  validate_reply-Advances : Advances n pos (validate_reply k hist)
  unfolding validate_reply
  validate_reply-Advances = search (if_Advances, on_byte-Advances, rejects, accepts) depth 10

  validate-Advances : Advances n pos (validate k hist)
  unfolding validate
  validate-Advances =
      search (if_Advances, validate_query-Advances, validate_reply-Advances, rejects, crashes) depth
        9

-- `d` stands at `cur_pos`, within the message.
module _ (n : ℕ) (d : Decoder) (safe : IsSafe d.krpc d.cur_pos) (inside : d.cur_pos < n) where
  at_end : IsSafe d.krpc n
  at_end = IsSafe-mono d.krpc d.cur_pos n (omega arith) safe

  fails : (s : Stat) → Advances n d.cur_pos (fail d s)
  fails s = returns (set_status d.krpc n s at_end)

  enters : (s : XdState) → Advances n d.cur_pos (enter d s)
  enters s =
      continues (IsSafe-mono d.krpc d.cur_pos (d.cur_pos + 1) (omega arith) safe) (omega arith)
        (omega arith)

  pub read_dict-Advances : (s : XdState) → Advances n d.cur_pos (read_dict s d)
  unfolding read_dict
  read_dict-Advances xd_start = enters _
  read_dict-Advances xd_oval = enters _
  read_dict-Advances _ = fails _

  pub read_end-Advances : (s : XdState) → Advances n d.cur_pos (read_end s d)
  unfolding read_end
  read_end-Advances xd_okey = validate-Advances n d.cur_pos d.krpc d.hist at_end
  read_end-Advances xd_ikey = enters _
  read_end-Advances xd_ivlist = enters _
  read_end-Advances _ = fails _

  pub read_list-Advances : (s : XdState) → Advances n d.cur_pos (read_list s d)
  unfolding read_list
  read_list-Advances xd_ival = enters _
  read_list-Advances _ = fails _

  -- The integer behind the character `i`.
  abbrev int_atoi : Atoi
  int_atoi = krpc_bdecode_atoi d.krpc.bytes (d.cur_pos + 1) n

  int_fails : (s t : Stat) → Advances n d.cur_pos (xd_fail (record d.krpc { status = s }) t)
  int_fails s t = fails t

  int_continues :
      (s : Stat) (port : ℕ) (next : XdState)
      → stat_eq int_atoi.result bd_a_no_error ≡ true
      → Advances n d.cur_pos (
          continue (record d {
            krpc = record d.krpc { status = s; ap_port = port };
            cur_pos = int_atoi.cur_pos;
            xd_state = next;
          }))
  int_continues s port next e =
      let stop = krpc_bdecode_atoi-StopsIn d.krpc.bytes (d.cur_pos + 1) n in
      continues
        (IsSafe-mono _ d.cur_pos int_atoi.cur_pos (omega (arith, stop.forward))
          (set_port d.krpc d.cur_pos port s safe))
        (omega (arith, stop.forward)) (omega (arith, stop.inside))

  read_int_value-Advances : (inner : Bool) → Advances n d.cur_pos (read_int_value inner d n)
  unfolding read_int_value
  read_int_value-Advances inner = search (if_Advances, int_fails, int_continues)

  pub read_int-Advances : (s : XdState) → Advances n d.cur_pos (read_int s d n)
  unfolding read_int
  read_int-Advances xd_oval = read_int_value-Advances false
  read_int-Advances xd_ival = read_int_value-Advances true
  read_int-Advances _ = fails _
