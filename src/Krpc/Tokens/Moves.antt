-- ===== src/Krpc/Tokens/Moves.antt =====
-- cht/krpc.cpp: a token is taken off the message, and the message itself stays as it is.
use Prim.Native.String.{String}
use dht_cpp.Base.{
  ℕ, ◌+◌, Bool, true, false, Bytes, length, length-append, Crash, Option, none, some, get_or, ◌==◌,
  if◌then◌else◌, ◌≡◌, refl, arith,
}
use dht_cpp.Krpc.Decode.Chars.{read_dict, read_end, read_list, int_case}
use dht_cpp.Krpc.Decode.Keys.{okey_case, ikey_case}
use dht_cpp.Krpc.Decode.Values.{
  read_query, read_type, read_oval, read_nodes, read_ival, read_ivlist,
}
use dht_cpp.Krpc.Atoi.{Atoi}
use dht_cpp.Krpc.Flags.{okey_q, okey_y}
use dht_cpp.Krpc.State.{
  Krpc, XdState, xd_start, xd_okey, xd_ikey, xd_oval, xd_ival, xd_ivlist, XdHist, Decoder, Step,
  continue, return, crashed,
}
use dht_cpp.Krpc.Validate.{filter_ap, on_byte, validate_query, validate_reply, validate}
use dht_cpp.Krpc.Tokens.{
  Token, open_dict, open_list, close, num, str, print_token, prefix, take_string, take_num,
  take_token, behind, is_named, number_at,
}

-- A round that goes on stands at `pos` of the same message.
pub data Moves (bytes : Bytes) (pos : ℕ) : Step → Type 0 where
  continues : {d : Decoder} → d.krpc.bytes ≡ bytes → d.cur_pos ≡ pos → Moves bytes pos (continue d)
  returns : {k : Krpc} → Moves bytes pos (return k)
  crashes : {c : Crash} → Moves bytes pos (crashed c)

if_Moves :
    {bytes : Bytes} {pos : ℕ} (b : Bool) {x y : Step}
    → Moves bytes pos x
    → Moves bytes pos y
    → Moves bytes pos (if b then x else y)
if_Moves true f g = f
if_Moves false f g = g

on_byte-Moves :
    {bytes : Bytes} {pos : ℕ} (k : Krpc) (p : Option ℕ) (i b : ℕ) {x y : Step}
    → Moves bytes pos x
    → Moves bytes pos y
    → Moves bytes pos (on_byte k p i b x y)
on_byte-Moves k none i b f g = crashes
on_byte-Moves k (some p) i b f g = if_Moves (get_or k.bytes (p + i) 0 == b) f g

module _ (bytes : Bytes) (pos : ℕ) (k : Krpc) (hist : XdHist) where
  filter_ap-Moves : Moves bytes pos (filter_ap k)
  unfolding filter_ap
  filter_ap-Moves = search (if_Moves, on_byte-Moves, returns) depth 8

  validate_query-Moves : Moves bytes pos (validate_query k hist)
  unfolding validate_query
  validate_query-Moves = search (if_Moves, filter_ap-Moves, returns) depth 10

  validate_reply-Moves : Moves bytes pos (validate_reply k hist)
  unfolding validate_reply
  validate_reply-Moves = search (if_Moves, on_byte-Moves, returns) depth 12

  validate-Moves : Moves bytes pos (validate k hist)
  unfolding validate
  validate-Moves =
      search (if_Moves, validate_query-Moves, validate_reply-Moves, returns, crashes) depth 9

-- Behind a string.
module _ (bytes : Bytes) (pos : ℕ) (d : Decoder) (same : d.krpc.bytes ≡ bytes)
    (at : d.cur_pos ≡ pos) where
  okey_case-Moves : (slen c : ℕ) → Moves bytes pos (okey_case d slen c)
  unfolding okey_case
  okey_case-Moves slen c = search (if_Moves, returns, continues) depth 12

  ikey_case-Moves : (slen : ℕ) (named : String → Bool) → Moves bytes pos (ikey_case d slen named)
  unfolding ikey_case
  ikey_case-Moves slen named = search (if_Moves, continues) depth 14

  read_query-Moves : (slen : ℕ) (named : String → Bool) → Moves bytes pos (read_query d slen named)
  unfolding read_query
  read_query-Moves slen named = search (if_Moves, returns, continues) depth 8

  read_type-Moves : (slen c : ℕ) → Moves bytes pos (read_type d slen c)
  unfolding read_type
  read_type-Moves slen c = search (if_Moves, returns, continues) depth 8

  module _ (start slen : ℕ) where
    read_oval-Moves : Moves bytes pos (read_oval d start slen)
    unfolding read_oval
    read_oval-Moves =
        search (if_Moves, returns, continues, read_query-Moves, read_type-Moves) depth 8

    read_nodes-Moves : Moves bytes pos (read_nodes d start slen)
    unfolding read_nodes
    read_nodes-Moves = search (if_Moves, returns, continues) depth 6

    read_ival-Moves : Moves bytes pos (read_ival d start slen)
    unfolding read_ival
    read_ival-Moves = search (if_Moves, returns, continues, read_nodes-Moves) depth 14

    read_ivlist-Moves : Moves bytes pos (read_ivlist d start slen)
    unfolding read_ivlist
    read_ivlist-Moves = search (if_Moves, returns, continues) depth 8

take_string-Moves :
    (bytes : Bytes) (pos : ℕ) (st : XdState) (s : Bytes) (d : Decoder) (start : ℕ)
    → d.krpc.bytes ≡ bytes
    → d.cur_pos ≡ pos
    → Moves bytes pos (take_string st s d start)
unfolding take_string
take_string-Moves bytes pos xd_start s d start h e = returns
take_string-Moves bytes pos xd_okey s d start h e =
    okey_case-Moves bytes pos (record d { xd_state = xd_oval }) h e (length s) (get_or s 0 0)
take_string-Moves bytes pos xd_ikey s d start h e =
    ikey_case-Moves bytes pos (record d { xd_state = xd_ival }) h e (length s) (is_named s)
take_string-Moves bytes pos xd_oval s d start h e =
    let d' : Decoder = record d { xd_state = xd_okey } in
    if_Moves (d.hist.current_key == okey_q)
      (read_query-Moves bytes pos d' h e (length s) (is_named s))
      (if_Moves (d.hist.current_key == okey_y)
        (read_type-Moves bytes pos d' h e (length s) (get_or s 0 0))
        (read_oval-Moves bytes pos d' h e start (length s)))
take_string-Moves bytes pos xd_ival s d start h e =
    read_ival-Moves bytes pos (record d { xd_state = xd_ikey }) h e start (length s)
take_string-Moves bytes pos xd_ivlist s d start h e =
    read_ivlist-Moves bytes pos d h e start (length s)

int_case-Moves :
    (bytes : Bytes) (inner : Bool) (d : Decoder) (r : Atoi)
    → d.krpc.bytes ≡ bytes
    → Moves bytes r.cur_pos (int_case inner d r)
unfolding int_case
int_case-Moves bytes inner d r h = search (if_Moves, returns, continues) depth 8

read_dict-Moves : (st : XdState) (d : Decoder) → Moves d.krpc.bytes (d.cur_pos + 1) (read_dict st d)
unfolding read_dict
read_dict-Moves xd_start d = continues refl refl
read_dict-Moves xd_oval d = continues refl refl
read_dict-Moves _ d = returns

read_list-Moves : (st : XdState) (d : Decoder) → Moves d.krpc.bytes (d.cur_pos + 1) (read_list st d)
unfolding read_list
read_list-Moves xd_ival d = continues refl refl
read_list-Moves _ d = returns

read_end-Moves : (st : XdState) (d : Decoder) → Moves d.krpc.bytes (d.cur_pos + 1) (read_end st d)
unfolding read_end
read_end-Moves xd_okey d = validate-Moves _ _ d.krpc d.hist
read_end-Moves xd_ikey d = continues refl refl
read_end-Moves xd_ivlist d = continues refl refl
read_end-Moves _ d = returns

take_num-Moves :
    (st : XdState) (n : ℕ) (d : Decoder)
    → Moves d.krpc.bytes (d.cur_pos + length (print_token (num n))) (take_num st n d)
unfolding take_num
take_num-Moves xd_oval n d = int_case-Moves d.krpc.bytes false d (number_at n d) refl
take_num-Moves xd_ival n d = int_case-Moves d.krpc.bytes true d (number_at n d) refl
take_num-Moves _ n d = returns

pub take_token-Moves :
    (t : Token) (d : Decoder)
    → Moves d.krpc.bytes (d.cur_pos + length (print_token t)) (take_token t d)
unfolding take_token
take_token-Moves open_dict d = read_dict-Moves d.xd_state d
take_token-Moves open_list d = read_list-Moves d.xd_state d
take_token-Moves close d = read_end-Moves d.xd_state d
take_token-Moves (num n) d = take_num-Moves d.xd_state n d
take_token-Moves (str s) d =
    take_string-Moves d.krpc.bytes (d.cur_pos + length (print_token (str s))) d.xd_state s
      (behind s d) (d.cur_pos + length (prefix (length s))) refl
      (omega (arith, length-append (prefix (length s)) s))
