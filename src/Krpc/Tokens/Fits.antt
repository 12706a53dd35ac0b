-- ===== src/Krpc/Tokens/Fits.antt =====
-- cht/krpc.cpp: a message that fits into the buffer is read as its tokens.
use dht_cpp.Base.{◌<◌, List, [], ◌∷◌, ◌++◌, Bytes, length, length-append, ◌≡◌, arith}
use dht_cpp.Krpc.Decode.{parse_msg}
use dht_cpp.Krpc.Flags.{maxlen}
use dht_cpp.Krpc.State.{Krpc, clear}
use dht_cpp.Krpc.Tokens.Lexing.{parse_msg-take_tokens}
use dht_cpp.Krpc.Tokens.Queries.{start}
use dht_cpp.Krpc.Tokens.{
  Token, open_dict, open_list, close, num, str, print_token, print_tokens, prefix, AreShort,
  take_tokens,
}

-- Of a message that is short, so are the lengths in it.
abbrev pub NumsShort : List Token → Type 0
NumsShort [] = Unit
NumsShort (num n ∷ ts) = (n < 1000000) × NumsShort ts
NumsShort (t ∷ ts) = NumsShort ts

AreShort-length :
    (ts : List Token) → NumsShort ts → length (print_tokens ts) < 1000000 → AreShort ts
AreShort-length [] a h = tt
AreShort-length (open_dict ∷ ts) a h = AreShort-length ts a (omega arith)
AreShort-length (open_list ∷ ts) a h = AreShort-length ts a (omega arith)
AreShort-length (close ∷ ts) a h = AreShort-length ts a (omega arith)
AreShort-length (num n ∷ ts) (b, a) h =
    let len = length-append (print_token (num n)) (print_tokens ts) in
    (b, AreShort-length ts a (omega (arith, len)))
AreShort-length (str s ∷ ts) a h =
    let len = length-append (print_token (str s)) (print_tokens ts) in
    let len' = length-append (prefix (length s)) s in
    (omega (arith, len, len'), AreShort-length ts a (omega (arith, len)))

pub lexed :
    (k : Krpc) (rest : Bytes) (ts : List Token)
    → NumsShort ts
    → length (print_tokens ts) < maxlen
    → k.bytes ≡ print_tokens ts ++ rest
    → parse_msg (clear k) (length (print_tokens ts)) ≡ take_tokens ts (start k)
unfolding clear
lexed k rest ts nums fits got =
    let short = AreShort-length ts nums (omega arith) in
    parse_msg-take_tokens (clear k) ts rest short (omega arith) got
