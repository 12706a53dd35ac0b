-- ===== src/Krpc/Tokens/Lexing.antt =====
-- cht/krpc.cpp: the loop of `xdecode` on the bytes of tokens does what the tokens say.
use dht_cpp.Krpc.Tokens.Rounds.{step-take_token}
use dht_cpp.Base.{
  ℕ, zero, suc, ◌+◌, ◌^◌, ◌≤◌, ◌<◌, true, false, List, [], ◌∷◌, ◌++◌, Bytes, drop, length,
  length-append, ltb, ◌≡◌, refl, ◌∙◌, arith,
}
use mathlib.Core.List.{append_assoc}
use dht_cpp.Krpc.Decode.{returned, died, loop, initial, xdecode, parse_msg}
use dht_cpp.Krpc.Loop.{next, loop-step}
use dht_cpp.Krpc.State.{Krpc, Decoder, Step, continue, return, crashed}
use dht_cpp.Krpc.Tokens.{
  Token, open_dict, open_list, close, num, str, print_token, print_tokens, prefix, AreShort,
  take_token, take_tokens,
}
use dht_cpp.Krpc.Tokens.Moves.{Moves, continues, take_token-Moves}
use dht_cpp.Krpc.Tokens.Numbers.{drop_more}
use dht_cpp.Msg.{decimal}
use dht_cpp.Stat.{bd_a_no_error}

AreShort-cons : (t : Token) (ts : List Token) → AreShort (t ∷ ts) → AreShort (t ∷ []) × AreShort ts
AreShort-cons open_dict ts h = (tt, h)
AreShort-cons open_list ts h = (tt, h)
AreShort-cons close ts h = (tt, h)
AreShort-cons (num v) ts (a, h) = ((a, tt), h)
AreShort-cons (str s) ts (a, h) = ((a, tt), h)

print_token-positive : (t : Token) → 0 < length (print_token t)
print_token-positive open_dict = omega arith
print_token-positive open_list = omega arith
print_token-positive close = omega arith
print_token-positive (num v) = omega arith
print_token-positive (str s) =
    omega
      (arith, length-append (prefix (length s)) s, length-append (decimal 6 (length s)) (b':' ∷ []))

-- What follows a token, if the rounds behind it do what the tokens say.
rounds :
    {bytes : Bytes} {pos : ℕ} (fuel n : ℕ) (ts : List Token) (r : Step)
    → Moves bytes pos r
    → ((d : Decoder) → d.krpc.bytes ≡ bytes → d.cur_pos ≡ pos → loop fuel d n ≡ take_tokens ts d)
    → next fuel n r
      ≡ elim r [ continue d ↦ take_tokens ts d | return k ↦ returned k | crashed c ↦ died c ]
rounds fuel n ts (continue d) (continues b p) later = later d b p
rounds fuel n ts (return k) m later = refl
rounds fuel n ts (crashed c) m later = refl

-- The loop, in front of tokens that end the message.
loop-take_tokens :
    (ts : List Token) (fuel n : ℕ) (rest : Bytes) (d : Decoder)
    → n < 2 ^ 32
    → length ts < fuel
    → AreShort ts
    → drop d.cur_pos d.krpc.bytes ≡ print_tokens ts ++ rest
    → d.cur_pos + length (print_tokens ts) ≡ n
    → loop fuel d n ≡ take_tokens ts d
unfolding take_tokens
loop-take_tokens ts zero n rest d small f h got size = absurd (omega arith)
loop-take_tokens [] (suc fuel) n rest d small f h got size =
    let ended : ltb d.cur_pos n ≡ false = ground arith in loop-step fuel n d ∙ rw ended refl
loop-take_tokens (t ∷ ts) (suc fuel) n rest d small f h got size =
    let text = got ∙ append_assoc (print_token t) (print_tokens ts) rest in
    let len = length-append (print_token t) (print_tokens ts) in
    let more : ltb d.cur_pos n ≡ true = ground (arith, len, print_token-positive t) in
    let (one, others) = AreShort-cons t ts h in
    let round =
      step-take_token d n (print_tokens ts ++ rest) small t one text (omega (arith, len)) in
    let behind_t = drop_more d.cur_pos d.krpc.bytes (print_token t) text in
    loop-step fuel n d
    ∙ rw (more, round)
        (rounds fuel n ts (take_token t d) (take_token-Moves t d) (λ d' b p.
          loop-take_tokens ts fuel n rest d' small (omega arith) others
            ((λ i. drop (p i) (b i)) ∙ behind_t) (omega (arith, p, len))))

length-print_tokens : (ts : List Token) → length ts ≤ length (print_tokens ts)
length-print_tokens [] = omega arith
length-print_tokens (t ∷ ts) = omega (
  arith,
  length-print_tokens ts,
  print_token-positive t,
  length-append (print_token t) (print_tokens ts),
)

-- On a message of less than 2 ^ 32 bytes that is written as bencode tokens, with numbers and lengths
-- of up to six digits, `parse_msg` ends as the tokens say, whatever follows the message in the buffer.
pub parse_msg-take_tokens :
    (k : Krpc) (ts : List Token) (rest : Bytes)
    → AreShort ts
    → length (print_tokens ts) < 2 ^ 32
    → k.bytes ≡ print_tokens ts ++ rest
    → parse_msg k (length (print_tokens ts))
      ≡ take_tokens ts (initial (record k { status = bd_a_no_error }))
unfolding parse_msg xdecode
parse_msg-take_tokens k ts rest h small got =
    loop-take_tokens ts (suc (length (print_tokens ts))) (length (print_tokens ts)) rest
      (initial (record k { status = bd_a_no_error })) small (omega (arith, length-print_tokens ts))
      h got (omega arith)
