-- ===== src/Krpc/Tokens/Offsets.antt =====
-- cht/krpc.cpp: where the id, the argument and the tok of a query stand in its bytes.
use dht_cpp.Base.{
  ℕ, ◌+◌, ◌≤◌, ◌<◌, ◌%◌, ◌++◌, Bytes, false, take, drop, slice, Option, some, length, ◌==◌,
  each_byte, each_two, ok, ◌≡◌, refl, subst, ap, ◌∙◌, arith,
}
use mathlib.Core.List.{append_assoc}
use dht_cpp.Dht.{Nih, IsNih, nih_len}
use dht_cpp.Krpc.Flags.{maxlen_tok}
use dht_cpp.Krpc.Reply.{k_reply}
use dht_cpp.Krpc.State.{Krpc, bytes_at}
use dht_cpp.Krpc.Tokens.Strings.{take-append}
use dht_cpp.Krpc.Tokens.Numbers.{drop_more}
use dht_cpp.Krpc.Tokens.Queries.{
  Question, alive, nodes_near, peers_for, IsQuestion, query_end, text_of, tok_offset,
}
use dht_cpp.Krpc.Tokens.{print_tokens, prefix}
use dht_cpp.Msg.{decimal}
use dht_cpp.Stat.{index, bd_a_no_error}

pub slice_at :
    (pos len : ℕ) (bytes s rest : Bytes)
    → drop pos bytes ≡ s ++ rest
    → length s ≡ len
    → slice bytes pos len ≡ s
slice_at pos len bytes s rest e h =
    subst (λ n. slice bytes pos n ≡ s) h (ap (take (length s)) e ∙ take-append s rest)

-- The rest of a query from the length of the tok on.
abbrev pub tok_part : Bytes → Option Bytes → Bytes → Bytes
tok_part tok v rest = (((prefix (length tok) ++ tok) ++ print_tokens (query_end v)) ++ rest)

pub tok_at :
    (pos : ℕ) (bytes tok rest : Bytes) (v : Option Bytes)
    → drop pos bytes ≡ tok_part tok v rest
    → slice bytes (pos + length (prefix (length tok))) (length tok) ≡ tok
tok_at pos bytes tok rest v e =
    let p = prefix (length tok) in
    let tail = print_tokens (query_end v) in
    let split = append_assoc (p ++ tok) tail rest ∙ append_assoc p tok (tail ++ rest) in
    slice_at (pos + length p) (length tok) bytes tok (tail ++ rest)
      (drop_more pos bytes p (e ∙ split)) refl

-- Where the parts of a query stand.
module _ (tok rest : Bytes) (v : Option Bytes) where
  abbrev pub ArgumentAt : Question → Nih → Type 0
  ArgumentAt alive id = Unit
  ArgumentAt (nodes_near x) id =
      (more : Bytes) × (drop 43 (text_of (nodes_near x) id tok v ++ rest) ≡ x ++ more)
  ArgumentAt (peers_for x) id =
      (more : Bytes) × (drop 46 (text_of (peers_for x) id tok v ++ rest) ≡ x ++ more)

  abbrev pub IdAt : Question → Nih → Type 0
  IdAt q id = (more : Bytes) × (drop 12 (text_of q id tok v ++ rest) ≡ id ++ more)

  abbrev pub TokAt : Question → Nih → Type 0
  TokAt q id = drop (tok_offset q) (text_of q id tok v ++ rest) ≡ tok_part tok v rest

  abbrev pub Parts : Question → Nih → Type 0
  Parts q id = IdAt q id × TokAt q id × ArgumentAt q id

  pub text_of-Parts : (q : Question) (id : Nih) → IsNih id → IsQuestion q → Parts q id
  unfolding decimal
  text_of-Parts alive id h h' =
      each_byte nih_len (Parts alive)
        (λ a b c d e f g h i j k l m n o p q r s t. ((_, refl), refl, tt)) id h
  text_of-Parts (nodes_near x) id h h' =
      each_two nih_len (λ y z. Parts (nodes_near z) y)
        (λ a b c d e f g h i j k l m n o p q r s t a' b' c' d' e' f' g' h' i' j' k' l' m' n' o' p'
            q' r' s' t'.
          ((_, refl), refl, (_, refl)))
        id x h h'
  text_of-Parts (peers_for x) id h h' =
      each_two nih_len (λ y z. Parts (peers_for z) y)
        (λ a b c d e f g h i j k l m n o p q r s t a' b' c' d' e' f' g' h' i' j' k' l' m' n' o' p'
            q' r' s' t'.
          ((_, refl), refl, (_, refl)))
        id x h h'

-- A reply can be made of a message with an id and a tok.
pub reply_of :
    (r : Krpc) (p p' : ℕ) (id tok : Bytes)
    → r.nid ≡ some p
    → r.tok ≡ some p'
    → r.tok_len ≡ length tok
    → r.status ≡ bd_a_no_error
    → 0 < length tok
    → length tok ≤ maxlen_tok
    → slice r.bytes p nih_len ≡ id
    → slice r.bytes p' (length tok) ≡ tok
    → k_reply r ≡ ok (record { nid = id; tok_len = length tok; tok = tok })
unfolding k_reply bytes_at index
reply_of r p p' id tok a b c s some_tok short e e' =
    let len : length tok % 0x100 ≡ length tok = omega arith in
    let more : length tok == 0 ≡ false = ground arith in rw (c, a, b, s, len, more, e, e') refl
