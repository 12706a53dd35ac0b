-- ===== src/Krpc/Tokens/Accepts.antt =====
-- cht/krpc.cpp: any query in the order of its keys is accepted, and a reply can be made of it.
use dht_cpp.Base.{
  ℕ, ◌+◌, ◌≤◌, ◌<◌, ◌++◌, Bytes, drop, Option, none, some, length, ok, ◌≡◌, refl, ap, ◌∙◌,
}
use dht_cpp.Dht.{Nih, IsNih, nih_len}
use dht_cpp.Krpc.Decode.{returned, parse_msg}
use dht_cpp.Krpc.Flags.{maxlen, maxlen_tok}
use dht_cpp.Krpc.Reply.{k_reply}
use dht_cpp.Krpc.State.{Krpc, clear, bytes_at}
use dht_cpp.Krpc.Tokens.Fits.{NumsShort, lexed}
use dht_cpp.Krpc.Tokens.Offsets.{slice_at, tok_at, ArgumentAt, text_of-Parts, reply_of}
use dht_cpp.Krpc.Tokens.Queries.{
  Question, alive, nodes_near, peers_for, IsQuestion, method_of, tokens_of, text_of, query_end,
  tok_offset, result_of, tokens_of-accept,
}
use dht_cpp.Krpc.Tokens.{prefix}
use dht_cpp.Stat.{bd_a_no_error}

-- The message has the argument of the question.
abbrev pub Answers : Question → Krpc → Type 0
Answers alive r = Unit
Answers (nodes_near x) r = bytes_at r r.target nih_len ≡ ok x
Answers (peers_for x) r = bytes_at r r.ih nih_len ≡ ok x

-- The message of `n` bytes is accepted as the question, and a reply to it goes to `id` with `tok`.
pub record Accepts (k : Krpc) (n : ℕ) (q : Question) (id : Nih) (tok : Bytes) (r : Krpc)
    : Type 0 where
  pub returns : parse_msg k n ≡ returned r
  pub status : r.status ≡ bd_a_no_error
  pub kind : r.method ≡ method_of q
  pub argument : Answers q r
  pub reply : k_reply r ≡ ok (record { nid = id; tok_len = length tok; tok = tok })

query_end-NumsShort : (v : Option Bytes) → NumsShort (query_end v)
query_end-NumsShort none = tt
query_end-NumsShort (some v) = tt

tokens_of-NumsShort :
    (q : Question) (id : Nih) (tok : Bytes) (v : Option Bytes) → NumsShort (tokens_of q id tok v)
tokens_of-NumsShort alive id tok v = query_end-NumsShort v
tokens_of-NumsShort (nodes_near x) id tok v = query_end-NumsShort v
tokens_of-NumsShort (peers_for x) id tok v = query_end-NumsShort v

result_bytes : (k : Krpc) (q : Question) (tok : Bytes) → (result_of k q tok).bytes ≡ k.bytes
unfolding clear
result_bytes k alive tok = refl
result_bytes k (nodes_near x) tok = refl
result_bytes k (peers_for x) tok = refl

result_nid : (k : Krpc) (q : Question) (tok : Bytes) → (result_of k q tok).nid ≡ some 12
result_nid k alive tok = refl
result_nid k (nodes_near x) tok = refl
result_nid k (peers_for x) tok = refl

result-Answers :
    (k : Krpc) (rest : Bytes) (q : Question) (id tok : Bytes) (v : Option Bytes)
    → IsQuestion q
    → k.bytes ≡ text_of q id tok v ++ rest
    → ArgumentAt tok rest v q id
    → Answers q (result_of k q tok)
unfolding clear bytes_at
result-Answers k rest alive id tok v h got here = tt
result-Answers k rest (nodes_near x) id tok v h got (more, here) =
    ap ok (slice_at 43 nih_len k.bytes x more (ap (drop 43) got ∙ here) h)
result-Answers k rest (peers_for x) id tok v h got (more, here) =
    ap ok (slice_at 46 nih_len k.bytes x more (ap (drop 46) got ∙ here) h)

-- A get_peers, find_node or ping query with its keys in order, from any node: with an id of 20 bytes, a
-- tok of 1 to `MAXLEN_TOK` bytes, the argument of 20 bytes where there is one, and with or without a
-- version. If it is shorter than `MAXLEN`, it is accepted as that query, with its argument, and a
-- reply to it goes to its id with its tok; the buffer stays as it is.
pub query-Accepts :
    (k : Krpc) (rest : Bytes) (q : Question) (id : Nih) (tok : Bytes) (v : Option Bytes)
    → IsNih id
    → IsQuestion q
    → 0 < length tok
    → length tok ≤ maxlen_tok
    → length (text_of q id tok v) < maxlen
    → k.bytes ≡ text_of q id tok v ++ rest
    → (r : Krpc) × Accepts (clear k) (length (text_of q id tok v)) q id tok r × (r.bytes ≡ k.bytes)
unfolding clear bytes_at
query-Accepts k rest q id tok v h h' some_tok short fits got =
    let ((more, id_here), tok_here, argument_here) = text_of-Parts tok rest v q id h h' in
    let place = λ (n : ℕ). ap (drop n) (result_bytes k q tok ∙ got) in
    let at = tok_offset q in
    (
      result_of k q tok,
      record {
        returns =
            lexed k rest (tokens_of q id tok v) (tokens_of-NumsShort q id tok v) fits got
            ∙ tokens_of-accept k q tok v id short h h';
        status = refl;
        kind = refl;
        argument = result-Answers k rest q id tok v h' got argument_here;
        reply =
            reply_of (result_of k q tok) 12 (at + length (prefix (length tok))) id tok
              (result_nid k q tok) refl refl refl some_tok short
              (slice_at 12 nih_len (result_of k q tok).bytes id more (place 12 ∙ id_here) h)
              (tok_at at (result_of k q tok).bytes tok rest v (place at ∙ tok_here));
      },
      result_bytes k q tok,
    )
