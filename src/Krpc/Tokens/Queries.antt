-- ===== src/Krpc/Tokens/Queries.antt =====
-- cht/krpc.cpp: the queries of other nodes, with any tok, and with or without a version.
use dht_cpp.Base.{
  ℕ, ◌+◌, ◌≤◌, false, List, [], ◌∷◌, ◌++◌, Bytes, codes, Option, none, some, length, ltb, each_byte,
  each_two, ◌≡◌, refl, ◌∙◌, arith,
}
use dht_cpp.Dht.{Nih, IsNih, nih_len}
use dht_cpp.Krpc.Decode.{returned, initial}
use dht_cpp.Krpc.Flags.{Method, q_pg, q_fn, q_gp, Key, maxlen_tok, okey_t}
use dht_cpp.Krpc.State.{Krpc, xd_okey, xd_oval, Decoder, continue, clear}
use dht_cpp.Krpc.Tokens.{
  Token, open_dict, close, str, print_tokens, prefix, take_token, take_tokens,
}
use dht_cpp.Krpc.Validate.{validate}
use dht_cpp.Msg.{decimal}
use dht_cpp.Stat.{index, bd_a_no_error}

-- A version, as most nodes send it, or none.
abbrev pub version : Option Bytes → List Token
version none = []
version (some v) = str (codes "v") ∷ str v ∷ []

-- What stands behind the tok of a query.
abbrev pub query_end : Option Bytes → List Token
query_end v = version v ++ str (codes "y") ∷ str (codes "q") ∷ close ∷ []

-- A query in the order of its keys, with the arguments behind the id, and `ts` from its tok on.
abbrev pub query_front : Nih → List Token → Bytes → List Token → List Token
query_front id args name ts =
    open_dict
    ∷ str (codes "a")
    ∷ open_dict
    ∷ str (codes "id")
    ∷ str id
    ∷ (args ++ (close ∷ str (codes "q") ∷ str name ∷ str (codes "t") ∷ ts))

-- What a query asks for.
pub data Question : Type 0 where
  alive : Question
  nodes_near peers_for : Nih → Question

abbrev pub IsQuestion : Question → Type 0
IsQuestion alive = Unit
IsQuestion (nodes_near x) = IsNih x
IsQuestion (peers_for x) = IsNih x

abbrev pub method_of : Question → Method
method_of alive = q_pg
method_of (nodes_near x) = q_fn
method_of (peers_for x) = q_gp

abbrev pub name_of : Question → Bytes
name_of alive = codes "ping"
name_of (nodes_near x) = codes "find_node"
name_of (peers_for x) = codes "get_peers"

abbrev pub arguments_of : Question → List Token
arguments_of alive = []
arguments_of (nodes_near x) = str (codes "target") ∷ str x ∷ []
arguments_of (peers_for x) = str (codes "info_hash") ∷ str x ∷ []

abbrev pub front_of : Question → Nih → List Token → List Token
front_of q id ts = query_front id (arguments_of q) (name_of q) ts

abbrev pub tokens_of : Question → Nih → Bytes → Option Bytes → List Token
tokens_of q id tok v = front_of q id (str tok ∷ query_end v)

-- The bytes of a query.
abbrev pub text_of : Question → Nih → Bytes → Option Bytes → Bytes
text_of q id tok v = print_tokens (tokens_of q id tok v)

pub take_tokens-continue :
    (t : Token) (ts : List Token) (d : Decoder) {d' : Decoder}
    → take_token t d ≡ continue d'
    → take_tokens (t ∷ ts) d ≡ take_tokens ts d'
unfolding take_tokens
take_tokens-continue t ts d e = rw (e, take_tokens) refl

-- In front of the tok of a query, and behind it.
module _ (k : Krpc) (m : Method) (seen at : ℕ) where
  abbrev pub before : Decoder
  before = record {
    krpc = k;
    cur_pos = at;
    xd_state = xd_oval;
    hist = record { current_key = okey_t; seen_keys = seen; msg_kind = m };
  }

  abbrev pub stored : Bytes → Krpc
  stored tok = record k {
    status = bd_a_no_error;
    tok_len = length tok;
    tok = some (at + length (prefix (length tok)));
  }

  take_tok :
      (tok : Bytes)
      → length tok ≤ maxlen_tok
      → take_token (str tok) before
        ≡ continue (record before {
          krpc = stored tok;
          cur_pos = at + length (prefix (length tok)) + length tok;
          xd_state = xd_okey;
        })
  unfolding take_token
  take_tok tok short = let fits : ltb maxlen_tok (length tok) ≡ false = ground arith in rw fits refl

  abbrev after : Bytes → Decoder
  after tok = record before {
    krpc = stored tok;
    cur_pos = at + length (prefix (length tok)) + length tok;
    xd_state = xd_okey;
  }

  -- The tok is stored on the way to the end of the query.
  through :
      (ts : List Token) (d : Decoder) (tok : Bytes) (v : Option Bytes) (r : Krpc)
      → length tok ≤ maxlen_tok
      → take_tokens ts d ≡ take_tokens (str tok ∷ query_end v) before
      → take_tokens (query_end v) (after tok) ≡ returned r
      → take_tokens ts d ≡ returned r
  through ts d tok v r short first last =
      first ∙ take_tokens-continue (str tok) (query_end v) before (take_tok tok short) ∙ last

-- What has been decoded in front of the tok: the argument, the keys, and the offset.
abbrev pub found : Question → Krpc → Krpc
found alive k = k
found (nodes_near x) k = record k { target = some 43 }
found (peers_for x) k = record k { ih = some 46 }

abbrev pub seen_of : Question → Key
seen_of alive = 3600
seen_of (nodes_near x) = 3632
seen_of (peers_for x) = 3608

abbrev pub tok_offset : Question → ℕ
tok_offset alive = 45
tok_offset (nodes_near x) = 81
tok_offset (peers_for x) = 84

module _ (k : Krpc) where
  abbrev pub start : Decoder
  start = initial (record (clear k) { status = bd_a_no_error })

  abbrev pub from_node : Krpc
  from_node = record (clear k) { status = bd_a_no_error; nid = some 12 }

  -- In front of the tok.
  abbrev pub reached : Question → Decoder
  reached q = before (found q from_node) (method_of q) (seen_of q) (tok_offset q)

  module _ (ts : List Token) where
    abbrev Leads : Question → Nih → Type 0
    Leads q id = take_tokens (front_of q id ts) start ≡ take_tokens ts (reached q)

    pub front_of-reached : (q : Question) (id : Nih) → IsNih id → IsQuestion q → Leads q id
    unfolding take_tokens clear index decimal
    front_of-reached alive id h h' =
        each_byte nih_len (Leads alive) (λ a b c d e f g h i j k' l m n o p q r s t. refl) id h
    front_of-reached (nodes_near x) id h h' =
        each_two nih_len (λ y z. Leads (nodes_near z) y)
          (λ a b c d e f g h i j k' l m n o p q r s t a' b' c' d' e' f' g' h' i' j' k'' l' m' n' o'
              p' q' r' s' t'.
            refl)
          id x h h'
    front_of-reached (peers_for x) id h h' =
        each_two nih_len (λ y z. Leads (peers_for z) y)
          (λ a b c d e f g h i j k' l m n o p q r s t a' b' c' d' e' f' g' h' i' j' k'' l' m' n' o'
              p' q' r' s' t'.
            refl)
          id x h h'

  module _ (q : Question) (tok : Bytes) where
    abbrev stored_of : Krpc
    stored_of = stored (found q from_node) (method_of q) (seen_of q) (tok_offset q) tok

    abbrev pub result_of : Krpc
    result_of = record stored_of { method = method_of q }

    abbrev Ends : Option Bytes → Type 0
    Ends v =
        take_tokens (query_end v)
          (after (found q from_node) (method_of q) (seen_of q) (tok_offset q) tok)
        ≡ returned result_of

  query_end-accept : (q : Question) (tok : Bytes) (v : Option Bytes) → Ends q tok v
  unfolding take_tokens validate clear index decimal
  query_end-accept alive tok none = refl
  query_end-accept alive tok (some v) = refl
  query_end-accept (nodes_near x) tok none = refl
  query_end-accept (nodes_near x) tok (some v) = refl
  query_end-accept (peers_for x) tok none = refl
  query_end-accept (peers_for x) tok (some v) = refl

  pub tokens_of-accept :
      (q : Question) (tok : Bytes) (v : Option Bytes) (id : Nih)
      → length tok ≤ maxlen_tok
      → IsNih id
      → IsQuestion q
      → take_tokens (tokens_of q id tok v) start ≡ returned (result_of q tok)
  tokens_of-accept q tok v id short h h' =
      through (found q from_node) (method_of q) (seen_of q) (tok_offset q) (tokens_of q id tok v)
        start tok v (result_of q tok) short (front_of-reached (str tok ∷ query_end v) q id h h')
        (query_end-accept q tok v)
