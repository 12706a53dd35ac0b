-- ===== src/Krpc/Tokens/Refusals.antt =====
-- cht/krpc.cpp: messages that are refused, whatever they go on with.
use dht_cpp.Base.{
  ℕ, some, bit_or, ◌+◌, ◌≤◌, ◌<◌, ◌^◌, true, false, List, ◌∷◌, ◌++◌, Bytes, codes, length, ltb,
  each_two, ◌≡◌, refl, ◌∙◌, arith,
}
use dht_cpp.Dht.{Nih, IsNih, nih_len}
use dht_cpp.Krpc.Decode.{returned, parse_msg}
use dht_cpp.Krpc.Flags.{
  maxlen, maxlen_tok, maxlen_token, okey_a, ikey_nid, ikey_ih, ikey_port, ikey_token, q_gp, q_ap,
}
use dht_cpp.Krpc.State.{Krpc, xd_ikey, xd_ival, Decoder, continue, return, clear}
use dht_cpp.Krpc.Tokens.{
  Token, open_dict, open_list, close, num, str, prefix, print_token, print_tokens, take_token,
  take_tokens,
}
use dht_cpp.Krpc.Tokens.Fits.{NumsShort, lexed}
use dht_cpp.Krpc.Tokens.Queries.{
  Question, alive, nodes_near, peers_for, IsQuestion, front_of, start, from_node, reached,
  front_of-reached, take_tokens-continue,
}
use dht_cpp.Msg.{decimal}
use dht_cpp.Stat.{Stat, index, bd_z_tok_too_long, bd_z_unknown_query, bd_z_unexpected_list}

-- A query with a tok that is too long; an announcement of a port for an info hash, with a token; and
-- an error, which starts with a list.
pub data Refusal : Type 0 where
  long_tok : Question → Nih → Bytes → Refusal
  announcement : Nih → Nih → ℕ → Bytes → Refusal
  failure : Refusal

abbrev pub IsRefusal : Refusal → Type 0
IsRefusal (long_tok q id tok) = IsNih id × IsQuestion q × (maxlen_tok < length tok)
IsRefusal (announcement id x port token) =
    IsNih id × IsNih x × (port < 2 ^ 16) × (length token ≤ maxlen_token)
IsRefusal failure = Unit

abbrev pub reason : Refusal → Stat
reason (long_tok q id tok) = bd_z_tok_too_long
reason (announcement id x port token) = bd_z_unknown_query
reason failure = bd_z_unexpected_list

-- From the token of an announcement to the name of the query.
abbrev token_part : Bytes → List Token → List Token
token_part token ts = str token ∷ close ∷ str (codes "q") ∷ str (codes "announce_peer") ∷ ts

-- The message, which goes on with `ts`.
abbrev pub message : Refusal → List Token → List Token
message (long_tok q id tok) ts = front_of q id (str tok ∷ ts)
message (announcement id x port token) ts =
    open_dict
    ∷ str (codes "a")
    ∷ open_dict
    ∷ str (codes "id")
    ∷ str id
    ∷ str (codes "info_hash")
    ∷ str x
    ∷ str (codes "port")
    ∷ num port
    ∷ str (codes "token")
    ∷ token_part token ts
message failure ts = open_dict ∷ str (codes "e") ∷ open_list ∷ ts

take_tokens-return :
    (t : Token) (ts : List Token) (d : Decoder) {r : Krpc}
    → take_token t d ≡ return r
    → take_tokens (t ∷ ts) d ≡ returned r
unfolding take_tokens
take_tokens-return t ts d e = rw (e, take_tokens) refl

message-NumsShort :
    (f : Refusal) (ts : List Token) → IsRefusal f → NumsShort ts → NumsShort (message f ts)
message-NumsShort (long_tok alive id tok) ts h nums = nums
message-NumsShort (long_tok (nodes_near x) id tok) ts h nums = nums
message-NumsShort (long_tok (peers_for x) id tok) ts h nums = nums
message-NumsShort (announcement id x port token) ts (h, h', low, short) nums = (omega arith, nums)
message-NumsShort failure ts h nums = nums

module _ (k : Krpc) (ts : List Token) where
  abbrev Refuses : Refusal → Krpc → Type 0
  Refuses f r = take_tokens (message f ts) (start k) ≡ returned r

  long_tok-Refuses :
      (q : Question) (id : Nih) (tok : Bytes)
      → IsNih id
      → IsQuestion q
      → maxlen_tok < length tok
      → Refuses (long_tok q id tok) (record (reached k q).krpc { status = bd_z_tok_too_long })
  unfolding take_token
  long_tok-Refuses q id tok h h' long =
      let over : ltb maxlen_tok (length tok) ≡ true = ground arith in
      front_of-reached k (str tok ∷ ts) q id h h'
      ∙ take_tokens-return (str tok) ts (reached k q) (rw over refl)

  -- In front of the token of an announcement.
  abbrev announced : ℕ → Decoder
  announced port = record {
    krpc = record (from_node k) { ih = some 46 };
    cur_pos = 72 + length (print_token (num port)) + 2 + 5;
    xd_state = xd_ival;
    hist = record {
      current_key = ikey_token;
      seen_keys = bit_or okey_a (bit_or ikey_nid (bit_or ikey_ih (bit_or ikey_port ikey_token)));
      msg_kind = bit_or q_gp q_ap;
    };
  }

  abbrev AnnouncesAt : ℕ → Bytes → Nih → Nih → Type 0
  AnnouncesAt port token id x =
      take_tokens (message (announcement id x port token) ts) (start k)
      ≡ take_tokens (token_part token ts) (announced port)

  announcement-announced :
      (port : ℕ) (token : Bytes) (id x : Nih) → IsNih id → IsNih x → AnnouncesAt port token id x
  unfolding take_tokens clear index decimal
  announcement-announced port token =
      each_two nih_len (AnnouncesAt port token)
        λ a b c d e f g h i j k' l m n o p q r s t a' b' c' d' e' f' g' h' i' j' k'' l' m' n' o' p'
            q' r' s' t'.
          refl

  -- Behind the token of an announcement.
  abbrev token_read : ℕ → Bytes → Decoder
  token_read port token = record (announced port) {
    krpc = record (announced port).krpc {
      token_len = length token;
      token = some ((announced port).cur_pos + length (prefix (length token)));
    };
    cur_pos = (announced port).cur_pos + length (prefix (length token)) + length token;
    xd_state = xd_ikey;
  }

  take_token-announced :
      (port : ℕ) (token : Bytes)
      → length token ≤ maxlen_token
      → take_token (str token) (announced port) ≡ continue (token_read port token)
  unfolding take_token clear
  take_token-announced port token short =
      let fits : ltb maxlen_token (length token) ≡ false = ground arith in rw fits refl

  announcement-Refuses :
      (id x : Nih) (port : ℕ) (token : Bytes)
      → IsNih id
      → IsNih x
      → length token ≤ maxlen_token
      → Refuses
          (announcement id x port token)
          (record (token_read port token).krpc { status = bd_z_unknown_query })
  unfolding take_tokens clear index decimal
  announcement-Refuses id x port token h h' short =
      announcement-announced port token id x h h'
      ∙ take_tokens-continue (str token)
          (close ∷ str (codes "q") ∷ str (codes "announce_peer") ∷ ts) (announced port)
          (take_token-announced port token short)

  failure-Refuses : Refuses failure (record (start k).krpc { status = bd_z_unexpected_list })
  unfolding take_tokens clear index decimal
  failure-Refuses = refl

  Refuses-reason :
      (f : Refusal)
      → IsRefusal f
      → (r : Krpc) × Refuses f r × (r.status ≡ reason f) × (r.bytes ≡ k.bytes)
  unfolding clear
  Refuses-reason (long_tok alive id tok) (h, h', long) =
      (_, long_tok-Refuses alive id tok h h' long, refl, refl)
  Refuses-reason (long_tok (nodes_near x) id tok) (h, h', long) =
      (_, long_tok-Refuses (nodes_near x) id tok h h' long, refl, refl)
  Refuses-reason (long_tok (peers_for x) id tok) (h, h', long) =
      (_, long_tok-Refuses (peers_for x) id tok h h' long, refl, refl)
  Refuses-reason (announcement id x port token) (h, h', low, short) =
      (_, announcement-Refuses id x port token h h' short, refl, refl)
  Refuses-reason failure h = (_, failure-Refuses, refl, refl)

-- The bytes of the message.
abbrev pub bytes_of : Refusal → List Token → Bytes
bytes_of f ts = print_tokens (message f ts)

-- The message is refused for its reason, and the buffer stays as it is.
pub parse_msg-refuse :
    (k : Krpc) (rest : Bytes) (f : Refusal) (ts : List Token)
    → IsRefusal f
    → NumsShort ts
    → length (bytes_of f ts) < maxlen
    → k.bytes ≡ bytes_of f ts ++ rest
    → (r : Krpc) × (parse_msg (clear k) (length (bytes_of f ts)) ≡ returned r)
      × (r.status ≡ reason f)
      × (r.bytes ≡ k.bytes)
parse_msg-refuse k rest f ts h nums fits got =
    let (r, refused, why, same) = Refuses-reason k ts f h in
    (r, lexed k rest (message f ts) (message-NumsShort f ts h nums) fits got ∙ refused, why, same)
