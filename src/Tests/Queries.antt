-- ===== src/Tests/Queries.antt =====
-- Queries of other nodes at concrete texts.
use dht_cpp.Base.{
  ◌≡◌, refl, arith, false, [], ◌∷◌, ◌++◌, ◌-◌, ◌<◌, Bytes, codes, replicate, some, ok, length, List,
}
use dht_cpp.Krpc.Decode.{initial, parse_msg}
use dht_cpp.Krpc.Flags.{maxlen}
use dht_cpp.Krpc.State.{Krpc, clear}
use dht_cpp.Krpc.Tokens.Accepts.{Accepts, query-Accepts}
use dht_cpp.Krpc.Tokens.Queries.{Question, peers_for, text_of}
use dht_cpp.Krpc.Tokens.Lexing.{parse_msg-take_tokens}
use dht_cpp.Krpc.Tokens.{Token, open_dict, close, num, str, print_tokens, take_tokens}
use dht_cpp.Msg.{decimal}
use dht_cpp.Krpc.Tokens.Refusals.{Refusal, announcement, bytes_of}
use dht_cpp.Server.Answers.Queries.{Replies, handle_recv-Replies}
use dht_cpp.Server.Answers.Refusals.{Drops, handle_recv-Drops}
use dht_cpp.Server.Invariant.{IsServer}
use dht_cpp.Server.Receive.{handle_recv}
use dht_cpp.Server.State.{Server, Endpoint}
use dht_cpp.Spam.Buckets.{tokens}
use dht_cpp.Spam.{find, max_rx}
use dht_cpp.Stat.{bd_a_no_error, bd_z_unknown_query}
use dht_cpp.Tests.Samples.{
  some_id, other_id, blank, no_counts, no_pursuits, no_contacts, sevens, send_buf,
}

-- A ping with a number in it, and without a tok.
abbrev numbered : List Token
numbered =
    open_dict
    ∷ str (codes "a")
    ∷ open_dict
    ∷ str (codes "id")
    ∷ str some_id
    ∷ str (codes "port")
    ∷ num 6881
    ∷ close
    ∷ str (codes "q")
    ∷ str (codes "ping")
    ∷ close
    ∷ []

abbrev numbered_krpc : Krpc
numbered_krpc = blank (print_tokens numbered)

parse_msg-take_tokens_example :
    parse_msg numbered_krpc (length (print_tokens numbered))
    ≡ take_tokens numbered (initial (record numbered_krpc { status = bd_a_no_error }))
unfolding decimal
parse_msg-take_tokens_example =
    parse_msg-take_tokens numbered_krpc numbered [] (omega arith) (omega arith) refl

abbrev question : Question
question = peers_for other_id

-- With a tok of two bytes and a version.
abbrev text : Bytes
text = text_of question some_id (codes "aa") (some (codes "UT12"))

abbrev zeros : Bytes
zeros = replicate (maxlen - length text) 0

query-Accepts_example :
    (r : Krpc) × Accepts
      (clear (blank (text ++ zeros)))
      (length text)
      question
      some_id
      (codes "aa")
      r
    × (r.bytes ≡ text ++ zeros)
unfolding decimal
query-Accepts_example =
    query-Accepts (blank (text ++ zeros)) zeros question some_id (codes "aa") (some (codes "UT12"))
      refl refl (omega arith) (omega arith) (omega arith) refl

abbrev asked_server : Server
asked_server = record {
  krpc = blank (text ++ zeros);
  tables = record { g_rx_spamtable = []; g_pg_spamtable = []; getpeers_spamtable = [] };
  g_ifl_buf = no_pursuits.g_ifl_buf;
  cells = no_contacts.cells;
  counters = no_counts;
  world = sevens;
  send_bufs = [];
  garbage = send_buf;
  in_flight = [];
}

asked_server-IsServer : IsServer asked_server
unfolding decimal
asked_server-IsServer = record {
  bytes = refl;
  tables = record { rx = tt; pg = tt; gp = tt };
  gpm = λ i. (omega arith, omega arith);
  rt = λ i. refl;
  send_bufs = tt;
  garbage = refl;
  in_flight = tt;
}

abbrev asking : Endpoint
asking = record { addr = 0x01020304; port = 6881 }

asking_left : 0 < tokens max_rx asking.addr asked_server.tables.g_rx_spamtable
unfolding find
asking_left = omega arith

handle_recv-Replies_example :
    (s' : Server) × (handle_recv false (length text) asking asked_server ≡ ok s')
    × Replies question some_id (codes "aa") asking asked_server s'
unfolding decimal
handle_recv-Replies_example =
    handle_recv-Replies zeros question some_id (codes "aa") (some (codes "UT12")) asking
      asked_server refl refl (omega arith) (omega arith) (omega arith) asked_server-IsServer
      asking_left refl

-- An announcement, and what follows its name.
abbrev announced : Refusal
announced = announcement some_id other_id 6881 (codes "secret")

abbrev tail : List Token
tail = str (codes "t") ∷ str (codes "aa") ∷ str (codes "y") ∷ str (codes "q") ∷ close ∷ []

abbrev announcing_server : Server
announcing_server =
    let text = bytes_of announced tail in
    record asked_server { krpc = blank (text ++ replicate (maxlen - length text) 0) }

handle_recv-Drops_example :
    (s' : Server) × (handle_recv false (length (bytes_of announced tail)) asking announcing_server
      ≡ ok s')
    × Drops asking bd_z_unknown_query announcing_server s'
unfolding decimal
handle_recv-Drops_example =
    handle_recv-Drops (replicate (maxlen - length (bytes_of announced tail)) 0) announced tail
      asking announcing_server (refl, refl, omega arith, omega arith) tt (omega arith) (omega arith)
      refl
