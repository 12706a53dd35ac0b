-- ===== src/Main/Answers/Packets.antt =====
-- cht/main.cpp: from the buffer that `cb_alloc` hands out to the answer.
use dht_cpp.Base.{
  ℕ, ◌≤◌, ◌<◌, true, false, List, [], ◌∷◌, ◌++◌, Bytes, length, Bool-cases, inl, inr, ◌==◌, Option,
  some, ok, ◌≡◌, refl, ap, arith,
}
use dht_cpp.Dht.{Nih, IsNih, Peerinfo}
use dht_cpp.Krpc.Flags.{maxlen, maxlen_tok}
use dht_cpp.Krpc.State.{Krpc, clear}
use dht_cpp.Krpc.Tokens.Queries.{Question, IsQuestion, text_of}
use dht_cpp.Main.Answers.Queries.{CanAnswer, Replies, cb_recv_msg-Replies}
use dht_cpp.Main.Receive.{bytes, is_mapped, map_insert, take_krpc, cb_alloc, cb_recv_msg}
use dht_cpp.Main.State.{Uv, Node}
use dht_cpp.Main.Steps.{deliver}
use dht_cpp.Spam.{spam_check_rx}

-- A buffer that is known, clear, and of a node that can answer.
record IsReady (uv : Uv) (saddr : Peerinfo) (base : ℕ) (s : Node) : Type 0 where
  cleared : s.krpcs base ≡ clear (s.krpcs base)
  able : CanAnswer uv saddr s

take_krpc-IsReady :
    (uv : Uv) (saddr : Peerinfo) (pool : List ℕ) (s : Node)
    → CanAnswer uv saddr s
    → IsReady uv saddr (take_krpc pool s).0 (take_krpc pool s).1
unfolding take_krpc clear spam_check_rx
take_krpc-IsReady uv saddr [] s h =
    let itself : s.n_krpcs == s.n_krpcs ≡ true = ground arith in
    record {
      cleared = rw itself refl;
      able = record {
        valid = h.valid;
        passes = h.passes;
        takes = h.takes;
        bufs = h.bufs;
        rt = h.rt;
      };
    }
take_krpc-IsReady uv saddr (krpc ∷ pool) s h =
    let itself : krpc == krpc ≡ true = ground arith in
    record {
      cleared = rw itself refl;
      able = record {
        valid = h.valid;
        passes = h.passes;
        takes = h.takes;
        bufs = h.bufs;
        rt = h.rt;
      };
    }

map_insert-is_mapped :
    (uv : Uv) (saddr : Peerinfo) (base : ℕ) (s : Node)
    → IsReady uv saddr base s
    → (is_mapped base (map_insert base s).krpc_map ≡ true)
      × IsReady uv saddr base (map_insert base s)
unfolding map_insert is_mapped
map_insert-is_mapped uv saddr base s h = elim (Bool-cases (is_mapped base s.krpc_map)) [
  | inl known ↦ rw known (known, h)
  | inr new ↦
      let itself : base == base ≡ true = ground arith in
      rw (new, itself)
        (
          refl,
          record {
            cleared = h.cleared;
            able = record {
              valid = h.able.valid;
              passes = h.able.passes;
              takes = h.able.takes;
              bufs = h.able.bufs;
              rt = h.able.rt;
            };
          },
        )
]

-- The socket writes the packet into the buffer.
deliver-IsReady :
    (uv : Uv) (saddr : Peerinfo) (base : ℕ) (contents : Bytes) (s : Node)
    → IsReady uv saddr base s
    → IsReady uv saddr base (deliver base contents s)
      × (((deliver base contents s).krpcs base).bytes ≡ contents)
unfolding clear
deliver-IsReady uv saddr base contents s h =
    let itself : base == base ≡ true = ground arith in
    (
      record {
        cleared = rw itself (ap (λ (k : Krpc). record k { bytes = contents }) h.cleared);
        able = record {
          valid = h.able.valid;
          passes = h.able.passes;
          takes = h.able.takes;
          bufs = h.able.bufs;
          rt = h.able.rt;
        };
      },
      rw itself refl,
    )

-- The buffer that `cb_alloc` hands out for packets of up to `size` bytes.
abbrev pub base_of : Node → ℕ
base_of s = (take_krpc s.recv_buf_pool s).0

-- The state in which a packet has arrived in this buffer.
abbrev pub arrived : ℕ → Bytes → Node → Node
arrived size contents s = deliver (base_of s) contents (cb_alloc size s).1

cb_alloc-IsReady :
    (uv : Uv) (saddr : Peerinfo) (size : ℕ) (s : Node)
    → 0 < size
    → CanAnswer uv saddr s
    → ((cb_alloc size s).0 ≡ some (base_of s))
      × (is_mapped (base_of s) (cb_alloc size s).1.krpc_map ≡ true)
      × IsReady uv saddr (base_of s) (cb_alloc size s).1
unfolding cb_alloc
cb_alloc-IsReady uv saddr size s some_size h =
    let asked : size == 0 ≡ false = ground arith in
    let (base, s₁) = take_krpc s.recv_buf_pool s in
    let (known, ready) =
      map_insert-is_mapped uv saddr base s₁ (take_krpc-IsReady uv saddr s.recv_buf_pool s h) in
    rw asked (refl, known, ready)

-- From the buffer to the answer: `cb_alloc` hands out a buffer for packets of a size that is not 0,
-- the socket writes a ping, find_node or get_peers query of another node into it, and `cb_recv_msg`
-- answers it, in any state that can answer the sender. The query has its keys in order, ids of 20
-- bytes, a tok of 1 to `MAXLEN_TOK` bytes, a version or none, and is shorter than `MAXLEN`; what
-- stands behind it in the buffer does not matter. `cb_recv_msg` does not crash; the newest packet goes
-- to the sender, and its bytes are the reply, from the id under which the node answers for the
-- sender's, with the tok that the sender chose, and for find_node with the node that the routing table
-- has for the target. Nothing else is sent, but for a
-- get_peers query one packet at most, which is a get_peers query for the same info hash. A state can
-- answer if the address of the sender is valid and the spam filter lets it pass, libuv takes every
-- packet, and the buffers for sending and the cells have their sizes.
pub cb_alloc-cb_recv_msg-Replies :
    (uv : Uv) (size : ℕ) (rest : Bytes) (q : Question) (id : Nih) (tok : Bytes) (v : Option Bytes)
    (saddr : Peerinfo) (s : Node)
    → IsNih id
    → IsQuestion q
    → 0 < length tok
    → length tok ≤ maxlen_tok
    → length (text_of q id tok v) < maxlen
    → 0 < size
    → CanAnswer uv saddr s
    → ((cb_alloc size s).0 ≡ some (base_of s))
      × ((s' : Node) × (cb_recv_msg uv
              (base_of s)
              (bytes (length (text_of q id tok v)))
              (some saddr)
              (arrived size (text_of q id tok v ++ rest) s)
            ≡ ok s')
          × Replies q id tok saddr (arrived size (text_of q id tok v ++ rest) s) s')
cb_alloc-cb_recv_msg-Replies uv size rest q id tok v saddr s h h' some_tok short fits some_size
      good =
    let (handed, known, ready) = cb_alloc-IsReady uv saddr size s some_size good in
    let (there, got) =
      deliver-IsReady uv saddr (base_of s) (text_of q id tok v ++ rest) (cb_alloc size s).1 ready in
    (
      handed,
      cb_recv_msg-Replies uv (base_of s) rest q id tok v saddr _ h h' some_tok short fits there.able
          known there.cleared got,
    )
