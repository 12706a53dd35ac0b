-- ===== src/Krpc/Safety/Shape.antt =====
-- The invariant of the decoder's loop.
use dht_cpp.Base.{
  ℕ, ◌+◌, ◌*◌, ◌≤◌, ◌<◌, Option, none, some, ◌≡◌, refl, Crash, arith, Bool, true, false,
  if◌then◌else◌,
}
use dht_cpp.Dht.{nih_len, peerinfo_len, pnode_len}
use dht_cpp.Krpc.Flags.{maxlen_tok, maxlen_token, maxlen_ap_name, max_peers, max_nodes}
use dht_cpp.Krpc.Decode.Values.{or_start}
use dht_cpp.Stat.{Stat}
use dht_cpp.Krpc.State.{Krpc, Decoder, Step, continue, return, crashed}

-- A pointer is null, or `len` bytes at it end by `pos`.
abbrev pub EndsBy : Option ℕ → ℕ → ℕ → Type 0
EndsBy none len pos = Unit
EndsBy (some p) len pos = p + len ≤ pos

-- As `EndsBy`, and a null pointer goes with the length zero.
abbrev pub Holds : Option ℕ → ℕ → ℕ → Type 0
Holds none len pos = len ≡ 0
Holds (some p) len pos = p + len ≤ pos

-- All that `k` points at ends by `pos`, and has a length within its limit.
pub record IsSafe (k : Krpc) (pos : ℕ) : Type 0 where
  pub nid : EndsBy k.nid nih_len pos
  pub ih : EndsBy k.ih nih_len pos
  pub target : EndsBy k.target nih_len pos
  pub tok : Holds k.tok k.tok_len pos
  pub tok_len : k.tok_len ≤ maxlen_tok
  pub nodes : Holds k.nodes (pnode_len * k.n_nodes) pos
  pub n_nodes : k.n_nodes ≤ max_nodes
  pub peers : Holds k.peers (peerinfo_len * k.n_peers) pos
  pub n_peers : k.n_peers ≤ max_peers
  pub token : Holds k.token k.token_len pos
  pub token_len : k.token_len ≤ maxlen_token
  pub ap_name : Holds k.ap_name k.ap_name_len pos
  pub ap_name_len : k.ap_name_len ≤ maxlen_ap_name

EndsBy-mono : (p : Option ℕ) (len a b : ℕ) → a ≤ b → EndsBy p len a → EndsBy p len b
EndsBy-mono none len a b h e = e
EndsBy-mono (some p) len a b h e = omega arith

Holds-mono : (p : Option ℕ) (len a b : ℕ) → a ≤ b → Holds p len a → Holds p len b
Holds-mono none len a b h e = e
Holds-mono (some p) len a b h e = omega arith

pub IsSafe-mono : (k : Krpc) (a b : ℕ) → a ≤ b → IsSafe k a → IsSafe k b
IsSafe-mono k a b h s = record {
  nid = EndsBy-mono k.nid nih_len a b h s.nid;
  ih = EndsBy-mono k.ih nih_len a b h s.ih;
  target = EndsBy-mono k.target nih_len a b h s.target;
  tok = Holds-mono k.tok k.tok_len a b h s.tok;
  tok_len = s.tok_len;
  nodes = Holds-mono k.nodes (pnode_len * k.n_nodes) a b h s.nodes;
  n_nodes = s.n_nodes;
  peers = Holds-mono k.peers (peerinfo_len * k.n_peers) a b h s.peers;
  n_peers = s.n_peers;
  token = Holds-mono k.token k.token_len a b h s.token;
  token_len = s.token_len;
  ap_name = Holds-mono k.ap_name k.ap_name_len a b h s.ap_name;
  ap_name_len = s.ap_name_len;
}

-- A round that starts at `pos` goes on behind it and within `n` bytes, or ends with a safe message,
-- or crashes.
pub data Advances (n pos : ℕ) : Step → Type 0 where
  continues :
      {d : Decoder}
      → IsSafe d.krpc d.cur_pos
      → pos < d.cur_pos
      → d.cur_pos ≤ n
      → Advances n pos (continue d)
  returns : {k : Krpc} → IsSafe k n → Advances n pos (return k)
  crashes : {c : Crash} → Advances n pos (crashed c)

pub if_Advances :
    {n pos : ℕ} (b : Bool) {x y : Step}
    → (b ≡ true → Advances n pos x)
    → (b ≡ false → Advances n pos y)
    → Advances n pos (if b then x else y)
if_Advances true f g = f refl
if_Advances false f g = g refl

-- Each store of `xdecode` keeps the invariant.
module _ (k : Krpc) (pos start len : ℕ) (safe : IsSafe k pos) where
  pub set_tok :
      start + len ≤ pos
      → len ≤ maxlen_tok
      → IsSafe (record k { tok_len = len; tok = some start }) pos
  set_tok h l = ground arith

  pub set_nodes :
      start + pnode_len * len ≤ pos
      → len ≤ max_nodes
      → IsSafe (record k { n_nodes = len; nodes = some start }) pos
  set_nodes h l = ground arith

  pub set_token :
      start + len ≤ pos
      → len ≤ maxlen_token
      → IsSafe (record k { token_len = len; token = some start }) pos
  set_token h l = ground arith

  pub set_ap_name :
      start + len ≤ pos
      → len ≤ maxlen_ap_name
      → IsSafe (record k { ap_name_len = len; ap_name = some start }) pos
  set_ap_name h l = ground arith

module _ (k : Krpc) (pos start : ℕ) (safe : IsSafe k pos) (fits : start + nih_len ≤ pos) where
  pub set_nid : IsSafe (record k { nid = some start }) pos
  set_nid = ground arith

  pub set_ih : IsSafe (record k { ih = some start }) pos
  set_ih = ground arith

  pub set_target : IsSafe (record k { target = some start }) pos
  set_target = ground arith

module _ (k : Krpc) (pos start : ℕ) (safe : IsSafe k start) where
  add_peer_Holds :
      start + peerinfo_len ≤ pos
      → Holds (or_start k.peers start) (peerinfo_len * (k.n_peers + 1)) pos
  add_peer_Holds h = go k.peers safe.peers
    where
      go :
          (p : Option ℕ)
          → Holds p (peerinfo_len * k.n_peers) start
          → Holds (or_start p start) (peerinfo_len * (k.n_peers + 1)) pos
      go none e = omega arith
      go (some p) e = omega arith

  pub add_peer :
      start + peerinfo_len ≤ pos
      → k.n_peers < max_peers
      → IsSafe (record k { n_peers = k.n_peers + 1; peers = or_start k.peers start }) pos
  add_peer h l = ground (arith, add_peer_Holds, IsSafe-mono k start pos)

-- The status, the method and the port are not part of the invariant.
pub set_status :
    (k : Krpc) (pos : ℕ) (s : Stat) → IsSafe k pos → IsSafe (record k { status = s }) pos
set_status k pos s safe = ground arith

pub set_method :
    (k : Krpc) (pos m : ℕ) (s : Stat)
    → IsSafe k pos
    → IsSafe (record k { method = m; status = s }) pos
set_method k pos m s safe = ground arith

pub set_port :
    (k : Krpc) (pos port : ℕ) (s : Stat)
    → IsSafe k pos
    → IsSafe (record k { status = s; ap_port = port }) pos
set_port k pos port s safe = ground arith
