-- ===== src/Gpm.antt =====
-- cht/gpmap.hpp and cht/gpmap.cpp: the table of info hashes that are being pursued. A slot of the
-- table is called by its token.
pub mod Hops
pub mod Entries
pub mod Tokens
pub mod Reach
pub mod Choice
use dht_cpp.Base.{
  ℕ, zero, suc, ◌+◌, ◌-◌, ◌*◌, ◌%◌, ◌^◌, Bool, true, false, not, ◌&&◌, ◌||◌, List, [], ◌∷◌, Option,
  none, some, Bytes, get_or, length, ltb, ◌==◌, ◌!=◌, if◌then◌else◌, Run, ok, crash, ◌>>=◌,
  assertion,
}
use dht_cpp.Ctl.{ctl_gpm_timeout_ms}
use dht_cpp.Dht.{Nih, PNode, checksum, nih_len}
use dht_cpp.Gpm.Hops.{NextHop, find_best_hops}
use dht_cpp.Krpc.State.{Krpc, byte_at, bytes_at}
use dht_cpp.Stat.Counters.{Counters, st_inc}
use dht_cpp.Stat.{
  Stat, gpm_ih_drop_buf_overflow, gpm_ih_drop_too_many_hops, gpm_ih_inserted,
  gpm_r_gp_lookup_failed,
}
use dht_cpp.Util.Random.{World, draw, randint, now_ms, tick}

-- `GPMStatus`
pub record GpmStatus : Type 0 where
  pub ih : Nih
  pub last_nid_checksum : ℕ
  pub hop_ctr : ℕ
  pub last_reponse_ms : ℕ
  pub is_set : Bool

abbrev pub n_bins : ℕ
n_bins = 2 ^ 16

abbrev pub gp_max_hops : ℕ
gp_max_hops = 8

-- `g_ifl_buf`, with the world that the clock and the random numbers come from, and the counters.
pub record Gpm : Type 0 where
  pub g_ifl_buf : ℕ → GpmStatus
  pub world : World
  pub counters : Counters

-- `g_ifl_buf[tok] = cell`
abbrev pub put_cell : ℕ → GpmStatus → Gpm → Gpm
put_cell tok cell g = record g { g_ifl_buf = λ i. if tok == i then cell else g.g_ifl_buf i }

abbrev pub count_stat : Stat → Gpm → Gpm
count_stat stat g = record g { counters = st_inc stat g.counters }

-- `set_cell`: the cell is stamped with the time, in its 56 bits, and is set.
unfoldable pub set_cell : ℕ → Gpm → Gpm
set_cell tok g =
    let cell = g.g_ifl_buf tok in
    record (put_cell tok (record cell { last_reponse_ms = now_ms g.world % 2 ^ 56; is_set = true })
      g) { world = tick g.world }

-- `unset_cell(u16)`: `if (!cell.is_set) cell.is_set = false;`
unfoldable pub unset_cell_at : ℕ → Gpm → Gpm
unset_cell_at tok g =
    let cell = g.g_ifl_buf tok in
    if not cell.is_set then put_cell tok (record cell { is_set = false }) g else g

-- `*(u16 *)krpc.tok`
unfoldable pub tok_of : Krpc → Run ℕ
unfolding byte_at
tok_of k = byte_at k k.tok 0 >>= λ lo. byte_at k k.tok 1 >>= λ hi. ok (lo + 0x100 * hi)

-- `krpc.nid->checksum`
unfoldable pub nid_checksum : Krpc → Run ℕ
unfolding bytes_at checksum
nid_checksum k = bytes_at k k.nid nih_len >>= λ nid. ok (checksum nid)

-- `unset_cell(const KRPC &)`
unfoldable pub unset_cell : Krpc → Gpm → Run Gpm
unfolding tok_of nid_checksum unset_cell_at
unset_cell k g = tok_of k >>= λ tok. nid_checksum k >>= λ sum.
    ok (if (g.g_ifl_buf tok).last_nid_checksum == sum then unset_cell_at tok g else g)

-- `hop_ctr` has 7 bits.
unfoldable pub set_ih_status : ℕ → Nih → Nih → ℕ → Gpm → Gpm
unfolding set_cell
set_ih_status tok nid ih hop g =
    let g' = set_cell tok g in
    put_cell tok
      (record (g'.g_ifl_buf tok) {
        last_nid_checksum = checksum nid;
        ih = ih;
        hop_ctr = hop % 2 ^ 7;
      })
      g'

-- `lookup_tok`: the cell, if it is set for the sender of the message.
unfoldable pub lookup_tok : Krpc → Gpm → Run (Option GpmStatus)
unfolding tok_of nid_checksum
lookup_tok k g =
    if k.tok_len != 3
    then crash assertion
    else tok_of k >>= λ tok. nid_checksum k >>= λ sum.
        let cell = g.g_ifl_buf tok in
        ok (if not cell.is_set || cell.last_nid_checksum != sum then none else some cell)

-- How the loop of `take_tok` ends: at a cell that is not set, at one that is too old, or at none.
pub data Scan : Type 0 where
  vacant stale : ℕ → Scan
  full : Scan

-- `now_ms - cell.last_reponse_ms > CTL_GPM_TIMEOUT_MS`, on a `u64`.
abbrev pub is_stale : ℕ → GpmStatus → Bool
is_stale now cell = ltb ctl_gpm_timeout_ms ((now + 2 ^ 64 - cell.last_reponse_ms) % 2 ^ 64)

-- The loop of `take_tok`: the cells from index `n_bins - left` on, and the token that goes up with
-- them (a `u16`).
unfoldable pub scan : ℕ → ℕ → ℕ → Gpm → Scan
scan zero now tok g = full
scan (suc left) now tok g =
    let cell = g.g_ifl_buf (n_bins - suc left) in
    let rest = scan left now ((tok + 1) % 2 ^ 16) g in
    if not cell.is_set
    then vacant tok
    else if cell.is_set && is_stale now cell
    then stale tok
    else rest

-- The token, or none where the code returns `false`, and the table behind the call.
pub record Token : Type 0 where
  pub tok : Option ℕ
  pub gpm : Gpm

unfoldable pub took : Scan → Gpm → Token
unfolding unset_cell_at
took (vacant tok) g = record { tok = some tok; gpm = g }
took (stale tok) g = record { tok = some tok; gpm = unset_cell_at tok g }
took full g = record { tok = none; gpm = count_stat gpm_ih_drop_buf_overflow g }

-- `take_tok`: the clock is read, and a random token drawn, before the loop.
unfoldable pub take_tok : Gpm → Token
unfolding scan took
take_tok g =
    let now = now_ms g.world in
    let tok = randint g.world 0 (2 ^ 16) in
    took (scan n_bins now tok g) (record g { world = draw (tick g.world) })

unfoldable pub decide_pursue_q_gp_ih : Gpm → Token
unfolding take_tok
decide_pursue_q_gp_ih g = take_tok g

unfoldable pub register_q_gp_ihash : Nih → Nih → ℕ → ℕ → Gpm → Gpm
unfolding set_ih_status
register_q_gp_ihash nid ih hop tok g =
    if ltb gp_max_hops hop
    then count_stat gpm_ih_drop_too_many_hops g
    else count_stat gpm_ih_inserted (set_ih_status tok nid ih hop g)

-- The next hop, if the token is known, and the table behind it.
pub record Extracted : Type 0 where
  pub next : Option NextHop
  pub gpm : Gpm

unfoldable pub extract_from : Krpc → List PNode → Option GpmStatus → Gpm → Run Extracted
extract_from k nodes none g = ok (record { next = none; gpm = count_stat gpm_r_gp_lookup_failed g })
extract_from k nodes (some cell) g = unset_cell k g >>= λ g'. ok (record {
  next =
      some (record { ih = cell.ih; pnodes = find_best_hops nodes cell.ih; hop_ctr = cell.hop_ctr });
  gpm = g';
})

-- `extract_tok`; `nodes` are the nodes of the message.
unfoldable pub extract_tok : Krpc → List PNode → Gpm → Run Extracted
unfolding lookup_tok extract_from unset_cell find_best_hops
extract_tok k nodes g =
    if k.n_nodes == 0
    then crash assertion
    else lookup_tok k g >>= λ found. extract_from k nodes found g

unfoldable pub clear_tok : Krpc → Gpm → Run Gpm
unfolding unset_cell
clear_tok k g = unset_cell k g

-- `get_tok_hops`; none is the code's -1.
unfoldable pub get_tok_hops : Krpc → Gpm → Run (Option ℕ)
unfolding lookup_tok
get_tok_hops k g =
    lookup_tok k g >>= λ found. ok (elim found [ none ↦ none | some cell ↦ some cell.hop_ctr ])
