-- ===== src/Gpm/Reach.antt =====
-- cht/gpmap.cpp: the tables that are reached by the operations.
use dht_cpp.Base.{
  ℕ, ◌≤◌, ◌<◌, ◌^◌, List, Option, none, some, Run, ok, >>=-eq-ok, ◌≡◌, arith, sym, subst, ltb, ◌==◌,
  Bool-cases, inl, inr, ap, ◌∙◌, ==_refl, crash, crash-eq-ok,
}
use dht_cpp.Dht.{Nih, PNode}
use dht_cpp.Gpm.Entries.{unset_cell_keeps, clear_tok_keeps}
use dht_cpp.Gpm.Tokens.{take_tok_keeps}
use dht_cpp.Gpm.{
  Gpm, GpmStatus, Extracted, gp_max_hops, set_cell, unset_cell, set_ih_status, take_tok,
  register_q_gp_ihash, extract_tok, extract_from, clear_tok, lookup_tok,
}
use dht_cpp.Krpc.State.{Krpc}

-- The tables that are reached from `g`.
pub data Reach (g : Gpm) : Gpm → Type 0 where
  start : Reach g g
  register :
      {g' : Gpm}
      → Reach g g'
      → (nid ih : Nih) (hop tok : ℕ) → Reach g (register_q_gp_ihash nid ih hop tok g')
  take : {g' : Gpm} → Reach g g' → Reach g (take_tok g').gpm
  clear : {g' g'' : Gpm} → Reach g g' → (k : Krpc) → clear_tok k g' ≡ ok g'' → Reach g g''
  extract :
      {g' : Gpm} {e : Extracted}
      → Reach g g'
      → (k : Krpc) (nodes : List PNode) → extract_tok k nodes g' ≡ ok e
      → Reach g e.gpm

-- The hops and the time of an entry keep to their limits.
abbrev pub IsCell : GpmStatus → Type 0
IsCell cell = (cell.hop_ctr ≤ gp_max_hops) × (cell.last_reponse_ms < 2 ^ 56)

abbrev pub IsGpm : Gpm → Type 0
IsGpm g = (i : ℕ) → IsCell (g.g_ifl_buf i)

kept : (g g' : Gpm) → ((i : ℕ) → g'.g_ifl_buf i ≡ g.g_ifl_buf i) → IsGpm g → IsGpm g'
kept g g' same h i = subst IsCell (sym (same i)) (h i)

register-IsGpm :
    (nid ih : Nih) (hop tok : ℕ) (g : Gpm) → IsGpm g → IsGpm (register_q_gp_ihash nid ih hop tok g)
unfolding register_q_gp_ihash set_ih_status set_cell
register-IsGpm nid ih hop tok g h i = elim (Bool-cases (ltb gp_max_hops hop)) [
  | inl many ↦ rw many (h i)
  | inr few ↦ elim (Bool-cases (tok == i)) [
    | inl same ↦ rw (few, same, ==_refl tok) (ground arith, omega arith)
    | inr other ↦ rw (few, other) (h i)
  ]
]

-- The entries behind a run that gives a table.
module _ (g : Gpm) where
  abbrev buffer : Run Extracted → ℕ → GpmStatus
  buffer (ok e) = e.gpm.g_ifl_buf
  buffer (crash c) = g.g_ifl_buf

extract_from_keeps :
    (k : Krpc) (nodes : List PNode) (found : Option GpmStatus) (g : Gpm) {e : Extracted}
    → extract_from k nodes found g ≡ ok e
    → (i : ℕ) → e.gpm.g_ifl_buf i ≡ g.g_ifl_buf i
unfolding extract_from
extract_from_keeps k nodes none g {e} h i =
    let same : g.g_ifl_buf ≡ e.gpm.g_ifl_buf = ap (buffer g) h in ap (λ f. f i) (sym same)
extract_from_keeps k nodes (some cell) g {e} h i =
    let (g', unset, e') = >>=-eq-ok (unset_cell k g) _ h in
    let same : g'.g_ifl_buf ≡ e.gpm.g_ifl_buf = ap (buffer g) e' in
    ap (λ f. f i) (sym same) ∙ unset_cell_keeps k g unset i

extract_tok_keeps :
    (k : Krpc) (nodes : List PNode) (g : Gpm) {e : Extracted}
    → extract_tok k nodes g ≡ ok e
    → (i : ℕ) → e.gpm.g_ifl_buf i ≡ g.g_ifl_buf i
unfolding extract_tok
extract_tok_keeps k nodes g {e} h i = elim (Bool-cases (k.n_nodes == 0)) [
  | inl none_sent ↦ absurd (crash-eq-ok (rw none_sent at h))
  | inr sent ↦
      let (found, _, h') = >>=-eq-ok (lookup_tok k g) _ (rw sent at h) in
      extract_from_keeps k nodes found g h' i
]

-- In every table that is reached by registering, taking, clearing and extracting tokens, the hops
-- of an entry are at most 8 and its time fits 56 bits, if this holds at the start.
pub Reach-IsGpm : {g g' : Gpm} → Reach g g' → IsGpm g → IsGpm g'
Reach-IsGpm start h = h
Reach-IsGpm (register {g'} r nid ih hop tok) h = register-IsGpm nid ih hop tok g' (Reach-IsGpm r h)
Reach-IsGpm (take {g'} r) h = kept g' (take_tok g').gpm (take_tok_keeps g') (Reach-IsGpm r h)
Reach-IsGpm (clear {g'} {g''} r k e) h = kept g' g'' (clear_tok_keeps k g' e) (Reach-IsGpm r h)
Reach-IsGpm (extract {g'} {e} r k nodes eq) h =
    kept g' e.gpm (extract_tok_keeps k nodes g' eq) (Reach-IsGpm r h)
