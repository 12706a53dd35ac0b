-- ===== src/Gpm/Entries.antt =====
-- cht/gpmap.cpp: the entry under a token, registered and cleared.
use dht_cpp.Base.{
  ℕ, ◌≤◌, ◌<◌, ◌⊎◌, Bool, subst, ==_iff, not, ap, ◌∙◌, true, false, some, ok, >>=-eq-ok,
  if◌then◌else◌, ltb, ◌==◌, ◌!=◌, ◌≡◌, ◌≢◌, refl, arith, ==_refl, ==_ne, Bool-cases, inl, inr,
}
use dht_cpp.Dht.{Nih, checksum}
use dht_cpp.Gpm.{
  Gpm, GpmStatus, gp_max_hops, set_cell, unset_cell_at, tok_of, nid_checksum, unset_cell,
  set_ih_status, lookup_tok, register_q_gp_ihash, clear_tok,
}
use dht_cpp.Krpc.State.{Krpc}

-- `k` is a reply with the token `tok` from the node of `nid`.
pub record Answers (k : Krpc) (tok : ℕ) (nid : Nih) : Type 0 where
  pub long : k.tok_len ≡ 3
  pub token : tok_of k ≡ ok tok
  pub sender : nid_checksum k ≡ ok (checksum nid)

!=_self : (a : ℕ) → (a != a) ≡ false
!=_self a = ground arith

-- The cell that a registration writes, and the others.
abbrev IsStored : GpmStatus → Nih → Nih → ℕ → Type 0
IsStored cell nid ih hop =
    (cell.is_set ≡ true)
    × (cell.last_nid_checksum ≡ checksum nid)
    × (cell.ih ≡ ih)
    × (cell.hop_ctr ≡ hop)

module _ (nid ih : Nih) (hop tok : ℕ) (g : Gpm) where
  register-IsStored :
      hop ≤ gp_max_hops → IsStored ((register_q_gp_ihash nid ih hop tok g).g_ifl_buf tok) nid ih hop
  unfolding register_q_gp_ihash set_ih_status set_cell
  register-IsStored h = elim (Bool-cases (ltb gp_max_hops hop)) [
    | inl many ↦ absurd (ground arith)
    | inr few ↦ rw (few, ==_refl tok) (refl, refl, refl, ground arith)
  ]

  -- A registration changes no other cell, and with more than 8 hops none.
  pub register_elsewhere :
      (other : ℕ)
      → (tok ≢ other) ⊎ (gp_max_hops < hop)
      → (register_q_gp_ihash nid ih hop tok g).g_ifl_buf other ≡ g.g_ifl_buf other
  unfolding register_q_gp_ihash set_ih_status set_cell
  register_elsewhere other h = elim (Bool-cases (ltb gp_max_hops hop)) [
    | inl many ↦ rw many refl
    | inr few ↦ rw (few, ==_ne tok other (differ h (ground arith))) refl
  ]
    where
      differ : (tok ≢ other) ⊎ (gp_max_hops < hop) → hop ≤ gp_max_hops → tok ≢ other
      differ (inl n) small = n
      differ (inr large) small = absurd (omega arith)

-- A token registered for at most 8 hops is found by a reply whose tok has 3 bytes and begins with
-- it, and whose id has the checksum of the node that was asked; the entry has the info hash and the
-- number of hops that were registered.
pub lookup_tok-register :
    (k : Krpc) (nid ih : Nih) (hop tok : ℕ) (g : Gpm)
    → Answers k tok nid
    → hop ≤ gp_max_hops
    → (cell : GpmStatus) × (lookup_tok k (register_q_gp_ihash nid ih hop tok g) ≡ ok (some cell))
      × (cell.ih ≡ ih)
      × (cell.hop_ctr ≡ hop)
unfolding lookup_tok
lookup_tok-register k nid ih hop tok g a h =
    let cell = (register_q_gp_ihash nid ih hop tok g).g_ifl_buf tok in
    let (set, from, ih_is, hop_is) = register-IsStored nid ih hop tok g h in
    (cell, rw (a.long, a.token, a.sender, set, from, !=_self (checksum nid)) refl, ih_is, hop_is)

set_false : (cell : GpmStatus) → not cell.is_set ≡ true → record cell { is_set = false } ≡ cell
set_false cell e =
    let unset : false ≡ cell.is_set = ground arith in ap (λ b. record cell { is_set = b }) unset

module _ (tok : ℕ) (g : Gpm) (i : ℕ) where
  put_keeps :
      (cell : GpmStatus)
      → cell ≡ g.g_ifl_buf tok
      → (if tok == i then cell else g.g_ifl_buf i) ≡ g.g_ifl_buf i
  put_keeps cell e = elim (Bool-cases (tok == i)) [
    | inl same ↦ rw same (e ∙ ap g.g_ifl_buf ((==_iff tok i).0 same))
    | inr other ↦ rw other refl
  ]

  pub unset_cell_at-keeps : (unset_cell_at tok g).g_ifl_buf i ≡ g.g_ifl_buf i
  unfolding unset_cell_at
  unset_cell_at-keeps = elim (Bool-cases (not (g.g_ifl_buf tok).is_set)) [
    | inl unset ↦ rw unset (
        put_keeps (record (g.g_ifl_buf tok) { is_set = false }) (set_false (g.g_ifl_buf tok) unset))
    | inr set ↦ rw set refl
  ]

  unset_if : (b : Bool) → (if b then unset_cell_at tok g else g).g_ifl_buf i ≡ g.g_ifl_buf i
  unset_if true = unset_cell_at-keeps
  unset_if false = refl

pub unset_cell_keeps :
    (k : Krpc) (g : Gpm) {g' : Gpm}
    → unset_cell k g ≡ ok g'
    → (i : ℕ) → g'.g_ifl_buf i ≡ g.g_ifl_buf i
unfolding unset_cell
unset_cell_keeps k g {g'} e i =
    let (tok, _, e₁) = >>=-eq-ok (tok_of k) _ e in
    let (sum, _, e₂) = >>=-eq-ok (nid_checksum k) _ e₁ in
    let same : (if (g.g_ifl_buf tok).last_nid_checksum == sum then unset_cell_at tok g else g)
        ≡ g' =
      cc in
    subst (λ x. x.g_ifl_buf i ≡ g.g_ifl_buf i) same
      (unset_if tok g i ((g.g_ifl_buf tok).last_nid_checksum == sum))

-- Where `clear_tok` does not crash, it leaves every entry of the table as it is.
pub clear_tok_keeps :
    (k : Krpc) (g : Gpm) {g' : Gpm}
    → clear_tok k g ≡ ok g'
    → (i : ℕ) → g'.g_ifl_buf i ≡ g.g_ifl_buf i
unfolding clear_tok
clear_tok_keeps k g e i = unset_cell_keeps k g e i
