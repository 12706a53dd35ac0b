-- ===== src/Gpm/Tokens.antt =====
-- cht/gpmap.cpp: which token `take_tok` hands out.
use dht_cpp.Base.{
  ℕ, zero, suc, ◌+◌, ◌-◌, ◌%◌, ◌^◌, ◌≤◌, ◌<◌, not, ◌&&◌, true, false, Option, none, some, ◌≡◌, ◌⊎◌,
  refl, arith, subst, Bool-cases, if_elim, inl, inr, ==_iff, ◌==◌,
}
use dht_cpp.Gpm.{Gpm, GpmStatus, n_bins, Scan, vacant, stale, full, is_stale, scan, took, take_tok}
use dht_cpp.Util.Random.{IsWorld, randint, draw, tick, now_ms, randint_bounds}
use dht_cpp.Gpm.Entries.{unset_cell_at-keeps}

-- An entry that is in use, and one that may be given away.
abbrev pub IsBusy : ℕ → GpmStatus → Type 0
IsBusy now cell = (cell.is_set ≡ true) × (is_stale now cell ≡ false)

abbrev pub IsFree : ℕ → GpmStatus → Type 0
IsFree now cell = (cell.is_set ≡ false) ⊎ (is_stale now cell ≡ true)

-- From the entry `from` on, the entries in front of `i` are in use.
abbrev pub AllBusy : ℕ → Gpm → ℕ → ℕ → Type 0
AllBusy now g from i = (j : ℕ) → from ≤ j → j < i → IsBusy now (g.g_ifl_buf j)

-- The entry `i` is the first that may be given away, and `t` is as far behind `tok` as `i` is behind
-- `from`.
pub record IsFirst (now : ℕ) (g : Gpm) (from tok i t : ℕ) : Type 0 where
  pub behind : from ≤ i
  pub inside : i < n_bins
  pub free : IsFree now (g.g_ifl_buf i)
  pub busy : AllBusy now g from i
  pub ticket : t ≡ (tok + (i - from)) % 2 ^ 16

abbrev pub Finds : ℕ → Gpm → ℕ → ℕ → Scan → Type 0
Finds now g from tok (vacant t) = (i : ℕ) × IsFirst now g from tok i t
Finds now g from tok (stale t) = (i : ℕ) × IsFirst now g from tok i t
Finds now g from tok full = AllBusy now g from n_bins

module _ (now : ℕ) (g : Gpm) where
  all_cons :
      (from i : ℕ)
      → IsBusy now (g.g_ifl_buf from)
      → AllBusy now g (from + 1) i
      → AllBusy now g from i
  all_cons from i b all j l h = elim (Bool-cases (from == j)) [
    | inl same ↦ subst (λ x. IsBusy now (g.g_ifl_buf x)) ((==_iff from j).0 same) b
    | inr other ↦ all j (ground arith) h
  ]

  Finds-later :
      (from tok : ℕ) (s : Scan)
      → from < n_bins
      → IsBusy now (g.g_ifl_buf from)
      → Finds now g (from + 1) ((tok + 1) % 2 ^ 16) s
      → Finds now g from tok s
  Finds-later from tok (vacant t) h b (i, f) = (
    i,
    record {
      behind = omega (arith, f.behind);
      inside = f.inside;
      free = f.free;
      busy = all_cons from i b f.busy;
      ticket = omega (arith, f.ticket, f.behind);
    },
  )
  Finds-later from tok (stale t) h b (i, f) = (
    i,
    record {
      behind = omega (arith, f.behind);
      inside = f.inside;
      free = f.free;
      busy = all_cons from i b f.busy;
      ticket = omega (arith, f.ticket, f.behind);
    },
  )
  Finds-later from tok full h b f = all_cons from n_bins b f

  Finds_here :
      (from tok : ℕ)
      → from < n_bins
      → tok < 2 ^ 16
      → IsFree now (g.g_ifl_buf from)
      → IsFirst now g from tok from tok
  Finds_here from tok h l f = record {
    behind = omega arith;
    inside = h;
    free = f;
    busy = λ j a b. absurd (omega arith);
    ticket = omega arith;
  }

  scan-Finds :
      (left tok : ℕ)
      → left ≤ n_bins
      → tok < 2 ^ 16
      → Finds now g (n_bins - left) tok (scan left now tok g)
  unfolding scan
  scan-Finds zero tok h l = λ j a b. absurd (omega arith)
  scan-Finds (suc left) tok h l =
      let from = n_bins - suc left in
      let cell = g.g_ifl_buf from in
      let inside : from < n_bins = omega arith in
      if_elim (Finds now g from tok) (not cell.is_set)
        (λ e. (from, Finds_here from tok inside l (inl (ground arith))))
        (λ e.
          if_elim (Finds now g from tok) (cell.is_set && is_stale now cell)
            (λ e'. (from, Finds_here from tok inside l (inr (ground arith))))
            (λ e'.
              Finds-later from tok (scan left now ((tok + 1) % 2 ^ 16) g) inside
                (ground arith, ground arith)
                (subst
                  (λ x. Finds now g x ((tok + 1) % 2 ^ 16) (scan left now ((tok + 1) % 2 ^ 16) g))
                  (omega arith)
                  (scan-Finds left ((tok + 1) % 2 ^ 16) (omega arith) (omega arith)))))

-- What `take_tok` hands out from the table `g`: the token that is as far behind a random one as the
-- first free entry is behind the entry 0, or none if every entry is in use.
abbrev pub Takes : Gpm → Option ℕ → Type 0
Takes g none = AllBusy (now_ms g.world) g 0 n_bins
Takes g (some t) = (i : ℕ) × IsFirst (now_ms g.world) g 0 (randint g.world 0 (2 ^ 16)) i t

took-Takes :
    (g g' : Gpm) (s : Scan)
    → Finds (now_ms g.world) g 0 (randint g.world 0 (2 ^ 16)) s
    → Takes g (took s g').tok
unfolding took
took-Takes g g' (vacant t) f = f
took-Takes g g' (stale t) f = f
took-Takes g g' full f = f

-- If `rand` keeps to `RAND_MAX`: `take_tok` hands out no token exactly when every entry is in use.
-- Otherwise the token is a random one plus the index of the first free entry, modulo 2 ^ 16.
pub take_tok-Takes : (g : Gpm) → IsWorld g.world → Takes g (take_tok g).tok
unfolding take_tok
take_tok-Takes g w =
    took-Takes g (record g { world = draw (tick g.world) })
      (scan n_bins (now_ms g.world) (randint g.world 0 (2 ^ 16)) g)
      (scan-Finds (now_ms g.world) g n_bins (randint g.world 0 (2 ^ 16)) (omega arith)
        (randint_bounds g.world 0 (2 ^ 16) w (omega arith)).1)

took_keeps : (s : Scan) (g : Gpm) (i : ℕ) → (took s g).gpm.g_ifl_buf i ≡ g.g_ifl_buf i
unfolding took
took_keeps (vacant t) g i = refl
took_keeps (stale t) g i = unset_cell_at-keeps t g i
took_keeps full g i = refl

-- Taking a token leaves every entry as it is, the entry that is too old included.
pub take_tok_keeps : (g : Gpm) (i : ℕ) → (take_tok g).gpm.g_ifl_buf i ≡ g.g_ifl_buf i
unfolding take_tok
take_tok_keeps g i =
    took_keeps (scan n_bins (now_ms g.world) (randint g.world 0 (2 ^ 16)) g)
      (record g { world = draw (tick g.world) }) i
