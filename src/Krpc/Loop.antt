-- ===== src/Krpc/Loop.antt =====
-- One round of the decoder's loop, as an equation.
use dht_cpp.Base.{ℕ, suc, ◌≡◌, arith, ltb, if◌then◌else◌, assertion}
use dht_cpp.Krpc.Decode.{Outcome, returned, died, step, loop}
use dht_cpp.Krpc.State.{Decoder, Step, continue, return, crashed}

-- What the loop does with the result of a round.
abbrev pub next : ℕ → ℕ → Step → Outcome
next fuel n (continue d) = loop fuel d n
next fuel n (return k) = returned k
next fuel n (crashed c) = died c

pub loop-step :
    (fuel n : ℕ) (d : Decoder)
    → loop (suc fuel) d n ≡ (if ltb d.cur_pos n then next fuel n (step d n) else died assertion)
unfolding loop
loop-step fuel n d = ground arith
