-- ===== src/Util/Tickets.antt =====
-- cht/util.hpp: `Ticketer`. A set is the list of its elements, in the order of its iterator.
pub mod Conserve
use dht_cpp.Base.{
  ℕ, zero, suc, ◌+◌, Bool, true, false, List, [], ◌∷◌, ◌++◌, ◌==◌, if◌then◌else◌, Run, ok, crash,
  assertion,
}
use dht_cpp.Stat.Counters.{Counters, st_inc, st_dec}
use dht_cpp.Stat.{Stat, stat_eq, st_enum_end}

pub record Ticketer : Type 0 where
  pub free : List ℕ
  pub taken : List ℕ

-- The constructor, for `n` tickets.
abbrev pub below : ℕ → List ℕ
below zero = []
below (suc n) = below n ++ n ∷ []

unfoldable pub new : ℕ → Ticketer
new n = record { free = below n; taken = [] }

-- `set.count(x)` and `set.erase(x)`
unfoldable pub count : ℕ → List ℕ → ℕ
count x [] = 0
count x (y ∷ ys) = (if x == y then 1 else 0) + count x ys

unfoldable pub erase : ℕ → List ℕ → List ℕ
erase x [] = []
erase x (y ∷ ys) = let rest = erase x ys in if x == y then ys else y ∷ rest

-- What `take` returns: a flag and a ticket, the ticketer, and the counters. `acct` counts the tickets
-- that are out, `oflow` the refusals.
pub record Taken : Type 0 where
  pub found : Bool
  pub val : ℕ
  pub ticketer : Ticketer
  pub counters : Counters

pub take_from : List ℕ → Stat → Stat → Ticketer → Counters → Taken
take_from [] acct oflow t g = record {
  found = false;
  val = 0;
  ticketer = t;
  counters = if stat_eq oflow st_enum_end then g else st_inc oflow g;
}
take_from (val ∷ rest) acct oflow t g = record {
  found = true;
  val = val;
  ticketer = record { free = rest; taken = val ∷ t.taken };
  counters = st_inc acct g;
}

unfoldable pub take : Stat → Stat → Ticketer → Counters → Taken
unfolding take_from
take acct oflow t g = take_from t.free acct oflow t g

unfoldable pub give_back : Stat → ℕ → Ticketer → Counters → Run (Ticketer × Counters)
unfolding count erase
give_back acct val t g =
    if count val t.taken == 1
    then ok (record { free = val ∷ t.free; taken = erase val t.taken }, st_dec acct g)
    else crash assertion
