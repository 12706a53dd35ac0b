-- ===== src/Tests/Helpers.antt =====
-- The helpers of cht/util.hpp at concrete arguments.
use dht_cpp.Base.{
  ℕ, zero, suc, Bytes, get_or, true, ◌↔◌, ◌∷◌, [], codes, ◌*◌, ◌-◌, ◌<◌, ◌≡◌, refl, ok, length,
  arith,
}
use dht_cpp.Stat.Counters.{Counters}
use dht_cpp.Stat.{spam_size_rx, st_enum_end}
use dht_cpp.Tests.Samples.{no_counts}
use dht_cpp.Util.Dkad.Prefix.{dkad-prefix}
use dht_cpp.Util.Dkad.{dkad}
use dht_cpp.Util.Tickets
use dht_cpp.Util.Utf8.Accepts.{IsUtf8, is_valid_utf8-IsUtf8}
use dht_cpp.Util.Utf8.Fuel.{Runs, is_valid_utf8-Runs}
use dht_cpp.Util.Utf8.{is_valid_utf8}
use dht_cpp.Util.Tickets.Conserve.{
  IsTicketer, new-IsTicketer, take-IsTicketer, give_back-IsTicketer,
}
use dht_cpp.Util.Tickets.{Ticketer, new, give_back, below, count}

-- The first ten bytes agree, and the next differ in five bits.
dkad-prefix_example :
    dkad (codes "abcdefghijA123456789") (codes "abcdefghijR987654321")
    ≡ 160 - 8 * length (codes "abcdefghij") - 5
dkad-prefix_example =
    dkad-prefix (codes "abcdefghij") (codes "123456789") (codes "987654321") 0x41 0x52 5 refl refl
      (omega arith) (omega arith, omega arith, omega arith) (omega arith)

take-IsTicketer_example :
    IsTicketer 3 (Tickets.take spam_size_rx st_enum_end (new 3) no_counts).ticketer
take-IsTicketer_example =
    take-IsTicketer spam_size_rx st_enum_end 3 (new 3) no_counts (new-IsTicketer 3)

abbrev one_out : Ticketer
one_out = (Tickets.take spam_size_rx st_enum_end (new 3) no_counts).ticketer

give_back-IsTicketer_example :
    (r : Ticketer × Counters) × (give_back spam_size_rx 0 one_out no_counts ≡ ok r)
    × IsTicketer 3 r.0
unfolding Tickets.take new count
give_back-IsTicketer_example =
    give_back-IsTicketer spam_size_rx 3 0 one_out no_counts
      (take-IsTicketer spam_size_rx st_enum_end 3 (new 3) no_counts (new-IsTicketer 3)) refl

-- U+20AC.
abbrev euro : Bytes
euro = 0xe2 ∷ 0x82 ∷ 0xac ∷ []

euro-bytes : (i : ℕ) → get_or euro i 0 < 256
euro-bytes zero = omega arith
euro-bytes (suc zero) = omega arith
euro-bytes (suc (suc zero)) = omega arith
euro-bytes (suc (suc (suc i))) = omega arith

is_valid_utf8-IsUtf8_example : (is_valid_utf8 euro 3 ≡ true) ↔ IsUtf8 euro 3 0
is_valid_utf8-IsUtf8_example = is_valid_utf8-IsUtf8 euro 3 euro-bytes (omega arith) (omega arith)

is_valid_utf8-Runs_example : Runs euro 3 0 (is_valid_utf8 euro 3)
is_valid_utf8-Runs_example = is_valid_utf8-Runs euro 3
