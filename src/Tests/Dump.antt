-- ===== src/Tests/Dump.antt =====
-- A file of nodes that is printed.
use dht_cpp.Base.{
  ℕ, zero, suc, ◌<◌, AreBytes, List, [], ◌∷◌, ◌++◌, Bytes, replicate, ◌≡◌, refl, arith,
}
use dht_cpp.Rtdump.Records.{AreRecords, file_of, lines_of, main-file_of}
use dht_cpp.Rtdump.{main}

-- An empty record between two others.
abbrev three_records : List Bytes
three_records = replicate 32 7 ∷ replicate 32 0 ∷ replicate 32 9 ∷ []

replicate-AreBytes : (b n : ℕ) → b < 256 → AreBytes (replicate n b)
replicate-AreBytes b zero h = tt
replicate-AreBytes b (suc n) h = (h, replicate-AreBytes b n h)

three_records-AreRecords : AreRecords three_records
three_records-AreRecords =
    let sevens = replicate-AreBytes 7 32 (omega arith) in
    let zeroes = replicate-AreBytes 0 32 (omega arith) in
    let nines = replicate-AreBytes 9 32 (omega arith) in
    (refl, sevens, (refl, zeroes, (refl, nines, tt)))

main-file_of_example : main (file_of three_records ++ (1 ∷ 2 ∷ [])) ≡ lines_of three_records
main-file_of_example =
    main-file_of three_records (1 ∷ 2 ∷ []) three_records-AreRecords (omega arith) (omega arith)
