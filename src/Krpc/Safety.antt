-- ===== src/Krpc/Safety.antt =====
-- cht/krpc.cpp: the bounds of what the decoder leaves in a `KRPC`.
pub mod Shape
pub mod Values
pub mod Keys
pub mod Rounds
pub mod Loop
