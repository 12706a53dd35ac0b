-- ===== src/Main/Answers.antt =====
-- cht/main.cpp: a query that is accepted is answered.
pub mod Sends
pub mod Dispatch
pub mod Receives
pub mod Queries
pub mod Packets
