-- ===== src/Krpc.antt =====
-- cht/krpc.hpp and cht/krpc.cpp: the decoder of received messages. The files below hold the state
-- (Flags, State), the code (Atoi, Validate, Decode) and what is proved of it.
pub mod Flags
pub mod State
pub mod Atoi
pub mod Validate
pub mod Decode
pub mod Reply
pub mod Loop
pub mod Safety
pub mod Status
pub mod Tokens
pub mod Accept
