-- ===== src/Main.antt =====
-- cht/main.cpp: the program on libuv. State has its global variables; Send is `send_msg`, Handlers the
-- switch of `handle_msg`, Receive the callbacks of the socket, Timers those of the timers, Start what
-- `main` does in front of the event loop. Acts, Steps and Answers have proofs.
pub mod State
pub mod Send
pub mod Handlers
pub mod Receive
pub mod Timers
pub mod Neutral
pub mod Acts
pub mod Steps
pub mod Start
pub mod Answers
