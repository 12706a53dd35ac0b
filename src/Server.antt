-- ===== src/Server.antt =====
-- cht/server.hpp: the server. State is what the class and the global variables of the other parts
-- hold; Send is the way out, Handlers the switch on the method, Receive what stands in front of it, Timer the
-- callback that bootstraps.
pub mod State
pub mod Send
pub mod Handlers
pub mod Receive
pub mod Timer
pub mod Invariant
pub mod Answers
