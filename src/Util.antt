-- ===== src/Util.antt =====
-- cht/util.hpp and cht/util.cpp. The children hold the helpers one by one.
pub mod Random
pub mod Dkad
pub mod Utf8
pub mod Tickets
