-- ===== src/Lib.antt =====
-- A verification library for dht_cpp, a node of the BitTorrent distributed hash table.
--
-- The program. A server (cht/server.hpp; cht/main.cpp is the same on libuv)
-- receives datagrams. A spam filter (cht/spamfilter.cpp) lets a
-- datagram pass or not; a decoder (cht/krpc.cpp) reads it into a `KRPC`; the handlers of the server
-- answer it by the writers of cht/msg.cpp, keep the sender in the routing table (cht/rt.cpp), and pursue
-- info hashes over several hops with the table of cht/gpmap.cpp. Everything is counted (cht/stat.cpp).
--
-- The files.
-- - Base: tests, lists and byte strings over the native numbers; `Run`, for code that may crash by a
--   failed `assert` or a null pointer.
-- - Stat: `stat_t` of cht/stat.hpp; Counters has the counters of cht/stat.cpp, Rollover `st_init` and
--   `st_rollover` with the lines they print; Rows has the proofs.
-- - Dht: the constants and packed types of cht/dht.hpp; ids are byte strings.
-- - Krpc: cht/krpc.hpp and cht/krpc.cpp. Flags has `Method` and `Key`, State the classes `KRPC` and
--   `XDHist`, Atoi `krpc_bdecode_atoi`, Decode and its children `xdecode` with a function for each case
--   of its switches, Validate `validate`, Reply `KReply`. The proofs are in Loop, Safety, Accept
--   and Status. Tokens is a second account of `xdecode`, on bencode tokens instead of characters, with
--   the proof that the code does the same, and what it makes of the queries of other nodes.
-- - Msg: the writers of cht/msg.cpp. Layout has the messages as texts; Writers, RoundTrip, Exchange and
--   Fits have the proofs.
-- - Util: cht/util.hpp and cht/util.cpp: `randint`, `dkad`, `is_valid_utf8`, `Ticketer`. The table of UTF-8
--   sequences that `is_valid_utf8` is compared with is in Utf8/Table.
-- - Spam, with Buckets and Limits: cht/spamfilter.cpp. Ctl: cht/ctl.cpp.
-- - Gpm: cht/gpmap.hpp and cht/gpmap.cpp; Hops is `find_best_hops`; Entries, Tokens, Reach and Choice
--   have the proofs.
-- - Rt, Rt/Address: cht/rt.hpp and cht/rt.cpp; Contacts, Search, Neighbors and Address/Reserved have the
--   proofs.
--   Rt/File has `load_rt`, with the operating system as the record `Posix`, and Rt/Memory the
--   assignments of `set_cell` as bytes of the file that is mapped.
-- - Server: State is the class `KRPCServer` with the global variables of the parts, Send `send_msg` and
--   the buffers, Handlers the cases of `handle_recv`, Receive what stands in front of them, Timer
--   `loop_bootstrap_cb`; Invariant and Answers have the proofs.
-- - Main: cht/main.cpp, the program on libuv. State has its global variables, Send `send_msg` and
--   `cb_send_msg`, Handlers the cases of `handle_msg`, Receive `cb_alloc` and `cb_recv_msg`, Timers the
--   callbacks of the timers, Start `init_subsystems` and `main`. Neutral and Acts say what a callback
--   may do, Steps what holds of runs, and Answers what is sent for a query.
-- - Rtdump: rtdump/main.c, the tool that prints a file of nodes; Records has the proofs.
-- - Tests: the results applied at concrete inputs.
--
-- Reading the model. A pointer into the buffer of a `KRPC` is an offset, and a null pointer is `none`.
-- The tables are functions from an index, and their operations return the table behind them. Numbers
-- are natural numbers, with the wrap-around of the machine's types written out where it can occur. The
-- numbers that `rand` returns and the readings of the clock are the fields of a `World`. A run of the
-- program is a sequence of steps, each the call of one callback; libuv is the record `Uv`, which says
-- which packets `uv_udp_send` takes, and has the two statistics that cht/main.cpp names and
-- cht/stat.hpp does not declare, and the record `Startup`, which says which calls of `main` fail. A
-- `KRPC` of cht/main.cpp is called by the number of its allocation.
--
-- Bounds and fuel. The loop of `xdecode` runs on fuel, one more than the bytes received: every round
-- reads a byte at least. The loop of `is_valid_utf8` has one more than the length, for the same reason; `Runs` in Utf8/Fuel is
-- its run without fuel.
-- All other loops are structural: over the entries of a table, a list of nodes, or the bytes of an id.
-- A buffer for sending has the `MSG_BUF_LEN` bytes of cht/msg.hpp.
--
-- The build. The byte `SID4` is that of a build with `MSG_CLOSE_SID`, as the Makefile sets it, and
-- announcements are filtered. The checksum of an id is read as its last four bytes, which is what the
-- comparisons of ids are for.
--
-- Not modelled: `run` of cht/server.hpp, which opens the socket, the printing of cht/log.hpp and of
-- `KRPC::print`, and cht/eyes.py. The calls of `st_click_dkad` in
-- `find_best_hops` stand in Main/Handlers, behind `extract_tok`, since they only count in the variables
-- of cht/stat.cpp and assert the range of a distance. The model of cht/server.hpp is without them and
-- without `st_click_gp_n_hops`, which fill the auxiliary file of statistics only. Nothing calls
-- `check_evict` of cht/rt.hpp.
pub mod Base
pub mod Stat
pub mod Dht
pub mod Krpc
pub mod Msg
pub mod Util
pub mod Spam
pub mod Ctl
pub mod Gpm
pub mod Rt
pub mod Server
pub mod Main
pub mod Rtdump
pub mod Tests
