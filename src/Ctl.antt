-- ===== src/Ctl.antt =====
-- cht/ctl.cpp: the controls, which let every ping pass.
use dht_cpp.Base.{ℕ, ◌+◌, ◌%◌, ◌^◌, Bool, true}
use dht_cpp.Dht.{Nih}

-- `CTL_GPM_TIMEOUT_MS`
abbrev pub ctl_gpm_timeout_ms : ℕ
ctl_gpm_timeout_ms = 200

unfoldable pub ctl_decide_ping : Nih → Bool
ctl_decide_ping nid = true

-- `ctl_ping_window++`, on a `u8`.
unfoldable pub ctl_rollover_hook : ℕ → ℕ
ctl_rollover_hook ctl_ping_window = (ctl_ping_window + 1) % 2 ^ 8
