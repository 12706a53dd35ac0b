-- ===== src/Stat.antt =====
-- cht/stat.hpp and cht/stat.cpp: the statistics that the program counts, one of which is also the
-- status of a decoded message (`stat_t`).
pub mod Counters
pub mod Rollover
pub mod Rows
use dht_cpp.Base.{ℕ, Bool, ◌==◌}

-- The rows of `FORSTAT`, in the source's order.
pub data Stat : Type 0 where
  st_enum_start ctl_n_recv_bufs ctl_n_send_bufs ctl_n_gpm_bufs ctl_ping_window : Stat
  spam_size_ping spam_ping_overflow spam_size_q_gp spam_q_gp_overflow spam_size_rx : Stat
  spam_rx_overflow rx_spam rx_tot rx_err rx_q_ap rx_q_fn rx_q_pg rx_q_gp rx_r_ap rx_r_fn : Stat
  rx_r_gp rx_r_gp_nodes rx_r_gp_values rx_r_pg tx_msg_drop_early_error : Stat
  tx_msg_drop_late_error tx_msg_drop_bad_addr tx_ping_drop_spam tx_ping_drop_ctl tx_tot : Stat
  tx_err tx_q_fn tx_q_pg tx_q_gp tx_q_gp_drop_spam tx_r_ap tx_r_fn tx_r_gp tx_r_pg : Stat
  rt_replace_accept rt_replace_reject rt_replace_invalid rt_newnode_invalid rt_miss : Stat
  gpm_ih_drop_buf_overflow gpm_ih_drop_too_many_hops gpm_ih_inserted : Stat
  gpm_r_gp_lookup_failed db_update_peers db_rows_inserted ih_pursue_accept : Stat
  ih_pursue_reject bd_a_no_error bd_x_msg_too_short bd_x_msg_too_long bd_x_bad_eom : Stat
  bd_x_bad_char bd_x_dict_is_key bd_x_list_is_key bd_y_bad_length_peer : Stat
  bd_y_bad_length_nodes bd_y_bad_length_ih bd_y_bad_length_nid bd_y_bad_length_target : Stat
  bd_y_inconsistent_type bd_y_no_nid bd_y_no_tok bd_y_port_overflow bd_y_ap_no_port : Stat
  bd_y_apgp_no_ih bd_y_empty_gp_response bd_y_fn_no_target bd_y_vals_wo_token : Stat
  bd_z_tok_too_long bd_z_bad_tok_fn bd_z_bad_tok_gp bd_z_bad_tok_pg bd_z_token_too_long : Stat
  bd_z_token_unrecognized bd_z_naked_value bd_z_rogue_int bd_z_unexpected_list : Stat
  bd_z_unknown_query bd_z_unknown_type bd_z_incongruous_message bd_z_dicts_too_deep : Stat
  bd_z_ping_body bd_z_error_type bd_z_negative_int bd_z_ap_bad_name bd_z_ap_bad_token : Stat
  bd_z_nodes_invalid bd_z_peers_bad bd_z_bullshit_dkad bd_z_evil_source : Stat
  err_bd_handle_fallthrough err_bd_empty_r_gp err_rt_no_contacts err_rt_pulled_bad_node : Stat
  err_rx_exc st_enum_end : Stat

-- The value of an enumerator, by which the counters are indexed.
unfoldable pub index : Stat → ℕ
index st_enum_start = 0
index ctl_n_recv_bufs = 1
index ctl_n_send_bufs = 2
index ctl_n_gpm_bufs = 3
index ctl_ping_window = 4
index spam_size_ping = 5
index spam_ping_overflow = 6
index spam_size_q_gp = 7
index spam_q_gp_overflow = 8
index spam_size_rx = 9
index spam_rx_overflow = 10
index rx_spam = 11
index rx_tot = 12
index rx_err = 13
index rx_q_ap = 14
index rx_q_fn = 15
index rx_q_pg = 16
index rx_q_gp = 17
index rx_r_ap = 18
index rx_r_fn = 19
index rx_r_gp = 20
index rx_r_gp_nodes = 21
index rx_r_gp_values = 22
index rx_r_pg = 23
index tx_msg_drop_early_error = 24
index tx_msg_drop_late_error = 25
index tx_msg_drop_bad_addr = 26
index tx_ping_drop_spam = 27
index tx_ping_drop_ctl = 28
index tx_tot = 29
index tx_err = 30
index tx_q_fn = 31
index tx_q_pg = 32
index tx_q_gp = 33
index tx_q_gp_drop_spam = 34
index tx_r_ap = 35
index tx_r_fn = 36
index tx_r_gp = 37
index tx_r_pg = 38
index rt_replace_accept = 39
index rt_replace_reject = 40
index rt_replace_invalid = 41
index rt_newnode_invalid = 42
index rt_miss = 43
index gpm_ih_drop_buf_overflow = 44
index gpm_ih_drop_too_many_hops = 45
index gpm_ih_inserted = 46
index gpm_r_gp_lookup_failed = 47
index db_update_peers = 48
index db_rows_inserted = 49
index ih_pursue_accept = 50
index ih_pursue_reject = 51
index bd_a_no_error = 52
index bd_x_msg_too_short = 53
index bd_x_msg_too_long = 54
index bd_x_bad_eom = 55
index bd_x_bad_char = 56
index bd_x_dict_is_key = 57
index bd_x_list_is_key = 58
index bd_y_bad_length_peer = 59
index bd_y_bad_length_nodes = 60
index bd_y_bad_length_ih = 61
index bd_y_bad_length_nid = 62
index bd_y_bad_length_target = 63
index bd_y_inconsistent_type = 64
index bd_y_no_nid = 65
index bd_y_no_tok = 66
index bd_y_port_overflow = 67
index bd_y_ap_no_port = 68
index bd_y_apgp_no_ih = 69
index bd_y_empty_gp_response = 70
index bd_y_fn_no_target = 71
index bd_y_vals_wo_token = 72
index bd_z_tok_too_long = 73
index bd_z_bad_tok_fn = 74
index bd_z_bad_tok_gp = 75
index bd_z_bad_tok_pg = 76
index bd_z_token_too_long = 77
index bd_z_token_unrecognized = 78
index bd_z_naked_value = 79
index bd_z_rogue_int = 80
index bd_z_unexpected_list = 81
index bd_z_unknown_query = 82
index bd_z_unknown_type = 83
index bd_z_incongruous_message = 84
index bd_z_dicts_too_deep = 85
index bd_z_ping_body = 86
index bd_z_error_type = 87
index bd_z_negative_int = 88
index bd_z_ap_bad_name = 89
index bd_z_ap_bad_token = 90
index bd_z_nodes_invalid = 91
index bd_z_peers_bad = 92
index bd_z_bullshit_dkad = 93
index bd_z_evil_source = 94
index err_bd_handle_fallthrough = 95
index err_bd_empty_r_gp = 96
index err_rt_no_contacts = 97
index err_rt_pulled_bad_node = 98
index err_rx_exc = 99
index st_enum_end = 100

-- `==` on `stat_t`.
abbrev pub stat_eq : Stat → Stat → Bool
stat_eq a b = index a == index b
