-- ===== src/Main/Send.antt =====
-- cht/main.cpp: `send_msg`, and the callback for a request that is done.
use dht_cpp.Base.{ℕ, zero, suc, Bool, not, List, [], ◌∷◌, Bytes, if◌then◌else◌}
use dht_cpp.Dht.{Peerinfo}
use dht_cpp.Main.State.{Uv, Node, Request, count_stat}
use dht_cpp.Msg.{Written}
use dht_cpp.Rt.Address.{validate_addr}
use dht_cpp.Stat.{
  Stat, ctl_n_send_bufs, tx_tot, tx_msg_drop_bad_addr, tx_msg_drop_early_error,
  tx_msg_drop_late_error,
}

-- `MSG_SEND_LEN`
abbrev pub msg_send_len : ℕ
msg_send_len = 256

module _ (uv : Uv) where
  -- A free request, or a new one.
  unfoldable pub take_request : List Bytes → Node → Bytes × Node
  take_request [] s = (uv.garbage, count_stat ctl_n_send_bufs s)
  take_request (buf ∷ bufs) s = (buf, record s { send_req_pool = bufs })

  -- A request that `uv_udp_send` refuses is neither pending nor free afterwards.
  unfoldable pub send_msg : (Bytes → Written) → Peerinfo → Stat → Node → Node
  unfolding take_request validate_addr
  send_msg write_fn dest acct s =
      let (buf, s₁) = take_request s.send_req_pool s in
      let (written, len) = write_fn buf in
      let s₂ = record s₁ { n_sends = suc s₁.n_sends } in
      let sent = record s₂ {
        pending = record { buf = written; len = len; dest = dest } ∷ s₂.pending;
      } in
      if not (validate_addr dest.in_addr dest.sin_port)
      then count_stat tx_msg_drop_bad_addr s
      else if uv.takes s₁.n_sends
      then count_stat tx_tot (count_stat acct sent)
      else count_stat tx_msg_drop_early_error s₂

-- The requests without the `n`th from the newest, and the free requests with it.
unfoldable pub remove_request : ℕ → List Request → List Request
remove_request n [] = []
remove_request zero (r ∷ rs) = rs
remove_request (suc n) (r ∷ rs) = r ∷ remove_request n rs

unfoldable pub free_request : ℕ → List Request → List Bytes → List Bytes
free_request n [] bufs = bufs
free_request zero (r ∷ rs) bufs = r.buf ∷ bufs
free_request (suc n) (r ∷ rs) bufs = free_request n rs bufs

-- `cb_send_msg`, for the `n`th request from the newest; `failed` is `status < 0`.
unfoldable pub cb_send_msg : Bool → ℕ → Node → Node
unfolding remove_request free_request
cb_send_msg failed n s =
    let s' = if failed then count_stat tx_msg_drop_late_error s else s in
    record s' {
      pending = remove_request n s'.pending;
      send_req_pool = free_request n s'.pending s'.send_req_pool;
    }
