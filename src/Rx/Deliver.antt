-- ===== src/Rx/Deliver.antt =====
-- src/hw/rx.c, PA6TEth_ProcessRX: the delivery of one frame to a CMD_READ or S2_READORPHAN.
use pa6t_eth.Base.{
  ℕ, ◌+◌, List, [], ◌∷◌, Bool, true, false, ◌&&◌, not, Option, none, some, ◌==◌, if◌then◌else◌,
  is_set, inc32, bit_and,
}
use pa6t_eth.Regs.Xct.{xct_macrx_cast_m, xct_macrx_cast_broad, xct_macrx_cast_multi}
use pa6t_eth.Machine.{
  Run, skip, ◌>>=◌, ◌>>◌, call, call_, get_unit, get_reqs, modify_unit, get_req, modify_req,
  get_sdk, when, load_bytes,
}
use pa6t_eth.Machine.Structs.{
  IoSana2Req, Opener, PendingRead, Flags, success, s2err_no_resources, eth_addr_len, eth_hdr_len,
}
use pa6t_eth.Machine.Calls.{
  free_vec, reply_msg, forbid, permit, call_hook, CopyHookMsg, s2_copy_to_buff,
}
use pa6t_eth.Requests.{find_opener, read_list_of, read_list, set_read_list, is_readorphan, ReadList}

-- An accepted frame: its descriptor, the buffer that holds it, its type and its payload's length.
pub record RxFrame : Type 0 where
  pub macrx : ℕ
  pub eth_frame : ℕ
  pub ether_type : ℕ
  pub pay_len : ℕ

unfoldable pub cast_flags : ℕ → Flags → Flags
cast_flags macrx f = record f {
  sana2iof_bcast = bit_and macrx xct_macrx_cast_m == xct_macrx_cast_broad;
  sana2iof_mcast =
      not (bit_and macrx xct_macrx_cast_m == xct_macrx_cast_broad)
      && (bit_and macrx xct_macrx_cast_m == xct_macrx_cast_multi);
}

unfoldable pub copy_msg : RxFrame → ℕ → CopyHookMsg
copy_msg f cookie = record {
  method = s2_copy_to_buff;
  to = cookie;
  from = f.eth_frame + eth_hdr_len;
  size = f.pay_len;
}

-- S2ERR_NO_RESOURCES with S2WERR_BUFF_ERROR.
unfoldable pub no_buffer : ℕ → Run
no_buffer r = do
  q ← get_req r
  sdk ← get_sdk
  modify_req r (λ q. record q { io_error = s2err_no_resources; wire_error = sdk.s2werr_buff_error })

unfoldable pub run_copy_hook : RxFrame → ℕ → ℕ → ℕ → Run
run_copy_hook f r cookie hook = do
  ok ← call (call_hook hook r (copy_msg f cookie))
  when (not (is_set ok)) (no_buffer r)

-- For a CMD_READ an opener with no hook is an error; for an S2_READORPHAN it is not.
unfoldable pub copy_with : Bool → RxFrame → ℕ → ℕ → Option Opener → Run
copy_with strict f r cookie none = skip
copy_with strict f r cookie (some op) =
    when (is_set cookie)
      (if is_set op.s2hook then run_copy_hook f r cookie op.s2hook else when strict (no_buffer r))

-- The end of both paths: the cookie goes back, success clears the wire error, and the reply.
unfoldable pub finish_read : ℕ → ℕ → Run
finish_read r cookie = do
  modify_req r (λ q. record q {
    ios2_data = cookie;
    wire_error = elim q.io_error [ success ↦ 0 | _ ↦ q.wire_error ];
  })
  call_ (reply_msg r)

-- The fields that the frame gives the request; `packet_type` is set for an S2_READORPHAN only.
unfoldable pub fill_request : RxFrame → List ℕ → List ℕ → IoSana2Req → IoSana2Req
fill_request f src dst q = record q {
  data_length = f.pay_len;
  src_addr = src;
  dst_addr = dst;
  io_flags = cast_flags f.macrx q.io_flags;
}

unfoldable pub deliver_to : Bool → RxFrame → ℕ → Run
deliver_to strict f r = do
  src ← load_bytes (f.eth_frame + 6) eth_addr_len
  dst ← load_bytes f.eth_frame eth_addr_len
  q ← get_req r
  modify_req r (λ q. fill_request f src dst q)
  u ← get_unit
  copy_with strict f r q.stat_data (find_opener q.buffer_management u.opener_list)
  finish_read r q.stat_data

unfoldable pub deliver_read : RxFrame → ℕ → Run
deliver_read f r = deliver_to true f r

unfoldable pub deliver_orphan : RxFrame → ℕ → Run
deliver_orphan f r = do
  modify_req r (λ q. record q { packet_type = f.ether_type })
  deliver_to false f r

-- The first S2_READORPHAN of the event list, and the list without it.
abbrev pub with_head : ℕ → Option (ℕ × List ℕ) → Option (ℕ × List ℕ)
with_head r none = none
with_head r (some (o, rest)) = some (o, r ∷ rest)

unfoldable pub take_orphan : (ℕ → IoSana2Req) → List ℕ → Option (ℕ × List ℕ)
take_orphan reqs [] = none
take_orphan reqs (r ∷ rs) =
    if is_readorphan (reqs r).io_command then some (r, rs) else with_head r (take_orphan reqs rs)

unfoldable pub count_drop : Run
count_drop = do modify_unit (λ u. record u { stat_rx_dropped = inc32 u.stat_rx_dropped })

unfoldable pub offer_orphan : RxFrame → Option (ℕ × List ℕ) → Run
offer_orphan f none = do call_ permit; count_drop
offer_orphan f (some (r, rest)) = do
  modify_unit (λ u. record u { event_list = rest })
  call_ permit
  deliver_orphan f r

-- The head of the list of the frame's type is served; with no such read, an S2_READORPHAN.
unfoldable pub offer_read : RxFrame → ReadList → List PendingRead → Run
offer_read f k [] = do reqs ← get_reqs; u ← get_unit; offer_orphan f (take_orphan reqs u.event_list)
offer_read f k (pr ∷ rest) = do
  modify_unit (set_read_list k rest)
  call_ permit
  call_ (free_vec pr.at)
  deliver_read f pr.ioreq

unfoldable pub dispatch_frame : RxFrame → Run
dispatch_frame f = do
  call_ forbid
  u ← get_unit
  offer_read f (read_list_of f.ether_type) (read_list (read_list_of f.ether_type) u)
