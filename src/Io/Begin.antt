-- ===== src/Io/Begin.antt =====
-- src/BeginIO.c, _manager_BeginIO.
use pa6t_eth.Base.{
  ℕ, ◌*◌, ◌%◌, ◌^◌, List, [], ◌∷◌, ◌++◌, Bool, true, false, not, Option, none, some, ◌==◌, ltb, leb,
  if◌then◌else◌, is_set,
}
use pa6t_eth.Machine.{
  Run, Sdk, ◌>>=◌, ◌>>◌, call, call_, get_unit, modify_unit, get_base, get_req, modify_req, get_sdk,
  when, modify_query, store_stats,
}
use pa6t_eth.Machine.Structs.{
  IoSana2Req, DeviceQuery, Opener, IoError, success, s2err_bad_argument, s2err_bad_state,
  s2err_outofservice, s2err_no_resources, ioerr_nocmd, Command, s2_devicequery,
  s2_getstationaddress, s2_configinterface, s2_online, s2_offline, cmd_read, s2_readorphan,
  cmd_write, s2_broadcast, s2_multicast, cmd_flush, s2_onevent, s2_getglobalstats,
  s2_addmulticastaddress, s2_delmulticastaddresses, s2_delmulticastaddress,
  s2_addmulticastaddresses, s2_tracktype, s2_untracktype, s2_sana2hook, other_command, eth_addr_len,
  eth_max_frame,
}
use pa6t_eth.Machine.Calls.{alloc_vec, reply_msg, put_msg, forbid, permit}
use pa6t_eth.Requests.{find_opener, read_list_of, read_list, set_read_list}
use pa6t_eth.Hw.Tx.{transmit_packet}

unfoldable pub reply_ioreq : ℕ → IoError → ℕ → Run
reply_ioreq r err werr = do
  q ← get_req r
  modify_req r (λ q. record q { io_error = err; wire_error = werr })
  when (not q.io_flags.iof_quick) (call_ (reply_msg r))

-- `io_Flags &= ~IOF_QUICK`
abbrev pub not_quick : IoSana2Req → IoSana2Req
not_quick q = record q { io_flags = record (q.io_flags) { iof_quick = false } }

unfoldable pub queue_to_task : ℕ → Run
queue_to_task r = do
  modify_req r not_quick
  modify_unit (λ u. record u { port_msgs = u.port_msgs ++ (r ∷ []) })
  call_ (put_msg r)

-- A field is written if the caller's structure reaches its end.
unfoldable pub fill_query : Sdk → DeviceQuery → DeviceQuery
fill_query sdk q =
    let supply =
      if ltb q.size_available sdk.sizeof_device_query
      then q.size_available
      else sdk.sizeof_device_query in
    record q {
      size_supplied = supply;
      dev_query_format = 0;
      device_level = 0;
      addr_field_size =
          if leb sdk.addr_field_size_end supply then eth_addr_len * 8 else q.addr_field_size;
      mtu = if leb sdk.mtu_end supply then 1500 else q.mtu;
      bps = if leb sdk.bps_end supply then 1000000000 else q.bps;
      hardware_type =
          if leb sdk.hardware_type_end supply then sdk.s2_wire_type_ethernet else q.hardware_type;
      raw_mtu = if leb sdk.raw_mtu_end supply then eth_max_frame else q.raw_mtu;
    }

unfoldable pub device_query : ℕ → Run
device_query r = do
  q ← get_req r
  sdk ← get_sdk
  if is_set q.stat_data
      then (do modify_query q.stat_data (fill_query sdk); reply_ioreq r success 0)
      else reply_ioreq r s2err_bad_argument sdk.s2werr_null_pointer

unfoldable pub station_address : ℕ → Run
station_address r = do
  b ← get_base
  modify_req r (λ q. record q { src_addr = b.mac_addr; dst_addr = b.mac_addr })
  reply_ioreq r success 0

unfoldable pub go_online : ℕ → Run
go_online r = do
  u ← get_unit
  sdk ← get_sdk
  if u.online then reply_ioreq r s2err_bad_state sdk.s2werr_unit_online else queue_to_task r

unfoldable pub go_offline : ℕ → Run
go_offline r = do
  u ← get_unit
  sdk ← get_sdk
  if u.online then queue_to_task r else reply_ioreq r s2err_bad_state sdk.s2werr_unit_offline

abbrev pub is_opener : Option Opener → Bool
is_opener none = false
is_opener (some op) = true

-- The cookie moves to `stat_data`, and `ios2_data` is the request itself.
abbrev pub save_cookie : ℕ → IoSana2Req → IoSana2Req
save_cookie r q = record q { stat_data = q.ios2_data; ios2_data = r }

unfoldable pub queue_read : ℕ → ℕ → Run
queue_read r pr = do
  q ← get_req r
  modify_req r (λ q. not_quick (save_cookie r q))
  call_ forbid
  modify_unit (λ u.
      set_read_list (read_list_of (q.packet_type % 2 ^ 16))
        (read_list (read_list_of (q.packet_type % 2 ^ 16)) u
          ++ (record { at = pr; ioreq = r } ∷ []))
        u)
  call_ permit

unfoldable pub begin_read : ℕ → Run
begin_read r = do
  u ← get_unit
  q ← get_req r
  sdk ← get_sdk
  if u.online
      then (if is_opener (find_opener q.buffer_management u.opener_list)
          then (do
            pr ← call (alloc_vec sdk.sizeof_pending_read)
            if is_set pr
                then queue_read r pr
                else reply_ioreq r s2err_no_resources sdk.s2werr_generic_error)
          else reply_ioreq r s2err_bad_state sdk.s2werr_generic_error)
      else reply_ioreq r s2err_outofservice sdk.s2werr_unit_offline

-- The tail of the event list, under Forbid.
unfoldable pub queue_event : ℕ → Run
queue_event r = do
  call_ forbid
  modify_unit (λ u. record u { event_list = u.event_list ++ (r ∷ []) })
  call_ permit

unfoldable pub begin_readorphan : ℕ → Run
begin_readorphan r = do
  u ← get_unit
  q ← get_req r
  sdk ← get_sdk
  if is_opener (find_opener q.buffer_management u.opener_list)
      then (do modify_req r (λ q. not_quick (save_cookie r q)); queue_event r)
      else reply_ioreq r s2err_bad_state sdk.s2werr_generic_error

unfoldable pub begin_onevent : ℕ → Run
begin_onevent r = do modify_req r not_quick; queue_event r

abbrev pub broadcast_addr : List ℕ
broadcast_addr = 0xFF ∷ 0xFF ∷ 0xFF ∷ 0xFF ∷ 0xFF ∷ 0xFF ∷ []

-- `broadcast` is `io_Command == S2_BROADCAST`.
unfoldable pub begin_write : Bool → ℕ → Run
begin_write broadcast r = do
  u ← get_unit
  sdk ← get_sdk
  if u.online
      then (do
        modify_req r (λ q.
            save_cookie r
              (record q { dst_addr = if broadcast then broadcast_addr else q.dst_addr }))
        transmit_packet r)
      else reply_ioreq r s2err_outofservice sdk.s2werr_unit_offline

unfoldable pub global_stats : ℕ → Run
global_stats r = do
  q ← get_req r
  sdk ← get_sdk
  u ← get_unit
  if is_set q.stat_data
      then (do
        store_stats q.stat_data (record {
          packets_received = u.stat_rx;
          packets_sent = u.stat_tx;
          bad_data = 0;
          overruns = 0;
          unknown_types_received = u.stat_rx_dropped;
          reconfigurations = 0;
        })
        reply_ioreq r success 0)
      else reply_ioreq r s2err_bad_argument sdk.s2werr_null_pointer

-- `op->s2hook = hook` for the opener that `find_opener` finds.
unfoldable pub set_hook : ℕ → ℕ → List Opener → List Opener
set_hook bm hook [] = []
set_hook bm hook (op ∷ ops) =
    if op.bm_cookie == bm then record op { s2hook = hook } ∷ ops else op ∷ set_hook bm hook ops

unfoldable pub sana2_hook : ℕ → Run
sana2_hook r = do
  u ← get_unit
  q ← get_req r
  sdk ← get_sdk
  if is_opener (find_opener q.buffer_management u.opener_list)
      then (do
        modify_unit
            (λ u. record u { opener_list = set_hook q.buffer_management q.ios2_data u.opener_list })
        reply_ioreq r success 0)
      else reply_ioreq r s2err_bad_state sdk.s2werr_generic_error

-- The `switch`.
unfoldable pub begin_command : Command → ℕ → Run
begin_command s2_devicequery r = device_query r
begin_command s2_getstationaddress r = station_address r
begin_command s2_configinterface r = queue_to_task r
begin_command s2_online r = go_online r
begin_command s2_offline r = go_offline r
begin_command cmd_read r = begin_read r
begin_command s2_readorphan r = begin_readorphan r
begin_command cmd_write r = begin_write false r
begin_command s2_broadcast r = begin_write true r
begin_command s2_multicast r = begin_write false r
begin_command cmd_flush r = queue_to_task r
begin_command s2_onevent r = begin_onevent r
begin_command s2_getglobalstats r = global_stats r
begin_command s2_addmulticastaddress r = reply_ioreq r success 0
begin_command s2_delmulticastaddresses r = reply_ioreq r success 0
begin_command s2_delmulticastaddress r = reply_ioreq r success 0
begin_command s2_addmulticastaddresses r = reply_ioreq r success 0
begin_command s2_tracktype r = reply_ioreq r success 0
begin_command s2_untracktype r = reply_ioreq r success 0
begin_command s2_sana2hook r = sana2_hook r
begin_command (other_command n) r = do
  sdk ← get_sdk
  reply_ioreq r ioerr_nocmd sdk.s2werr_generic_error

-- Both error fields are cleared before the dispatch.
unfoldable pub begin_io : ℕ → Run
begin_io r = do
  q ← get_req r
  modify_req r (λ q. record q { io_error = success; wire_error = 0 })
  begin_command q.io_command r
