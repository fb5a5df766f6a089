-- ===== src/Hw/Tx.antt =====
-- src/hw/tx.c: the transmission of one frame, and the reclaiming of the buffer of the one before.
-- The words of the TX ring are shared with the hardware: a read of one is answered by it.
use pa6t_eth.Base.{
  ℕ, zero, suc, ◌+◌, ◌-◌, ◌%◌, ◌^◌, List, [], ◌∷◌, Bool, true, false, ◌&&◌, not, Option, none, some,
  ltb, if◌then◌else◌, is_set, inc32, bit_and, bit_or, update, take, ◌++◌,
}
use pa6t_eth.Regs.Shift.{shr}
use pa6t_eth.Regs.Xct.{
  xct_mactx_o, xct_mactx_st, xct_mactx_crc_pad, xct_mactx_llen, xct_ptr_len, xct_ptr_addr,
}
use pa6t_eth.Regs.Dma.{
  pas_dma_txchan_tcmdsta, pas_dma_txchan_tcmdsta_en, pas_dma_txchan_tcmdsta_db, pas_dma_txchan_incr,
}
use pa6t_eth.Machine.{
  M, Run, skip, pure, ◌>>=◌, ◌>>◌, call, call_, get_unit, modify_unit, get_base, get_req,
  modify_req, get_sdk, when, store_bytes, read_dma_reg, write_dma_reg, pasemi_wmb, uint32_of,
}
use pa6t_eth.Machine.Structs.{
  Opener, IoError, success, s2err_tx_failure, s2err_mtu_exceeded, s2err_no_resources,
  s2err_bad_argument, eth_addr_len, eth_hdr_len, eth_max_frame, tx_ring_size, tx_index,
}
use pa6t_eth.Machine.Calls.{
  DmaFlags, alloc_vec, free_vec, start_dma, end_dma, alloc_dma_list, get_dma_list, free_dma_list,
  reply_msg, reschedule, obtain, release, tx_lock, signal, call_hook, CopyHookMsg,
  s2_copy_from_buff, read_tx_desc, store_tx_desc,
}
use pa6t_eth.Requests.{find_opener}

-- DMA_ReadFromRAM, and the same with DMAF_NoModify.
abbrev pub from_ram : DmaFlags
from_ram = record { read_from_ram = true; no_modify = false }

abbrev pub from_ram_done : DmaFlags
from_ram_done = record { read_from_ram = true; no_modify = true }

-- A request that the caller made with IOF_QUICK is complete on return, with no reply.
-- (`reply_ioreq` of src/BeginIO.c has the same text.)
unfoldable pub tx_reply : ℕ → IoError → ℕ → Run
tx_reply r err werr = do
  q ← get_req r
  modify_req r (λ q. record q { io_error = err; wire_error = werr })
  when (not q.io_flags.iof_quick) (call_ (reply_msg r))

-- `TX_DESC(ring, n)` as an lvalue, and as a value that the hardware may have changed.
unfoldable pub store_desc : ℕ → ℕ → Run
store_desc n v = do
  modify_unit (λ u. record u { tx_desc = update u.tx_desc (tx_index n) v })
  call_ (store_tx_desc (tx_index n) v)

abbrev pub tx_owned : ℕ → M Bool
tx_owned n = do v ← call (read_tx_desc (tx_index n)); pure (is_set (bit_and v xct_mactx_o))

-- The polling loop, with `tries` rounds to go.
unfoldable pub tx_poll : ℕ → ℕ → Run
tx_poll zero fill w = (tt, w)
tx_poll (suc tries) fill w = elim (tx_owned fill w).0 [
  | true ↦ tx_poll tries fill (tx_owned fill w).1
  | false ↦ (tt, (tx_owned fill w).1)
]

abbrev pub tx_tries : ℕ
tx_tries = 50000

-- The register is read for the message that the hardware is stuck.
unfoldable pub tx_wait : ℕ → Run
tx_wait fill = do
  tx_poll tx_tries fill
  busy ← tx_owned fill
  when busy (do
    call_ reschedule
    stuck ← tx_owned fill
    base ← get_base
    when stuck
        (do _sta ← read_dma_reg (pas_dma_txchan_tcmdsta (uint32_of base.tx_channel_num)); skip))

unfoldable pub tx_cleanup_pending : Run
tx_cleanup_pending = do
  u ← get_unit
  when (is_set u.tx_buf_pending) (do
    tx_wait u.tx_fill_pending
    store_desc u.tx_fill_pending 0
    store_desc ((u.tx_fill_pending + 1) % 2 ^ 32) 0
    pasemi_wmb
    call_ (end_dma u.tx_buf_pending u.tx_buf_pending_len from_ram_done)
    call_ (free_vec u.tx_buf_pending)
    modify_unit (λ v. record v { tx_buf_pending = 0 }))

-- The length of the frame of a payload: `uint32` addition, and at least 60 bytes.
unfoldable pub tx_frame_len : ℕ → ℕ
tx_frame_len pay_len =
    if ltb ((eth_hdr_len + pay_len) % 2 ^ 32) 60 then 60 else (eth_hdr_len + pay_len) % 2 ^ 32

unfoldable pub desc0 : ℕ → ℕ
desc0 frame_len =
    bit_or (bit_or (bit_or xct_mactx_o xct_mactx_st) xct_mactx_crc_pad) (xct_mactx_llen frame_len)

unfoldable pub desc1 : ℕ → ℕ → ℕ
desc1 frame_len tx_phys = bit_or (xct_ptr_len frame_len) (xct_ptr_addr tx_phys)

-- Under the ring's lock: the buffer of the frame before is reclaimed, this frame is queued.
unfoldable pub tx_submit : ℕ → ℕ → ℕ → Run
tx_submit tx_buf frame_len tx_phys = do
  call_ (obtain tx_lock)
  tx_cleanup_pending
  u ← get_unit
  store_desc u.tx_next_fill (desc0 frame_len)
  store_desc ((u.tx_next_fill + 1) % 2 ^ 32) (desc1 frame_len tx_phys)
  pasemi_wmb
  modify_unit
      (λ v. record v { tx_next_fill = bit_and ((u.tx_next_fill + 2) % 2 ^ 32) (tx_ring_size - 1) })
  base ← get_base
  write_dma_reg (pas_dma_txchan_tcmdsta (uint32_of base.tx_channel_num))
      (bit_or pas_dma_txchan_tcmdsta_en pas_dma_txchan_tcmdsta_db)
  write_dma_reg (pas_dma_txchan_incr (uint32_of base.tx_channel_num)) 1
  modify_unit (λ x. record x {
    tx_buf_pending = tx_buf;
    tx_buf_pending_len = frame_len;
    tx_fill_pending = u.tx_next_fill;
  })
  call_ (release tx_lock)

-- The end of a transmission that was queued.
unfoldable pub tx_done : ℕ → Run
tx_done r = do
  modify_unit (λ u. record u { stat_tx = inc32 u.stat_tx })
  tx_reply r success 0
  v ← get_unit
  when (v.online && is_set v.irq_wait_task) (call_ (signal v.irq_wait_task v.irq_signal_mask))

-- A transmission that fails after the allocation gives its buffer back.
unfoldable pub tx_abandon : ℕ → ℕ → IoError → ℕ → Run
tx_abandon r tx_buf err werr = do call_ (free_vec tx_buf); tx_reply r err werr

unfoldable pub tx_map : ℕ → ℕ → ℕ → Run
tx_map r tx_buf frame_len = do
  sdk ← get_sdk
  nentries ← call (start_dma tx_buf frame_len from_ram)
  if is_set (nentries % 2 ^ 32)
      then (do
        dlist ← call (alloc_dma_list (nentries % 2 ^ 32))
        if is_set dlist
            then (do
              phys ← call (get_dma_list tx_buf frame_len from_ram dlist)
              call_ (free_dma_list dlist)
              tx_submit tx_buf frame_len (phys % 2 ^ 32)
              tx_done r)
            else (do
              call_ (end_dma tx_buf frame_len from_ram_done)
              tx_abandon r tx_buf s2err_no_resources sdk.s2werr_generic_error))
      else tx_abandon r tx_buf s2err_tx_failure sdk.s2werr_generic_error

abbrev pub tx_copy_msg : ℕ → ℕ → ℕ → CopyHookMsg
tx_copy_msg tx_buf cookie pay_len = record {
  method = s2_copy_from_buff;
  to = tx_buf + eth_hdr_len;
  from = cookie;
  size = pay_len;
}

unfoldable pub tx_copy : ℕ → ℕ → ℕ → ℕ → ℕ → Run
tx_copy r tx_buf frame_len cookie hook = do
  q ← get_req r
  ok ← call (call_hook hook r (tx_copy_msg tx_buf cookie q.data_length))
  modify_req r (λ q'. record q' { ios2_data = cookie })
  sdk ← get_sdk
  if is_set ok
      then tx_map r tx_buf frame_len
      else tx_abandon r tx_buf s2err_no_resources sdk.s2werr_buff_error

-- The hook that copies, if there are an opener and a cookie.
unfoldable pub tx_hook : ℕ → Option Opener → ℕ
tx_hook cookie none = 0
tx_hook cookie (some op) = if is_set cookie then op.s2hook else 0

-- The 14 bytes of the Ethernet header.
unfoldable pub eth_header : List ℕ → List ℕ → ℕ → List ℕ
eth_header dst src etype =
    take eth_addr_len dst
    ++ (take eth_addr_len src ++ (shr etype 8 % 2 ^ 8 ∷ bit_and etype 0xff ∷ []))

unfoldable pub tx_fill_buffer : ℕ → ℕ → ℕ → Run
tx_fill_buffer r tx_buf frame_len = do
  base ← get_base
  q ← get_req r
  store_bytes tx_buf (eth_header q.dst_addr base.mac_addr (bit_and q.packet_type 0xFFFF))
  u ← get_unit
  sdk ← get_sdk
  if is_set (tx_hook q.stat_data (find_opener q.buffer_management u.opener_list))
      then tx_copy r tx_buf frame_len q.stat_data
          (tx_hook q.stat_data (find_opener q.buffer_management u.opener_list))
      else (do
        modify_req r (λ q. record q { ios2_data = q.stat_data })
        tx_abandon r tx_buf s2err_bad_argument sdk.s2werr_generic_error)

unfoldable pub tx_alloc : ℕ → ℕ → Run
tx_alloc r frame_len = do
  sdk ← get_sdk
  tx_buf ← call (alloc_vec frame_len)
  if is_set tx_buf
      then tx_fill_buffer r tx_buf frame_len
      else tx_reply r s2err_no_resources sdk.s2werr_generic_error

unfoldable pub transmit_packet : ℕ → Run
transmit_packet r = do
  u ← get_unit
  q ← get_req r
  sdk ← get_sdk
  if is_set u.tx_ring
      then (if ltb eth_max_frame (tx_frame_len q.data_length)
          then tx_reply r s2err_mtu_exceeded sdk.s2werr_generic_error
          else tx_alloc r (tx_frame_len q.data_length))
      else tx_reply r s2err_tx_failure sdk.s2werr_generic_error
