-- ===== src/Rx/Process.antt =====
-- src/hw/rx.c, PA6TEth_ProcessRX: the checks on a completed descriptor, the reuse of its buffer,
-- and the loop over the ring.
use pa6t_eth.Base.{
  ℕ, zero, suc, ◌+◌, ◌-◌, ◌*◌, ◌%◌, ◌^◌, Bool, true, false, ◌&&◌, ◌||◌, not, ◌==◌, ltb, leb,
  if◌then◌else◌, is_set, inc32, bit_and, bit_or, update,
}
use pa6t_eth.Regs.Shift.{shr}
use pa6t_eth.Regs.Xct.{
  xct_macrx_o, xct_macrx_crc, xct_macrx_llen_m, xct_macrx_llen_s, xct_rxres_8b_eval_m,
  xct_rxres_8b_eval_s, xct_ptr_addr_m, xct_rxb_len, xct_rxb_addr,
}
use pa6t_eth.Regs.Dma.{pas_dma_rxchan_incr, pas_dma_rxint_incr}
use pa6t_eth.Regs.Iob.{pas_iob_com_pkthdrcnt}
use pa6t_eth.Machine.{
  M, Run, pure, ◌>>=◌, ◌>>◌, get_unit, modify_unit, get_base, when, load_byte, write_dma_reg,
  write_iob_mmio, pasemi_wmb, uint32_of,
}
use pa6t_eth.Machine.Structs.{
  EthUnit, rx_index, rx_buff_index, rx_ring_size, rx_buf_ring_size, num_rx_bufs, rx_buf_size,
  eth_hdr_len,
}
use pa6t_eth.Rx.Deliver.{dispatch_frame, count_drop}

-- `x + k` of a `uint32`.
abbrev pub add32 : ℕ → ℕ → ℕ
add32 x k = (x + k) % 2 ^ 32

abbrev pub rx_word : EthUnit → ℕ → ℕ
rx_word u n = u.rx_desc (rx_index n)

-- The descriptor at `n` is complete.
abbrev pub owned : EthUnit → ℕ → Bool
owned u n = is_set (bit_and (rx_word u n) xct_macrx_o)

-- The slot of the buffer ring that the hardware filled; RX_RING_SIZE is "no slot".
unfoldable pub ring_slot : EthUnit → ℕ → ℕ
ring_slot u n =
    let eval =
      shr (bit_and (rx_word u (add32 n 1)) xct_rxres_8b_eval_m) xct_rxres_8b_eval_s % 2 ^ 32 in
    if ltb 0 eval then eval - 1 else rx_ring_size

-- The buffer that was posted there; NUM_RX_BUFS is "no buffer".
unfoldable pub actual_buf : EthUnit → ℕ → ℕ
actual_buf u n =
    if ltb (ring_slot u n) rx_ring_size then u.rx_slot_buf (ring_slot u n) else num_rx_bufs

-- The frame's length with header and FCS.
unfoldable pub line_len : EthUnit → ℕ → ℕ
line_len u n = shr (bit_and (rx_word u n) xct_macrx_llen_m) xct_macrx_llen_s % 2 ^ 32

abbrev pub ptr_phys : EthUnit → ℕ → ℕ
ptr_phys u n = bit_and (rx_word u (add32 n 2)) xct_ptr_addr_m % 2 ^ 32

-- The frame is dropped, or its length without FCS.
pub data Verdict : Type 0 where
  drop : Verdict
  accept : ℕ → Verdict

unfoldable pub rx_verdict : EthUnit → ℕ → Verdict
rx_verdict u n =
    if is_set (bit_and (rx_word u n) xct_macrx_crc)
    then drop
    else if leb rx_ring_size (ring_slot u n)
    then drop
    else if leb num_rx_bufs (actual_buf u n) || not (is_set (u.rx_bufs (actual_buf u n)))
    then drop
    else if ltb (line_len u n) 4
    then drop
    else if ltb (line_len u n - 4) eth_hdr_len
    then drop
    else if not (ptr_phys u n == u.rx_bufs_phys (actual_buf u n))
    then drop
    else accept (line_len u n - 4)

unfoldable pub rx_accept : ℕ → ℕ → ℕ → Run
rx_accept macrx eth_frame frame_len = do
  hi ← load_byte (eth_frame + 12)
  lo ← load_byte (eth_frame + 13)
  modify_unit (λ u. record u { stat_rx = inc32 u.stat_rx })
  dispatch_frame (record {
    macrx = macrx;
    eth_frame = eth_frame;
    ether_type = bit_or (hi * 2 ^ 8) lo;
    pay_len = frame_len - eth_hdr_len;
  })

unfoldable pub rx_frame : EthUnit → ℕ → Verdict → Run
rx_frame u n drop = count_drop
rx_frame u n (accept frame_len) = rx_accept (rx_word u n) (u.rx_bufs (actual_buf u n)) frame_len

-- next_desc: the four words of the descriptor, and the slot that its buffer was posted in.
unfoldable pub clear_desc : ℕ → ℕ → EthUnit → EthUnit
clear_desc n slot u = record u {
  rx_desc =
      update
        (update (update (update u.rx_desc (rx_index n) 0) (rx_index (add32 n 1)) 0)
          (rx_index (add32 n 2)) 0)
        (rx_index (add32 n 3)) 0;
  rx_buff = if ltb slot rx_ring_size then update u.rx_buff (rx_buff_index slot) 0 else u.rx_buff;
}

-- The word that posts a buffer.
abbrev pub rxb_word : EthUnit → ℕ → ℕ
rxb_word u buf = bit_or (xct_rxb_len rx_buf_size) (xct_rxb_addr (u.rx_bufs_phys buf))

unfoldable pub repost : ℕ → EthUnit → EthUnit
repost buf u = record u {
  rx_buff = update u.rx_buff (rx_buff_index u.rx_buf_write_ptr) (rxb_word u buf);
  rx_slot_buf = update u.rx_slot_buf u.rx_buf_write_ptr (buf % 2 ^ 16);
  rx_buf_write_ptr = bit_and (add32 u.rx_buf_write_ptr 1) (rx_buf_ring_size - 1);
}

-- The locals of the loop.
pub record RxBatch : Type 0 where
  pub n : ℕ
  pub count : ℕ
  pub replenish : ℕ

unfoldable pub next_desc : RxBatch → ℕ → ℕ → M RxBatch
next_desc b slot buf = do
  modify_unit (clear_desc b.n slot)
  v ← get_unit
  when (ltb buf num_rx_bufs) (modify_unit (repost buf))
  pure (record {
    n = add32 b.n 4;
    count = inc32 b.count;
    replenish = if ltb buf num_rx_bufs then inc32 b.replenish else b.replenish;
  })

-- One round of the loop, at a completed descriptor.
unfoldable pub rx_packet : RxBatch → M RxBatch
rx_packet b = do
  u ← get_unit
  rx_frame u b.n (rx_verdict u b.n)
  next_desc b (ring_slot u b.n) (actual_buf u b.n)

unfoldable pub rx_loop : ℕ → RxBatch → M RxBatch
rx_loop zero b w = (b, w)
rx_loop (suc fuel) b w = elim (owned w.unit b.n) [
  | true ↦ rx_loop fuel (rx_packet b w).0 (rx_packet b w).1
  | false ↦ (b, w)
]

-- After the loop: Errata 5971, the ring position, and the credits to the hardware.
unfoldable pub rx_finish : RxBatch → Run
rx_finish b = do
  when (ltb 0 b.count) (write_iob_mmio pas_iob_com_pkthdrcnt 0)
  modify_unit (λ u. record u {
    rx_next_clean = if leb rx_ring_size b.n then bit_and b.n (rx_ring_size - 1) else b.n;
  })
  base ← get_base
  when (ltb 0 b.count) (do
    pasemi_wmb
    write_dma_reg (pas_dma_rxchan_incr (uint32_of base.rx_channel_num)) (b.count * 2 % 2 ^ 32)
    write_dma_reg (pas_dma_rxint_incr (uint32_of base.dma_if)) b.replenish)

abbrev pub rx_start : EthUnit → RxBatch
rx_start u = record { n = u.rx_next_clean; count = 0; replenish = 0 }

-- Each round clears one of the ring's words, so this many rounds come to the end.
abbrev pub rx_fuel : ℕ
rx_fuel = rx_ring_size + 1

unfoldable pub process_rx : Run
process_rx = do
  u ← get_unit
  when (is_set u.rx_ring && is_set u.rx_buf_ring) (do b ← rx_loop rx_fuel (rx_start u); rx_finish b)
