-- ===== src/Rx/Post.antt =====
-- src/hw/rx.c, PA6TEth_PostRxBuffers: the receive buffers, the rings, and the registers that set
-- the receiver going.
use pa6t_eth.Base.{
  ℕ, zero, suc, ◌+◌, ◌%◌, ◌^◌, Bool, true, false, ◌&&◌, not, ◌==◌, ltb, if◌then◌else◌, is_set,
  bit_and, bit_or, update,
}
use pa6t_eth.Regs.Shift.{shr}
use pa6t_eth.Regs.Mac.{
  pas_mac_cfg_pcfg, pas_mac_cfg_pcfg_s1, pas_mac_cfg_pcfg_pr, pas_mac_cfg_pcfg_ce,
  pas_mac_cfg_pcfg_tsr_1g, pas_mac_cfg_pcfg_spd_1g, pas_mac_cfg_pcfg_pe,
}
use pa6t_eth.Regs.Dma.{
  pas_dma_rxint_cfg, pas_dma_rxint_cfg_rbp, pas_dma_rxint_cfg_dhl, pas_dma_rxint_cfg_lw,
  pas_dma_rxint_cfg_l2, pas_dma_rxint_cfg_hen, pas_dma_rxint_rcmdsta, pas_dma_rxint_rcmdsta_en,
  pas_dma_rxint_rcmdsta_drops_m, pas_dma_rxint_rcmdsta_bp, pas_dma_rxint_rcmdsta_oo,
  pas_dma_rxint_rcmdsta_dr, pas_dma_rxint_rcmdsta_bt, pas_dma_rxchan_ccmdsta,
  pas_dma_rxchan_ccmdsta_en, pas_dma_rxchan_ccmdsta_du, pas_dma_rxchan_ccmdsta_od,
  pas_dma_rxchan_ccmdsta_fd, pas_dma_rxchan_ccmdsta_dt, pas_dma_rxint_incr, pas_dma_rxchan_incr,
  pas_dma_com_txcmd, pas_dma_com_txcmd_en, pas_dma_txchan_tcmdsta, pas_dma_txchan_tcmdsta_en,
  pas_dma_txchan_tcmdsta_sz, pas_dma_txchan_tcmdsta_db, pas_dma_txchan_tcmdsta_de,
  pas_dma_txchan_tcmdsta_da,
}
use pa6t_eth.Regs.Iob.{
  pas_iob_dma_com_timeoutcfg, pas_iob_dma_com_timeoutcfg_tcnt, pas_iob_dma_rxch_cfg,
  pas_iob_dma_rxch_cfg_cntth, pas_iob_dma_txch_cfg, pas_iob_dma_txch_cfg_cntth,
  pas_iob_dma_txch_stat, pas_iob_dma_txch_stat_cntdel_m, pas_iob_dma_txch_reset,
  pas_iob_dma_txch_reset_pcnt, pas_iob_dma_txch_reset_pintc, pas_iob_dma_rxch_stat,
  pas_iob_dma_rxch_stat_cntdel_m, pas_iob_dma_rxch_reset, pas_iob_dma_rxch_reset_pcnt,
  pas_iob_dma_rxch_reset_dcntrst, pas_iob_dma_rxch_reset_tintc, pas_iob_dma_rxch_reset_dintc,
  pas_iob_dma_rxch_reset_sintc, pas_iob_dma_rxch_reset_pintc,
}
use pa6t_eth.Machine.{
  M, Run, pure, ◌>>=◌, ◌>>◌, call, call_, get_unit, modify_unit, get_base, get_sdk, when,
  write_dma_reg, write_mac_reg, write_iob_mmio, read_iob_mmio, pasemi_wmb, uint32_of,
}
use pa6t_eth.Machine.Structs.{EthUnit, rx_ring_size, rx_buf_ring_size, num_rx_bufs, rx_buf_size}
use pa6t_eth.Machine.Calls.{
  DmaFlags, Device, mac_device, dma_device, alloc_vec, free_vec, start_dma, end_dma, alloc_dma_list,
  get_dma_list, free_dma_list, read_command, write_command,
}
use pa6t_eth.Rx.Process.{rxb_word}

-- Device to RAM, and the same with DMAF_NoModify.
abbrev pub to_ram : DmaFlags
to_ram = record { read_from_ram = false; no_modify = false }

abbrev pub to_ram_done : DmaFlags
to_ram_done = record { read_from_ram = false; no_modify = true }

unfoldable pub set_rx_buf : ℕ → ℕ → Run
set_rx_buf i p = do modify_unit (λ u. record u { rx_bufs = update u.rx_bufs i p })

-- A buffer that cannot be used is given back.
unfoldable pub give_up_buf : ℕ → ℕ → M Bool
give_up_buf i p = do call_ (free_vec p); set_rx_buf i 0; pure false

unfoldable pub map_rx_buf : ℕ → ℕ → ℕ → M Bool
map_rx_buf i p nentries = do
  dlist ← call (alloc_dma_list nentries)
  if is_set dlist
      then (do
        phys ← call (get_dma_list p rx_buf_size to_ram dlist)
        modify_unit (λ u. record u {
          rx_bufs_phys = update u.rx_bufs_phys i (phys % 2 ^ 32);
          rx_bufs_dma_entries = update u.rx_bufs_dma_entries i nentries;
        })
        call_ (free_dma_list dlist)
        if is_set (phys % 2 ^ 32)
            then pure true
            else (do call_ (end_dma p rx_buf_size to_ram_done); give_up_buf i p))
      else (do call_ (end_dma p rx_buf_size to_ram_done); give_up_buf i p)

-- One round of the allocation loop; `false` is a `break`.
unfoldable pub alloc_rx_buf : ℕ → M Bool
alloc_rx_buf i = do
  p ← call (alloc_vec rx_buf_size)
  set_rx_buf i p
  if is_set p
      then (do
        nentries ← call (start_dma p rx_buf_size to_ram)
        if is_set (nentries % 2 ^ 32) then map_rx_buf i p (nentries % 2 ^ 32) else give_up_buf i p)
      else pure false

-- The allocation loop from `i` on, with `k` rounds to go; it returns `nalloced`.
unfoldable pub alloc_rx_bufs : ℕ → ℕ → ℕ → M ℕ
alloc_rx_bufs zero i nalloced w = (nalloced, w)
alloc_rx_bufs (suc k) i nalloced w = elim (is_set (w.unit.rx_bufs i)) [
  | true ↦ alloc_rx_bufs k (i + 1) nalloced w
  | false ↦ elim (alloc_rx_buf i w).0 [
    | true ↦ alloc_rx_bufs k (i + 1) (nalloced + 1) (alloc_rx_buf i w).1
    | false ↦ (nalloced, (alloc_rx_buf i w).1)
  ]
]

-- `for (i = 0; i < n; i++) a[i] = 0;`
abbrev pub zero_below : ℕ → (ℕ → ℕ) → ℕ → ℕ
zero_below n a i = if ltb i n then 0 else a i

unfoldable pub clear_rings : EthUnit → EthUnit
clear_rings u = record u {
  rx_desc = zero_below rx_ring_size u.rx_desc;
  rx_buff = zero_below rx_buf_ring_size u.rx_buff;
}

-- One round of the posting loop: buffer `i` in slot `i`, if it is mapped.
unfoldable pub post_buffer : ℕ → EthUnit → EthUnit
post_buffer i u =
    if is_set (u.rx_bufs_phys i)
    then record u {
      rx_buff = update u.rx_buff i (rxb_word u i);
      rx_slot_buf = update u.rx_slot_buf i (i % 2 ^ 16);
    }
    else u

-- The first `k` rounds.
unfoldable pub post_buffers : ℕ → EthUnit → EthUnit
post_buffers zero u = u
post_buffers (suc k) u = post_buffer k (post_buffers k u)

abbrev pub rxint_cfg : ℕ
rxint_cfg =
    bit_or
      (bit_or (bit_or (bit_or pas_dma_rxint_cfg_rbp (pas_dma_rxint_cfg_dhl 2)) pas_dma_rxint_cfg_lw)
        pas_dma_rxint_cfg_l2)
      pas_dma_rxint_cfg_hen

-- The receive interface and channel are set going.
unfoldable pub enable_rx : Run
enable_rx = do
  base ← get_base
  write_dma_reg (pas_dma_rxint_cfg (uint32_of base.dma_if)) rxint_cfg
  write_dma_reg (pas_dma_rxint_rcmdsta (uint32_of base.dma_if)) (
      bit_or
        (bit_or
          (bit_or
            (bit_or (bit_or pas_dma_rxint_rcmdsta_en pas_dma_rxint_rcmdsta_drops_m)
              pas_dma_rxint_rcmdsta_bp)
            pas_dma_rxint_rcmdsta_oo)
          pas_dma_rxint_rcmdsta_dr)
        pas_dma_rxint_rcmdsta_bt)
  write_dma_reg (pas_dma_rxchan_ccmdsta (uint32_of base.rx_channel_num)) (
      bit_or
        (bit_or
          (bit_or (bit_or pas_dma_rxchan_ccmdsta_en pas_dma_rxchan_ccmdsta_du)
            pas_dma_rxchan_ccmdsta_od)
          pas_dma_rxchan_ccmdsta_fd)
        pas_dma_rxchan_ccmdsta_dt)

-- The buffers are posted and credited, and the transmit side is enabled.
unfoldable pub post_and_credit : Run
post_and_credit = do
  modify_unit (λ u. record (post_buffers num_rx_bufs u) { rx_buf_write_ptr = num_rx_bufs })
  pasemi_wmb
  base ← get_base
  write_dma_reg (pas_dma_rxint_incr (uint32_of base.dma_if)) num_rx_bufs
  write_dma_reg (pas_dma_rxchan_incr (uint32_of base.rx_channel_num)) (shr rx_ring_size 1)
  write_dma_reg pas_dma_com_txcmd pas_dma_com_txcmd_en
  write_dma_reg (pas_dma_txchan_tcmdsta (uint32_of base.tx_channel_num)) (
      bit_or
        (bit_or
          (bit_or (bit_or pas_dma_txchan_tcmdsta_en pas_dma_txchan_tcmdsta_sz)
            pas_dma_txchan_tcmdsta_db)
          pas_dma_txchan_tcmdsta_de)
        pas_dma_txchan_tcmdsta_da)

-- Memory and bus master access of a PCI device, unless it has both.
unfoldable pub enable_master : Device → Run
enable_master d = do
  sdk ← get_sdk
  cmd ← call (read_command d)
  when
      (not (
        bit_and (cmd % 2 ^ 16) (bit_or sdk.pci_command_memory sdk.pci_command_master)
        == bit_or sdk.pci_command_memory sdk.pci_command_master))
      (call_ (
        write_command d
          (bit_or (bit_or (cmd % 2 ^ 16) sdk.pci_command_memory) sdk.pci_command_master)))

abbrev pub pcfg_1gbps : ℕ
pcfg_1gbps =
    bit_or
      (bit_or
        (bit_or (bit_or (bit_or pas_mac_cfg_pcfg_s1 pas_mac_cfg_pcfg_pr) pas_mac_cfg_pcfg_ce)
          pas_mac_cfg_pcfg_tsr_1g)
        pas_mac_cfg_pcfg_spd_1g)
      pas_mac_cfg_pcfg_pe

-- The IOB's packet-count interrupts, and the stale state of both channels.
unfoldable pub enable_iob : Run
enable_iob = do
  base ← get_base
  write_iob_mmio pas_iob_dma_com_timeoutcfg (pas_iob_dma_com_timeoutcfg_tcnt 0x3ff)
  write_iob_mmio (pas_iob_dma_rxch_cfg (uint32_of base.rx_channel_num))
      (pas_iob_dma_rxch_cfg_cntth 1)
  write_iob_mmio (pas_iob_dma_txch_cfg (uint32_of base.tx_channel_num))
      (pas_iob_dma_txch_cfg_cntth 0)
  txch_stat ← read_iob_mmio (pas_iob_dma_txch_stat (uint32_of base.tx_channel_num))
  write_iob_mmio (pas_iob_dma_txch_reset (uint32_of base.tx_channel_num)) (
      bit_or (pas_iob_dma_txch_reset_pcnt (bit_and txch_stat pas_iob_dma_txch_stat_cntdel_m))
        pas_iob_dma_txch_reset_pintc)
  rxch_stat ← read_iob_mmio (pas_iob_dma_rxch_stat (uint32_of base.rx_channel_num))
  write_iob_mmio (pas_iob_dma_rxch_reset (uint32_of base.rx_channel_num)) (
      bit_or
        (bit_or
          (bit_or
            (bit_or
              (bit_or
                (pas_iob_dma_rxch_reset_pcnt (bit_and rxch_stat pas_iob_dma_rxch_stat_cntdel_m))
                pas_iob_dma_rxch_reset_dcntrst)
              pas_iob_dma_rxch_reset_tintc)
            pas_iob_dma_rxch_reset_dintc)
          pas_iob_dma_rxch_reset_sintc)
        pas_iob_dma_rxch_reset_pintc)

-- What follows the allocation, if it allocated a buffer.
unfoldable pub start_receiver : Run
start_receiver = do
  modify_unit clear_rings
  pasemi_wmb
  enable_rx
  post_and_credit
  enable_master mac_device
  enable_master dma_device
  write_mac_reg pas_mac_cfg_pcfg pcfg_1gbps
  modify_unit (λ v. record v { rx_next_clean = 0 })
  enable_iob

unfoldable pub post_rx_buffers : Run
post_rx_buffers = do
  u ← get_unit
  when (is_set u.rx_buf_ring && is_set u.rx_ring)
      (do nalloced ← alloc_rx_bufs num_rx_bufs 0 0; when (is_set nalloced) start_receiver)
