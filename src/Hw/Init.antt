-- ===== src/Hw/Init.antt =====
-- src/hw/hw_init.c, PA6TEth_HWInit: the rings are allocated, and the DMA channels and the MAC are
-- configured. A step that fails ends in PA6TEth_HWCleanup.
use pa6t_eth.Base.{
  ℕ, zero, suc, ◌+◌, ◌*◌, Bool, true, false, Option, none, some, if◌then◌else◌, is_set, bit_and,
  bit_or,
}
use pa6t_eth.Regs.Shift.{shr}
use pa6t_eth.Regs.Mac.{
  pas_mac_cfg_maccfg, pas_mac_cfg_maccfg_maxf, pas_mac_cfg_txp, pas_mac_cfg_txp_fce,
  pas_mac_cfg_txp_fpc, pas_mac_cfg_txp_sl, pas_mac_cfg_txp_cob, pas_mac_cfg_txp_tift,
  pas_mac_cfg_txp_tifg, pas_mac_cfg_rmon, pas_mac_ipc_chnl, pas_mac_ipc_chnl_dchno,
  pas_mac_ipc_chnl_bch,
}
use pa6t_eth.Regs.Dma.{
  pas_dma_txchan_tcmdsta, pas_dma_txchan_tcmdsta_act, pas_dma_rxchan_ccmdsta,
  pas_dma_rxchan_ccmdsta_act, pas_dma_txchan_basel, pas_dma_txchan_basel_brbl, pas_dma_txchan_baseu,
  pas_dma_txchan_baseu_brbh, pas_dma_txchan_baseu_siz, pas_dma_txchan_cfg,
  pas_dma_txchan_cfg_ty_iface, pas_dma_txchan_cfg_tattr, pas_dma_txchan_cfg_up,
  pas_dma_txchan_cfg_wt, pas_dma_com_rxcmd, pas_dma_com_rxsta, pas_dma_com_rxsta_act,
  pas_dma_com_rxcmd_en, pas_dma_rxint_rcmdsta, pas_dma_rxchan_basel, pas_dma_rxchan_basel_brbl,
  pas_dma_rxchan_baseu, pas_dma_rxchan_baseu_brbh, pas_dma_rxchan_baseu_siz, pas_dma_rxchan_cfg,
  pas_dma_rxchan_cfg_hbu, pas_dma_rxint_basel, pas_dma_rxint_basel_brbl, pas_dma_rxint_baseu,
  pas_dma_rxint_baseu_brbh, pas_dma_rxint_baseu_siz, pas_dma_rxint_cfg,
}
use pa6t_eth.Machine.{
  M, Run, skip, pure, ◌>>=◌, ◌>>◌, call, call_, get_unit, modify_unit, get_base, modify_base, when,
  read_mac_reg, write_mac_reg, read_dma_reg, write_dma_reg, uint32_of,
}
use pa6t_eth.Machine.Structs.{
  rx_ring_size, tx_ring_size, rx_buf_ring_size, eth_max_frame, eth_hdr_len,
}
use pa6t_eth.Machine.Calls.{alloc_vec, set_cache_inhibited, get_mmu_interface, drop_interface}
use pa6t_eth.Rx.Post.{to_ram, rxint_cfg}
use pa6t_eth.Hw.Tx.{from_ram}
use pa6t_eth.Hw.Channels.{
  find_dma_interface_of_mac, read_mac_addr, program_mac_addr, check_mac_addr, stop_tx_channel,
  get_phys,
}
use pa6t_eth.Hw.Cleanup.{disable_mac, hw_cleanup}

-- fail:
unfoldable pub init_fail : M Bool
init_fail = do hw_cleanup; pure false

-- Step 6.
unfoldable pub configure_tx : Run
configure_tx = do
  b ← get_base
  u ← get_unit
  _stopped ← stop_tx_channel (uint32_of b.tx_channel_num)
  write_dma_reg (pas_dma_txchan_basel (uint32_of b.tx_channel_num))
      (pas_dma_txchan_basel_brbl u.tx_ring_phys)
  write_dma_reg (pas_dma_txchan_baseu (uint32_of b.tx_channel_num))
      (bit_or (pas_dma_txchan_baseu_brbh 0) (pas_dma_txchan_baseu_siz (shr tx_ring_size 3)))
  write_dma_reg (pas_dma_txchan_cfg (uint32_of b.tx_channel_num)) (
      bit_or
        (bit_or (bit_or pas_dma_txchan_cfg_ty_iface (pas_dma_txchan_cfg_tattr (uint32_of b.dma_if)))
          pas_dma_txchan_cfg_up)
        (pas_dma_txchan_cfg_wt 4))

-- The wait for the RX section, with `k` polls to go; the code goes on either way.
unfoldable pub rx_section_poll : ℕ → Run
rx_section_poll zero w = (tt, w)
rx_section_poll (suc k) w =
    elim (is_set (bit_and (read_dma_reg pas_dma_com_rxsta w).0 pas_dma_com_rxsta_act)) [
      | true ↦ rx_section_poll k (read_dma_reg pas_dma_com_rxsta w).1
      | false ↦ (tt, (read_dma_reg pas_dma_com_rxsta w).1)
    ]

abbrev pub rx_section_tries : ℕ
rx_section_tries = 100000

-- Step 7.
unfoldable pub configure_rx : Run
configure_rx = do
  write_dma_reg pas_dma_com_rxcmd 0
  rx_section_poll rx_section_tries
  b ← get_base
  u ← get_unit
  write_dma_reg (pas_dma_rxchan_ccmdsta (uint32_of b.rx_channel_num)) 0
  write_dma_reg (pas_dma_rxint_rcmdsta (uint32_of b.dma_if)) 0
  write_dma_reg (pas_dma_rxchan_basel (uint32_of b.rx_channel_num))
      (pas_dma_rxchan_basel_brbl u.rx_ring_phys)
  write_dma_reg (pas_dma_rxchan_baseu (uint32_of b.rx_channel_num))
      (bit_or (pas_dma_rxchan_baseu_brbh 0) (pas_dma_rxchan_baseu_siz (shr rx_ring_size 3)))
  write_dma_reg (pas_dma_rxchan_cfg (uint32_of b.rx_channel_num)) (pas_dma_rxchan_cfg_hbu 2)
  write_dma_reg (pas_dma_rxint_basel (uint32_of b.dma_if))
      (pas_dma_rxint_basel_brbl u.rx_buf_ring_phys)
  write_dma_reg (pas_dma_rxint_baseu (uint32_of b.dma_if))
      (bit_or (pas_dma_rxint_baseu_brbh 0) (pas_dma_rxint_baseu_siz (shr rx_ring_size 3)))
  write_dma_reg (pas_dma_rxint_cfg (uint32_of b.dma_if)) rxint_cfg
  write_dma_reg pas_dma_com_rxcmd pas_dma_com_rxcmd_en

-- The RMON counters from `i` on, with `k` to go.
unfoldable pub zero_rmon : ℕ → ℕ → Run
zero_rmon zero i = skip
zero_rmon (suc k) i = do write_mac_reg (pas_mac_cfg_rmon i) 0; zero_rmon k (i + 1)

abbrev pub txp_value : ℕ
txp_value =
    bit_or
      (bit_or
        (bit_or (bit_or (bit_or pas_mac_cfg_txp_fce (pas_mac_cfg_txp_fpc 3)) (pas_mac_cfg_txp_sl 3))
          (pas_mac_cfg_txp_cob 0xf))
        (pas_mac_cfg_txp_tift 8))
      (pas_mac_cfg_txp_tifg 12)

-- Step 8. `~PAS_MAC_CFG_MACCFG_MAXF_M` is written out.
unfoldable pub configure_mac : Run
configure_mac = do
  disable_mac
  maccfg ← read_mac_reg pas_mac_cfg_maccfg
  write_mac_reg pas_mac_cfg_maccfg (
      bit_or (bit_and maccfg 0xff0000ff)
        (pas_mac_cfg_maccfg_maxf (eth_max_frame + eth_hdr_len + 4)))
  write_mac_reg pas_mac_cfg_txp txp_value
  zero_rmon 32 0
  program_mac_addr
  b ← get_base
  write_mac_reg pas_mac_ipc_chnl (
      bit_or (pas_mac_ipc_chnl_dchno (uint32_of b.rx_channel_num))
        (pas_mac_ipc_chnl_bch (uint32_of b.rx_channel_num)))

-- Step 5b: with the MMU interface, the three rings are marked cache-inhibited.
unfoldable pub mark_rings : Run
mark_rings = do
  immu ← call get_mmu_interface
  u ← get_unit
  when (is_set immu) (do
    call_ (set_cache_inhibited u.tx_ring (tx_ring_size * 8))
    call_ (set_cache_inhibited u.rx_ring (rx_ring_size * 8))
    call_ (set_cache_inhibited u.rx_buf_ring (rx_buf_ring_size * 8))
    call_ (drop_interface immu))

unfoldable pub configure : M Bool
configure = do mark_rings; configure_tx; configure_rx; configure_mac; pure true

-- Steps 3 to 5, the last first: a ring is allocated and mapped, and its address and the number of
-- its DMA entries are kept.
unfoldable pub alloc_rx_buf_ring : M Bool
alloc_rx_buf_ring = do
  p ← call (alloc_vec (rx_buf_ring_size * 8))
  modify_unit
      (λ u. record u { rx_buf_ring = p; rx_buff = λ i. if is_set p then 0 else u.rx_buff i })
  if is_set p
      then (do
        phys ← get_phys p (rx_buf_ring_size * 8) to_ram
        modify_unit (λ v. record v { rx_buf_ring_phys = phys.0; rx_buf_ring_dma_entries = phys.1 })
        if is_set phys.0 then configure else init_fail)
      else init_fail

unfoldable pub alloc_rx_ring : M Bool
alloc_rx_ring = do
  p ← call (alloc_vec (rx_ring_size * 8))
  modify_unit (λ u. record u { rx_ring = p; rx_desc = λ i. if is_set p then 0 else u.rx_desc i })
  if is_set p
      then (do
        phys ← get_phys p (rx_ring_size * 8) to_ram
        modify_unit (λ v. record v { rx_ring_phys = phys.0; rx_ring_dma_entries = phys.1 })
        if is_set phys.0 then alloc_rx_buf_ring else init_fail)
      else init_fail

unfoldable pub alloc_tx_ring : M Bool
alloc_tx_ring = do
  p ← call (alloc_vec (tx_ring_size * 8))
  modify_unit (λ u. record u { tx_ring = p; tx_desc = λ i. if is_set p then 0 else u.tx_desc i })
  if is_set p
      then (do
        phys ← get_phys p (tx_ring_size * 8) from_ram
        modify_unit (λ v. record v { tx_ring_phys = phys.0; tx_ring_dma_entries = phys.1 })
        if is_set phys.0 then alloc_rx_ring else init_fail)
      else init_fail

-- The chosen channels must not be active.
unfoldable pub check_channels : M Bool
check_channels = do
  modify_base (λ b. record b { tx_channel_num = some 1; rx_channel_num = some 1 })
  tx_sta ← read_dma_reg (pas_dma_txchan_tcmdsta 1)
  if is_set (bit_and tx_sta pas_dma_txchan_tcmdsta_act) then init_fail else (do
    rx_sta ← read_dma_reg (pas_dma_rxchan_ccmdsta 1)
    if is_set (bit_and rx_sta pas_dma_rxchan_ccmdsta_act) then init_fail else alloc_tx_ring)

abbrev pub is_found : Option ℕ → Bool
is_found none = false
is_found (some n) = true

unfoldable pub hw_init : M Bool
hw_init = do
  intf ← find_dma_interface_of_mac
  modify_base (λ b. record b { dma_if = intf })
  if is_found intf then (do read_mac_addr; check_mac_addr; check_channels) else init_fail
