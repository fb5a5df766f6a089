-- ===== src/Hw/Irq.antt =====
-- src/hw/irq.c: the interrupt handler, and its installation and removal.
use pa6t_eth.Base.{
  ℕ, ◌+◌, ◌%◌, ◌^◌, Bool, true, false, ◌&&◌, if◌then◌else◌, is_set, inc32, bit_and, bit_or,
}
use pa6t_eth.Regs.Shift.{shr}
use pa6t_eth.Regs.Iob.{
  pas_iob_dma_rxch_stat, pas_iob_dma_rxch_stat_intgen, pas_iob_dma_rxch_reset,
  pas_iob_dma_rxch_reset_pcntrst, pas_iob_dma_rxch_reset_pintc, pas_iob_dma_rxch_reset_tintc,
  pas_iob_dma_rxch_reset_sintc, pas_iob_dma_rxch_reset_dintc, pas_status_timer, pas_status_soft,
  pas_status_error,
}
use pa6t_eth.Machine.{
  M, Run, pure, ◌>>=◌, ◌>>◌, call, call_, get_unit, get_base, modify_base, when, read_iob_mmio,
  write_iob_mmio, read_dma_reg, uint32_of,
}
use pa6t_eth.Machine.Calls.{read_status, signal, map_interrupt, add_int_server, rem_int_server}

-- The acknowledgement: the packet count always, and each cause that the status word shows.
unfoldable pub reset_val : ℕ → ℕ
reset_val ps =
    let r0 = bit_or pas_iob_dma_rxch_reset_pcntrst pas_iob_dma_rxch_reset_pintc in
    let r1 =
      if is_set (bit_and ps pas_status_timer) then bit_or r0 pas_iob_dma_rxch_reset_tintc else r0 in
    let r2 =
      if is_set (bit_and ps pas_status_soft) then bit_or r1 pas_iob_dma_rxch_reset_sintc else r1 in
    if is_set (bit_and ps pas_status_error) then bit_or r2 pas_iob_dma_rxch_reset_dintc else r2

-- `base->pasdma_status ? base->pasdma_status[ch] : 0`
unfoldable pub status_word : ℕ → ℕ → M ℕ
status_word pasdma_status ch =
    if is_set pasdma_status then (do v ← call (read_status ch); pure (v % 2 ^ 64)) else pure 0

unfoldable pub interrupt_handler : M ℕ
interrupt_handler = do
  b ← get_base
  modify_base (λ b. record b { irq_enter = inc32 b.irq_enter })
  rxch_stat ← read_iob_mmio (pas_iob_dma_rxch_stat (uint32_of b.rx_channel_num))
  if is_set (bit_and rxch_stat pas_iob_dma_rxch_stat_intgen)
      then (do
        ps ← status_word b.pasdma_status (uint32_of b.rx_channel_num)
        write_iob_mmio (pas_iob_dma_rxch_reset (uint32_of b.rx_channel_num)) (reset_val ps)
        u ← get_unit
        when (is_set b.unit && is_set u.irq_wait_task)
            (call_ (signal u.irq_wait_task u.irq_signal_mask))
        c ← get_base
        modify_base (λ c. record c { irq_exit = inc32 c.irq_exit })
        pure 1)
      else (do c ← get_base; modify_base (λ c. record c { irq_miss = inc32 c.irq_miss }); pure 0)

-- `ReadConfigLong(0x44)` holds the number of TX channels; the vector is a `uint32`.
unfoldable pub install_irq : M Bool
install_irq = do
  cap ← read_dma_reg 0x44
  irq ← call map_interrupt
  modify_base (λ b. record b {
    irq_number = (irq + bit_and (shr cap 16) 0xff + uint32_of b.rx_channel_num) % 2 ^ 32;
  })
  c ← get_base
  if is_set c.irq_number
      then (do
        modify_base (λ c. record c { irq_enter = 0; irq_exit = 0; irq_miss = 0 })
        ok ← call (add_int_server c.irq_number)
        d ← get_base
        if is_set ok
            then (do modify_base (λ d. record d { irq_installed = true }); pure true)
            else pure false)
      else pure false

unfoldable pub remove_irq : Run
remove_irq = do
  b ← get_base
  when b.irq_installed (do
    call_ (rem_int_server b.irq_number)
    modify_base (λ b. record b { irq_installed = false }))
