-- ===== src/Hw/Cleanup.antt =====
-- src/hw/hw_init.c, PA6TEth_HWCleanup.
use pa6t_eth.Base.{ℕ, zero, suc, ◌*◌, Bool, Option, none, some, is_set, bit_and, update}
use pa6t_eth.Regs.Mac.{pas_mac_cfg_pcfg}
use pa6t_eth.Machine.{
  M, Run, skip, ◌>>=◌, ◌>>◌, call_, get_unit, modify_unit, get_base, when, read_mac_reg,
  write_mac_reg,
}
use pa6t_eth.Machine.Structs.{
  rx_ring_size, tx_ring_size, rx_buf_ring_size, num_rx_bufs, rx_buf_size,
}
use pa6t_eth.Machine.Calls.{DmaFlags, free_vec, end_dma}
use pa6t_eth.Rx.Post.{to_ram_done}
use pa6t_eth.Hw.Tx.{from_ram_done}
use pa6t_eth.Hw.Channels.{stop_tx_channel, stop_rx_channel, stop_rx_interface}

-- `flags &= ~PAS_MAC_CFG_PCFG_PE`, the top bit of the word.
unfoldable pub disable_mac : Run
disable_mac = do
  flags ← read_mac_reg pas_mac_cfg_pcfg
  write_mac_reg pas_mac_cfg_pcfg (bit_and flags 0x7fffffff)

-- The result of a stop is not looked at.
unfoldable pub stop_if : Option ℕ → (ℕ → M Bool) → Run
stop_if none stop = skip
stop_if (some n) stop = do _stopped ← stop n; skip

unfoldable pub stop_channels : Run
stop_channels = do
  b ← get_base
  stop_if b.tx_channel_num stop_tx_channel
  stop_if b.rx_channel_num stop_rx_channel
  stop_if b.dma_if stop_rx_interface

-- Unmap, if it was mapped, and free.
unfoldable pub release_mapped : ℕ → ℕ → ℕ → DmaFlags → Run
release_mapped p entries size flags = do
  when (is_set entries) (call_ (end_dma p size flags))
  call_ (free_vec p)

unfoldable pub free_rx_buf : ℕ → Run
free_rx_buf i = do
  u ← get_unit
  when (is_set (u.rx_bufs i)) (do
    release_mapped (u.rx_bufs i) (u.rx_bufs_dma_entries i) rx_buf_size to_ram_done
    modify_unit (λ u. record u { rx_bufs = update u.rx_bufs i 0 }))

-- The first `k` rounds of the loop.
unfoldable pub free_rx_bufs : ℕ → Run
free_rx_bufs zero = skip
free_rx_bufs (suc k) = do free_rx_bufs k; free_rx_buf k

unfoldable pub free_rx_buf_ring : Run
free_rx_buf_ring = do
  u ← get_unit
  when (is_set u.rx_buf_ring) (do
    release_mapped u.rx_buf_ring u.rx_buf_ring_dma_entries (rx_buf_ring_size * 8) to_ram_done
    modify_unit (λ u. record u { rx_buf_ring = 0 }))

unfoldable pub free_rx_ring : Run
free_rx_ring = do
  u ← get_unit
  when (is_set u.rx_ring) (do
    release_mapped u.rx_ring u.rx_ring_dma_entries (rx_ring_size * 8) to_ram_done
    modify_unit (λ u. record u { rx_ring = 0 }))

unfoldable pub free_tx_ring : Run
free_tx_ring = do
  u ← get_unit
  when (is_set u.tx_ring) (do
    release_mapped u.tx_ring u.tx_ring_dma_entries (tx_ring_size * 8) from_ram_done
    modify_unit (λ u. record u { tx_ring = 0 }))

unfoldable pub hw_cleanup : Run
hw_cleanup = do
  b ← get_base
  when (is_set b.mac_dev) disable_mac
  when (is_set b.dma_dev) stop_channels
  when (is_set b.unit) (do free_rx_bufs num_rx_bufs; free_rx_buf_ring; free_rx_ring; free_tx_ring)
