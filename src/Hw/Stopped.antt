-- ===== src/Hw/Stopped.antt =====
-- PA6TEth_HWCleanup of src/hw/hw_init.c keeps each assertion that quiet calls keep and that is about
-- the soft part of the unit only.
use pa6t_eth.Base.{ℕ, zero, suc, Bool, Bool-cases, is_set, inl, inr, bit_and, Option, none, some}
use pa6t_eth.Machine.{World, M, read_dma_reg, write_dma_reg}
use pa6t_eth.Machine.Triples.{Keeps, Keeps-bind, Keeps-skip}
use pa6t_eth.Machine.Quiet.{QuietSafe, quiet_rules}
use pa6t_eth.Machine.Calls.{DmaFlags}
use pa6t_eth.Hw.Channels.{stop_poll, stop_tx_channel, stop_rx_channel, stop_rx_interface}
use pa6t_eth.Hw.Cleanup.{
  disable_mac, stop_if, stop_channels, release_mapped, free_rx_buf, free_rx_bufs, free_rx_buf_ring,
  free_rx_ring, free_tx_ring, hw_cleanup,
}

module _ {P : World → Type 0} ⦃s : QuietSafe P⦄ where
  pub disable_mac-quiet : Keeps P disable_mac
  unfolding disable_mac
  disable_mac-quiet = search quiet_rules depth 20 fits 4000

  read_reg-quiet : (reg : ℕ) → Keeps P (read_dma_reg reg)
  read_reg-quiet reg = search quiet_rules depth 20 fits 4000

  write_reg-quiet : (reg v : ℕ) → Keeps P (write_dma_reg reg v)
  write_reg-quiet reg v = search quiet_rules depth 20 fits 4000

  stop_poll-quiet : (tries reg act : ℕ) → Keeps P (stop_poll tries reg act)
  unfolding stop_poll
  stop_poll-quiet zero reg act = record { at = λ w h. h }
  stop_poll-quiet (suc tries) reg act = record {
    at = λ w h.
        let read = (read_reg-quiet reg).at w h in
        elim (Bool-cases (is_set (bit_and (read_dma_reg reg w).0 act))) [
          | inl e ↦ rw (e, stop_poll) ((stop_poll-quiet tries reg act).at _ read)
          | inr e ↦ rw (e, stop_poll) ((write_reg-quiet reg 0).at _ read)
        ];
  }

  pub stop_tx_channel-quiet : (n : ℕ) → Keeps P (stop_tx_channel n)
  unfolding stop_tx_channel
  stop_tx_channel-quiet n = search (quiet_rules, stop_poll-quiet) depth 20 fits 4000

  stop_rx_channel-quiet : (n : ℕ) → Keeps P (stop_rx_channel n)
  unfolding stop_rx_channel
  stop_rx_channel-quiet n = search (quiet_rules, stop_poll-quiet) depth 20 fits 4000

  stop_rx_interface-quiet : (n : ℕ) → Keeps P (stop_rx_interface n)
  unfolding stop_rx_interface
  stop_rx_interface-quiet n = search (quiet_rules, stop_poll-quiet) depth 20 fits 4000

  stop_if-quiet :
      (o : Option ℕ) (stop : ℕ → M Bool) → ((n : ℕ) → Keeps P (stop n)) → Keeps P (stop_if o stop)
  unfolding stop_if
  stop_if-quiet none stop k = Keeps-skip
  stop_if-quiet (some n) stop k = Keeps-bind _ _ (k n) (λ _. Keeps-skip)

  stop_channels-quiet : Keeps P stop_channels
  unfolding stop_channels
  stop_channels-quiet =
      search
        (
          quiet_rules, stop_if-quiet, stop_tx_channel-quiet, stop_rx_channel-quiet,
          stop_rx_interface-quiet,
        )
        depth 20 fits 4000

  release_mapped-quiet : (p n size : ℕ) (flags : DmaFlags) → Keeps P (release_mapped p n size flags)
  unfolding release_mapped
  release_mapped-quiet p n size flags = search quiet_rules depth 20 fits 4000

  free_rx_buf-quiet : (i : ℕ) → Keeps P (free_rx_buf i)
  unfolding free_rx_buf
  free_rx_buf-quiet i = search (quiet_rules, release_mapped-quiet) depth 20 fits 4000

  free_rx_bufs-quiet : (k : ℕ) → Keeps P (free_rx_bufs k)
  unfolding free_rx_bufs
  free_rx_bufs-quiet zero = Keeps-skip
  free_rx_bufs-quiet (suc k) = Keeps-bind _ _ (free_rx_bufs-quiet k) (λ _. free_rx_buf-quiet k)

  free_rx_buf_ring-quiet : Keeps P free_rx_buf_ring
  unfolding free_rx_buf_ring
  free_rx_buf_ring-quiet = search (quiet_rules, release_mapped-quiet) depth 20 fits 4000

  free_rx_ring-quiet : Keeps P free_rx_ring
  unfolding free_rx_ring
  free_rx_ring-quiet = search (quiet_rules, release_mapped-quiet) depth 20 fits 4000

  free_tx_ring-quiet : Keeps P free_tx_ring
  unfolding free_tx_ring
  free_tx_ring-quiet = search (quiet_rules, release_mapped-quiet) depth 20 fits 4000

  pub hw_cleanup-quiet : Keeps P hw_cleanup
  unfolding hw_cleanup
  hw_cleanup-quiet =
      search
        (
          quiet_rules, disable_mac-quiet, stop_channels-quiet, free_rx_bufs-quiet,
          free_rx_buf_ring-quiet, free_rx_ring-quiet, free_tx_ring-quiet,
        )
        depth 24 fits 4000
