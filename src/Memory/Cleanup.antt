-- ===== src/Memory/Cleanup.antt =====
-- PA6TEth_HWCleanup of src/hw/hw_init.c: the receive buffers and the rings are freed, each once.
use pa6t_eth.Base.{
  ℕ, zero, suc, ◌+◌, ◌<◌, ◌≤◌, ◌≡◌, Bool, Option, none, some, Bool-cases, inl, inr, is_set, arith,
  update, ◌*◌, bit_and,
}
use pa6t_eth.Machine.{World, M, modify_unit, when, read_dma_reg, write_dma_reg, ◌>>=◌}
use pa6t_eth.Machine.Structs.{EthUnit, rx_buf_size, rx_ring_size, tx_ring_size, rx_buf_ring_size}
use pa6t_eth.Rx.Post.{to_ram_done}
use pa6t_eth.Hw.Tx.{from_ram_done}
use pa6t_eth.Machine.Calls.{DmaFlags}
use pa6t_eth.Machine.Triples.{Keeps}
use pa6t_eth.Machine.Plain.{MemSafe, mem_rules}
use pa6t_eth.Hw.Channels.{stop_tx_channel, stop_rx_channel, stop_rx_interface, stop_poll}
use pa6t_eth.Hw.Cleanup.{
  disable_mac, stop_if, stop_channels, release_mapped, free_rx_buf, free_rx_bufs, free_rx_buf_ring,
  free_rx_ring, free_tx_ring, hw_cleanup,
}
use pa6t_eth.Memory.{Holds, Holds-MemSafe, is_at, held, allocs, frees, stored-update, zero_is_at}

module _ {P : World → Type 0} ⦃s : MemSafe P⦄ where
  pub disable_mac-mem : Keeps P disable_mac
  unfolding disable_mac
  disable_mac-mem = search mem_rules depth 20 fits 4000

  read_reg-mem : (reg : ℕ) → Keeps P (read_dma_reg reg)
  read_reg-mem reg = search mem_rules depth 20 fits 4000

  write_reg-mem : (reg v : ℕ) → Keeps P (write_dma_reg reg v)
  write_reg-mem reg v = search mem_rules depth 20 fits 4000

  stop_poll-mem : (tries reg bit : ℕ) → Keeps P (stop_poll tries reg bit)
  unfolding stop_poll
  stop_poll-mem zero reg bit = record { at = λ w h. h }
  stop_poll-mem (suc tries) reg bit = record {
    at = λ w h. elim (Bool-cases (is_set (bit_and (read_dma_reg reg w).0 bit))) [
      | inl e ↦ rw (e, stop_poll) ((stop_poll-mem tries reg bit).at _ ((read_reg-mem reg).at w h))
      | inr e ↦ rw (e, stop_poll) ((write_reg-mem reg 0).at _ ((read_reg-mem reg).at w h))
    ];
  }

  pub stop_tx_channel-mem : (n : ℕ) → Keeps P (stop_tx_channel n)
  unfolding stop_tx_channel
  stop_tx_channel-mem n = search (mem_rules, stop_poll-mem) depth 20 fits 4000

  stop_rx_channel-mem : (n : ℕ) → Keeps P (stop_rx_channel n)
  unfolding stop_rx_channel
  stop_rx_channel-mem n = search (mem_rules, stop_poll-mem) depth 20 fits 4000

  stop_rx_interface-mem : (n : ℕ) → Keeps P (stop_rx_interface n)
  unfolding stop_rx_interface
  stop_rx_interface-mem n = search (mem_rules, stop_poll-mem) depth 20 fits 4000

  stop_if-mem :
      (o : Option ℕ) (stop : ℕ → M Bool) → ((n : ℕ) → Keeps P (stop n)) → Keeps P (stop_if o stop)
  unfolding stop_if
  stop_if-mem none stop k = search mem_rules depth 20 fits 4000
  stop_if-mem (some n) stop k = search (mem_rules, k) depth 20 fits 4000

  pub stop_channels-mem : Keeps P stop_channels
  unfolding stop_channels
  stop_channels-mem =
      search
        (mem_rules, stop_if-mem, stop_tx_channel-mem, stop_rx_channel-mem, stop_rx_interface-mem)
        depth 20 fits 4000

module _ {a s : ℕ} (l : 0 < a) where
  -- A block that is there is freed, and then forgotten.
  release_if :
      (p entries size : ℕ) (flags : DmaFlags) (f : EthUnit → EthUnit) (w : World)
      → held a (f w.unit) + is_at p a ≡ held a w.unit
      → Holds a s 0 w
      → Holds a s 0
          (when (is_set p) (release_mapped p entries size flags >>= λ _. modify_unit f) w).1
  unfolding release_mapped ◌>>=◌ allocs frees
  release_if p entries size flags f w e h = elim (Bool-cases (is_set p)) [
    | inl k ↦ elim (Bool-cases (is_set entries)) [
      | inl x ↦ rw (k, x) (record { balance = omega (arith, e, h.balance) })
      | inr x ↦ rw (k, x) (record { balance = omega (arith, e, h.balance) })
    ]
    | inr k ↦ rw k h
  ]

  free_rx_buf-Holds : (i : ℕ) → i < 512 → Keeps (Holds a s 0) (free_rx_buf i)
  unfolding free_rx_buf ◌>>=◌
  free_rx_buf-Holds i k = record {
    at = λ w h.
        let f : EthUnit → EthUnit = λ u. record u { rx_bufs = update u.rx_bufs i 0 } in
        let e : held a (f w.unit) + is_at (w.unit.rx_bufs i) a ≡ held a w.unit =
          omega (arith, stored-update a 512 i 0 w.unit.rx_bufs k, zero_is_at a l) in
        release_if (w.unit.rx_bufs i) (w.unit.rx_bufs_dma_entries i) rx_buf_size to_ram_done f w e
          h;
  }

  free_rx_bufs-Holds : (k : ℕ) → k ≤ 512 → Keeps (Holds a s 0) (free_rx_bufs k)
  unfolding free_rx_bufs ◌>>=◌
  free_rx_bufs-Holds zero b = record { at = λ w h. h }
  free_rx_bufs-Holds (suc k) b = record {
    at = λ w h.
        (free_rx_buf-Holds k (omega arith)).at _ ((free_rx_bufs-Holds k (omega arith)).at w h);
  }

  free_rx_buf_ring-Holds : Keeps (Holds a s 0) free_rx_buf_ring
  unfolding free_rx_buf_ring ◌>>=◌
  free_rx_buf_ring-Holds = record {
    at = λ w h.
        let f : EthUnit → EthUnit = λ u. record u { rx_buf_ring = 0 } in
        let e : held a (f w.unit) + is_at w.unit.rx_buf_ring a ≡ held a w.unit =
          omega (arith, zero_is_at a l) in
        release_if w.unit.rx_buf_ring w.unit.rx_buf_ring_dma_entries (rx_buf_ring_size * 8)
          to_ram_done f w e h;
  }

  free_rx_ring-Holds : Keeps (Holds a s 0) free_rx_ring
  unfolding free_rx_ring ◌>>=◌
  free_rx_ring-Holds = record {
    at = λ w h.
        let f : EthUnit → EthUnit = λ u. record u { rx_ring = 0 } in
        let e : held a (f w.unit) + is_at w.unit.rx_ring a ≡ held a w.unit =
          omega (arith, zero_is_at a l) in
        release_if w.unit.rx_ring w.unit.rx_ring_dma_entries (rx_ring_size * 8) to_ram_done f w e h;
  }

  free_tx_ring-Holds : Keeps (Holds a s 0) free_tx_ring
  unfolding free_tx_ring ◌>>=◌
  free_tx_ring-Holds = record {
    at = λ w h.
        let f : EthUnit → EthUnit = λ u. record u { tx_ring = 0 } in
        let e : held a (f w.unit) + is_at w.unit.tx_ring a ≡ held a w.unit =
          omega (arith, zero_is_at a l) in
        release_if w.unit.tx_ring w.unit.tx_ring_dma_entries (tx_ring_size * 8) from_ram_done f w e
          h;
  }

  all_rx_bufs-Holds : Keeps (Holds a s 0) (free_rx_bufs 512)
  all_rx_bufs-Holds = free_rx_bufs-Holds 512 (omega arith)

  pub hw_cleanup-Holds : Keeps (Holds a s 0) hw_cleanup
  unfolding hw_cleanup
  hw_cleanup-Holds =
      search
        (
          mem_rules, disable_mac-mem, stop_channels-mem, all_rx_bufs-Holds, free_rx_buf_ring-Holds,
          free_rx_ring-Holds, free_tx_ring-Holds,
        )
        depth 24 fits 4000
