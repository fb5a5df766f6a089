-- ===== src/Handles/Configuring.antt =====
-- The account of each library, interface and PCI device over PA6TEth_HWInit of src/hw/hw_init.c and
-- PA6TEth_InstallIRQ of src/hw/irq.c.
use pa6t_eth.Base.{
  ℕ, zero, suc, ◌+◌, ◌*◌, ◌%◌, ◌^◌, ◌<◌, ◌≡◌, refl, arith, is_set, Bool-cases, Option-cases, inl,
  inr, bit_and,
}
use pa6t_eth.Machine.{World, call, call_, read_dma_reg, ◌>>=◌}
use pa6t_eth.Machine.Structs.{tx_ring_size, rx_ring_size, rx_buf_ring_size}
use pa6t_eth.Machine.Calls.{DmaFlags, get_mmu_interface, drop_interface, set_cache_inhibited}
use pa6t_eth.Machine.Triples.{Keeps}
use pa6t_eth.Regs.Dma.{pas_dma_com_rxsta, pas_dma_com_rxsta_act}
use pa6t_eth.Hw.Channels.{
  find_dma_interface_of_mac, find_byte, scan_table, read_mac_addr, program_mac_addr, check_mac_addr,
  get_phys,
}
use pa6t_eth.Hw.Irq.{install_irq}
use pa6t_eth.Hw.Stopped.{hw_cleanup-quiet, disable_mac-quiet, stop_tx_channel-quiet}
use pa6t_eth.Hw.Init.{
  configure_tx, rx_section_poll, configure_rx, zero_rmon, configure_mac, mark_rings, configure,
  init_fail, alloc_rx_buf_ring, alloc_rx_ring, alloc_tx_ring, check_channels, hw_init,
}
use pa6t_eth.Handles.{
  Kind, library, interface, pci_device, takes, returns, taken, given_back, BaseHandles,
}
use pa6t_eth.Handles.Held.{Held, Held-call_, held_rules}
use pa6t_eth.Handles.Giving.{drop, giving-taken, giving-null}

-- The MMU interface is taken and dropped, or it is NULL.
mmu-taken : (k : Kind) (h p : ℕ) → taken k h get_mmu_interface p ≡ given_back k h (drop_interface p)
mmu-taken library h p = refl
mmu-taken interface h p = refl
mmu-taken pci_device h p = refl

mmu-given : (k : Kind) (h : ℕ) → given_back k h get_mmu_interface ≡ 0
mmu-given library h = refl
mmu-given interface h = refl
mmu-given pci_device h = refl

module _ {k : Kind} {h t r : ℕ} (l : 0 < h) {b : BaseHandles} where
  -- With one more taken than is accounted for, the interface is dropped.
  mmu-drop :
      (p : ℕ) (w : World)
      → Held k h (taken k h get_mmu_interface p + t) r b w
      → Held k h t r b (call_ (drop_interface p) w).1
  unfolding ◌>>=◌ takes returns
  mmu-drop p w x = record {
    even = omega (
      arith,
      x.even,
      mmu-taken k h p,
      giving-taken drop k h p (w.env w.trace (drop_interface p)),
    );
    same_base = x.same_base;
  }

  mark_rings-Held : Keeps (Held k h t r b) mark_rings
  unfolding mark_rings ◌>>=◌ takes returns
  mark_rings-Held = record {
    at = λ w x.
        let p = w.env w.trace get_mmu_interface in
        let v = (call get_mmu_interface w).1 in
        let u = w.unit in
        let held : Held k h (taken k h get_mmu_interface p + t) r b v = record {
          even = omega (arith, x.even, mmu-given k h);
          same_base = x.same_base;
        } in
        elim (Bool-cases (is_set p)) [
          | inl e ↦
              let one =
                (Held-call_ (set_cache_inhibited u.tx_ring (tx_ring_size * 8)) refl).at v held in
              let two =
                (Held-call_ (set_cache_inhibited u.rx_ring (rx_ring_size * 8)) refl).at _ one in
              let three =
                (Held-call_ (set_cache_inhibited u.rx_buf_ring (rx_buf_ring_size * 8)) refl).at _
                  two in
              rw e (mmu-drop p _ three)
          | inr e ↦ rw e (record {
            even = omega (arith, held.even, mmu-taken k h p, giving-null drop k h p l e);
            same_base = x.same_base;
          })
        ];
  }

module _ {k : Kind} {h t r : ℕ} (l : 0 < h) {b : BaseHandles} where
  read_reg-Held : (reg : ℕ) → Keeps (Held k h t r b) (read_dma_reg reg)
  read_reg-Held reg = search held_rules depth 20 fits 4000

  rx_section_poll-Held : (n : ℕ) → Keeps (Held k h t r b) (rx_section_poll n)
  unfolding rx_section_poll
  rx_section_poll-Held zero = record { at = λ w x. x }
  rx_section_poll-Held (suc n) = record {
    at = λ w x.
        let read = (read_reg-Held pas_dma_com_rxsta).at w x in
        elim (Bool-cases
          (is_set (bit_and (read_dma_reg pas_dma_com_rxsta w).0 pas_dma_com_rxsta_act))) [
            | inl e ↦ rw (e, rx_section_poll) ((rx_section_poll-Held n).at _ read)
            | inr e ↦ rw (e, rx_section_poll) read
          ];
  }

  configure_tx-Held : Keeps (Held k h t r b) configure_tx
  unfolding configure_tx
  configure_tx-Held = search (held_rules, stop_tx_channel-quiet) depth 24 fits 4000

  configure_rx-Held : Keeps (Held k h t r b) configure_rx
  unfolding configure_rx
  configure_rx-Held = search (held_rules, rx_section_poll-Held) depth 28 fits 4000

  zero_rmon-Held : (n i : ℕ) → Keeps (Held k h t r b) (zero_rmon n i)
  unfolding zero_rmon
  zero_rmon-Held zero i = search held_rules depth 20 fits 4000
  zero_rmon-Held (suc n) i = search (held_rules, zero_rmon-Held n) depth 20 fits 4000

  program_mac_addr-Held : Keeps (Held k h t r b) program_mac_addr
  unfolding program_mac_addr
  program_mac_addr-Held = search held_rules depth 20 fits 4000

  configure_mac-Held : Keeps (Held k h t r b) configure_mac
  unfolding configure_mac
  configure_mac-Held =
      search (held_rules, disable_mac-quiet, zero_rmon-Held, program_mac_addr-Held) depth 24 fits
        4000

  configure-Held : Keeps (Held k h t r b) configure
  unfolding configure
  configure-Held =
      search
        (held_rules, mark_rings-Held l, configure_tx-Held, configure_rx-Held, configure_mac-Held)
        depth 20 fits 4000

  get_phys-Held : (p n : ℕ) (f : DmaFlags) → Keeps (Held k h t r b) (get_phys p n f)
  unfolding get_phys
  get_phys-Held p n f = search held_rules depth 24 fits 4000

  read_mac_addr-Held : Keeps (Held k h t r b) read_mac_addr
  unfolding read_mac_addr
  read_mac_addr-Held = search held_rules depth 20 fits 4000

  check_mac_addr-Held : Keeps (Held k h t r b) check_mac_addr
  unfolding check_mac_addr
  check_mac_addr-Held = search held_rules depth 20 fits 4000

  scan_table-Held : (n i off devfn : ℕ) → Keeps (Held k h t r b) (scan_table n i off devfn)
  unfolding scan_table
  scan_table-Held zero i off devfn = record { at = λ w x. x }
  scan_table-Held (suc n) i off devfn = record {
    at = λ w x.
        let reg = (off + 4 * i) % 2 ^ 32 in
        let read = (read_reg-Held reg).at w x in
        elim (Option-cases (find_byte 4 0 (read_dma_reg reg w).0 devfn)) [
          | inl e ↦ rw (e, scan_table) ((scan_table-Held n (i + 1) off devfn).at _ read)
          | inr (j, e) ↦ rw (e, scan_table) read
        ];
  }

  find_dma_interface_of_mac-Held : Keeps (Held k h t r b) find_dma_interface_of_mac
  unfolding find_dma_interface_of_mac
  find_dma_interface_of_mac-Held = search (held_rules, scan_table-Held) depth 24 fits 4000

  init_fail-Held : Keeps (Held k h t r b) init_fail
  unfolding init_fail
  init_fail-Held = search (held_rules, hw_cleanup-quiet) depth 20 fits 4000

  alloc_rx_buf_ring-Held : Keeps (Held k h t r b) alloc_rx_buf_ring
  unfolding alloc_rx_buf_ring
  alloc_rx_buf_ring-Held =
      search (held_rules, get_phys-Held, configure-Held, init_fail-Held) depth 24 fits 4000

  alloc_rx_ring-Held : Keeps (Held k h t r b) alloc_rx_ring
  unfolding alloc_rx_ring
  alloc_rx_ring-Held =
      search (held_rules, get_phys-Held, alloc_rx_buf_ring-Held, init_fail-Held) depth 24 fits 4000

  alloc_tx_ring-Held : Keeps (Held k h t r b) alloc_tx_ring
  unfolding alloc_tx_ring
  alloc_tx_ring-Held =
      search (held_rules, get_phys-Held, alloc_rx_ring-Held, init_fail-Held) depth 24 fits 4000

  check_channels-Held : Keeps (Held k h t r b) check_channels
  unfolding check_channels
  check_channels-Held = search (held_rules, alloc_tx_ring-Held, init_fail-Held) depth 24 fits 4000

  pub hw_init-Held : Keeps (Held k h t r b) hw_init
  unfolding hw_init
  hw_init-Held =
      search
        (
          held_rules, find_dma_interface_of_mac-Held, read_mac_addr-Held, check_mac_addr-Held,
          check_channels-Held, init_fail-Held,
        )
        depth 24 fits 4000

  pub install_irq-Held : Keeps (Held k h t r b) install_irq
  unfolding install_irq
  install_irq-Held = search held_rules depth 28 fits 4000
