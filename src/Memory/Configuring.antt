-- ===== src/Memory/Configuring.antt =====
-- PA6TEth_HWInit of src/hw/hw_init.c: the parts that neither allocate nor free memory.
use pa6t_eth.Base.{
  ℕ, zero, suc, ◌+◌, ◌*◌, ◌%◌, ◌^◌, is_set, Bool-cases, Option-cases, inl, inr, bit_and,
}
use pa6t_eth.Machine.{World, read_dma_reg}
use pa6t_eth.Machine.Triples.{Keeps}
use pa6t_eth.Machine.Plain.{MemSafe, mem_rules}
use pa6t_eth.Machine.Calls.{DmaFlags}
use pa6t_eth.Regs.Dma.{pas_dma_com_rxsta, pas_dma_com_rxsta_act}
use pa6t_eth.Hw.Channels.{
  find_dma_interface_of_mac, find_byte, scan_table, read_mac_addr, program_mac_addr, check_mac_addr,
  get_phys,
}
use pa6t_eth.Hw.Init.{
  configure_tx, rx_section_poll, configure_rx, zero_rmon, configure_mac, mark_rings, configure,
}
use pa6t_eth.Memory.Cleanup.{disable_mac-mem, stop_tx_channel-mem}

module _ {P : World → Type 0} ⦃s : MemSafe P⦄ where
  read_reg-mem : (reg : ℕ) → Keeps P (read_dma_reg reg)
  read_reg-mem reg = search mem_rules depth 20 fits 4000

  rx_section_poll-mem : (k : ℕ) → Keeps P (rx_section_poll k)
  unfolding rx_section_poll
  rx_section_poll-mem zero = record { at = λ w h. h }
  rx_section_poll-mem (suc k) = record {
    at = λ w h.
        let read = (read_reg-mem pas_dma_com_rxsta).at w h in
        elim (Bool-cases
          (is_set (bit_and (read_dma_reg pas_dma_com_rxsta w).0 pas_dma_com_rxsta_act))) [
            | inl e ↦ rw (e, rx_section_poll) ((rx_section_poll-mem k).at _ read)
            | inr e ↦ rw (e, rx_section_poll) read
          ];
  }

  configure_tx-mem : Keeps P configure_tx
  unfolding configure_tx
  configure_tx-mem = search (mem_rules, stop_tx_channel-mem) depth 24 fits 4000

  configure_rx-mem : Keeps P configure_rx
  unfolding configure_rx
  configure_rx-mem = search (mem_rules, rx_section_poll-mem) depth 28 fits 4000

  zero_rmon-mem : (k i : ℕ) → Keeps P (zero_rmon k i)
  unfolding zero_rmon
  zero_rmon-mem zero i = search mem_rules depth 20 fits 4000
  zero_rmon-mem (suc k) i = search (mem_rules, zero_rmon-mem k) depth 20 fits 4000

  program_mac_addr-mem : Keeps P program_mac_addr
  unfolding program_mac_addr
  program_mac_addr-mem = search mem_rules depth 20 fits 4000

  configure_mac-mem : Keeps P configure_mac
  unfolding configure_mac
  configure_mac-mem =
      search (mem_rules, disable_mac-mem, zero_rmon-mem, program_mac_addr-mem) depth 24 fits 4000

  mark_rings-mem : Keeps P mark_rings
  unfolding mark_rings
  mark_rings-mem = search mem_rules depth 20 fits 4000

  pub configure-mem : Keeps P configure
  unfolding configure
  configure-mem =
      search (mem_rules, mark_rings-mem, configure_tx-mem, configure_rx-mem, configure_mac-mem)
        depth 20 fits 4000

  pub get_phys-mem : (p n : ℕ) (f : DmaFlags) → Keeps P (get_phys p n f)
  unfolding get_phys
  get_phys-mem p n f = search mem_rules depth 24 fits 4000

  pub read_mac_addr-mem : Keeps P read_mac_addr
  unfolding read_mac_addr
  read_mac_addr-mem = search mem_rules depth 20 fits 4000

  pub check_mac_addr-mem : Keeps P check_mac_addr
  unfolding check_mac_addr
  check_mac_addr-mem = search mem_rules depth 20 fits 4000

  scan_table-mem : (k i off devfn : ℕ) → Keeps P (scan_table k i off devfn)
  unfolding scan_table
  scan_table-mem zero i off devfn = record { at = λ w h. h }
  scan_table-mem (suc k) i off devfn = record {
    at = λ w h.
        let reg = (off + 4 * i) % 2 ^ 32 in
        let read = (read_reg-mem reg).at w h in
        elim (Option-cases (find_byte 4 0 (read_dma_reg reg w).0 devfn)) [
          | inl e ↦ rw (e, scan_table) ((scan_table-mem k (i + 1) off devfn).at _ read)
          | inr (j, e) ↦ rw (e, scan_table) read
        ];
  }

  pub find_dma_interface_of_mac-mem : Keeps P find_dma_interface_of_mac
  unfolding find_dma_interface_of_mac
  find_dma_interface_of_mac-mem = search (mem_rules, scan_table-mem) depth 24 fits 4000
