-- ===== src/Hw/Channels.antt =====
-- src/hw/hw_init.c, the helpers: the interface table, the MAC address, the stopping of channels,
-- and the DMA mapping of a ring.
use pa6t_eth.Base.{
  ℕ, zero, suc, ◌+◌, ◌*◌, ◌/◌, ◌%◌, ◌^◌, List, [], ◌∷◌, Bool, true, false, ◌&&◌, ◌||◌, not, Option,
  none, some, ◌==◌, if◌then◌else◌, is_set, bit_and, bit_or, get_or,
}
use pa6t_eth.Regs.Shift.{shr, shl32}
use pa6t_eth.Regs.Mac.{pas_mac_cfg_adr0, pas_mac_cfg_adr1}
use pa6t_eth.Regs.Dma.{
  pas_dma_cap_ifi, pas_dma_cap_ifi_nin_m, pas_dma_cap_ifi_nin_s, pas_dma_cap_ifi_ioff_m,
  pas_dma_cap_ifi_ioff_s, pas_dma_txchan_tcmdsta, pas_dma_txchan_tcmdsta_st,
  pas_dma_txchan_tcmdsta_act, pas_dma_rxchan_ccmdsta, pas_dma_rxchan_ccmdsta_st,
  pas_dma_rxchan_ccmdsta_act, pas_dma_rxint_rcmdsta, pas_dma_rxint_rcmdsta_st,
  pas_dma_rxint_rcmdsta_act,
}
use pa6t_eth.Machine.{
  M, Run, pure, ◌>>=◌, ◌>>◌, call, call_, get_base, modify_base, read_mac_reg, write_mac_reg,
  read_dma_reg, write_dma_reg,
}
use pa6t_eth.Machine.Calls.{
  DmaFlags, get_address, mac_device, start_dma, end_dma, alloc_dma_list, get_dma_list,
  free_dma_list,
}

-- The first byte of a word, from byte `j` on with `k` to go, that equals `devfn`.
unfoldable pub find_byte : ℕ → ℕ → ℕ → ℕ → Option ℕ
find_byte zero j tmp devfn = none
find_byte (suc k) j tmp devfn =
    if bit_and (shr tmp (8 * j)) 0xff == devfn then some j else find_byte k (j + 1) tmp devfn

-- The loop over the words of the table, from word `i` on with `k` to go.
unfoldable pub scan_table : ℕ → ℕ → ℕ → ℕ → M (Option ℕ)
scan_table zero i off devfn w = (none, w)
scan_table (suc k) i off devfn w =
    elim (find_byte 4 0 (read_dma_reg ((off + 4 * i) % 2 ^ 32) w).0 devfn) [
      | some j ↦ (some (i * 4 + j), (read_dma_reg ((off + 4 * i) % 2 ^ 32) w).1)
      | none ↦ scan_table k (i + 1) off devfn (read_dma_reg ((off + 4 * i) % 2 ^ 32) w).1
    ]

-- `GetAddress` gives the device and the function number of the MAC on its bus: the answer stands
-- for `(dev << 3) | fn`, cut to a byte as the code does. The bus is not used.
unfoldable pub find_dma_interface_of_mac : M (Option ℕ)
find_dma_interface_of_mac = do
  devfn ← call (get_address mac_device)
  tmp ← read_dma_reg pas_dma_cap_ifi
  scan_table ((shr (bit_and tmp pas_dma_cap_ifi_nin_m) pas_dma_cap_ifi_nin_s + 3) / 4) 0
      (shr (bit_and tmp pas_dma_cap_ifi_ioff_m) pas_dma_cap_ifi_ioff_s) (devfn % 2 ^ 8)

-- The six bytes that ADR0 and ADR1 hold.
unfoldable pub mac_addr_of : ℕ → ℕ → List ℕ
mac_addr_of adr0 adr1 =
    bit_and (shr adr1 8) 0xff
    ∷ bit_and adr1 0xff
    ∷ bit_and (shr adr0 24) 0xff
    ∷ bit_and (shr adr0 16) 0xff
    ∷ bit_and (shr adr0 8) 0xff
    ∷ bit_and adr0 0xff
    ∷ []

unfoldable pub read_mac_addr : Run
read_mac_addr = do
  adr0 ← read_mac_reg pas_mac_cfg_adr0
  adr1 ← read_mac_reg pas_mac_cfg_adr1
  modify_base (λ b. record b { mac_addr = mac_addr_of adr0 adr1 })

-- ADR0 for an address, and ADR1 with its high half kept.
unfoldable pub adr0_of : List ℕ → ℕ
adr0_of addr =
    bit_or
      (bit_or (bit_or (shl32 (get_or addr 2 0) 24) (shl32 (get_or addr 3 0) 16))
        (shl32 (get_or addr 4 0) 8))
      (get_or addr 5 0)

unfoldable pub adr1_of : List ℕ → ℕ → ℕ
adr1_of addr adr1 =
    bit_or (bit_and adr1 0xffff0000) (bit_or (shl32 (get_or addr 0 0) 8) (get_or addr 1 0))

unfoldable pub program_mac_addr : Run
program_mac_addr = do
  b ← get_base
  adr1 ← read_mac_reg pas_mac_cfg_adr1
  write_mac_reg pas_mac_cfg_adr0 (adr0_of b.mac_addr)
  write_mac_reg pas_mac_cfg_adr1 (adr1_of b.mac_addr adr1)

-- Some byte of the address is neither 0x00 nor 0xFF.
unfoldable pub mac_valid : List ℕ → Bool
mac_valid [] = false
mac_valid (x ∷ xs) = (not (x == 0x00) && not (x == 0xFF)) || mac_valid xs

abbrev pub fallback_addr : List ℕ
fallback_addr = 0x02 ∷ 0x00 ∷ 0xDE ∷ 0xAD ∷ 0xBE ∷ 0xEF ∷ []

unfoldable pub check_mac_addr : Run
check_mac_addr = do
  modify_base
      (λ b. record b { mac_addr = if mac_valid b.mac_addr then b.mac_addr else fallback_addr })

-- The loop of the three stop functions: poll `reg` until `act` is clear, then write 0.
unfoldable pub stop_poll : ℕ → ℕ → ℕ → M Bool
stop_poll zero reg act w = (false, w)
stop_poll (suc k) reg act w = elim (is_set (bit_and (read_dma_reg reg w).0 act)) [
  | true ↦ stop_poll k reg act (read_dma_reg reg w).1
  | false ↦ (true, (write_dma_reg reg 0 (read_dma_reg reg w).1).1)
]

abbrev pub stop_tries : ℕ
stop_tries = 50000

unfoldable pub stop_tx_channel : ℕ → M Bool
stop_tx_channel chno = do
  write_dma_reg (pas_dma_txchan_tcmdsta chno) pas_dma_txchan_tcmdsta_st
  stop_poll stop_tries (pas_dma_txchan_tcmdsta chno) pas_dma_txchan_tcmdsta_act

unfoldable pub stop_rx_channel : ℕ → M Bool
stop_rx_channel chno = do
  write_dma_reg (pas_dma_rxchan_ccmdsta chno) pas_dma_rxchan_ccmdsta_st
  stop_poll stop_tries (pas_dma_rxchan_ccmdsta chno) pas_dma_rxchan_ccmdsta_act

unfoldable pub stop_rx_interface : ℕ → M Bool
stop_rx_interface intf = do
  write_dma_reg (pas_dma_rxint_rcmdsta intf) pas_dma_rxint_rcmdsta_st
  stop_poll stop_tries (pas_dma_rxint_rcmdsta intf) pas_dma_rxint_rcmdsta_act

-- The physical address and the number of entries, both 0 where the mapping fails.
unfoldable pub get_phys : ℕ → ℕ → DmaFlags → M (ℕ × ℕ)
get_phys virt size flags = do
  nentries ← call (start_dma virt size flags)
  if is_set (nentries % 2 ^ 32)
      then (do
        dlist ← call (alloc_dma_list (nentries % 2 ^ 32))
        if is_set dlist
            then (do
              phys ← call (get_dma_list virt size flags dlist)
              call_ (free_dma_list dlist)
              pure (phys % 2 ^ 32, nentries % 2 ^ 32))
            else (do call_ (end_dma virt size (record flags { no_modify = true })); pure (0, 0)))
      else pure (0, 0)
