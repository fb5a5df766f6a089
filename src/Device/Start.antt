-- ===== src/Device/Start.antt =====
-- src/Init.c, _manager_Init, and the reference count of src/device.c.
use pa6t_eth.Base.{ℕ, ◌+◌, ◌-◌, ◌%◌, ◌^◌, [], Bool, true, false, if◌then◌else◌, is_set}
use pa6t_eth.Machine.{
  M, Run, pure, ◌>>=◌, ◌>>◌, call, call_, modify_unit, get_base, modify_base, get_sdk, when,
}
use pa6t_eth.Machine.Structs.{EthUnit}
use pa6t_eth.Machine.Calls.{
  init_semaphore, tx_lock, opener_lock, open_library, expansion_library, utility_library,
  get_interface, drop_interface, close_library, alloc_vec, free_vec, free_device,
}
use pa6t_eth.Hw.Pci.{find_devices}
use pa6t_eth.Hw.Init.{hw_init}
use pa6t_eth.Hw.Irq.{install_irq}

unfoldable pub obtain : M ℕ
obtain = do
  b ← get_base
  modify_base (λ b. record b { ref_count = (b.ref_count + 1) % 2 ^ 32 })
  pure ((b.ref_count + 1) % 2 ^ 32)

unfoldable pub release : M ℕ
release = do
  b ← get_base
  modify_base (λ b. record b { ref_count = (b.ref_count + 2 ^ 32 - 1) % 2 ^ 32 })
  pure ((b.ref_count + 2 ^ 32 - 1) % 2 ^ 32)

-- One line of the release of what the base holds: `if (p) { free; p = NULL; }`.
unfoldable pub release_unit : Run
release_unit = do
  b ← get_base
  when (is_set b.unit) (do call_ (free_vec b.unit); modify_base (λ b. record b { unit = 0 }))

unfoldable pub release_iob : Run
release_iob = do
  b ← get_base
  when (is_set b.iob_dev)
      (do call_ (free_device b.iob_dev); modify_base (λ b. record b { iob_dev = 0 }))

unfoldable pub release_dma : Run
release_dma = do
  b ← get_base
  when (is_set b.dma_dev)
      (do call_ (free_device b.dma_dev); modify_base (λ b. record b { dma_dev = 0 }))

unfoldable pub release_mac : Run
release_mac = do
  b ← get_base
  when (is_set b.mac_dev)
      (do call_ (free_device b.mac_dev); modify_base (λ b. record b { mac_dev = 0 }))

unfoldable pub release_libraries : Run
release_libraries = do
  b ← get_base
  when (is_set b.iutility)
      (do call_ (drop_interface b.iutility); modify_base (λ b. record b { iutility = 0 }))
  c ← get_base
  when (is_set c.utility_base)
      (do call_ (close_library c.utility_base); modify_base (λ c. record c { utility_base = 0 }))

unfoldable pub release_pci : Run
release_pci = do
  b ← get_base
  when (is_set b.ipci) (do call_ (drop_interface b.ipci); modify_base (λ b. record b { ipci = 0 }))
  c ← get_base
  when (is_set c.expansion_base) (do
    call_ (close_library c.expansion_base)
    modify_base (λ c. record c { expansion_base = 0 }))

-- fail:
unfoldable pub start_fail : M Bool
start_fail = do
  release_unit
  release_libraries
  release_iob
  release_dma
  release_mac
  release_pci
  pure false

-- A cleared unit with empty lists; what its rings point to is not yet allocated.
unfoldable pub new_unit : EthUnit
new_unit = record {
  open_count = 0;
  online = false;
  task = 0;
  io_port = 0;
  io_port_mask = 0;
  port_msgs = [];
  task_shutdown = false;
  irq_wait_task = 0;
  irq_signal_mask = 0;
  read_list_ipv4 = [];
  read_list_arp = [];
  read_list_other = [];
  event_list = [];
  opener_list = [];
  tx_ring = 0;
  tx_desc = λ i. 0;
  tx_ring_phys = 0;
  tx_ring_dma_entries = 0;
  tx_next_fill = 0;
  rx_ring = 0;
  rx_desc = λ i. 0;
  rx_ring_phys = 0;
  rx_ring_dma_entries = 0;
  rx_next_clean = 0;
  rx_buf_ring = 0;
  rx_buff = λ i. 0;
  rx_buf_ring_phys = 0;
  rx_buf_ring_dma_entries = 0;
  rx_buf_write_ptr = 0;
  rx_slot_buf = λ i. 0;
  rx_bufs = λ i. 0;
  rx_bufs_phys = λ i. 0;
  rx_bufs_dma_entries = λ i. 0;
  tx_buf_pending = 0;
  tx_buf_pending_len = 0;
  tx_fill_pending = 0;
  stat_rx = 0;
  stat_tx = 0;
  stat_rx_dropped = 0;
  loop_count = 0;
}

-- The hardware, the interrupt handler, and the library node's flags.
unfoldable pub start_hardware : M Bool
start_hardware = do
  ready ← hw_init
  if ready
      then (do
        handled ← install_irq
        if handled
            then (do b ← get_base; modify_base (λ b. record b { libf_delexp = false }); pure true)
            else start_fail)
      else start_fail

unfoldable pub start_unit : M Bool
start_unit = do
  sdk ← get_sdk
  p ← call (alloc_vec sdk.sizeof_unit)
  if is_set p
      then (do
        modify_unit (λ _. new_unit)
        call_ (init_semaphore opener_lock)
        modify_base (λ b. record b { unit = p })
        start_hardware)
      else start_fail

unfoldable pub start_utility : M Bool
start_utility = do
  lib ← call (open_library utility_library)
  modify_base (λ b. record b { utility_base = lib })
  if is_set lib
      then (do
        iface ← call (get_interface lib)
        modify_base (λ c. record c { iutility = iface })
        if is_set iface then start_unit else start_fail)
      else start_fail

unfoldable pub start_devices : M Bool
start_devices = do found ← find_devices; if found then start_utility else start_fail

-- _manager_Init; the result is whether it returns the base.
unfoldable pub init : ℕ → M Bool
init seglist = do
  modify_base (λ a. record a { dev_seg_list = seglist })
  call_ (init_semaphore tx_lock)
  lib ← call (open_library expansion_library)
  modify_base (λ b. record b { expansion_base = lib })
  if is_set lib
      then (do
        iface ← call (get_interface lib)
        modify_base (λ c. record c { ipci = iface })
        if is_set iface then start_devices else start_fail)
      else start_fail
