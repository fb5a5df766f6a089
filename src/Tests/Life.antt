-- ===== src/Tests/Life.antt =====
-- A life of the device at concrete inputs: Init, an opener that writes a frame and closes, Expunge.
use pa6t_eth.Base.{
  ℕ, ◌+◌, ◌≡◌, refl, List, [], ◌∷◌, true, false, is_set, none, arith, ◌==◌, if◌then◌else◌,
}
use pa6t_eth.Machine.{World, ◌>>=◌}
use pa6t_eth.Machine.Calls.{
  Call, read_dma, read_mac, read_iob, get_address, set_signal, alloc_signal, add_int_server,
  start_dma,
}
use pa6t_eth.Regs.Dma.{pas_dma_cap_ifi}
use pa6t_eth.Device.Start.{
  start_fail, release_unit, release_libraries, release_iob, release_dma, release_mac, release_pci,
  init, start_devices, start_utility, start_unit, start_hardware, new_unit,
}
use pa6t_eth.Hw.Pci.{find_devices, find_dma, find_iob}
use pa6t_eth.Hw.Init.{
  hw_init, init_fail, check_channels, alloc_tx_ring, alloc_rx_ring, alloc_rx_buf_ring, configure,
  configure_mac, configure_rx, configure_tx, mark_rings, rx_section_poll, zero_rmon,
}
use pa6t_eth.Hw.Channels.{
  find_dma_interface_of_mac, scan_table, find_byte, check_mac_addr, read_mac_addr, get_phys,
  adr0_of, adr1_of, mac_addr_of, mac_valid, program_mac_addr, stop_poll, stop_tx_channel,
  stop_rx_channel, stop_rx_interface,
}
use pa6t_eth.Hw.Cleanup.{
  disable_mac, hw_cleanup, stop_channels, stop_if, free_rx_bufs, free_rx_buf, free_rx_buf_ring,
  free_rx_ring, free_tx_ring, release_mapped,
}
use pa6t_eth.Hw.Irq.{install_irq}
use pa6t_eth.Device.Open.{open_device, open_unit, ensure_task, add_opener}
use pa6t_eth.Task.{
  unit_task_start, task_startup, task_exit, drain_port, unit_task_shutdown, yield_until_exit,
}
use pa6t_eth.Device.Close.{expunge, close_device, close_unit, take_opener, drop_opener}
use pa6t_eth.Io.Begin.{begin_io, begin_command, begin_onevent, queue_event}
use pa6t_eth.Requests.{
  flush_all_pending, flush_read_queue, flush_list, flush_read_list, sweep_events, sweep,
  flush_orphan, abort_event, fail_request,
}
use pa6t_eth.Ledger.Account.{Event, opened, closed, begin, perform_all}
use pa6t_eth.Memory.{is_at, allocs, frees, held, stored, wrappers, listed}
use pa6t_eth.Memory.Emptied.{leftover}
use pa6t_eth.Memory.Account.{lived, lived-frees}
use pa6t_eth.Handles.{library, pci_device, takes, returns}
use pa6t_eth.Handles.Acquiring.{Settled}
use pa6t_eth.Handles.Starting.{init-Settled}
use pa6t_eth.Handles.Expunging.{GaveBack, expunge-GaveBack}
use pa6t_eth.Memory.Failed.{hw_init-frees}
use pa6t_eth.Memory.Leaked.{start_hardware-Leaks}
use pa6t_eth.Fixture.{idle, base}

-- The MAC has interface 2 of the table at 0x80, no channel is active, and calls succeed.
abbrev answers : Call → ℕ
answers (read_dma reg) =
    if reg == pas_dma_cap_ifi then 0x80040000 else if reg == 0x80 then 0x00080000 else 0
answers (read_mac reg) = 0x11223344
answers (read_iob reg) = 0
answers (get_address d) = 8
answers (set_signal s) = 0
answers alloc_signal = 20
answers c = 4096

-- Before Init: a cleared base.
abbrev unborn : World
unborn = record idle {
  base = record base {
    lib_open_cnt = 0;
    mac_dev = 0;
    dma_dev = 0;
    iob_dev = 0;
    dma_if = none;
    unit = 0;
    irq_installed = false;
  };
  unit = new_unit;
  env = λ h c. answers c;
}

-- Two openers, and an event waiter that is aborted when the second closes.
abbrev life : List Event
life = opened 5 0 ∷ begin 2 ∷ opened 6 0 ∷ closed 5 ∷ closed 6 ∷ []

living :
    (is_set (lived 1 life unborn).base.unit ≡ true) × ((lived 1 life unborn).base.lib_open_cnt ≡ 0)
unfolding init start_devices start_utility start_unit start_hardware new_unit find_devices find_dma
    find_iob hw_init check_channels alloc_tx_ring alloc_rx_ring alloc_rx_buf_ring configure
    configure_mac configure_rx configure_tx mark_rings rx_section_poll zero_rmon
    find_dma_interface_of_mac scan_table find_byte check_mac_addr read_mac_addr get_phys adr0_of
    adr1_of mac_addr_of mac_valid program_mac_addr stop_poll stop_tx_channel disable_mac install_irq
    open_device open_unit ensure_task add_opener unit_task_start task_startup task_exit drain_port
    unit_task_shutdown yield_until_exit close_device close_unit take_opener drop_opener perform_all
    begin_io begin_command begin_onevent queue_event flush_all_pending flush_read_queue flush_list
    flush_read_list sweep_events sweep flush_orphan abort_event fail_request ◌>>=◌
living = (refl, refl)

lived-frees_example :
    frees 4096 (expunge (lived 1 life unborn)).1.trace + leftover 4096 (lived 1 life unborn).unit
    ≡ allocs 4096 (expunge (lived 1 life unborn)).1.trace
unfolding new_unit stored wrappers listed allocs frees
lived-frees_example = lived-frees 4096 1 life unborn (omega arith) refl refl refl living.0 living.1

expunge-GaveBack_example :
    GaveBack pci_device 4096 (lived 1 life unborn) (expunge (lived 1 life unborn)).1
expunge-GaveBack_example =
    expunge-GaveBack pci_device 4096 (lived 1 life unborn) (omega arith) living.1

-- The base with its new unit, where the interrupt server is refused.
abbrev deaf : World
deaf = record unborn {
  base = record base { mac_dev = 4096; dma_dev = 4096; unit = 64; irq_installed = false };
  env = λ h c. elim c [ add_int_server n ↦ 0 | d ↦ answers d ];
}

deaf-hardware : ((hw_init deaf).0 ≡ true) × ((install_irq (hw_init deaf).1).0 ≡ false)
unfolding new_unit hw_init check_channels alloc_tx_ring alloc_rx_ring alloc_rx_buf_ring configure
    configure_mac configure_rx configure_tx mark_rings rx_section_poll zero_rmon
    find_dma_interface_of_mac scan_table find_byte check_mac_addr read_mac_addr get_phys adr0_of
    adr1_of mac_addr_of mac_valid program_mac_addr stop_poll stop_tx_channel disable_mac install_irq
    ◌>>=◌
deaf-hardware = (refl, refl)

start_hardware-Leaks_example :
    ((start_hardware deaf).0 ≡ false)
    × ((start_hardware deaf).1.base.unit ≡ 0)
    × (frees 4096 (start_hardware deaf).1.trace + held 4096 (hw_init deaf).1.unit
        ≡ allocs 4096 (start_hardware deaf).1.trace)
unfolding new_unit stored wrappers listed allocs frees
start_hardware-Leaks_example =
    start_hardware-Leaks 4096 deaf (omega arith) refl
      (record { no_tx_ring = refl; no_rx_ring = refl; no_rx_buf_ring = refl }) deaf-hardware.0
      deaf-hardware.1

-- Init where the interrupt server is refused: the handles are taken, and given back.
abbrev refused : World
refused = record unborn {
  base = record unborn.base { expansion_base = 0; utility_base = 0; ipci = 0; iutility = 0 };
  env = deaf.env;
}

init-Settled_example : Settled library 4096 0 0 (init 1 refused).0 (init 1 refused).1
unfolding takes returns
init-Settled_example = init-Settled library 4096 1 refused (omega arith) refl

refused-run :
    ((init 1 refused).0 ≡ false)
    × (takes library 4096 (init 1 refused).1.trace ≡ 2)
    × (returns library 4096 (init 1 refused).1.trace ≡ 2)
unfolding init start_devices start_utility start_unit start_hardware start_fail release_unit
    release_libraries release_iob release_dma release_mac release_pci new_unit find_devices find_dma
    find_iob hw_init check_channels alloc_tx_ring alloc_rx_ring alloc_rx_buf_ring configure
    configure_mac configure_rx configure_tx mark_rings rx_section_poll zero_rmon
    find_dma_interface_of_mac scan_table find_byte check_mac_addr read_mac_addr get_phys adr0_of
    adr1_of mac_addr_of mac_valid program_mac_addr stop_poll stop_tx_channel disable_mac install_irq
    takes returns ◌>>=◌
refused-run = (refl, refl, refl)

-- The first ring is allocated, but it cannot be mapped.
abbrev unmapped : World
unmapped = record unborn {
  base = record base { mac_dev = 4096; dma_dev = 4096; unit = 64; irq_installed = false };
  env = λ h c. elim c [ start_dma p n f ↦ 0 | d ↦ answers d ];
}

unmapped-hardware : ((hw_init unmapped).0 ≡ false) × (allocs 4096 (hw_init unmapped).1.trace ≡ 1)
unfolding new_unit hw_init init_fail check_channels alloc_tx_ring find_dma_interface_of_mac
    scan_table find_byte check_mac_addr read_mac_addr get_phys adr0_of adr1_of mac_addr_of mac_valid
    hw_cleanup disable_mac stop_channels stop_if stop_tx_channel stop_rx_channel stop_rx_interface
    stop_poll free_rx_bufs free_rx_buf free_rx_buf_ring free_rx_ring free_tx_ring release_mapped
    allocs ◌>>=◌
unmapped-hardware = (refl, refl)

hw_init-frees_example :
    frees 4096 (hw_init unmapped).1.trace
      + leftover 4096 unmapped.unit
      + is_at (hw_init unmapped).1.base.unit 4096
    ≡ allocs 4096 (hw_init unmapped).1.trace
unfolding new_unit stored wrappers listed allocs frees
hw_init-frees_example =
    hw_init-frees 4096 unmapped (omega arith) refl refl
      (record { no_tx_ring = refl; no_rx_ring = refl; no_rx_buf_ring = refl }) unmapped-hardware.0
