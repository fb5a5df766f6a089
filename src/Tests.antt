-- ===== src/Tests.antt =====
-- Runs at concrete inputs; those on the receive ring are in Ring, and those on memory
-- and on the round of the unit task in Memory.
mod Ring
mod Memory
mod Stopping
mod Life
use pa6t_eth.Base.{
  ◌⊎◌, ℕ, ◌+◌, ◌-◌, ◌^◌, ◌≡◌, ◌≢◌, ◌<◌, refl, List, [], ◌∷◌, bit_and, ◌++◌, true, false, ◌==◌,
  is_set, some, arith, ltb, count,
}
use pa6t_eth.Machine.Structs.{ioerr_aborted, s2err_tx_failure, s2err_mtu_exceeded, eth_max_frame}
use pa6t_eth.Requests.{read_list_of, find_opener, flush_all_pending, flush_read_queue}
use pa6t_eth.Rx.Process.{
  process_rx, rx_loop, rx_fuel, rx_start, rx_verdict, accept, line_len, ring_slot,
}
use pa6t_eth.Rx.Post.{post_rx_buffers}
use pa6t_eth.Rx.Rounds.{Ended, rx_loop-ends}
use pa6t_eth.Rx.Again.{post_rx_buffers-again}
use pa6t_eth.Hw.Channels.{scan_table}
use pa6t_eth.Hw.Scan.{FirstOf, NoneOf, scan_table-FirstOf}
use pa6t_eth.Hw.Tx.{tx_submit, tx_frame_len, transmit_packet, tx_reply, tx_alloc}
use pa6t_eth.Hw.Slots.{Queued, tx_submit-Queued}
use pa6t_eth.Hw.Frames.{tx_frame_len-wraps}
use pa6t_eth.Hw.Channels.{mac_addr_of, adr0_of, adr1_of, check_mac_addr, fallback_addr, mac_valid}
use pa6t_eth.Hw.Address.{mac_addr-round_trip, check_mac_addr-keeps_good, is_blank}
use pa6t_eth.Hw.Irq.{interrupt_handler, reset_val}
use pa6t_eth.Regs.Iob.{
  pas_iob_dma_rxch_reset_pcntrst, pas_iob_dma_rxch_reset_pintc, pas_iob_dma_rxch_reset_tintc,
  pas_iob_dma_rxch_reset_sintc, pas_iob_dma_rxch_reset_dintc, pas_status_timer, pas_status_soft,
  pas_status_error,
}
use pa6t_eth.Machine.{World}
use pa6t_eth.Machine.Calls.{alloc_vec}
use pa6t_eth.Memory.{frees}
use pa6t_eth.Hw.Interrupts.{is_due, wakes, signals, reset_val-acknowledges, interrupt_handler-wakes}
use pa6t_eth.Io.Begin.{begin_io}
use pa6t_eth.Io.Abort.{abort_io}
use pa6t_eth.Task.{task_round, task_exit, serve_event}
use pa6t_eth.Task.Events.{onevent-never_served, signal_all}
use pa6t_eth.Device.Start.{new_unit}
use pa6t_eth.Device.Close.{close_unit}
use pa6t_eth.Device.Closing.{close_unit-add_opener}
use pa6t_eth.Device.Open.{open_device, add_opener}
use pa6t_eth.Device.Opening.{Refused, Opened, open_device-outcome}
use pa6t_eth.Rx.Deliver.{RxFrame, dispatch_frame}
use pa6t_eth.Rx.Delivery.{Delivered, dispatch_frame-Delivered}
use pa6t_eth.Ledger.{waiting, settled, replies, one, count_reads}
use pa6t_eth.Ledger.Transmit.{quick}
use pa6t_eth.Ledger.Flush.{flushed, flush_all_pending-unit}
use pa6t_eth.Ledger.Account.{
  Event, opened, lost, perform_all, submitted, completed, begin_io-settles, abort_io-settles,
  process_rx-settles, task_round-settles, task_exit-replies, each_answered_once,
}
use pa6t_eth.Fixture.{unit, idle, busy, events}

idle-unsettled : settled 1 idle ≡ 0
unfolding replies count count_reads new_unit
idle-unsettled = refl

-- An Open finds an opener; a request that waits in the port is served.
abbrev reopened : List Event
reopened = opened 6 0 ∷ events

each_answered_once_example :
    replies 1 (task_exit (perform_all reopened idle)).1.trace + completed 1 reopened idle
    ≡ submitted 1 reopened
unfolding lost new_unit count
each_answered_once_example = each_answered_once 1 reopened idle idle-unsettled refl

begin_io-settles_example :
    (settled 1 (begin_io 1 idle).1 + quick 1 1 (begin_io 1 idle).1 ≡ settled 1 idle + 1)
    × (◌≢◌ {A = ℕ} 1 3
        → (replies 3 (begin_io 1 idle).1.trace ≡ replies 3 idle.trace)
          × (waiting 3 (begin_io 1 idle).1.unit ≡ waiting 3 idle.unit))
begin_io-settles_example = begin_io-settles 1 3 idle

abort_io-settles_example :
    (settled 1 (abort_io 1 busy).1 ≡ settled 1 busy)
    × (◌≢◌ {A = ℕ} 1 3
        → (replies 3 (abort_io 1 busy).1.trace ≡ replies 3 busy.trace)
          × (waiting 3 (abort_io 1 busy).1.unit ≡ waiting 3 busy.unit))
abort_io-settles_example = abort_io-settles 1 3 busy

process_rx-settles_example : settled 1 (process_rx busy).1 ≡ settled 1 busy
process_rx-settles_example = process_rx-settles 1 busy

task_round-settles_example : settled 3 (task_round busy).1 ≡ settled 3 busy
task_round-settles_example = task_round-settles 3 busy

task_exit-replies_example : replies 3 (task_exit busy).1.trace ≡ settled 3 busy
task_exit-replies_example = task_exit-replies 3 busy

rx_loop-ends_example :
    Ended busy.unit.rx_next_clean
      (rx_loop rx_fuel (rx_start busy.unit) busy).0
      (rx_loop rx_fuel (rx_start busy.unit) busy).1
unfolding new_unit
rx_loop-ends_example = rx_loop-ends busy (omega arith)

abbrev frame : RxFrame
frame = record { macrx = 0; eth_frame = 8192; ether_type = 0x0800; pay_len = 82 }

dispatch_frame-Delivered_example : Delivered frame 1 busy (dispatch_frame frame busy).1
unfolding read_list_of
dispatch_frame-Delivered_example =
    dispatch_frame-Delivered frame (record { at = 700; ioreq = 1 }) [] busy refl

-- The frame in the ring is one that is delivered, without its FCS.
frame_accepted : rx_verdict unit 0 ≡ accept 96
unfolding rx_verdict ring_slot line_len pa6t_eth.Rx.Process.actual_buf new_unit
frame_accepted = refl

flush_all_pending-unit_example : (flush_all_pending busy).1.unit ≡ flushed busy.unit []
flush_all_pending-unit_example = flush_all_pending-unit busy

tx_submit-Queued_example :
    Queued 4096 114 20480 idle.unit.tx_next_fill (tx_submit 4096 114 20480 idle).1.unit
unfolding new_unit
tx_submit-Queued_example = tx_submit-Queued 4096 114 20480 idle (refl, omega arith)

tx_frame_len-wraps_example :
    (tx_frame_len (2 ^ 32 - 1) ≡ 60)
    × (ltb eth_max_frame (tx_frame_len (2 ^ 32 - 1)) ≡ false)
    × (tx_frame_len (2 ^ 32 - 1) < 14 + (2 ^ 32 - 1))
tx_frame_len-wraps_example = tx_frame_len-wraps (2 ^ 32 - 1) (omega arith) (omega arith)

onevent-never_served_example :
    (replies 2 (signal_all (8 ∷ 16 ∷ []) (begin_io 2 idle).1).trace ≡ replies 2 idle.trace)
    × (count 2 (signal_all (8 ∷ 16 ∷ []) (begin_io 2 idle).1).unit.event_list
        ≡ count 2 idle.unit.event_list + 1)
onevent-never_served_example = onevent-never_served 2 (8 ∷ 16 ∷ []) idle refl

reset_val-acknowledges_example :
    (is_set (bit_and (reset_val 0x1000000000000000) pas_iob_dma_rxch_reset_tintc)
      ≡ is_set (bit_and 0x1000000000000000 pas_status_timer))
    × (is_set (bit_and (reset_val 0x1000000000000000) pas_iob_dma_rxch_reset_sintc)
        ≡ is_set (bit_and 0x1000000000000000 pas_status_soft))
    × (is_set (bit_and (reset_val 0x1000000000000000) pas_iob_dma_rxch_reset_dintc)
        ≡ is_set (bit_and 0x1000000000000000 pas_status_error))
    × (is_set (bit_and (reset_val 0x1000000000000000) pas_iob_dma_rxch_reset_pcntrst) ≡ true)
    × (is_set (bit_and (reset_val 0x1000000000000000) pas_iob_dma_rxch_reset_pintc) ≡ true)
reset_val-acknowledges_example = reset_val-acknowledges 0x1000000000000000

interrupt_handler-wakes_example :
    (wakes idle.unit.irq_wait_task idle.unit.irq_signal_mask (interrupt_handler idle).1.trace
      ≡ wakes idle.unit.irq_wait_task idle.unit.irq_signal_mask idle.trace + is_due idle)
    × (signals (interrupt_handler idle).1.trace ≡ signals idle.trace + is_due idle)
interrupt_handler-wakes_example = interrupt_handler-wakes idle

mac_addr-round_trip_example :
    mac_addr_of
      (adr0_of (2 ∷ 0 ∷ 222 ∷ 173 ∷ 190 ∷ 239 ∷ []))
      (adr1_of (2 ∷ 0 ∷ 222 ∷ 173 ∷ 190 ∷ 239 ∷ []) 0x12345678)
    ≡ 2 ∷ 0 ∷ 222 ∷ 173 ∷ 190 ∷ 239 ∷ []
mac_addr-round_trip_example =
    mac_addr-round_trip 2 0 222 173 190 239 0x12345678 (omega arith) (omega arith) (omega arith)
      (omega arith) (omega arith) (omega arith)

check_mac_addr-keeps_good_example :
    (is_blank idle.base.mac_addr ≡ false → (check_mac_addr idle).1 ≡ idle)
    × (is_blank idle.base.mac_addr ≡ true → (check_mac_addr idle).1.base.mac_addr ≡ fallback_addr)
    × (mac_valid (check_mac_addr idle).1.base.mac_addr ≡ true)
check_mac_addr-keeps_good_example = check_mac_addr-keeps_good idle

-- A second opener, with a cookie of its own.
abbrev second : World
second = record idle { reqs = λ q. record (idle.reqs q) { buffer_management = 8 } }

close_unit-add_opener_example :
    ((close_unit 8 (add_opener 5 80 second).1).1.unit ≡ second.unit)
    × (frees 80 (close_unit 8 (add_opener 5 80 second).1).1.trace ≡ frees 80 second.trace + 1)
unfolding find_opener new_unit
close_unit-add_opener_example = close_unit-add_opener 5 80 second refl (omega arith) (omega arith)

open_device-outcome_example :
    (Refused idle (open_device 5 0 idle) ⊎ Opened 5 idle (open_device 5 0 idle))
    × ((0 == 0) ≡ false → Refused idle (open_device 5 0 idle))
    × ((0 == 0) ≡ true
        → is_set idle.base.unit ≡ true
        → is_set (idle.env idle.trace (alloc_vec idle.sdk.sizeof_opener)) ≡ true
        → (idle.unit.open_count == 0) ≡ false
        → Opened 5 idle (open_device 5 0 idle))
open_device-outcome_example = open_device-outcome 5 0 idle (omega arith)

scan_table-FirstOf_example :
    ((n : ℕ) × ((j : ℕ) × FirstOf 2 0 0x80 8 idle n j (scan_table 2 0 0x80 8 idle).0))
    ⊎ NoneOf 2 0 0x80 8 idle (scan_table 2 0 0x80 8 idle).0
scan_table-FirstOf_example = scan_table-FirstOf 2 0 0x80 8 idle

post_rx_buffers-again_example : (post_rx_buffers idle).1 ≡ idle
unfolding new_unit
post_rx_buffers-again_example = post_rx_buffers-again idle (λ j h. ground arith)
