-- ===== src/Tests/Memory.antt =====
-- Runs on the account of memory, on a round of the unit task, on the words of a descriptor and on a
-- query at concrete inputs.
use mathlib.Core.List.{map}
use pa6t_eth.Base.{◌+◌, ◌≡◌, ◌≤◌, refl, [], ◌∷◌, true, false, is_set, bit_and, count, arith}
use pa6t_eth.Machine.{World, ◌>>=◌}
use pa6t_eth.Requests.{
  flush_all_pending, flush_read_queue, flush_list, flush_read_list, sweep_events, sweep,
}
use pa6t_eth.Io.Begin.{begin_io, begin_command, begin_write, begin_onevent, queue_event}
use pa6t_eth.Machine.{store_bytes}
use pa6t_eth.Requests.{find_opener}
use pa6t_eth.Hw.Tx.{
  transmit_packet, tx_frame_len, tx_alloc, tx_fill_buffer, eth_header, tx_hook, tx_copy, tx_map,
  tx_submit, tx_cleanup_pending, tx_wait, tx_poll, store_desc, tx_done, tx_reply,
}
use pa6t_eth.Task.{task_round, task_exit, drain_port}
use pa6t_eth.Device.Start.{new_unit}
use pa6t_eth.Ledger.{replies}
use pa6t_eth.Ledger.Account.{perform_all, begin}
use pa6t_eth.Ledger.Round.{task_round-serves}
use pa6t_eth.Memory.{allocs, frees, wrappers, stored, listed, is_at}
use pa6t_eth.Machine.Plain.{opener_at}
use pa6t_eth.Memory.Account.{IsBalanced, reached, perform_all-reaches, stopped-frees, stopped}
use pa6t_eth.Task.Status.{status_after, command_of}
use pa6t_eth.Task.Transitions.{task_round-status}
use pa6t_eth.Regs.Shift.{shr}
use pa6t_eth.Regs.Xct.{
  xct_mactx_o, xct_mactx_llen_m, xct_mactx_llen_s, xct_ptr_len_m, xct_ptr_len_s, xct_ptr_addr_m,
}
use pa6t_eth.Hw.Tx.{desc0, desc1}
use pa6t_eth.Hw.Descriptors.{desc-round_trip}
use pa6t_eth.Io.Begin.{device_query}
use pa6t_eth.Io.Query.{Answered, Refused, device_query-outcome}
use pa6t_eth.Fixture.{idle, base, busy}

-- The address that the environment answers is not in use at the start.
busy-IsBalanced : IsBalanced 4096 0 busy
unfolding allocs frees wrappers stored listed new_unit
busy-IsBalanced = refl

idle-IsBalanced : IsBalanced 4096 0 idle
unfolding allocs frees wrappers stored listed new_unit
idle-IsBalanced = refl

-- Two writes, the second of which frees the buffer of the first, and an event waiter.
writing-has_unit : is_set (perform_all (begin 5 ∷ begin 2 ∷ begin 5 ∷ []) idle).base.unit ≡ true
unfolding perform_all begin_io begin_command begin_write begin_onevent queue_event transmit_packet
    tx_frame_len tx_alloc tx_fill_buffer eth_header store_bytes tx_hook find_opener tx_copy tx_map
    tx_submit tx_cleanup_pending tx_wait tx_poll store_desc tx_done tx_reply new_unit ◌>>=◌
writing-has_unit = refl

perform_all-reaches_example :
    frees 4096 (perform_all (begin 5 ∷ begin 2 ∷ begin 5 ∷ []) idle).trace
      + reached 4096 (perform_all (begin 5 ∷ begin 2 ∷ begin 5 ∷ []) idle)
    ≡ allocs 4096 (perform_all (begin 5 ∷ begin 2 ∷ begin 5 ∷ []) idle).trace
perform_all-reaches_example =
    perform_all-reaches 4096 (begin 5 ∷ begin 2 ∷ begin 5 ∷ []) idle (omega arith) idle-IsBalanced
      writing-has_unit

-- The device is open no more, but a write comes, and its buffer is then pending.
abbrev late : World
late = record idle { base = record base { lib_open_cnt = 0 } }

late-IsBalanced : IsBalanced 4096 0 late
unfolding allocs frees wrappers stored listed new_unit
late-IsBalanced = refl

late-end :
    (is_set (task_exit (perform_all (begin 5 ∷ []) late)).1.base.unit ≡ true)
    × ((task_exit (perform_all (begin 5 ∷ []) late)).1.base.lib_open_cnt ≡ 0)
    × ((task_exit (perform_all (begin 5 ∷ []) late)).1.unit.tx_buf_pending ≡ 4096)
unfolding perform_all begin_io begin_command begin_write transmit_packet tx_frame_len tx_alloc
    tx_fill_buffer eth_header store_bytes tx_hook find_opener tx_copy tx_map tx_submit
    tx_cleanup_pending store_desc tx_done tx_reply task_exit flush_all_pending flush_read_queue
    flush_list flush_read_list sweep_events sweep drain_port new_unit ◌>>=◌
late-end = (refl, refl, refl)

stopped-frees_example :
    frees 4096 (stopped (begin 5 ∷ []) late).trace
      + is_at (task_exit (perform_all (begin 5 ∷ []) late)).1.unit.tx_buf_pending 4096
      + listed 4096 (map opener_at (task_exit (perform_all (begin 5 ∷ []) late)).1.unit.opener_list)
    ≡ allocs 4096 (stopped (begin 5 ∷ []) late).trace
stopped-frees_example =
    stopped-frees 4096 (begin 5 ∷ []) late (omega arith) late-IsBalanced late-end.0 late-end.1

busy-goes_on : (task_round busy).0 ≡ true
unfolding task_round new_unit ◌>>=◌
busy-goes_on = refl

task_round-serves_example :
    (replies 3 busy.trace + count 3 busy.unit.port_msgs ≤ replies 3 (task_round busy).1.trace)
    × ((task_round busy).1.unit.port_msgs ≡ [])
task_round-serves_example = task_round-serves 3 busy busy-goes_on

task_round-status_example :
    (task_round busy).1.unit.online
    ≡ status_after (command_of busy) busy.unit.online busy.unit.port_msgs
task_round-status_example = task_round-status busy busy-goes_on

desc-round_trip_example :
    (bit_and (desc0 1514) xct_mactx_o ≡ xct_mactx_o)
    × (shr (bit_and (desc0 1514) xct_mactx_llen_m) xct_mactx_llen_s ≡ 1514)
    × (shr (bit_and (desc1 1514 8192) xct_ptr_len_m) xct_ptr_len_s ≡ 1514)
    × (bit_and (desc1 1514 8192) xct_ptr_addr_m ≡ 8192)
desc-round_trip_example = desc-round_trip 1514 8192 (omega arith) (omega arith)

device_query-outcome_example :
    (is_set (idle.reqs 1).stat_data ≡ true
      → Answered 1 (idle.reqs 1).stat_data idle (device_query 1 idle).1)
    × (is_set (idle.reqs 1).stat_data ≡ false → Refused 1 idle (device_query 1 idle).1)
device_query-outcome_example = device_query-outcome 1 idle
