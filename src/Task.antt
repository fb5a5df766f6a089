-- ===== src/Task.antt =====
-- src/unit_task.c: the unit task's start, its loop, the commands that it serves, and its end.
-- A signal bit is named by its mask, `1UL << bit`.
pub mod Events
pub mod Rounds
pub mod Status
pub mod Transitions
use pa6t_eth.Base.{
  ℕ, zero, suc, ◌%◌, ◌^◌, List, [], ◌∷◌, Bool, true, false, not, ltb, if◌then◌else◌, is_set, inc32,
  bit_and, bit_or,
}
use pa6t_eth.Machine.{
  M, Run, skip, pure, ◌>>=◌, ◌>>◌, call, call_, get_unit, modify_unit, get_req, modify_req, get_sdk,
  when,
}
use pa6t_eth.Machine.Structs.{
  IoError, success, s2err_outofservice, s2err_tx_failure, ioerr_aborted, ioerr_nocmd, Command,
  s2_configinterface, s2_online, s2_offline, cmd_flush, cmd_write, s2_broadcast, s2_multicast,
}
use pa6t_eth.Machine.Calls.{
  reply_msg, forbid, permit, signal, wait, set_signal, alloc_signal, free_signal, alloc_port,
  free_port, port_sig_bit, find_task, create_task,
}
use pa6t_eth.Requests.{sweep_events, flush_read_queue, flush_all_pending}
use pa6t_eth.Rx.Post.{post_rx_buffers}
use pa6t_eth.Rx.Process.{process_rx}

-- One waiter of the event list: it is served if its mask has the event.
unfoldable pub serve_event : ℕ → ℕ → M Bool
serve_event event_mask r = do
  ev ← get_req r
  if is_set (bit_and ev.wire_error event_mask)
      then (do
        modify_req r
            (λ ev. record ev { io_error = success; wire_error = bit_and event_mask ev.wire_error })
        call_ (reply_msg r)
        pure true)
      else pure false

unfoldable pub signal_event : ℕ → Run
signal_event event_mask = do call_ forbid; sweep_events (serve_event event_mask); call_ permit

-- `S2_ONLINE` and `S2_CONFIGINTERFACE`: nothing is done twice.
unfoldable pub bring_online : Run
bring_online = do
  u ← get_unit
  sdk ← get_sdk
  when (not u.online) (do
    modify_unit (λ u. record u { online = true })
    post_rx_buffers
    signal_event sdk.s2event_online)

unfoldable pub take_offline : Run
take_offline = do
  u ← get_unit
  sdk ← get_sdk
  modify_unit (λ u. record u { online = false })
  flush_read_queue s2err_outofservice
  signal_event sdk.s2event_offline

-- The request is answered with both error fields 0.
unfoldable pub answer : ℕ → Run
answer r = do
  modify_req r (λ q. record q { io_error = success; wire_error = 0 })
  call_ (reply_msg r)

-- The request is answered with an error, its wire error as it is.
unfoldable pub answer_with : ℕ → IoError → Run
answer_with r err = do
  q ← get_req r
  modify_req r (λ q. record q { io_error = err })
  call_ (reply_msg r)

unfoldable pub refuse_write : ℕ → Run
refuse_write r = do
  q ← get_req r
  sdk ← get_sdk
  modify_req r
      (λ q. record q { io_error = s2err_tx_failure; wire_error = sdk.s2werr_generic_error })
  call_ (reply_msg r)

-- The `switch` of the main loop.
unfoldable pub serve_command : Command → ℕ → Run
serve_command s2_configinterface r = do bring_online; answer r
serve_command s2_online r = do bring_online; answer r
serve_command s2_offline r = do take_offline; answer r
serve_command cmd_flush r = do flush_read_queue ioerr_aborted; answer_with r success
serve_command cmd_write r = refuse_write r
serve_command s2_broadcast r = refuse_write r
serve_command s2_multicast r = refuse_write r
serve_command _ r = answer_with r ioerr_nocmd

unfoldable pub serve_message : ℕ → Run
serve_message r = do q ← get_req r; serve_command q.io_command r

-- `GetMsg` until the port is empty; `serve` is what is done with each message.
unfoldable pub drain_port : (ℕ → Run) → List ℕ → Run
drain_port serve [] = skip
drain_port serve (r ∷ rs) = do
  modify_unit (λ u. record u { port_msgs = rs })
  serve r
  drain_port serve rs

unfoldable pub serve_port : Run
serve_port = do u ← get_unit; drain_port serve_message u.port_msgs

-- One round of the main loop; `false` ends it.
unfoldable pub task_round : M Bool
task_round = do
  u ← get_unit
  if u.task_shutdown then pure false else (do
    sdk ← get_sdk
    modify_unit (λ u. record u { loop_count = inc32 u.loop_count })
    call_ (wait (bit_or (bit_or u.io_port_mask u.irq_signal_mask) sdk.sigbreakf_ctrl_c))
    call_ (set_signal u.irq_signal_mask)
    old ← call (set_signal sdk.sigbreakf_ctrl_c)
    if is_set (bit_and old sdk.sigbreakf_ctrl_c)
        then pure false
        else (do serve_port; v ← get_unit; when v.online process_rx; pure true))

unfoldable pub abort_message : ℕ → Run
abort_message r = answer_with r ioerr_aborted

-- After the loop: what is still queued is aborted, and the task's resources are given back.
unfoldable pub task_exit : Run
task_exit = do
  u ← get_unit
  drain_port abort_message u.port_msgs
  flush_all_pending
  v ← get_unit
  modify_unit (λ v. record v { irq_wait_task = 0; irq_signal_mask = 0 })
  call_ (free_signal v.irq_signal_mask)
  call_ (free_port v.io_port)
  modify_unit (λ x. record x { io_port = 0; io_port_mask = 0; task = 0 })

-- `AllocSignal(-1)` answers an `int8`; a negative one is a failure.
abbrev pub is_signal : ℕ → Bool
is_signal bit = ltb (bit % 2 ^ 8) (2 ^ 7)

abbrev pub signal_mask : ℕ → ℕ
signal_mask bit = 2 ^ (bit % 2 ^ 8) % 2 ^ 32

-- The task up to its main loop. `parent` and `ready` are those of the startup message. The new port is
-- empty; what was in a port before it is out of reach.
unfoldable pub task_startup : ℕ → ℕ → Run
task_startup parent ready = do
  self ← call find_task
  port ← call alloc_port
  u ← get_unit
  modify_unit (λ u. record u { io_port = port; port_msgs = [] })
  if is_set port
      then (do
        sig_bit ← call (port_sig_bit port)
        modify_unit
            (λ u. record u { io_port = port; io_port_mask = signal_mask sig_bit; task = self })
        irq_bit ← call alloc_signal
        v ← get_unit
        if is_signal irq_bit
            then (do
              modify_unit
                  (λ v. record v { irq_wait_task = self; irq_signal_mask = signal_mask irq_bit })
              call_ (signal parent ready))
            else (do
              call_ (free_port port)
              modify_unit (λ v. record v { io_port = 0; io_port_mask = 0; task = 0 })
              call_ (signal parent ready)))
      else call_ (signal parent ready)

-- The wait for the new task's signal is where the task runs its start.
unfoldable pub unit_task_start : M Bool
unit_task_start = do
  ready_bit ← call alloc_signal
  if is_signal ready_bit
      then (do
        parent ← call find_task
        modify_unit (λ u. record u { task_shutdown = false })
        call_ forbid
        task ← call create_task
        call_ permit
        if is_set task
            then (do
              task_startup parent (signal_mask ready_bit)
              call_ (wait (signal_mask ready_bit))
              call_ (free_signal (signal_mask ready_bit))
              v ← get_unit
              pure (is_set v.io_port))
            else (do call_ (free_signal (signal_mask ready_bit)); pure false))
      else pure false

-- Each round yields; the answer says whether the unit task has then run to its end. `patience`
-- rounds at most.
unfoldable pub yield_until_exit : ℕ → Run
yield_until_exit zero = skip
yield_until_exit (suc patience) = do
  u ← get_unit
  when (is_set u.task)
      (do call_ forbid; ran ← call permit; when (is_set ran) task_exit; yield_until_exit patience)

abbrev pub shutdown_patience : ℕ
shutdown_patience = 100000

unfoldable pub unit_task_shutdown : Run
unit_task_shutdown = do
  u ← get_unit
  sdk ← get_sdk
  when (is_set u.task) (do
    modify_unit (λ u. record u { task_shutdown = true })
    call_ (signal u.task sdk.sigbreakf_ctrl_c)
    yield_until_exit shutdown_patience)
