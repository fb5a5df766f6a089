-- ===== src/Memory/Task.antt =====
-- The unit task of src/unit_task.c: what it serves, and its end.
use pa6t_eth.Base.{ℕ, ◌<◌, refl, List, [], ◌∷◌}
use pa6t_eth.Machine.{World, Run}
use pa6t_eth.Machine.Structs.{
  IoError, ioerr_aborted, ioerr_nocmd, Command, s2_devicequery, s2_getstationaddress,
  s2_configinterface, s2_online, s2_offline, cmd_read, s2_readorphan, cmd_write, s2_broadcast,
  s2_multicast, cmd_flush, s2_onevent, s2_getglobalstats, s2_addmulticastaddress,
  s2_delmulticastaddresses, s2_delmulticastaddress, s2_addmulticastaddresses, s2_tracktype,
  s2_untracktype, s2_sana2hook, other_command,
}
use pa6t_eth.Machine.Triples.{Keeps, Keeps-bind}
use pa6t_eth.Machine.Plain.{MemSafe, mem_rules, mem-modify_unit}
use pa6t_eth.Task.{
  bring_online, take_offline, answer, answer_with, refuse_write, serve_command, serve_message,
  abort_message, drain_port, serve_port, task_round, task_exit,
}
use pa6t_eth.Hw.Irq.{interrupt_handler, status_word}
use pa6t_eth.Memory.{Holds, Holds-MemSafe}
use pa6t_eth.Memory.Reads.{signal_event-mem, flush_read_queue-Holds, flush_all_pending-Holds}
use pa6t_eth.Memory.Receive.{process_rx-Holds}
use pa6t_eth.Memory.Buffers.{post_rx_buffers-Holds}

module _ {P : World → Type 0} ⦃s : MemSafe P⦄ where
  answer-mem : (q : ℕ) → Keeps P (answer q)
  unfolding answer
  answer-mem q = search mem_rules depth 20 fits 4000

  answer_with-mem : (q : ℕ) (e : IoError) → Keeps P (answer_with q e)
  unfolding answer_with
  answer_with-mem q e = search mem_rules depth 20 fits 4000

  refuse_write-mem : (q : ℕ) → Keeps P (refuse_write q)
  unfolding refuse_write
  refuse_write-mem q = search mem_rules depth 20 fits 4000

  abort_message-mem : (q : ℕ) → Keeps P (abort_message q)
  unfolding abort_message
  abort_message-mem q = answer_with-mem q ioerr_aborted

  status_word-mem : (p ch : ℕ) → Keeps P (status_word p ch)
  unfolding status_word
  status_word-mem p ch = search mem_rules depth 20 fits 4000

  pub interrupt_handler-mem : Keeps P interrupt_handler
  unfolding interrupt_handler
  interrupt_handler-mem = search (mem_rules, status_word-mem) depth 24 fits 4000

  drain_port-mem :
      (serve : ℕ → Run)
      → ((q : ℕ) → Keeps P (serve q))
      → (l : List ℕ) → Keeps P (drain_port serve l)
  unfolding drain_port
  drain_port-mem serve k [] = search mem_rules depth 20 fits 4000
  drain_port-mem serve k (q ∷ l) =
      Keeps-bind _ _ (mem-modify_unit _ (λ u. refl))
        (λ _. Keeps-bind _ _ (k q) (λ _. drain_port-mem serve k l))

module _ {a s : ℕ} (l : 0 < a) where
  bring_online-Holds : Keeps (Holds a s 0) bring_online
  unfolding bring_online
  bring_online-Holds =
      search (mem_rules, post_rx_buffers-Holds, signal_event-mem) depth 24 fits 4000

  take_offline-Holds : Keeps (Holds a s 0) take_offline
  unfolding take_offline
  take_offline-Holds =
      search (mem_rules, flush_read_queue-Holds, signal_event-mem) depth 24 fits 4000

  serve_command-Holds : (c : Command) (q : ℕ) → Keeps (Holds a s 0) (serve_command c q)
  unfolding serve_command
  serve_command-Holds s2_devicequery q = answer_with-mem q ioerr_nocmd
  serve_command-Holds s2_getstationaddress q = answer_with-mem q ioerr_nocmd
  serve_command-Holds s2_configinterface q =
      search (mem_rules, bring_online-Holds, answer-mem) depth 20 fits 4000
  serve_command-Holds s2_online q =
      search (mem_rules, bring_online-Holds, answer-mem) depth 20 fits 4000
  serve_command-Holds s2_offline q =
      search (mem_rules, take_offline-Holds, answer-mem) depth 20 fits 4000
  serve_command-Holds cmd_read q = answer_with-mem q ioerr_nocmd
  serve_command-Holds s2_readorphan q = answer_with-mem q ioerr_nocmd
  serve_command-Holds cmd_write q = refuse_write-mem q
  serve_command-Holds s2_broadcast q = refuse_write-mem q
  serve_command-Holds s2_multicast q = refuse_write-mem q
  serve_command-Holds cmd_flush q =
      search (mem_rules, flush_read_queue-Holds, answer_with-mem) depth 20 fits 4000
  serve_command-Holds s2_onevent q = answer_with-mem q ioerr_nocmd
  serve_command-Holds s2_getglobalstats q = answer_with-mem q ioerr_nocmd
  serve_command-Holds s2_addmulticastaddress q = answer_with-mem q ioerr_nocmd
  serve_command-Holds s2_delmulticastaddresses q = answer_with-mem q ioerr_nocmd
  serve_command-Holds s2_delmulticastaddress q = answer_with-mem q ioerr_nocmd
  serve_command-Holds s2_addmulticastaddresses q = answer_with-mem q ioerr_nocmd
  serve_command-Holds s2_tracktype q = answer_with-mem q ioerr_nocmd
  serve_command-Holds s2_untracktype q = answer_with-mem q ioerr_nocmd
  serve_command-Holds s2_sana2hook q = answer_with-mem q ioerr_nocmd
  serve_command-Holds (other_command n) q = answer_with-mem q ioerr_nocmd

  serve_message-Holds : (q : ℕ) → Keeps (Holds a s 0) (serve_message q)
  unfolding serve_message
  serve_message-Holds q = search (mem_rules, serve_command-Holds) depth 20 fits 4000

  serve_port-Holds : Keeps (Holds a s 0) serve_port
  unfolding serve_port
  serve_port-Holds = search (mem_rules, drain_port-mem, serve_message-Holds) depth 20 fits 4000

  pub task_round-Holds : Keeps (Holds a s 0) task_round
  unfolding task_round
  task_round-Holds = search (mem_rules, serve_port-Holds, process_rx-Holds) depth 24 fits 4000

  pub task_exit-Holds : Keeps (Holds a s 0) task_exit
  unfolding task_exit
  task_exit-Holds =
      search (mem_rules, drain_port-mem, abort_message-mem, flush_all_pending-Holds) depth 24 fits
        4000
