-- ===== src/Ledger/Task.antt =====
-- The unit task: each message is answered once, and when the task ends nothing waits.
use pa6t_eth.Base.{ℕ, ◌+◌, ◌≡◌, ◌∙◌, ap, refl, List, [], ◌∷◌, arith, count}
use pa6t_eth.Machine.{World, M, Run, ◌>>=◌}
use pa6t_eth.Machine.Structs.{
  EthUnit, IoError, ioerr_nocmd, ioerr_aborted, Command, s2_devicequery, s2_getstationaddress,
  s2_configinterface, s2_online, s2_offline, cmd_read, s2_readorphan, cmd_write, s2_broadcast,
  s2_multicast, cmd_flush, s2_onevent, s2_getglobalstats, s2_addmulticastaddress,
  s2_delmulticastaddresses, s2_delmulticastaddress, s2_addmulticastaddresses, s2_tracktype,
  s2_untracktype, s2_sana2hook, other_command,
}
use pa6t_eth.Machine.Triples.{Takes, Keeps, Takes-before}
use pa6t_eth.Requests.{flush_read_queue}
use pa6t_eth.Task.{
  bring_online, take_offline, answer, answer_with, refuse_write, serve_command, serve_message,
  abort_message, drain_port, signal_event, serve_port, task_round, task_exit,
}
use pa6t_eth.Ledger.{Owes, owes_rules, one, waiting, count_reads, settled, replies, Owes-reply}
use pa6t_eth.Hw.Quiet.{post_rx_buffers-quiet}
use pa6t_eth.Ledger.Queues.{flush_read_queue-Owes, flush_all_pending-Owes, signal_event-Owes}
use pa6t_eth.Ledger.Flush.{flush_all_pending-unit, flushed}
use pa6t_eth.Ledger.Dispatch.{process_rx-Owes}
use pa6t_eth.Ledger.Port.{HasPort, serve_message-port, abort_message-port}

-- Code that leaves the account as it is does so whatever is owed at the time.
Owes-any :
    {A : Type 0} {r k b : ℕ} (m : M A) → ((j : ℕ) → Keeps (Owes r j 0) m) → Keeps (Owes r k b) m
Owes-any {r = r} m f = record {
  at = λ w h.
      let after = (f (settled r w + 0)).at w (record { owed = refl }) in
      record { owed = omega (arith, after.owed, h.owed) };
}

module _ {r k b : ℕ} where
  signal-Owes : (mask : ℕ) → Keeps (Owes r k b) (signal_event mask)
  signal-Owes mask = Owes-any (signal_event mask) (λ j. signal_event-Owes mask)

  flushed-Owes : (e : IoError) → Keeps (Owes r k b) (flush_read_queue e)
  flushed-Owes e = Owes-any (flush_read_queue e) (λ j. flush_read_queue-Owes e)

  bring_online-Owes : Keeps (Owes r k b) bring_online
  unfolding bring_online
  bring_online-Owes = search (owes_rules, post_rx_buffers-quiet, signal-Owes) depth 24 fits 4000

  take_offline-Owes : Keeps (Owes r k b) take_offline
  unfolding take_offline
  take_offline-Owes = search (owes_rules, flushed-Owes, signal-Owes) depth 24 fits 4000

module _ {r k : ℕ} where
  answer-Owes : (q : ℕ) → Takes (Owes r k (one q r)) (Owes r k 0) (answer q)
  unfolding answer
  answer-Owes q = search (Takes-before, owes_rules, Owes-reply) depth 20 fits 4000

  answer_with-Owes :
      (q : ℕ) (e : IoError) → Takes (Owes r k (one q r)) (Owes r k 0) (answer_with q e)
  unfolding answer_with
  answer_with-Owes q e = search (Takes-before, owes_rules, Owes-reply) depth 20 fits 4000

  refuse_write-Owes : (q : ℕ) → Takes (Owes r k (one q r)) (Owes r k 0) (refuse_write q)
  unfolding refuse_write
  refuse_write-Owes q = search (Takes-before, owes_rules, Owes-reply) depth 20 fits 4000

  serve_command-Owes :
      (c : Command) (q : ℕ) → Takes (Owes r k (one q r)) (Owes r k 0) (serve_command c q)
  unfolding serve_command
  serve_command-Owes s2_devicequery q = answer_with-Owes q ioerr_nocmd
  serve_command-Owes s2_getstationaddress q = answer_with-Owes q ioerr_nocmd
  serve_command-Owes s2_configinterface q =
      search (Takes-before, owes_rules, bring_online-Owes, answer-Owes) depth 20 fits 4000
  serve_command-Owes s2_online q =
      search (Takes-before, owes_rules, bring_online-Owes, answer-Owes) depth 20 fits 4000
  serve_command-Owes s2_offline q =
      search (Takes-before, owes_rules, take_offline-Owes, answer-Owes) depth 20 fits 4000
  serve_command-Owes cmd_read q = answer_with-Owes q ioerr_nocmd
  serve_command-Owes s2_readorphan q = answer_with-Owes q ioerr_nocmd
  serve_command-Owes cmd_write q = refuse_write-Owes q
  serve_command-Owes s2_broadcast q = refuse_write-Owes q
  serve_command-Owes s2_multicast q = refuse_write-Owes q
  serve_command-Owes cmd_flush q =
      search (Takes-before, owes_rules, flushed-Owes, answer_with-Owes) depth 20 fits 4000
  serve_command-Owes s2_onevent q = answer_with-Owes q ioerr_nocmd
  serve_command-Owes s2_getglobalstats q = answer_with-Owes q ioerr_nocmd
  serve_command-Owes s2_addmulticastaddress q = answer_with-Owes q ioerr_nocmd
  serve_command-Owes s2_delmulticastaddresses q = answer_with-Owes q ioerr_nocmd
  serve_command-Owes s2_delmulticastaddress q = answer_with-Owes q ioerr_nocmd
  serve_command-Owes s2_addmulticastaddresses q = answer_with-Owes q ioerr_nocmd
  serve_command-Owes s2_tracktype q = answer_with-Owes q ioerr_nocmd
  serve_command-Owes s2_untracktype q = answer_with-Owes q ioerr_nocmd
  serve_command-Owes s2_sana2hook q = answer_with-Owes q ioerr_nocmd
  serve_command-Owes (other_command n) q = answer_with-Owes q ioerr_nocmd

  serve_message-Owes : (q : ℕ) → Takes (Owes r k (one q r)) (Owes r k 0) (serve_message q)
  unfolding serve_message
  serve_message-Owes q = search (Takes-before, owes_rules, serve_command-Owes) depth 20 fits 4000

  abort_message-Owes : (q : ℕ) → Takes (Owes r k (one q r)) (Owes r k 0) (abort_message q)
  unfolding abort_message
  abort_message-Owes q = answer_with-Owes q ioerr_aborted

-- GetMsg until the port is empty, whatever answers each message once and leaves the port alone.
module _ (serve : ℕ → Run)
    (answers : (r k q : ℕ) → Takes (Owes r k (one q r)) (Owes r k 0) (serve q))
    (leaves : (l : List ℕ) (q : ℕ) → Keeps (HasPort l) (serve q)) where
  drain_port-Owes :
      (r k : ℕ) (ms : List ℕ) (w : World)
      → w.unit.port_msgs ≡ ms
      → Owes r k 0 w
      → Owes r k 0 (drain_port serve ms w).1
  unfolding drain_port ◌>>=◌ count
  drain_port-Owes r k [] w e h = h
  drain_port-Owes r k (q ∷ ms) w e h =
      drain_port-Owes r k ms _ ((leaves ms q).at _ (record { port = refl })).port
        ((answers r k q).at _ (record { owed = omega (arith, ap (count r) e, h.owed) }))

  drain_port-port :
      (ms : List ℕ) (w : World) → w.unit.port_msgs ≡ ms → HasPort [] (drain_port serve ms w).1
  unfolding drain_port ◌>>=◌
  drain_port-port [] w e = record { port = e }
  drain_port-port (q ∷ ms) w e =
      drain_port-port ms _ ((leaves ms q).at _ (record { port = refl })).port

serve_port-Owes : {r k : ℕ} → Keeps (Owes r k 0) serve_port
unfolding serve_port ◌>>=◌
serve_port-Owes = record {
  at = λ w h.
      drain_port-Owes serve_message (λ r k. serve_message-Owes) (λ l. serve_message-port) _ _
        w.unit.port_msgs w refl h;
}

pub task_round-Owes : {r k : ℕ} → Keeps (Owes r k 0) task_round
unfolding task_round
task_round-Owes = search (owes_rules, serve_port-Owes, process_rx-Owes) depth 24 fits 4000

-- The state after the port is drained, and after the flush.
abbrev drained : World → World
drained w = (drain_port abort_message w.unit.port_msgs w).1

drained-Owes : {r k : ℕ} (w : World) → Owes r k 0 w → Owes r k 0 (drained w)
drained-Owes w h =
    drain_port-Owes abort_message (λ r k. abort_message-Owes) (λ l. abort_message-port) _ _ _ w refl
      h

drained-port : (w : World) → HasPort [] (drained w)
drained-port w =
    drain_port-port abort_message (λ r k. abort_message-Owes) (λ l. abort_message-port) _ w refl

pub task_exit-Owes : {r k : ℕ} → Keeps (Owes r k 0) task_exit
unfolding task_exit ◌>>=◌ replies
task_exit-Owes = record {
  at = λ w h.
      let done = flush_all_pending-Owes.at (drained w) (drained-Owes w h) in
      record { owed = omega (arith, done.owed) };
}

flushed-waiting : (r : ℕ) (u : EthUnit) → u.port_msgs ≡ [] → waiting r (flushed u []) ≡ 0
unfolding count count_reads
flushed-waiting r u e = rw e refl

pub task_exit-waiting : (r : ℕ) (w : World) → waiting r (task_exit w).1.unit ≡ 0
unfolding task_exit ◌>>=◌
task_exit-waiting r w =
    ap (waiting r) (flush_all_pending-unit (drained w))
    ∙ flushed-waiting r (drained w).unit (drained-port w).port

-- No read waits when the task has ended.
pub task_exit-lists :
    (w : World)
    → ((task_exit w).1.unit.read_list_ipv4 ≡ [])
      × ((task_exit w).1.unit.read_list_arp ≡ [])
      × ((task_exit w).1.unit.read_list_other ≡ [])
unfolding task_exit ◌>>=◌
task_exit-lists w =
    let e = flush_all_pending-unit (drained w) in
    (ap (λ u. u.read_list_ipv4) e, ap (λ u. u.read_list_arp) e, ap (λ u. u.read_list_other) e)
