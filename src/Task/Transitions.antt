-- ===== src/Task/Transitions.antt =====
-- The main loop of src/unit_task.c: the transitions of the unit's status in the order of the port.
use pa6t_eth.Base.{ℕ, ◌≡◌, ◌∙◌, refl, ap, List, [], ◌∷◌, Bool, true}
use pa6t_eth.Machine.{World, pure, get_unit, when, ◌>>=◌, ◌>>◌}
use pa6t_eth.Machine.Structs.{
  success, ioerr_aborted, ioerr_nocmd, Command, s2_devicequery, s2_getstationaddress,
  s2_configinterface, s2_online, s2_offline, cmd_read, s2_readorphan, cmd_write, s2_broadcast,
  s2_multicast, cmd_flush, s2_onevent, s2_getglobalstats, s2_addmulticastaddress,
  s2_delmulticastaddresses, s2_delmulticastaddress, s2_addmulticastaddresses, s2_tracktype,
  s2_untracktype, s2_sana2hook, other_command,
}
use pa6t_eth.Machine.Triples.{
  Takes, Keeps, keeps_rules, Takes-before, Takes-after, Takes-bind, Keeps-bind,
}
use pa6t_eth.Rx.Safe.{RxSafe, process_rx-safe}
use pa6t_eth.Rx.Process.{process_rx}
use pa6t_eth.Task.{serve_command, serve_message, drain_port, serve_port, task_round}
use pa6t_eth.Task.Rounds.{ready, task_round-goes_on}
use pa6t_eth.Task.Status.{
  HasStatus, HasStatus-modify_unit, status_rules, next_status, status_after, command_of,
  answer-status, answer_with-status, refuse_write-status, flush_read_queue-status,
  bring_online-status, take_offline-status,
}

module _ {cs : ℕ → Command} {b : Bool} where
  serve_command-status :
      (c : Command) (q : ℕ)
      → Takes (HasStatus cs b) (HasStatus cs (next_status b c)) (serve_command c q)
  unfolding serve_command
  serve_command-status s2_devicequery q = answer_with-status q ioerr_nocmd
  serve_command-status s2_getstationaddress q = answer_with-status q ioerr_nocmd
  serve_command-status s2_configinterface q =
      Takes-after _ _ bring_online-status (λ _. answer-status q)
  serve_command-status s2_online q = Takes-after _ _ bring_online-status (λ _. answer-status q)
  serve_command-status s2_offline q = Takes-after _ _ take_offline-status (λ _. answer-status q)
  serve_command-status cmd_read q = answer_with-status q ioerr_nocmd
  serve_command-status s2_readorphan q = answer_with-status q ioerr_nocmd
  serve_command-status cmd_write q = refuse_write-status q
  serve_command-status s2_broadcast q = refuse_write-status q
  serve_command-status s2_multicast q = refuse_write-status q
  serve_command-status cmd_flush q =
      Keeps-bind _ _ (flush_read_queue-status ioerr_aborted) (λ _. answer_with-status q success)
  serve_command-status s2_onevent q = answer_with-status q ioerr_nocmd
  serve_command-status s2_getglobalstats q = answer_with-status q ioerr_nocmd
  serve_command-status s2_addmulticastaddress q = answer_with-status q ioerr_nocmd
  serve_command-status s2_delmulticastaddresses q = answer_with-status q ioerr_nocmd
  serve_command-status s2_delmulticastaddress q = answer_with-status q ioerr_nocmd
  serve_command-status s2_addmulticastaddresses q = answer_with-status q ioerr_nocmd
  serve_command-status s2_tracktype q = answer_with-status q ioerr_nocmd
  serve_command-status s2_untracktype q = answer_with-status q ioerr_nocmd
  serve_command-status s2_sana2hook q = answer_with-status q ioerr_nocmd
  serve_command-status (other_command n) q = answer_with-status q ioerr_nocmd

  serve_message-status :
      (q : ℕ) → Takes (HasStatus cs b) (HasStatus cs (next_status b (cs q))) (serve_message q)
  unfolding serve_message ◌>>=◌
  serve_message-status q = record {
    at = λ w h.
        let c = h.commands q in rw (← c) ((serve_command-status (w.reqs q).io_command q).at w h);
  }

drain_port-status :
    {cs : ℕ → Command} {b : Bool} (ms : List ℕ)
    → Takes (HasStatus cs b) (HasStatus cs (status_after cs b ms)) (drain_port serve_message ms)
unfolding drain_port
drain_port-status [] = search status_rules depth 20 fits 4000
drain_port-status (q ∷ ms) =
    Takes-before _ _ (HasStatus-modify_unit _ (λ u. refl))
      (λ _. Takes-bind _ _ (serve_message-status q) (λ _. drain_port-status ms))

-- The status alone, which the receiver does not change either.
record IsOnline (b : Bool) (w : World) : Type 0 where
  is_online : w.unit.online ≡ b

instance IsOnline-RxSafe : {b : Bool} → RxSafe (IsOnline b)
IsOnline-RxSafe = record {
  frames = record {
    on_rest = λ w v e t h. record { is_online = ap (λ u. u.online) e ∙ h.is_online };
    on_call = λ c p w v e t h. record { is_online = ap (λ u. u.online) e ∙ h.is_online };
  };
  rings = λ w v e t h. record { is_online = ap (λ u. u.online) e ∙ h.is_online };
}

receive-IsOnline :
    {b : Bool} → Keeps (IsOnline b) (do v ← get_unit; when v.online process_rx; pure true)
receive-IsOnline = search (keeps_rules, process_rx-safe) depth 20 fits 4000

serve_port-IsOnline :
    (w : World)
    → IsOnline (status_after (command_of w) w.unit.online w.unit.port_msgs) (serve_port w).1
unfolding serve_port ◌>>=◌
serve_port-IsOnline w =
    let h =
      (drain_port-status w.unit.port_msgs).at w (record { status = refl; commands = λ q. refl }) in
    record { is_online = h.status }

-- The unit task is a state machine. A round that does not end it takes the unit from online or
-- offline to what the commands of the messages in the port make of it, one after the other in the
-- order of the port: S2_ONLINE and S2_CONFIGINTERFACE to online, S2_OFFLINE to offline, and each
-- other command to where it was.
pub task_round-status :
    (w : World)
    → (task_round w).0 ≡ true
    → (task_round w).1.unit.online ≡ status_after (command_of w) w.unit.online w.unit.port_msgs
unfolding ◌>>=◌
task_round-status w e =
    let after = receive-IsOnline.at _ (serve_port-IsOnline (ready w)) in
    rw (task_round-goes_on w e) after.is_online
