-- ===== src/Ledger/Port.antt =====
-- Serving a message leaves the unit task's port to GetMsg.
use pa6t_eth.Base.{ℕ, ◌≡◌, ◌∙◌, ap, refl, List, Bool}
use pa6t_eth.Machine.{World, M, call, call_, modify_unit, modify_req, ◌>>=◌}
use pa6t_eth.Machine.Structs.{
  EthUnit, IoError, IoSana2Req, success, ioerr_nocmd, ioerr_aborted, Command, s2_devicequery,
  s2_getstationaddress, s2_configinterface, s2_online, s2_offline, cmd_read, s2_readorphan,
  cmd_write, s2_broadcast, s2_multicast, cmd_flush, s2_onevent, s2_getglobalstats,
  s2_addmulticastaddress, s2_delmulticastaddresses, s2_delmulticastaddress,
  s2_addmulticastaddresses, s2_tracktype, s2_untracktype, s2_sana2hook, other_command,
}
use pa6t_eth.Machine.Calls.{Call}
use pa6t_eth.Machine.Triples.{Keeps, Keeps-bind, keeps_rules}
use pa6t_eth.Requests.{sweep_events, flush_read_queue}
use pa6t_eth.Machine.Quiet.{QuietSafe, Soft}
use pa6t_eth.Hw.Quiet.{post_rx_buffers-quiet}
use pa6t_eth.Task.{
  signal_event, bring_online, take_offline, answer, answer_with, refuse_write, serve_command,
  serve_message, abort_message,
}
use pa6t_eth.Ledger.Queues.{Serves, serve_event-Serves}
use pa6t_eth.Ledger.Flush.{sweep_events-unit, flush_read_queue-unit}

-- The messages that stand in the port.
pub record HasPort (l : List ℕ) (w : World) : Type 0 where
  pub port : w.unit.port_msgs ≡ l

module _ {l : List ℕ} where
  HasPort-call : (c : Call) → Keeps (HasPort l) (call c)
  unfolding ◌>>=◌
  HasPort-call c = record { at = λ w h. record { port = h.port } }

  HasPort-call_ : (c : Call) → Keeps (HasPort l) (call_ c)
  unfolding ◌>>=◌
  HasPort-call_ c = record { at = λ w h. record { port = h.port } }

  HasPort-modify_unit :
      (f : EthUnit → EthUnit)
      → ((u : EthUnit) → (f u).port_msgs ≡ u.port_msgs)
      → Keeps (HasPort l) (modify_unit f)
  unfolding ◌>>=◌
  HasPort-modify_unit f e = record { at = λ w h. record { port = e w.unit ∙ h.port } }

  HasPort-modify_req : (q : ℕ) (f : IoSana2Req → IoSana2Req) → Keeps (HasPort l) (modify_req q f)
  unfolding ◌>>=◌
  HasPort-modify_req q f = record { at = λ w h. record { port = h.port } }

abbrev port_of : EthUnit → List ℕ
port_of u = u.port_msgs

abbrev soft_port : Soft → List ℕ
soft_port s = s.port_msgs

same_port : (l : List ℕ) → l ≡ l
same_port l = refl

ruleset port_rules =
    (keeps_rules, HasPort-call, HasPort-call_, HasPort-modify_unit, HasPort-modify_req, same_port)

instance HasPort-QuietSafe : {l : List ℕ} → QuietSafe (HasPort l)
HasPort-QuietSafe = record {
  on_call = λ c e. HasPort-call c;
  on_call_ = λ c e. HasPort-call_ c;
  on_unit = λ f e. HasPort-modify_unit f (λ u. ap soft_port (e u));
}

module _ {l : List ℕ} where
  sweep_events-port : (act : ℕ → M Bool) → Serves act → Keeps (HasPort l) (sweep_events act)
  sweep_events-port act s = record {
    at = λ w h. record { port = ap port_of (sweep_events-unit act s w) ∙ h.port };
  }

  flush_read_queue-port : (e : IoError) → Keeps (HasPort l) (flush_read_queue e)
  flush_read_queue-port e = record {
    at = λ w h. record { port = ap port_of (flush_read_queue-unit e w).1 ∙ h.port };
  }

  signal_event-port : (mask : ℕ) → Keeps (HasPort l) (signal_event mask)
  unfolding signal_event
  signal_event-port mask =
      search (port_rules, sweep_events-port, serve_event-Serves) depth 24 fits 4000

  bring_online-port : Keeps (HasPort l) bring_online
  unfolding bring_online
  bring_online-port =
      search (port_rules, post_rx_buffers-quiet, signal_event-port) depth 24 fits 4000

  take_offline-port : Keeps (HasPort l) take_offline
  unfolding take_offline
  take_offline-port =
      search (port_rules, flush_read_queue-port, signal_event-port) depth 24 fits 4000

  answer-port : (q : ℕ) → Keeps (HasPort l) (answer q)
  unfolding answer
  answer-port q = search port_rules depth 20 fits 4000

  answer_with-port : (q : ℕ) (e : IoError) → Keeps (HasPort l) (answer_with q e)
  unfolding answer_with
  answer_with-port q e = search port_rules depth 20 fits 4000

  refuse_write-port : (q : ℕ) → Keeps (HasPort l) (refuse_write q)
  unfolding refuse_write
  refuse_write-port q = search port_rules depth 20 fits 4000

  pub abort_message-port : (q : ℕ) → Keeps (HasPort l) (abort_message q)
  unfolding abort_message
  abort_message-port q = answer_with-port q ioerr_aborted

  serve_command-port : (c : Command) (q : ℕ) → Keeps (HasPort l) (serve_command c q)
  unfolding serve_command
  serve_command-port s2_devicequery q = answer_with-port q ioerr_nocmd
  serve_command-port s2_getstationaddress q = answer_with-port q ioerr_nocmd
  serve_command-port s2_configinterface q =
      Keeps-bind bring_online _ bring_online-port (λ _. answer-port q)
  serve_command-port s2_online q = Keeps-bind bring_online _ bring_online-port (λ _. answer-port q)
  serve_command-port s2_offline q = Keeps-bind take_offline _ take_offline-port (λ _. answer-port q)
  serve_command-port cmd_read q = answer_with-port q ioerr_nocmd
  serve_command-port s2_readorphan q = answer_with-port q ioerr_nocmd
  serve_command-port cmd_write q = refuse_write-port q
  serve_command-port s2_broadcast q = refuse_write-port q
  serve_command-port s2_multicast q = refuse_write-port q
  serve_command-port cmd_flush q =
      Keeps-bind (flush_read_queue ioerr_aborted) _ (flush_read_queue-port ioerr_aborted)
        (λ _. answer_with-port q success)
  serve_command-port s2_onevent q = answer_with-port q ioerr_nocmd
  serve_command-port s2_getglobalstats q = answer_with-port q ioerr_nocmd
  serve_command-port s2_addmulticastaddress q = answer_with-port q ioerr_nocmd
  serve_command-port s2_delmulticastaddresses q = answer_with-port q ioerr_nocmd
  serve_command-port s2_delmulticastaddress q = answer_with-port q ioerr_nocmd
  serve_command-port s2_addmulticastaddresses q = answer_with-port q ioerr_nocmd
  serve_command-port s2_tracktype q = answer_with-port q ioerr_nocmd
  serve_command-port s2_untracktype q = answer_with-port q ioerr_nocmd
  serve_command-port s2_sana2hook q = answer_with-port q ioerr_nocmd
  serve_command-port (other_command n) q = answer_with-port q ioerr_nocmd

  pub serve_message-port : (q : ℕ) → Keeps (HasPort l) (serve_message q)
  unfolding serve_message
  serve_message-port q = search (port_rules, serve_command-port) depth 20 fits 4000
