-- ===== src/Ledger/Progress.antt =====
-- The unit task's round of src/unit_task.c makes progress: it empties the port, and replies to each
-- message that was in it.
use pa6t_eth.Base.{ℕ, ◌+◌, ◌≤◌, List, [], ◌∷◌, Bool, arith}
use pa6t_eth.Machine.{World, M, call, call_, modify_unit, modify_req, ◌>>=◌}
use pa6t_eth.Machine.Structs.{
  EthUnit, PendingRead, IoError, IoSana2Req, success, ioerr_aborted, ioerr_nocmd, Command,
  s2_devicequery, s2_getstationaddress, s2_configinterface, s2_online, s2_offline, cmd_read,
  s2_readorphan, cmd_write, s2_broadcast, s2_multicast, cmd_flush, s2_onevent, s2_getglobalstats,
  s2_addmulticastaddress, s2_delmulticastaddresses, s2_delmulticastaddress,
  s2_addmulticastaddresses, s2_tracktype, s2_untracktype, s2_sana2hook, other_command,
}
use pa6t_eth.Machine.Calls.{Call, reply_msg}
use pa6t_eth.Machine.Triples.{Takes, Keeps, keeps_rules, Takes-before, Keeps-bind}
use pa6t_eth.Machine.Quiet.{QuietSafe}
use pa6t_eth.Hw.Quiet.{post_rx_buffers-quiet}
use pa6t_eth.Requests.{
  ReadList, fail_request, flush_read_list, flush_list, flush_read_queue, flush_orphan, sweep,
  sweep_events,
}
use pa6t_eth.Task.{
  serve_event, signal_event, bring_online, take_offline, answer, answer_with, refuse_write,
  serve_command, serve_message,
}
use pa6t_eth.Ledger.{replies, one}

-- The request was replied to at least so often.
pub record AtLeast (r n : ℕ) (w : World) : Type 0 where
  pub reached : n ≤ replies r w.trace

module _ {r n : ℕ} where
  AtLeast-call : (c : Call) → Keeps (AtLeast r n) (call c)
  unfolding ◌>>=◌ replies
  AtLeast-call c = record { at = λ w h. record { reached = omega (arith, h.reached) } }

  AtLeast-call_ : (c : Call) → Keeps (AtLeast r n) (call_ c)
  unfolding ◌>>=◌ replies
  AtLeast-call_ c = record { at = λ w h. record { reached = omega (arith, h.reached) } }

  AtLeast-modify_unit : (f : EthUnit → EthUnit) → Keeps (AtLeast r n) (modify_unit f)
  unfolding ◌>>=◌
  AtLeast-modify_unit f = record { at = λ w h. record { reached = h.reached } }

  AtLeast-modify_req : (q : ℕ) (f : IoSana2Req → IoSana2Req) → Keeps (AtLeast r n) (modify_req q f)
  unfolding ◌>>=◌
  AtLeast-modify_req q f = record { at = λ w h. record { reached = h.reached } }

  AtLeast-reply : (q : ℕ) → Takes (AtLeast r n) (AtLeast r (n + one q r)) (call_ (reply_msg q))
  unfolding ◌>>=◌ replies
  AtLeast-reply q = record { at = λ w h. record { reached = omega (arith, h.reached) } }

instance AtLeast-QuietSafe : {r n : ℕ} → QuietSafe (AtLeast r n)
AtLeast-QuietSafe = record {
  on_call = λ c e. AtLeast-call c;
  on_call_ = λ c e. AtLeast-call_ c;
  on_unit = λ f e. AtLeast-modify_unit f;
}

ruleset least_rules =
    (keeps_rules, AtLeast-call, AtLeast-call_, AtLeast-modify_unit, AtLeast-modify_req)

module _ {r n : ℕ} where
  fail_request-least : (q : ℕ) (e : IoError) → Keeps (AtLeast r n) (fail_request q e)
  unfolding fail_request
  fail_request-least q e = search least_rules depth 20 fits 4000

  sweep-least :
      (act : ℕ → M Bool)
      → ((q : ℕ) → Keeps (AtLeast r n) (act q))
      → (l : List ℕ) → Keeps (AtLeast r n) (sweep act l)
  unfolding sweep
  sweep-least act k [] = record { at = λ w h. h }
  sweep-least act k (q ∷ l) = record { at = λ w h. (sweep-least act k l).at _ ((k q).at w h) }

  sweep_events-least :
      (act : ℕ → M Bool)
      → ((q : ℕ) → Keeps (AtLeast r n) (act q))
      → Keeps (AtLeast r n) (sweep_events act)
  unfolding sweep_events
  sweep_events-least act k = search (least_rules, sweep-least) depth 20 fits 4000

  flush_orphan-least : (e : IoError) (q : ℕ) → Keeps (AtLeast r n) (flush_orphan e q)
  unfolding flush_orphan
  flush_orphan-least e q = search (least_rules, fail_request-least) depth 20 fits 4000

  serve_event-least : (mask q : ℕ) → Keeps (AtLeast r n) (serve_event mask q)
  unfolding serve_event
  serve_event-least mask q = search least_rules depth 20 fits 4000

  signal_event-least : (mask : ℕ) → Keeps (AtLeast r n) (signal_event mask)
  unfolding signal_event
  signal_event-least mask =
      search (least_rules, sweep_events-least, serve_event-least) depth 20 fits 4000

  flush_read_list-least :
      (j : ReadList) (e : IoError) (l : List PendingRead)
      → Keeps (AtLeast r n) (flush_read_list j e l)
  unfolding flush_read_list
  flush_read_list-least j e [] = search least_rules depth 20 fits 4000
  flush_read_list-least j e (pr ∷ l) = Keeps-bind _ _ (AtLeast-modify_unit _) (λ _.
      Keeps-bind _ _ (AtLeast-call_ _)
        (λ _. Keeps-bind _ _ (fail_request-least pr.ioreq e) (λ _. flush_read_list-least j e l)))

  flush_list-least : (j : ReadList) (e : IoError) → Keeps (AtLeast r n) (flush_list j e)
  unfolding flush_list
  flush_list-least j e = search (least_rules, flush_read_list-least) depth 20 fits 4000

  flush_read_queue-least : (e : IoError) → Keeps (AtLeast r n) (flush_read_queue e)
  unfolding flush_read_queue
  flush_read_queue-least e =
      search (least_rules, flush_list-least, sweep_events-least, flush_orphan-least) depth 24 fits
        4000

  bring_online-least : Keeps (AtLeast r n) bring_online
  unfolding bring_online
  bring_online-least =
      search (least_rules, post_rx_buffers-quiet, signal_event-least) depth 24 fits 4000

  take_offline-least : Keeps (AtLeast r n) take_offline
  unfolding take_offline
  take_offline-least =
      search (least_rules, flush_read_queue-least, signal_event-least) depth 24 fits 4000

  answer-least : (q : ℕ) → Takes (AtLeast r n) (AtLeast r (n + one q r)) (answer q)
  unfolding answer
  answer-least q = search (Takes-before, least_rules, AtLeast-reply) depth 20 fits 4000

  answer_with-least :
      (q : ℕ) (e : IoError) → Takes (AtLeast r n) (AtLeast r (n + one q r)) (answer_with q e)
  unfolding answer_with
  answer_with-least q e = search (Takes-before, least_rules, AtLeast-reply) depth 20 fits 4000

  refuse_write-least : (q : ℕ) → Takes (AtLeast r n) (AtLeast r (n + one q r)) (refuse_write q)
  unfolding refuse_write
  refuse_write-least q = search (Takes-before, least_rules, AtLeast-reply) depth 20 fits 4000

  serve_command-least :
      (c : Command) (q : ℕ) → Takes (AtLeast r n) (AtLeast r (n + one q r)) (serve_command c q)
  unfolding serve_command
  serve_command-least s2_devicequery q = answer_with-least q ioerr_nocmd
  serve_command-least s2_getstationaddress q = answer_with-least q ioerr_nocmd
  serve_command-least s2_configinterface q =
      Takes-before _ _ bring_online-least (λ _. answer-least q)
  serve_command-least s2_online q = Takes-before _ _ bring_online-least (λ _. answer-least q)
  serve_command-least s2_offline q = Takes-before _ _ take_offline-least (λ _. answer-least q)
  serve_command-least cmd_read q = answer_with-least q ioerr_nocmd
  serve_command-least s2_readorphan q = answer_with-least q ioerr_nocmd
  serve_command-least cmd_write q = refuse_write-least q
  serve_command-least s2_broadcast q = refuse_write-least q
  serve_command-least s2_multicast q = refuse_write-least q
  serve_command-least cmd_flush q =
      Takes-before _ _ (flush_read_queue-least ioerr_aborted) (λ _. answer_with-least q success)
  serve_command-least s2_onevent q = answer_with-least q ioerr_nocmd
  serve_command-least s2_getglobalstats q = answer_with-least q ioerr_nocmd
  serve_command-least s2_addmulticastaddress q = answer_with-least q ioerr_nocmd
  serve_command-least s2_delmulticastaddresses q = answer_with-least q ioerr_nocmd
  serve_command-least s2_delmulticastaddress q = answer_with-least q ioerr_nocmd
  serve_command-least s2_addmulticastaddresses q = answer_with-least q ioerr_nocmd
  serve_command-least s2_tracktype q = answer_with-least q ioerr_nocmd
  serve_command-least s2_untracktype q = answer_with-least q ioerr_nocmd
  serve_command-least s2_sana2hook q = answer_with-least q ioerr_nocmd
  serve_command-least (other_command m) q = answer_with-least q ioerr_nocmd

  pub serve_message-least :
      (q : ℕ) → Takes (AtLeast r n) (AtLeast r (n + one q r)) (serve_message q)
  unfolding serve_message
  serve_message-least q = search (Takes-before, least_rules, serve_command-least) depth 20 fits 4000
