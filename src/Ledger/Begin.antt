-- ===== src/Ledger/Begin.antt =====
-- BeginIO: a request is replied to, or queued, or complete on return with IOF_QUICK still set.
use pa6t_eth.Base.{
  ℕ, ◌+◌, ◌%◌, ◌^◌, ◌≡◌, List, [], ◌∷◌, ◌++◌, true, false, Bool, arith, count, count-append,
  ==_refl,
}
use pa6t_eth.Machine.{modify_req, ◌>>=◌, ◌>>◌}
use pa6t_eth.Machine.Structs.{
  EthUnit, IoError, success, Command, other_command, s2_devicequery, s2_getstationaddress,
  s2_configinterface, s2_online, s2_offline, cmd_read, s2_readorphan, cmd_write, s2_broadcast,
  s2_multicast, cmd_flush, s2_onevent, s2_getglobalstats, s2_addmulticastaddress,
  s2_delmulticastaddresses, s2_delmulticastaddress, s2_addmulticastaddresses, s2_tracktype,
  s2_untracktype, s2_sana2hook,
}
use pa6t_eth.Machine.Triples.{Takes, Takes-before}
use pa6t_eth.Requests.{ReadList, ipv4, arp, other, read_list, set_read_list, read_list_of}
use pa6t_eth.Hw.Tx.{tx_reply}
use pa6t_eth.Io.Begin.{
  reply_ioreq, queue_to_task, device_query, station_address, go_online, go_offline, queue_read,
  begin_read, queue_event, begin_readorphan, begin_onevent, begin_write, global_stats, sana2_hook,
  begin_command, begin_io, not_quick, save_cookie,
}
use pa6t_eth.Ledger.{Owes, owes_rules, one, waiting, count_reads, count_reads-append, replies}
use pa6t_eth.Ledger.Transmit.{Answered, tx_reply-answers, transmit_packet-answers}

waiting-queue_read :
    (r q p : ℕ) (j : ReadList) (u : EthUnit)
    → waiting r (set_read_list j (read_list j u ++ (record { at = p; ioreq = q } ∷ [])) u)
      ≡ waiting r u + one q r
unfolding count_reads
waiting-queue_read r q p ipv4 u =
    let e = count_reads-append r u.read_list_ipv4 (record { at = p; ioreq = q } ∷ []) in
    omega (arith, e)
waiting-queue_read r q p arp u =
    let e = count_reads-append r u.read_list_arp (record { at = p; ioreq = q } ∷ []) in
    omega (arith, e)
waiting-queue_read r q p other u =
    let e = count_reads-append r u.read_list_other (record { at = p; ioreq = q } ∷ []) in
    omega (arith, e)

count-last : (r q : ℕ) (l : List ℕ) → count r (l ++ (q ∷ [])) ≡ count r l + one q r
unfolding count
count-last r q l = omega (arith, count-append r l (q ∷ []))

module _ {q r k : ℕ} where
  reply_ioreq-answers :
      (e : IoError) (we : ℕ) → Takes (Owes r k (one q r)) (Answered q r k) (reply_ioreq q e we)
  unfolding reply_ioreq tx_reply
  reply_ioreq-answers e we = tx_reply-answers e we

  queue_to_task-answers : Takes (Owes r k (one q r)) (Answered q r k) (queue_to_task q)
  unfolding queue_to_task ◌>>=◌ replies
  queue_to_task-answers = record {
    at = λ w h. record {
      answered = rw (==_refl) (omega (arith, count-last r q w.unit.port_msgs, h.owed));
    };
  }

  queue_read-answers : (pr : ℕ) → Takes (Owes r k (one q r)) (Answered q r k) (queue_read q pr)
  unfolding queue_read ◌>>=◌ replies
  queue_read-answers pr = record {
    at = λ w h.
        let j = read_list_of ((w.reqs q).packet_type % 2 ^ 16) in
        record {
          answered = rw (==_refl) (omega (arith, waiting-queue_read r q pr j w.unit, h.owed));
        };
  }

  begin_onevent-answers : Takes (Owes r k (one q r)) (Answered q r k) (begin_onevent q)
  unfolding begin_onevent queue_event ◌>>=◌ replies
  begin_onevent-answers = record {
    at = λ w h. record {
      answered = rw (==_refl) (omega (arith, count-last r q w.unit.event_list, h.owed));
    };
  }

  orphan_queued-answers :
      Takes
        (Owes r k (one q r))
        (Answered q r k)
        (do modify_req q (λ x. not_quick (save_cookie q x)); queue_event q)
  unfolding queue_event ◌>>=◌ replies
  orphan_queued-answers = record {
    at = λ w h. record {
      answered = rw (==_refl) (omega (arith, count-last r q w.unit.event_list, h.owed));
    };
  }

  device_query-answers : Takes (Owes r k (one q r)) (Answered q r k) (device_query q)
  unfolding device_query
  device_query-answers = search (Takes-before, owes_rules, reply_ioreq-answers) depth 20 fits 4000

  station_address-answers : Takes (Owes r k (one q r)) (Answered q r k) (station_address q)
  unfolding station_address
  station_address-answers =
      search (Takes-before, owes_rules, reply_ioreq-answers) depth 20 fits 4000

  go_online-answers : Takes (Owes r k (one q r)) (Answered q r k) (go_online q)
  unfolding go_online
  go_online-answers =
      search (Takes-before, owes_rules, reply_ioreq-answers, queue_to_task-answers) depth 20 fits
        4000

  go_offline-answers : Takes (Owes r k (one q r)) (Answered q r k) (go_offline q)
  unfolding go_offline
  go_offline-answers =
      search (Takes-before, owes_rules, reply_ioreq-answers, queue_to_task-answers) depth 20 fits
        4000

  begin_read-answers : Takes (Owes r k (one q r)) (Answered q r k) (begin_read q)
  unfolding begin_read
  begin_read-answers =
      search (Takes-before, owes_rules, reply_ioreq-answers, queue_read-answers) depth 20 fits 4000

  begin_readorphan-answers : Takes (Owes r k (one q r)) (Answered q r k) (begin_readorphan q)
  unfolding begin_readorphan
  begin_readorphan-answers =
      search (Takes-before, owes_rules, orphan_queued-answers, reply_ioreq-answers) depth 20 fits
        4000

  begin_write-answers : (b : Bool) → Takes (Owes r k (one q r)) (Answered q r k) (begin_write b q)
  unfolding begin_write
  begin_write-answers b =
      search (Takes-before, owes_rules, reply_ioreq-answers, transmit_packet-answers) depth 20 fits
        4000

  global_stats-answers : Takes (Owes r k (one q r)) (Answered q r k) (global_stats q)
  unfolding global_stats
  global_stats-answers = search (Takes-before, owes_rules, reply_ioreq-answers) depth 20 fits 4000

  sana2_hook-answers : Takes (Owes r k (one q r)) (Answered q r k) (sana2_hook q)
  unfolding sana2_hook
  sana2_hook-answers = search (Takes-before, owes_rules, reply_ioreq-answers) depth 20 fits 4000

  begin_command-answers :
      (c : Command) → Takes (Owes r k (one q r)) (Answered q r k) (begin_command c q)
  unfolding begin_command
  begin_command-answers s2_devicequery = device_query-answers
  begin_command-answers s2_getstationaddress = station_address-answers
  begin_command-answers s2_configinterface = queue_to_task-answers
  begin_command-answers s2_online = go_online-answers
  begin_command-answers s2_offline = go_offline-answers
  begin_command-answers cmd_read = begin_read-answers
  begin_command-answers s2_readorphan = begin_readorphan-answers
  begin_command-answers cmd_write = begin_write-answers false
  begin_command-answers s2_broadcast = begin_write-answers true
  begin_command-answers s2_multicast = begin_write-answers false
  begin_command-answers cmd_flush = queue_to_task-answers
  begin_command-answers s2_onevent = begin_onevent-answers
  begin_command-answers s2_getglobalstats = global_stats-answers
  begin_command-answers s2_addmulticastaddress = reply_ioreq-answers success 0
  begin_command-answers s2_delmulticastaddresses = reply_ioreq-answers success 0
  begin_command-answers s2_delmulticastaddress = reply_ioreq-answers success 0
  begin_command-answers s2_addmulticastaddresses = reply_ioreq-answers success 0
  begin_command-answers s2_tracktype = reply_ioreq-answers success 0
  begin_command-answers s2_untracktype = reply_ioreq-answers success 0
  begin_command-answers s2_sana2hook = sana2_hook-answers
  begin_command-answers (other_command n) =
      search (Takes-before, owes_rules, reply_ioreq-answers) depth 20 fits 4000

  pub begin_io-answers : Takes (Owes r k (one q r)) (Answered q r k) (begin_io q)
  unfolding begin_io
  begin_io-answers = search (Takes-before, owes_rules, begin_command-answers) depth 20 fits 4000
