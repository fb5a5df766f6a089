-- ===== src/Ledger/Silent.antt =====
-- BeginIO and AbortIO: the replies to a request other than the one that they are given.
use pa6t_eth.Base.{ℕ, ◌+◌, ◌≡◌, List, [], ◌∷◌, false, arith, Option, none, some, ◌==◌}
use pa6t_eth.Machine.{
  World, call, call_, modify_unit, modify_req, modify_query, store_stats, store_bytes, ◌>>=◌,
}
use pa6t_eth.Machine.Structs.{
  EthUnit, IoSana2Req, DeviceQuery, DeviceStats, PendingRead, IoError, Command, other_command,
  s2_devicequery, s2_getstationaddress, s2_configinterface, s2_online, s2_offline, cmd_read,
  s2_readorphan, cmd_write, s2_broadcast, s2_multicast, cmd_flush, s2_onevent, s2_getglobalstats,
  s2_addmulticastaddress, s2_delmulticastaddresses, s2_delmulticastaddress,
  s2_addmulticastaddresses, s2_tracktype, s2_untracktype, s2_sana2hook,
}
use pa6t_eth.Machine.Calls.{Call, reply_msg}
use pa6t_eth.Machine.Triples.{Keeps, Keeps-pure, keeps_rules}
use pa6t_eth.Machine.Quiet.{QuietSafe}
use pa6t_eth.Requests.{ReadList}
use pa6t_eth.Hw.Tx.{
  tx_reply, tx_done, tx_abandon, tx_map, tx_copy, tx_fill_buffer, tx_alloc, transmit_packet,
}
use pa6t_eth.Hw.Quiet.{tx_submit-quiet}
use pa6t_eth.Io.Begin.{
  reply_ioreq, queue_to_task, device_query, station_address, go_online, go_offline, queue_read,
  begin_read, queue_event, begin_readorphan, begin_onevent, begin_write, global_stats, sana2_hook,
  begin_command, begin_io,
}
use pa6t_eth.Io.Abort.{
  drop_read, abort_read, abort_reads, drop_event, abort_events, drop_message, abort_messages,
  reply_aborted, abort_port, abort_io,
}
use pa6t_eth.Ledger.{replies, reply_count, quiet-reply_count, same}

-- The request was replied to `n` times.
pub record Silent (r n : ℕ) (w : World) : Type 0 where
  pub silent : replies r w.trace ≡ n

module _ {r n : ℕ} where
  Silent-call : (c : Call) → reply_count r c ≡ 0 → Keeps (Silent r n) (call c)
  unfolding ◌>>=◌ replies
  Silent-call c e = record { at = λ w h. record { silent = omega (arith, h.silent, e) } }

  Silent-call_ : (c : Call) → reply_count r c ≡ 0 → Keeps (Silent r n) (call_ c)
  unfolding ◌>>=◌ replies
  Silent-call_ c e = record { at = λ w h. record { silent = omega (arith, h.silent, e) } }

  Silent-reply : (q : ℕ) → (q == r) ≡ false → Keeps (Silent r n) (call_ (reply_msg q))
  unfolding ◌>>=◌ replies
  Silent-reply q e = record { at = λ w h. record { silent = rw e (omega (arith, h.silent)) } }

  Silent-modify_unit : (f : EthUnit → EthUnit) → Keeps (Silent r n) (modify_unit f)
  unfolding ◌>>=◌
  Silent-modify_unit f = record { at = λ w h. record { silent = h.silent } }

  Silent-modify_req : (q : ℕ) (f : IoSana2Req → IoSana2Req) → Keeps (Silent r n) (modify_req q f)
  unfolding ◌>>=◌
  Silent-modify_req q f = record { at = λ w h. record { silent = h.silent } }

  Silent-modify_query :
      (p : ℕ) (f : DeviceQuery → DeviceQuery) → Keeps (Silent r n) (modify_query p f)
  unfolding ◌>>=◌
  Silent-modify_query p f = record { at = λ w h. record { silent = h.silent } }

  Silent-store_stats : (p : ℕ) (s : DeviceStats) → Keeps (Silent r n) (store_stats p s)
  unfolding ◌>>=◌
  Silent-store_stats p s = record { at = λ w h. record { silent = h.silent } }

  Silent-store_bytes : (p : ℕ) (bs : List ℕ) → Keeps (Silent r n) (store_bytes p bs)
  unfolding store_bytes
  Silent-store_bytes p [] = record { at = λ w h. h }
  Silent-store_bytes p (x ∷ bs) = record {
    at = λ w h. (Silent-store_bytes (p + 1) bs).at _ (record { silent = h.silent });
  }

instance Silent-QuietSafe : {r n : ℕ} → QuietSafe (Silent r n)
Silent-QuietSafe {r} = record {
  on_call = λ c e. Silent-call c (quiet-reply_count r c e);
  on_call_ = λ c e. Silent-call_ c (quiet-reply_count r c e);
  on_unit = λ f e. Silent-modify_unit f;
}

ruleset silent_rules = (
  keeps_rules, Silent-call, Silent-call_, Silent-reply, Silent-modify_unit, Silent-modify_req,
  Silent-modify_query, Silent-store_stats, Silent-store_bytes, same, Silent-QuietSafe,
)

module _ (q r : ℕ) {n : ℕ} (e : (q == r) ≡ false) where
  tx_reply-Silent : (err : IoError) (werr : ℕ) → Keeps (Silent r n) (tx_reply q err werr)
  unfolding tx_reply
  tx_reply-Silent err werr = search silent_rules depth 20 fits 4000

  tx_done-Silent : Keeps (Silent r n) (tx_done q)
  unfolding tx_done
  tx_done-Silent = search (silent_rules, tx_reply-Silent) depth 20 fits 4000

  tx_abandon-Silent :
      (p : ℕ) (err : IoError) (werr : ℕ) → Keeps (Silent r n) (tx_abandon q p err werr)
  unfolding tx_abandon
  tx_abandon-Silent p err werr = search (silent_rules, tx_reply-Silent) depth 20 fits 4000

  tx_map-Silent : (p len : ℕ) → Keeps (Silent r n) (tx_map q p len)
  unfolding tx_map
  tx_map-Silent p len =
      search (silent_rules, tx_done-Silent, tx_abandon-Silent, tx_submit-quiet) depth 28 fits 4000

  tx_copy-Silent : (p len cookie hook : ℕ) → Keeps (Silent r n) (tx_copy q p len cookie hook)
  unfolding tx_copy
  tx_copy-Silent p len cookie hook =
      search (silent_rules, tx_map-Silent, tx_abandon-Silent) depth 24 fits 4000

  tx_fill_buffer-Silent : (p len : ℕ) → Keeps (Silent r n) (tx_fill_buffer q p len)
  unfolding tx_fill_buffer
  tx_fill_buffer-Silent p len =
      search (silent_rules, tx_copy-Silent, tx_abandon-Silent) depth 28 fits 4000

  tx_alloc-Silent : (len : ℕ) → Keeps (Silent r n) (tx_alloc q len)
  unfolding tx_alloc
  tx_alloc-Silent len =
      search (silent_rules, tx_fill_buffer-Silent, tx_reply-Silent) depth 20 fits 4000

  transmit_packet-Silent : Keeps (Silent r n) (transmit_packet q)
  unfolding transmit_packet
  transmit_packet-Silent =
      search (silent_rules, tx_alloc-Silent, tx_reply-Silent) depth 24 fits 4000

  reply_ioreq-Silent : (err : IoError) (werr : ℕ) → Keeps (Silent r n) (reply_ioreq q err werr)
  unfolding reply_ioreq
  reply_ioreq-Silent err werr = search silent_rules depth 20 fits 4000

  -- The commands of the switch.
  begin_command-Silent : (c : Command) → Keeps (Silent r n) (begin_command c q)
  unfolding begin_command device_query station_address queue_to_task go_online go_offline begin_read
      queue_read begin_readorphan begin_onevent queue_event begin_write global_stats sana2_hook
  begin_command-Silent s2_devicequery = search (silent_rules, reply_ioreq-Silent) depth 24 fits 4000
  begin_command-Silent s2_getstationaddress =
      search (silent_rules, reply_ioreq-Silent) depth 24 fits 4000
  begin_command-Silent s2_configinterface = search silent_rules depth 24 fits 4000
  begin_command-Silent s2_online = search (silent_rules, reply_ioreq-Silent) depth 24 fits 4000
  begin_command-Silent s2_offline = search (silent_rules, reply_ioreq-Silent) depth 24 fits 4000
  begin_command-Silent cmd_read = search (silent_rules, reply_ioreq-Silent) depth 30 fits 4000
  begin_command-Silent s2_readorphan = search (silent_rules, reply_ioreq-Silent) depth 24 fits 4000
  begin_command-Silent cmd_write =
      search (silent_rules, reply_ioreq-Silent, transmit_packet-Silent) depth 24 fits 4000
  begin_command-Silent s2_broadcast =
      search (silent_rules, reply_ioreq-Silent, transmit_packet-Silent) depth 24 fits 4000
  begin_command-Silent s2_multicast =
      search (silent_rules, reply_ioreq-Silent, transmit_packet-Silent) depth 24 fits 4000
  begin_command-Silent cmd_flush = search silent_rules depth 24 fits 4000
  begin_command-Silent s2_onevent = search silent_rules depth 24 fits 4000
  begin_command-Silent s2_getglobalstats =
      search (silent_rules, reply_ioreq-Silent) depth 24 fits 4000
  begin_command-Silent s2_addmulticastaddress = reply_ioreq-Silent _ _
  begin_command-Silent s2_delmulticastaddresses = reply_ioreq-Silent _ _
  begin_command-Silent s2_delmulticastaddress = reply_ioreq-Silent _ _
  begin_command-Silent s2_addmulticastaddresses = reply_ioreq-Silent _ _
  begin_command-Silent s2_tracktype = reply_ioreq-Silent _ _
  begin_command-Silent s2_untracktype = reply_ioreq-Silent _ _
  begin_command-Silent s2_sana2hook = search (silent_rules, reply_ioreq-Silent) depth 24 fits 4000
  begin_command-Silent (other_command c) =
      search (silent_rules, reply_ioreq-Silent) depth 24 fits 4000

  pub begin_io-Silent : Keeps (Silent r n) (begin_io q)
  unfolding begin_io
  begin_io-Silent = search (silent_rules, begin_command-Silent) depth 20 fits 4000

  drop_read-Silent :
      (k : ReadList) (o : Option (ℕ × List PendingRead)) → Keeps (Silent r n) (drop_read k o)
  unfolding drop_read
  drop_read-Silent k none = Keeps-pure false
  drop_read-Silent k (some (p, rest)) = search silent_rules depth 20 fits 4000

  drop_event-Silent : (o : Option (List ℕ)) → Keeps (Silent r n) (drop_event o)
  unfolding drop_event
  drop_event-Silent none = Keeps-pure false
  drop_event-Silent (some rest) = search silent_rules depth 20 fits 4000

  drop_message-Silent : (o : Option (List ℕ)) → Keeps (Silent r n) (drop_message o)
  unfolding drop_message
  drop_message-Silent none = Keeps-pure false
  drop_message-Silent (some rest) = search silent_rules depth 20 fits 4000

  abort_reads-Silent : Keeps (Silent r n) (abort_reads q)
  unfolding abort_reads abort_read
  abort_reads-Silent = search (silent_rules, drop_read-Silent) depth 30 fits 4000

  reply_aborted-Silent : Keeps (Silent r n) (reply_aborted q)
  unfolding reply_aborted
  reply_aborted-Silent = search silent_rules depth 20 fits 4000

  abort_port-Silent : Keeps (Silent r n) (abort_port q)
  unfolding abort_port abort_messages
  abort_port-Silent =
      search (silent_rules, drop_message-Silent, reply_aborted-Silent) depth 30 fits 4000

  pub abort_io-Silent : Keeps (Silent r n) (abort_io q)
  unfolding abort_io abort_events
  abort_io-Silent =
      search
        (
          silent_rules, abort_reads-Silent, drop_event-Silent, reply_aborted-Silent,
          abort_port-Silent,
        )
        depth 40 fits 8000
