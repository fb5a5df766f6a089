-- ===== src/Io/Abort.antt =====
-- src/BeginIO.c, _manager_AbortIO: the read lists, the event list and the message port are searched
-- in this order.
use pa6t_eth.Base.{
  ℕ, List, [], ◌∷◌, Bool, true, false, Option, none, some, ◌==◌, if◌then◌else◌, is_set,
}
use pa6t_eth.Machine.{M, pure, ◌>>=◌, ◌>>◌, call_, get_unit, modify_unit, get_req, modify_req}
use pa6t_eth.Machine.Structs.{PendingRead, IoError, success, ioerr_aborted, ioerr_nocmd}
use pa6t_eth.Machine.Calls.{free_vec, reply_msg, forbid, permit}
use pa6t_eth.Requests.{ReadList, ipv4, arp, other, read_list, set_read_list}

-- The first wrapper of the request: its address, and the list without it.
abbrev pub keep_read : PendingRead → Option (ℕ × List PendingRead) → Option (ℕ × List PendingRead)
keep_read pr none = none
keep_read pr (some (p, rest)) = some (p, pr ∷ rest)

unfoldable pub take_read : ℕ → List PendingRead → Option (ℕ × List PendingRead)
take_read r [] = none
take_read r (pr ∷ prs) = if pr.ioreq == r then some (pr.at, prs) else keep_read pr (take_read r prs)

-- The list without the first occurrence of the request.
abbrev pub keep_req : ℕ → Option (List ℕ) → Option (List ℕ)
keep_req q none = none
keep_req q (some rest) = some (q ∷ rest)

unfoldable pub take_req : ℕ → List ℕ → Option (List ℕ)
take_req r [] = none
take_req r (q ∷ qs) = if q == r then some qs else keep_req q (take_req r qs)

unfoldable pub drop_read : ReadList → Option (ℕ × List PendingRead) → M Bool
drop_read k none = pure false
drop_read k (some (p, rest)) = do modify_unit (set_read_list k rest); call_ (free_vec p); pure true

unfoldable pub abort_read : ReadList → ℕ → M Bool
abort_read k r = do u ← get_unit; drop_read k (take_read r (read_list k u))

-- The search of the three lists, which ends at the first that holds the request.
unfoldable pub abort_reads : ℕ → M Bool
abort_reads r = do
  a ← abort_read ipv4 r
  if a then pure true else (do b ← abort_read arp r; if b then pure true else abort_read other r)

unfoldable pub drop_event : Option (List ℕ) → M Bool
drop_event none = pure false
drop_event (some rest) = do modify_unit (λ u. record u { event_list = rest }); pure true

unfoldable pub abort_events : ℕ → M Bool
abort_events r = do u ← get_unit; drop_event (take_req r u.event_list)

unfoldable pub drop_message : Option (List ℕ) → M Bool
drop_message none = pure false
drop_message (some rest) = do modify_unit (λ u. record u { port_msgs = rest }); pure true

unfoldable pub abort_messages : ℕ → M Bool
abort_messages r = do u ← get_unit; drop_message (take_req r u.port_msgs)

unfoldable pub reply_aborted : ℕ → M IoError
reply_aborted r = do
  modify_req r (λ q. record q { io_error = ioerr_aborted })
  call_ (reply_msg r)
  pure success

unfoldable pub abort_port : ℕ → M IoError
abort_port r = do
  u ← get_unit
  if is_set u.io_port
      then (do
        call_ forbid
        found ← abort_messages r
        call_ permit
        if found then reply_aborted r else pure ioerr_nocmd)
      else pure ioerr_nocmd

-- The result is 0, or IOERR_NOCMD for a request that is in none of the queues.
unfoldable pub abort_io : ℕ → M IoError
abort_io r = do
  q ← get_req r
  if is_set q.io_unit
      then (do
        call_ forbid
        found ← abort_reads r
        call_ permit
        if found then reply_aborted r else (do
          call_ forbid
          event ← abort_events r
          call_ permit
          if event then reply_aborted r else abort_port r))
      else pure ioerr_nocmd
