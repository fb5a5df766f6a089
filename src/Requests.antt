-- ===== src/Requests.antt =====
-- The queues of requests: the openers, the per-type read lists and the event list, and the code
-- that walks them (PA6TEth_FindOpener, flush_read_list, PA6TEth_FlushReadQueue and
-- PA6TEth_FlushAllPending of src/hw/rx.c).
use pa6t_eth.Base.{ℕ, List, [], ◌∷◌, Bool, true, false, Option, none, some, ◌==◌, if◌then◌else◌}
use pa6t_eth.Machine.{
  M, Run, skip, pure, ◌>>=◌, ◌>>◌, call_, get_unit, modify_unit, get_req, modify_req, get_sdk,
}
use pa6t_eth.Machine.Structs.{
  EthUnit, Opener, PendingRead, IoError, ioerr_aborted, Command, s2_readorphan,
}
use pa6t_eth.Machine.Calls.{free_vec, reply_msg, forbid, permit}

unfoldable pub find_opener : ℕ → List Opener → Option Opener
find_opener bm_cookie [] = none
find_opener bm_cookie (op ∷ ops) =
    if op.bm_cookie == bm_cookie then some op else find_opener bm_cookie ops

-- Which of the three lists of pending reads.
pub data ReadList : Type 0 where
  ipv4 arp other : ReadList

-- The `switch` on the EtherType.
unfoldable pub read_list_of : ℕ → ReadList
read_list_of ether_type =
    if ether_type == 0x0800 then ipv4 else if ether_type == 0x0806 then arp else other

abbrev pub read_list : ReadList → EthUnit → List PendingRead
read_list ipv4 u = u.read_list_ipv4
read_list arp u = u.read_list_arp
read_list other u = u.read_list_other

abbrev pub set_read_list : ReadList → List PendingRead → EthUnit → EthUnit
set_read_list ipv4 l u = record u { read_list_ipv4 = l }
set_read_list arp l u = record u { read_list_arp = l }
set_read_list other l u = record u { read_list_other = l }

abbrev pub is_readorphan : Command → Bool
is_readorphan c = elim c [ s2_readorphan ↦ true | _ ↦ false ]

-- The three lines that end a request that fails: its two error fields, and the reply.
unfoldable pub fail_request : ℕ → IoError → Run
fail_request r error = do
  q ← get_req r
  sdk ← get_sdk
  modify_req r (λ q. record q { io_error = error; wire_error = sdk.s2werr_generic_error })
  call_ (reply_msg r)

unfoldable pub flush_read_list : ReadList → IoError → List PendingRead → Run
flush_read_list k error [] = skip
flush_read_list k error (pr ∷ rest) = do
  modify_unit (set_read_list k rest)
  call_ (free_vec pr.at)
  fail_request pr.ioreq error
  flush_read_list k error rest

-- A walk over a list of requests. `act` serves one of them and says whether it took it out; what
-- stays in the list is returned.
unfoldable pub sweep : (ℕ → M Bool) → List ℕ → M (List ℕ)
sweep act [] w = ([], w)
sweep act (r ∷ rs) w =
    let out = sweep act rs (act r w).1 in ((if (act r w).0 then out.0 else r ∷ out.0), out.1)

-- A walk over the event list.
unfoldable pub sweep_events : (ℕ → M Bool) → Run
sweep_events act = do
  u ← get_unit
  kept ← sweep act u.event_list
  modify_unit (λ v. record v { event_list = kept })

unfoldable pub flush_orphan : IoError → ℕ → M Bool
flush_orphan error r = do
  ev ← get_req r
  if is_readorphan ev.io_command then (do fail_request r error; pure true) else pure false

unfoldable pub abort_event : ℕ → M Bool
abort_event r = do fail_request r ioerr_aborted; pure true

unfoldable pub flush_list : ReadList → IoError → Run
flush_list k error = do u ← get_unit; flush_read_list k error (read_list k u)

unfoldable pub flush_read_queue : IoError → Run
flush_read_queue error = do
  call_ forbid
  flush_list ipv4 error
  flush_list arp error
  flush_list other error
  sweep_events (flush_orphan error)
  call_ permit

unfoldable pub flush_all_pending : Run
flush_all_pending = do
  flush_read_queue ioerr_aborted
  call_ forbid
  sweep_events abort_event
  call_ permit
