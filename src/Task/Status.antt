-- ===== src/Task/Status.antt =====
-- The unit task of src/unit_task.c as a state machine: the unit is online or offline, and the
-- commands in the port take it from one to the other.
use pa6t_eth.Base.{
  ℕ, ◌≡◌, ◌∙◌, refl, ap, List, [], ◌∷◌, Bool, true, false, Bool-cases, inl, inr, not, ◌==◌,
  ==_sound,
}
use pa6t_eth.Machine.{World, M, Run, call, call_, modify_unit, modify_req, when, ◌>>=◌, ◌>>◌}
use pa6t_eth.Machine.Structs.{
  EthUnit, PendingRead, IoError, IoSana2Req, Command, s2_configinterface, s2_online, s2_offline,
}
use pa6t_eth.Machine.Calls.{Call}
use pa6t_eth.Machine.Triples.{
  Takes, Keeps, keeps_rules, Takes-before, Takes-after, Takes-bind, Keeps-bind,
}
use pa6t_eth.Machine.Quiet.{QuietSafe, Soft}
use pa6t_eth.Hw.Quiet.{post_rx_buffers-quiet}
use pa6t_eth.Requests.{
  ReadList, ipv4, arp, other, set_read_list, fail_request, flush_read_list, flush_list,
  flush_read_queue, flush_orphan, sweep, sweep_events,
}
use pa6t_eth.Rx.Post.{post_rx_buffers}
use pa6t_eth.Task.{
  serve_event, signal_event, bring_online, take_offline, answer, answer_with, refuse_write,
}

-- The transitions: what a command makes of the unit's being online.
abbrev pub next_status : Bool → Command → Bool
next_status b s2_configinterface = true
next_status b s2_online = true
next_status b s2_offline = false
next_status b _ = b

-- What a sequence of requests makes of it, one after the other.
abbrev pub status_after : (ℕ → Command) → Bool → List ℕ → Bool
status_after cs b [] = b
status_after cs b (q ∷ qs) = status_after cs (next_status b (cs q)) qs

abbrev pub command_of : World → ℕ → Command
command_of w q = (w.reqs q).io_command

-- The status, and the commands of the requests.
pub record HasStatus (cs : ℕ → Command) (b : Bool) (w : World) : Type 0 where
  pub status : w.unit.online ≡ b
  pub commands : (q : ℕ) → (w.reqs q).io_command ≡ cs q

module _ {cs : ℕ → Command} {b : Bool} where
  pub HasStatus-call : (c : Call) → Keeps (HasStatus cs b) (call c)
  unfolding ◌>>=◌
  HasStatus-call c = record { at = λ w h. record { status = h.status; commands = h.commands } }

  pub HasStatus-call_ : (c : Call) → Keeps (HasStatus cs b) (call_ c)
  unfolding ◌>>=◌
  HasStatus-call_ c = record { at = λ w h. record { status = h.status; commands = h.commands } }

  pub HasStatus-modify_unit :
      (f : EthUnit → EthUnit)
      → ((u : EthUnit) → (f u).online ≡ u.online)
      → Keeps (HasStatus cs b) (modify_unit f)
  unfolding ◌>>=◌
  HasStatus-modify_unit f e = record {
    at = λ w h. record { status = e w.unit ∙ h.status; commands = h.commands };
  }

  pub HasStatus-modify_req :
      (q : ℕ) (f : IoSana2Req → IoSana2Req)
      → ((x : IoSana2Req) → (f x).io_command ≡ x.io_command)
      → Keeps (HasStatus cs b) (modify_req q f)
  unfolding ◌>>=◌
  HasStatus-modify_req q f e = record {
    at = λ w h. record {
      status = h.status;
      commands = λ r. elim (Bool-cases (q == r)) [
        | inl t ↦ rw t (e (w.reqs q) ∙ h.commands q ∙ ap cs (==_sound q r t))
        | inr t ↦ rw t (h.commands r)
      ];
    };
  }

abbrev soft_online : Soft → Bool
soft_online s = s.online

instance HasStatus-QuietSafe : {cs : ℕ → Command} {b : Bool} → QuietSafe (HasStatus cs b)
HasStatus-QuietSafe = record {
  on_call = λ c e. HasStatus-call c;
  on_call_ = λ c e. HasStatus-call_ c;
  on_unit = λ f e. HasStatus-modify_unit f (λ u. ap soft_online (e u));
}

pub same_online : (b : Bool) → b ≡ b
same_online b = refl

pub same_command : (c : Command) → c ≡ c
same_command c = refl

pub set_read_list-online :
    (j : ReadList) (l : List PendingRead) (u : EthUnit) → (set_read_list j l u).online ≡ u.online
set_read_list-online ipv4 l u = refl
set_read_list-online arp l u = refl
set_read_list-online other l u = refl

pub ruleset status_rules = (
  keeps_rules, HasStatus-call, HasStatus-call_, HasStatus-modify_unit, HasStatus-modify_req,
  same_online, same_command, set_read_list-online,
)

module _ {cs : ℕ → Command} {b : Bool} where
  fail_request-status : (q : ℕ) (e : IoError) → Keeps (HasStatus cs b) (fail_request q e)
  unfolding fail_request
  fail_request-status q e = search status_rules depth 20 fits 4000

  sweep-status :
      (act : ℕ → M Bool)
      → ((q : ℕ) → Keeps (HasStatus cs b) (act q))
      → (l : List ℕ) → Keeps (HasStatus cs b) (sweep act l)
  unfolding sweep
  sweep-status act k [] = record { at = λ w h. h }
  sweep-status act k (q ∷ l) = record { at = λ w h. (sweep-status act k l).at _ ((k q).at w h) }

  sweep_events-status :
      (act : ℕ → M Bool)
      → ((q : ℕ) → Keeps (HasStatus cs b) (act q))
      → Keeps (HasStatus cs b) (sweep_events act)
  unfolding sweep_events
  sweep_events-status act k = search (status_rules, sweep-status) depth 20 fits 4000

  flush_orphan-status : (e : IoError) (q : ℕ) → Keeps (HasStatus cs b) (flush_orphan e q)
  unfolding flush_orphan
  flush_orphan-status e q = search (status_rules, fail_request-status) depth 20 fits 4000

  serve_event-status : (mask q : ℕ) → Keeps (HasStatus cs b) (serve_event mask q)
  unfolding serve_event
  serve_event-status mask q = search status_rules depth 20 fits 4000

  signal_event-status : (mask : ℕ) → Keeps (HasStatus cs b) (signal_event mask)
  unfolding signal_event
  signal_event-status mask =
      search (status_rules, sweep_events-status, serve_event-status) depth 20 fits 4000

  flush_read_list-status :
      (j : ReadList) (e : IoError) (l : List PendingRead)
      → Keeps (HasStatus cs b) (flush_read_list j e l)
  unfolding flush_read_list
  flush_read_list-status j e [] = search status_rules depth 20 fits 4000
  flush_read_list-status j e (pr ∷ l) =
      Keeps-bind _ _ (HasStatus-modify_unit _ (set_read_list-online j l)) (λ _.
        Keeps-bind _ _ (HasStatus-call_ _) (λ _.
          Keeps-bind _ _ (fail_request-status pr.ioreq e) (λ _. flush_read_list-status j e l)))

  flush_list-status : (j : ReadList) (e : IoError) → Keeps (HasStatus cs b) (flush_list j e)
  unfolding flush_list
  flush_list-status j e = search (status_rules, flush_read_list-status) depth 20 fits 4000

  pub flush_read_queue-status : (e : IoError) → Keeps (HasStatus cs b) (flush_read_queue e)
  unfolding flush_read_queue
  flush_read_queue-status e =
      search (status_rules, flush_list-status, sweep_events-status, flush_orphan-status) depth 24
        fits 4000

  pub answer-status : (q : ℕ) → Keeps (HasStatus cs b) (answer q)
  unfolding answer
  answer-status q = search status_rules depth 20 fits 4000

  pub answer_with-status : (q : ℕ) (e : IoError) → Keeps (HasStatus cs b) (answer_with q e)
  unfolding answer_with
  answer_with-status q e = search status_rules depth 20 fits 4000

  pub refuse_write-status : (q : ℕ) → Keeps (HasStatus cs b) (refuse_write q)
  unfolding refuse_write
  refuse_write-status q = search status_rules depth 20 fits 4000

  set_online :
      (t : Bool)
      → Takes (HasStatus cs b) (HasStatus cs t) (modify_unit (λ u. record u { online = t }))
  unfolding ◌>>=◌
  set_online t = record { at = λ w h. record { status = refl; commands = h.commands } }

abbrev online_run : ℕ → Run
online_run event = do
  modify_unit (λ u. record u { online = true })
  post_rx_buffers
  signal_event event

module _ {cs : ℕ → Command} {b : Bool} where
  online_steps : (event : ℕ) → Takes (HasStatus cs b) (HasStatus cs true) (online_run event)
  online_steps event =
      search (Takes-after, status_rules, set_online, post_rx_buffers-quiet, signal_event-status)
        depth 24 fits 4000

  unless_online :
      (t : Bool) (m : Run) (w : World)
      → w.unit.online ≡ t
      → HasStatus cs b w
      → HasStatus cs true (m w).1
      → HasStatus cs true (when (not t) m w).1
  unfolding ◌>>=◌
  unless_online true m w e h k = record { status = e; commands = h.commands }
  unless_online false m w e h k = k

  pub bring_online-status : Takes (HasStatus cs b) (HasStatus cs true) bring_online
  unfolding bring_online ◌>>=◌
  bring_online-status = record {
    at = λ w h.
        unless_online w.unit.online (online_run w.sdk.s2event_online) w refl h
          ((online_steps w.sdk.s2event_online).at w h);
  }

  pub take_offline-status : Takes (HasStatus cs b) (HasStatus cs false) take_offline
  unfolding take_offline
  take_offline-status =
      search
        (
          Takes-before, Takes-after, status_rules, set_online, flush_read_queue-status,
          signal_event-status,
        )
        depth 24 fits 4000
