-- ===== src/Ledger/Queues.antt =====
-- The code that takes requests out of the queues: each one that it takes out it replies to, once.
use pa6t_eth.Base.{
  ℕ, ◌+◌, ◌≡◌, refl, ◌∙◌, ap, List, [], ◌∷◌, Bool, if◌then◌else◌, count, arith, Bool-cases, inl,
  inr, is_set, bit_and,
}
use pa6t_eth.Machine.{World, M, ◌>>=◌}
use pa6t_eth.Machine.Triples.{Takes, Keeps, Takes-before}
use pa6t_eth.Machine.Structs.{EthUnit, PendingRead, IoError}
use pa6t_eth.Requests.{
  ReadList, ipv4, arp, other, read_list, set_read_list, fail_request, flush_read_list, sweep,
  sweep_events, flush_orphan, abort_event, flush_list, flush_read_queue, flush_all_pending,
  is_readorphan,
}
use pa6t_eth.Task.{serve_event, signal_event}
use pa6t_eth.Ledger.{Owes, owes_rules, waiting, count_reads, replies, one, Owes-reply}

fail_request-Owes :
    {r k : ℕ} (q : ℕ) (e : IoError) → Takes (Owes r k (one q r)) (Owes r k 0) (fail_request q e)
unfolding fail_request
fail_request-Owes q e = search (Takes-before, owes_rules, Owes-reply) depth 20 fits 4000

pub waiting-set_read_list :
    (r : ℕ) (k : ReadList) (pr : PendingRead) (rest : List PendingRead) (u : EthUnit)
    → read_list k u ≡ pr ∷ rest
    → waiting r (set_read_list k rest u) + one pr.ioreq r ≡ waiting r u
unfolding count_reads
waiting-set_read_list r ipv4 pr rest u e = rw e (omega arith)
waiting-set_read_list r arp pr rest u e = rw e (omega arith)
waiting-set_read_list r other pr rest u e = rw e (omega arith)

pub read_list-set :
    (k : ReadList) (l : List PendingRead) (u : EthUnit) → read_list k (set_read_list k l u) ≡ l
read_list-set ipv4 l u = refl
read_list-set arp l u = refl
read_list-set other l u = refl

pub fail_request-unit : (q : ℕ) (e : IoError) (w : World) → (fail_request q e w).1.unit ≡ w.unit
unfolding fail_request ◌>>=◌
fail_request-unit q e w = refl

module _ {r k : ℕ} where
  -- One round of the flush of a list.
  flush_list-Owes_at :
      (j : ReadList) (e : IoError) (l : List PendingRead) (w : World)
      → read_list j w.unit ≡ l
      → Owes r k 0 w
      → Owes r k 0 (flush_read_list j e l w).1
  unfolding flush_read_list ◌>>=◌ replies
  flush_list-Owes_at j e [] w same h = h
  flush_list-Owes_at j e (pr ∷ rest) w same h =
      let u = set_read_list j rest w.unit in
      flush_list-Owes_at j e rest _
        (ap (read_list j) (fail_request-unit pr.ioreq e _) ∙ read_list-set j rest w.unit)
        ((fail_request-Owes pr.ioreq e).at _
          (record { owed = omega (arith, waiting-set_read_list r j pr rest w.unit same, h.owed) }))

  flush_list-Owes : (j : ReadList) (e : IoError) → Keeps (Owes r k 0) (flush_list j e)
  unfolding flush_list ◌>>=◌
  flush_list-Owes j e = record { at = λ w h. flush_list-Owes_at j e (read_list j w.unit) w refl h }

-- Code that serves one waiter of the event list: it leaves the unit alone, and replies to the
-- waiter exactly if it says that it took it out.
pub record Serves (act : ℕ → M Bool) : Type 0 where
  pub unit_same : (q : ℕ) (w : World) → (act q w).1.unit ≡ w.unit
  pub replied :
      (r q : ℕ) (w : World)
      → replies r (act q w).1.trace ≡ replies r w.trace + (if (act q w).0 then one q r else 0)

module _ (act : ℕ → M Bool) (s : Serves act) where
  pub sweep-unit : (l : List ℕ) (w : World) → (sweep act l w).1.unit ≡ w.unit
  unfolding sweep
  sweep-unit [] w = refl
  sweep-unit (q ∷ l) w = sweep-unit l (act q w).1 ∙ s.unit_same q w

  sweep-replies :
      (r : ℕ) (l : List ℕ) (w : World)
      → replies r (sweep act l w).1.trace + count r (sweep act l w).0
        ≡ replies r w.trace + count r l
  unfolding sweep count
  sweep-replies r [] w = refl
  sweep-replies r (q ∷ l) w =
      let rest = sweep-replies r l (act q w).1 in
      let here = s.replied r q w in
      elim (Bool-cases (act q w).0) [
        | inl e ↦ rw e (omega (arith, rest, rw e at here))
        | inr e ↦ rw e (omega (arith, rest, rw e at here))
      ]

  pub sweep_events-Owes : (r k : ℕ) → Keeps (Owes r k 0) (sweep_events act)
  unfolding sweep_events ◌>>=◌
  sweep_events-Owes r k = record {
    at = λ w h. record {
      owed =
          let l = w.unit.event_list in
          let same = ap (waiting r) (sweep-unit l w) in
          let lists = sweep-unit l w in
          let moved = sweep-replies r l w in rw lists (omega (arith, moved, h.owed));
    };
  }

pub flush_orphan-Serves : (e : IoError) → Serves (flush_orphan e)
unfolding flush_orphan fail_request ◌>>=◌ replies
flush_orphan-Serves e = record {
  unit_same = λ q w. elim (Bool-cases (is_readorphan (w.reqs q).io_command)) [
    | inl b ↦ rw b
    | inr b ↦ rw b
  ];
  replied = λ r q w. elim (Bool-cases (is_readorphan (w.reqs q).io_command)) [
    | inl b ↦ rw b (omega arith)
    | inr b ↦ rw b (omega arith)
  ];
}

pub abort_event-Serves : Serves abort_event
unfolding abort_event fail_request ◌>>=◌ replies
abort_event-Serves = record { unit_same = λ q w. refl; replied = λ r q w. omega arith }

pub serve_event-Serves : (mask : ℕ) → Serves (serve_event mask)
unfolding serve_event ◌>>=◌ replies
serve_event-Serves mask = record {
  unit_same = λ q w. elim (Bool-cases (is_set (bit_and (w.reqs q).wire_error mask))) [
    | inl b ↦ rw b
    | inr b ↦ rw b
  ];
  replied = λ r q w. elim (Bool-cases (is_set (bit_and (w.reqs q).wire_error mask))) [
    | inl b ↦ rw b (omega arith)
    | inr b ↦ rw b (omega arith)
  ];
}

module _ {r k : ℕ} where
  pub signal_event-Owes : (mask : ℕ) → Keeps (Owes r k 0) (signal_event mask)
  unfolding signal_event
  signal_event-Owes mask =
      search (owes_rules, sweep_events-Owes, serve_event-Serves) depth 24 fits 4000

  orphans-Owes : (e : IoError) → Keeps (Owes r k 0) (sweep_events (flush_orphan e))
  orphans-Owes e = sweep_events-Owes (flush_orphan e) (flush_orphan-Serves e) r k

  events-Owes : Keeps (Owes r k 0) (sweep_events abort_event)
  events-Owes = sweep_events-Owes abort_event abort_event-Serves r k

  pub flush_read_queue-Owes : (e : IoError) → Keeps (Owes r k 0) (flush_read_queue e)
  unfolding flush_read_queue
  flush_read_queue-Owes e = search (owes_rules, flush_list-Owes, orphans-Owes) depth 24 fits 4000

  pub flush_all_pending-Owes : Keeps (Owes r k 0) flush_all_pending
  unfolding flush_all_pending
  flush_all_pending-Owes =
      search (owes_rules, flush_read_queue-Owes, events-Owes) depth 24 fits 4000
