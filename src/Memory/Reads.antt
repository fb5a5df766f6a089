-- ===== src/Memory/Reads.antt =====
-- The wrappers of pending reads: whoever takes one out of a read list frees it, once.
use pa6t_eth.Base.{ℕ, ◌+◌, ◌≡◌, ◌∙◌, refl, ap, List, [], ◌∷◌, Bool, arith}
use pa6t_eth.Machine.{World, M, ◌>>=◌}
use pa6t_eth.Machine.Triples.{Keeps}
use pa6t_eth.Machine.Plain.{MemSafe, mem_rules}
use pa6t_eth.Machine.Structs.{EthUnit, PendingRead, IoError}
use pa6t_eth.Requests.{
  ReadList, ipv4, arp, other, read_list, set_read_list, fail_request, flush_read_list, sweep,
  sweep_events, flush_orphan, abort_event, flush_list, flush_read_queue, flush_all_pending,
}
use pa6t_eth.Task.{serve_event, signal_event}
use pa6t_eth.Ledger.Queues.{fail_request-unit, read_list-set}
use pa6t_eth.Memory.{Holds, Holds-MemSafe, is_at, held, wrappers, allocs, frees}

module _ {P : World → Type 0} ⦃s : MemSafe P⦄ where
  fail_request-mem : (q : ℕ) (e : IoError) → Keeps P (fail_request q e)
  unfolding fail_request
  fail_request-mem q e = search mem_rules depth 20 fits 4000

  sweep-mem :
      (act : ℕ → M Bool) → ((q : ℕ) → Keeps P (act q)) → (l : List ℕ) → Keeps P (sweep act l)
  unfolding sweep
  sweep-mem act k [] = record { at = λ w h. h }
  sweep-mem act k (q ∷ l) = record { at = λ w h. (sweep-mem act k l).at _ ((k q).at w h) }

  sweep_events-mem : (act : ℕ → M Bool) → ((q : ℕ) → Keeps P (act q)) → Keeps P (sweep_events act)
  unfolding sweep_events
  sweep_events-mem act k = search (mem_rules, sweep-mem) depth 20 fits 4000

  flush_orphan-mem : (e : IoError) (q : ℕ) → Keeps P (flush_orphan e q)
  unfolding flush_orphan
  flush_orphan-mem e q = search (mem_rules, fail_request-mem) depth 20 fits 4000

  abort_event-mem : (q : ℕ) → Keeps P (abort_event q)
  unfolding abort_event
  abort_event-mem q = search (mem_rules, fail_request-mem) depth 20 fits 4000

  serve_event-mem : (mask q : ℕ) → Keeps P (serve_event mask q)
  unfolding serve_event
  serve_event-mem mask q = search mem_rules depth 20 fits 4000

  pub signal_event-mem : (mask : ℕ) → Keeps P (signal_event mask)
  unfolding signal_event
  signal_event-mem mask = search (mem_rules, sweep_events-mem, serve_event-mem) depth 20 fits 4000

-- What a wrapper that is taken out of a list, or put into one, does to the account.
pub held-take :
    (a : ℕ) (j : ReadList) (pr : PendingRead) (rest : List PendingRead) (u : EthUnit)
    → read_list j u ≡ pr ∷ rest
    → held a (set_read_list j rest u) + is_at pr.at a ≡ held a u
unfolding wrappers
held-take a ipv4 pr rest u e = rw e (omega arith)
held-take a arp pr rest u e = rw e (omega arith)
held-take a other pr rest u e = rw e (omega arith)

module _ {a s : ℕ} where
  flush_list-Holds_at :
      (j : ReadList) (e : IoError) (l : List PendingRead) (w : World)
      → read_list j w.unit ≡ l
      → Holds a s 0 w
      → Holds a s 0 (flush_read_list j e l w).1
  unfolding flush_read_list ◌>>=◌ allocs frees
  flush_list-Holds_at j e [] w same h = h
  flush_list-Holds_at j e (pr ∷ rest) w same h =
      flush_list-Holds_at j e rest _
        (ap (read_list j) (fail_request-unit pr.ioreq e _) ∙ read_list-set j rest w.unit)
        ((fail_request-mem {P = Holds a s 0} pr.ioreq e).at _
          (record { balance = omega (arith, held-take a j pr rest w.unit same, h.balance) }))

  flush_list-Holds : (j : ReadList) (e : IoError) → Keeps (Holds a s 0) (flush_list j e)
  unfolding flush_list ◌>>=◌
  flush_list-Holds j e = record {
    at = λ w h. flush_list-Holds_at j e (read_list j w.unit) w refl h;
  }

  pub flush_read_queue-Holds : (e : IoError) → Keeps (Holds a s 0) (flush_read_queue e)
  unfolding flush_read_queue
  flush_read_queue-Holds e =
      search (mem_rules, flush_list-Holds, sweep_events-mem, flush_orphan-mem) depth 24 fits 4000

  pub flush_all_pending-Holds : Keeps (Holds a s 0) flush_all_pending
  unfolding flush_all_pending
  flush_all_pending-Holds =
      search (mem_rules, flush_read_queue-Holds, sweep_events-mem, abort_event-mem) depth 24 fits
        4000
