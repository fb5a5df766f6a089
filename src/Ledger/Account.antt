-- ===== src/Ledger/Account.antt =====
-- The account of requests over the entry points, and over any sequence of their calls.
use pa6t_eth.Base.{
  ℕ, ◌+◌, ◌≡◌, ◌≢◌, refl, List, [], ◌∷◌, arith, update, ◌==◌, ==_refl, ==_ne, count, Bool-cases,
  inl, inr, if◌then◌else◌,
}
use pa6t_eth.Machine.{World, M}
use pa6t_eth.Machine.Triples.{Keeps}
use pa6t_eth.Machine.Structs.{IoError}
use pa6t_eth.Requests.{flush_read_queue}
use pa6t_eth.Rx.Process.{process_rx}
use pa6t_eth.Hw.Irq.{interrupt_handler, status_word}
use pa6t_eth.Io.Begin.{begin_io}
use pa6t_eth.Io.Abort.{abort_io}
use pa6t_eth.Task.{task_round, task_exit}
use pa6t_eth.Ledger.{Owes, owes_rules, one, settled, waiting, replies}
use pa6t_eth.Ledger.Silent.{begin_io-Silent, abort_io-Silent}
use pa6t_eth.Device.Open.{open_device}
use pa6t_eth.Device.Close.{close_device, expunge}
use pa6t_eth.Ledger.Device.{open_device-Owes, close_device-Owes, expunge-Owes}
use pa6t_eth.Ledger.Begin.{begin_io-answers}
use pa6t_eth.Ledger.Transmit.{quick}
use pa6t_eth.Ledger.Abort.{abort_io-Owes}
use pa6t_eth.Ledger.Dispatch.{process_rx-Owes}
use pa6t_eth.Ledger.Queues.{flush_read_queue-Owes}
use pa6t_eth.Ledger.Task.{task_round-Owes, task_exit-Owes, task_exit-waiting}

one-same : (q : ℕ) → one q q ≡ 1
one-same q = rw (==_refl q) refl

one-other : (q r : ℕ) → q ≢ r → one q r ≡ 0
one-other q r n = rw (==_ne q r n) refl

quick-other : (q r : ℕ) (w : World) → q ≢ r → quick q r w ≡ 0
quick-other q r w n = elim (Bool-cases (w.reqs q).io_flags.iof_quick) [
  | inl e ↦ rw e (one-other q r n)
  | inr e ↦ rw e refl
]

-- Code that settles what it owes leaves each request's account as it was.
settles :
    {A : Type 0} {m : M A} (r : ℕ) (w : World)
    → ((k : ℕ) → Keeps (Owes r k 0) m)
    → settled r (m w).1 ≡ settled r w
settles r w f =
    let after = (f (settled r w + 0)).at w (record { owed = refl }) in omega (arith, after.owed)

status_word-Owes : {r k : ℕ} (p ch : ℕ) → Keeps (Owes r k 0) (status_word p ch)
unfolding status_word
status_word-Owes p ch = search owes_rules depth 20 fits 4000

interrupt-Owes : {r k : ℕ} → Keeps (Owes r k 0) interrupt_handler
unfolding interrupt_handler
interrupt-Owes = search (owes_rules, status_word-Owes) depth 24 fits 4000

begin_io-account :
    (q r : ℕ) (w : World)
    → settled r (begin_io q w).1 + quick q r (begin_io q w).1 ≡ settled r w + one q r
begin_io-account q r w =
    ((begin_io-answers {k = settled r w + one q r}).at w (record { owed = refl })).answered

-- BeginIO of a request `q`. The number of replies to `q` and of its places in the queues, with one for
-- a return with IOF_QUICK set, grows by one in sum. Another request `r` is not replied to, and waits
-- as often as before.
pub begin_io-settles :
    (q r : ℕ) (w : World)
    → (settled q (begin_io q w).1 + quick q q (begin_io q w).1 ≡ settled q w + 1)
      × (q ≢ r
          → (replies r (begin_io q w).1.trace ≡ replies r w.trace)
            × (waiting r (begin_io q w).1.unit ≡ waiting r w.unit))
begin_io-settles q r w = (
  omega (arith, begin_io-account q q w, one-same q),
  λ n.
      let silent = (begin_io-Silent q r (==_ne q r n)).at w (record { silent = refl }) in
      (
        silent.silent,
        omega (arith, silent.silent, begin_io-account q r w, one-other q r n, quick-other q r _ n),
      ),
)

-- AbortIO of a request `q` replies to `q` exactly as often as it takes it out of the queues. Another
-- request `r` is not replied to, and waits as often as before.
pub abort_io-settles :
    (q r : ℕ) (w : World)
    → (settled q (abort_io q w).1 ≡ settled q w)
      × (q ≢ r
          → (replies r (abort_io q w).1.trace ≡ replies r w.trace)
            × (waiting r (abort_io q w).1.unit ≡ waiting r w.unit))
abort_io-settles q r w = (
  settles q w (abort_io-Owes q q),
  λ n.
      let silent = (abort_io-Silent q r (==_ne q r n)).at w (record { silent = refl }) in
      (silent.silent, omega (arith, silent.silent, settles r w (abort_io-Owes q r))),
)

-- A pass over the receive ring replies to a request exactly as often as it takes it out of the
-- queues, whatever the ring, the memory and the copy hooks hold.
pub process_rx-settles : (r : ℕ) (w : World) → settled r (process_rx w).1 ≡ settled r w
process_rx-settles r w = settles r w (λ k. process_rx-Owes)

-- The flush of the readers replies to a request exactly as often as it takes it out of the queues.
pub flush_read_queue-settles :
    (e : IoError) (r : ℕ) (w : World) → settled r (flush_read_queue e w).1 ≡ settled r w
flush_read_queue-settles e r w = settles r w (λ k. flush_read_queue-Owes e)

-- One round of the unit task replies to a request exactly as often as it takes it out of the
-- queues and the port.
pub task_round-settles : (r : ℕ) (w : World) → settled r (task_round w).1 ≡ settled r w
task_round-settles r w = settles r w (λ k. task_round-Owes)

-- When the unit task has ended, each request has been replied to as often as it had been replied
-- to and had waited before: nothing is left in a queue.
pub task_exit-replies : (r : ℕ) (w : World) → replies r (task_exit w).1.trace ≡ settled r w
task_exit-replies r w =
    let kept = settles r w (λ k. task_exit-Owes) in omega (arith, kept, task_exit-waiting r w)

-- What happens to the driver: a call of an entry point (`opened` has the request and the number of
-- the unit), a round of the unit task, an interrupt, or a word that the hardware writes into the
-- receive ring.
pub data Event : Type 0 where
  opened : ℕ → ℕ → Event
  closed : ℕ → Event
  expunged : Event
  begin abort : ℕ → Event
  round interrupt : Event
  filled : ℕ → ℕ → Event

abbrev pub perform : Event → World → World
perform (opened q n) w = (open_device q n w).1
perform (closed q) w = (close_device q w).1
perform expunged w = (expunge w).1
perform (begin q) w = (begin_io q w).1
perform (abort q) w = (abort_io q w).1
perform round w = (task_round w).1
perform interrupt w = (interrupt_handler w).1
perform (filled i v) w = record w { unit = record (w.unit) { rx_desc = update w.unit.rx_desc i v } }

unfoldable pub perform_all : List Event → World → World
perform_all [] w = w
perform_all (e ∷ es) w = perform_all es (perform e w)

-- How often the request was given to BeginIO.
abbrev pub begun : ℕ → Event → ℕ
begun r (begin q) = one q r
begun r _ = 0

unfoldable pub submitted : ℕ → List Event → ℕ
submitted r [] = 0
submitted r (e ∷ es) = begun r e + submitted r es

-- How often BeginIO completed it on return.
abbrev pub returned : ℕ → Event → World → ℕ
returned r (begin q) w = quick q r (begin_io q w).1
returned r _ w = 0

unfoldable pub completed : ℕ → List Event → World → ℕ
completed r [] w = 0
completed r (e ∷ es) w = returned r e w + completed r es (perform e w)

-- How often an Open that is to start the unit task finds the request in the port: the task then gets
-- another port, which is empty.
abbrev pub left_behind : ℕ → Event → World → ℕ
left_behind r (opened q n) w = if w.unit.open_count == 0 then count r w.unit.port_msgs else 0
left_behind r _ w = 0

unfoldable pub lost : ℕ → List Event → World → ℕ
lost r [] w = 0
lost r (e ∷ es) w = left_behind r e w + lost r es (perform e w)

open_device-settles :
    (q n r : ℕ) (w : World)
    → left_behind r (opened q n) w ≡ 0
    → settled r (open_device q n w).1 ≡ settled r w
open_device-settles q n r w e =
    let after =
      (open_device-Owes {r = r} {k = settled r w} q n).at w
        (record { owed = refl; guard = λ d. rw d at e }) in
    omega (arith, after.owed)

perform-settles :
    (r : ℕ) (e : Event) (w : World)
    → left_behind r e w ≡ 0
    → settled r (perform e w) + returned r e w ≡ settled r w + begun r e
perform-settles r (opened q n) w l = omega (arith, open_device-settles q n r w l)
perform-settles r (closed q) w l = omega (arith, settles r w (λ k. close_device-Owes q))
perform-settles r expunged w l = omega (arith, settles r w (λ k. expunge-Owes))
perform-settles r (begin q) w l = begin_io-account q r w
perform-settles r (abort q) w l = omega (arith, settles r w (abort_io-Owes q r))
perform-settles r round w l = omega (arith, task_round-settles r w)
perform-settles r interrupt w l = omega (arith, settles r w (λ k. interrupt-Owes))
perform-settles r (filled i v) w l = omega arith

-- After any sequence of events, a request has been replied to, waits, or was completed on return,
-- as often in all as it was given to BeginIO since the start, and had been settled then, if no Open
-- that is to start the task found it in the port.
pub perform_all-settles :
    (r : ℕ) (es : List Event) (w : World)
    → lost r es w ≡ 0
    → settled r (perform_all es w) + completed r es w ≡ settled r w + submitted r es
unfolding perform_all submitted completed lost
perform_all-settles r [] w l = refl
perform_all-settles r (e ∷ es) w l =
    let now = perform-settles r e w (omega (arith, l)) in
    let later = perform_all-settles r es (perform e w) (omega (arith, l)) in
    omega (arith, now, later)

-- From a state in which the request neither waits nor was replied to: when the unit task ends
-- after any sequence of events in which no Open without other openers found the request in the port,
-- the request has been answered as often as it was given to BeginIO, by a reply or by completion on
-- return.
pub each_answered_once :
    (r : ℕ) (es : List Event) (w : World)
    → settled r w ≡ 0
    → lost r es w ≡ 0
    → replies r (task_exit (perform_all es w)).1.trace + completed r es w ≡ submitted r es
each_answered_once r es w none kept =
    let all = perform_all-settles r es w kept in
    omega (arith, all, task_exit-replies r (perform_all es w), none)
