-- ===== src/Memory/Account.antt =====
-- The account of memory over the entry points, over any sequence of their calls, and to the end.
use mathlib.Core.List.{map}
use pa6t_eth.Base.{ℕ, if◌then◌else◌, ◌+◌, ◌<◌, ◌≡◌, ap, List, [], ◌∷◌, true, is_set, arith}
use pa6t_eth.Machine.{World, M}
use pa6t_eth.Machine.Triples.{Keeps}
use pa6t_eth.Task.{task_round, task_exit}
use pa6t_eth.Io.Begin.{begin_io}
use pa6t_eth.Io.Abort.{abort_io}
use pa6t_eth.Hw.Irq.{interrupt_handler}
use pa6t_eth.Hw.Tx.{transmit_packet}
use pa6t_eth.Rx.Post.{post_rx_buffers}
use pa6t_eth.Ledger.Account.{
  Event, opened, closed, expunged, begin, abort, round, interrupt, filled, perform, perform_all,
}
use pa6t_eth.Ledger.Task.{task_exit-lists}
use pa6t_eth.Memory.{Holds, Holds-MemSafe, allocs, frees, held, is_at, wrappers, listed, zero_is_at}
use pa6t_eth.Machine.Plain.{opener_at}
use pa6t_eth.Memory.Transmit.{transmit_packet-Holds}
use pa6t_eth.Memory.Begin.{begin_io-Holds}
use pa6t_eth.Memory.Abort.{abort_io-Holds}
use pa6t_eth.Memory.Buffers.{post_rx_buffers-Holds}
use pa6t_eth.Memory.Task.{task_round-Holds, task_exit-Holds, interrupt_handler-mem}
use pa6t_eth.Memory.Emptied.{leftover}
use pa6t_eth.Memory.Opening.{open_device-Holds}
use pa6t_eth.Memory.Closing.{close_device-Holds, expunge-Holds}
use pa6t_eth.Memory.Device.{init-Holds}
use pa6t_eth.Memory.Expunged.{expunge-held}
use pa6t_eth.Device.Open.{open_device}
use pa6t_eth.Device.Close.{close_device, expunge}
use pa6t_eth.Device.Start.{init}

-- The block was freed, or is held, as often as it was allocated, and `s` times more.
abbrev pub IsBalanced : ℕ → ℕ → World → Type 0
IsBalanced a s w = frees a w.trace + held a w.unit + is_at w.base.unit a ≡ allocs a w.trace + s

balances :
    {A : Type 0} {a s : ℕ} (m : M A) (w : World)
    → Keeps (Holds a s 0) m
    → IsBalanced a s w
    → IsBalanced a s (m w).1
balances m w k h =
    let after = k.at w (record { balance = omega (arith, h) }) in omega (arith, after.balance)

-- Each block that PA6TEth_TransmitPacket allocates is freed by it, or is afterwards the buffer that
-- is pending; the one that was pending is freed, or still is pending. For an address other than
-- NULL: freed or held as often as allocated, before and after.
pub transmit_packet-IsBalanced :
    (a s q : ℕ) (w : World) → 0 < a → IsBalanced a s w → IsBalanced a s (transmit_packet q w).1
transmit_packet-IsBalanced a s q w l h =
    balances (transmit_packet q) w (transmit_packet-Holds l q) h

-- Each receive buffer that PA6TEth_PostRxBuffers allocates is freed by it, or stands in the array,
-- in the place of no other.
pub post_rx_buffers-IsBalanced :
    (a s : ℕ) (w : World) → 0 < a → IsBalanced a s w → IsBalanced a s (post_rx_buffers w).1
post_rx_buffers-IsBalanced a s w l h = balances post_rx_buffers w (post_rx_buffers-Holds l) h

perform-IsBalanced :
    (a s : ℕ) (e : Event) (w : World) → 0 < a → IsBalanced a s w → IsBalanced a s (perform e w)
perform-IsBalanced a s (opened q n) w l h = balances (open_device q n) w (open_device-Holds l q n) h
perform-IsBalanced a s (closed q) w l h = balances (close_device q) w (close_device-Holds l q) h
perform-IsBalanced a s expunged w l h = balances expunge w (expunge-Holds l) h
perform-IsBalanced a s (begin q) w l h = balances (begin_io q) w (begin_io-Holds l q) h
perform-IsBalanced a s (abort q) w l h = balances (abort_io q) w (abort_io-Holds q) h
perform-IsBalanced a s round w l h = balances task_round w (task_round-Holds l) h
perform-IsBalanced a s interrupt w l h = balances interrupt_handler w interrupt_handler-mem h
perform-IsBalanced a s (filled i v) w l h = h

-- The account over any sequence of events. What the unit's structure held when Expunge freed it still
-- counts as held.
pub perform_all-IsBalanced :
    (a s : ℕ) (es : List Event) (w : World)
    → 0 < a
    → IsBalanced a s w
    → IsBalanced a s (perform_all es w)
unfolding perform_all
perform_all-IsBalanced a s [] w l h = h
perform_all-IsBalanced a s (e ∷ es) w l h =
    perform_all-IsBalanced a s es (perform e w) l (perform-IsBalanced a s e w l h)

-- How often the block is reached from the base: it is the unit, or the unit holds it.
abbrev pub reached : ℕ → World → ℕ
reached a w = if is_set w.base.unit then held a w.unit + is_at w.base.unit a else 0

-- While the base has its unit, no block is lost. Over any sequence of Open, Close, Expunge, BeginIO,
-- AbortIO, rounds of the unit task, interrupts and words that the hardware writes, whatever the
-- allocations answer, after which the base has its unit: each block of memory, at an address other
-- than NULL, has been freed or is reached from the base (as the unit, or by it as an opener, a wrapper
-- of a pending read, the pending transmit buffer, a receive buffer or a ring) as often as it was
-- allocated, if it had been freed or held as often as allocated at the start.
pub perform_all-reaches :
    (a : ℕ) (es : List Event) (w : World)
    → 0 < a
    → IsBalanced a 0 w
    → is_set (perform_all es w).base.unit ≡ true
    → frees a (perform_all es w).trace + reached a (perform_all es w)
      ≡ allocs a (perform_all es w).trace
perform_all-reaches a es w l h b =
    let after = perform_all-IsBalanced a 0 es w l h in rw b (omega (arith, after))

-- The account over Init. The rings of a unit that Init has freed still count as held.
pub init-IsBalanced :
    (a s seglist : ℕ) (w : World)
    → 0 < a
    → w.base.unit ≡ 0
    → held a w.unit ≡ 0
    → IsBalanced a s w
    → IsBalanced a s (init seglist w).1
init-IsBalanced a s seglist w l u n h =
    let after = init-Holds {s = s} l seglist w u n (record { balance = omega (arith, h) }) in
    omega (arith, after.balance)

-- The state after the start of the device and the events.
abbrev pub lived : ℕ → List Event → World → World
lived seglist es w = perform_all es (init seglist w).1

-- The whole life of the device. After Init, from a base without a unit, and any sequence of events,
-- with the unit still there and the device open no more: Expunge leaves each block, at an address
-- other than NULL, freed as often as it was allocated, but for what the unit still had of the
-- wrappers of reads, the openers, and the pending transmit buffer, which Expunge does not free.
pub lived-frees :
    (a seglist : ℕ) (es : List Event) (w : World)
    → 0 < a
    → w.base.unit ≡ 0
    → held a w.unit ≡ 0
    → frees a w.trace ≡ allocs a w.trace
    → is_set (lived seglist es w).base.unit ≡ true
    → (lived seglist es w).base.lib_open_cnt ≡ 0
    → frees a (expunge (lived seglist es w)).1.trace + leftover a (lived seglist es w).unit
      ≡ allocs a (expunge (lived seglist es w)).1.trace
lived-frees a seglist es w l u n h b c =
    let v = lived seglist es w in
    let null = ap (λ p. is_at p a) u in
    let started = init-IsBalanced a 0 seglist w l u n (omega (arith, h, n, null, zero_is_at a l)) in
    let ran = perform_all-IsBalanced a 0 es (init seglist w).1 l started in
    let ended = balances expunge v (expunge-Holds l) ran in
    omega (arith, ended, expunge-held a v l b c)

-- The state after the events, the end of the unit task, and Expunge.
abbrev pub stopped : List Event → World → World
stopped es w = (expunge (task_exit (perform_all es w)).1).1

-- When the driver is taken down, all its memory is freed but one buffer and the openers that are
-- left. After any sequence of events, the end of the unit task, and Expunge of a device that is open
-- no more, with its unit there: each block, at an address other than NULL, has been freed as often as
-- it was allocated, but for the transmit buffer that was pending when the task ended and the openers
-- that were in the list, which are not freed.
pub stopped-frees :
    (a : ℕ) (es : List Event) (w : World)
    → 0 < a
    → IsBalanced a 0 w
    → is_set (task_exit (perform_all es w)).1.base.unit ≡ true
    → (task_exit (perform_all es w)).1.base.lib_open_cnt ≡ 0
    → frees a (stopped es w).trace
        + is_at (task_exit (perform_all es w)).1.unit.tx_buf_pending a
        + listed a (map opener_at (task_exit (perform_all es w)).1.unit.opener_list)
      ≡ allocs a (stopped es w).trace
unfolding wrappers
stopped-frees a es w l h b c =
    let v = (task_exit (perform_all es w)).1 in
    let ran = perform_all-IsBalanced a 0 es w l h in
    let ended = balances task_exit (perform_all es w) (task_exit-Holds l) ran in
    let cleaned = balances expunge v (expunge-Holds l) ended in
    let lists = task_exit-lists (perform_all es w) in
    let v4 = ap (wrappers a) lists.0 in
    let ar = ap (wrappers a) lists.1 in
    let ot = ap (wrappers a) lists.2 in omega (arith, cleaned, expunge-held a v l b c, v4, ar, ot)
