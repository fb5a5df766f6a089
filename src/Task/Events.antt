-- ===== src/Task/Events.antt =====
-- S2_ONEVENT, between BeginIO.c and SignalEvent of unit_task.c.
use pa6t_eth.Base.{
  ℕ, ◌+◌, ◌≡◌, ◌∙◌, refl, sym, ap, List, [], ◌∷◌, false, Bool-cases, inl, inr, arith, count,
  count-append, ◌==◌, ==_refl, ==_sound, is_set, bit_and,
}
use mathlib.Core.Path.{subst}
use pa6t_eth.Base.Bits.{zero_bit_and}
use pa6t_eth.Machine.{World, call_, ◌>>=◌}
use pa6t_eth.Machine.Calls.{forbid}
use pa6t_eth.Machine.Structs.{s2_onevent}
use pa6t_eth.Requests.{sweep, sweep_events}
use pa6t_eth.Io.Begin.{begin_io, begin_command, begin_onevent, queue_event}
use pa6t_eth.Task.{serve_event, signal_event}
use pa6t_eth.Ledger.{replies}

-- The request was replied to `n` times, and its wire error, the mask of its events, is 0.
record Maskless (r n : ℕ) (w : World) : Type 0 where
  replied : replies r w.trace ≡ n
  no_mask : (w.reqs r).wire_error ≡ 0

serve_event-same : (mask r n : ℕ) (w : World) → Maskless r n w → serve_event mask r w ≡ (false, w)
unfolding serve_event ◌>>=◌
serve_event-same mask r n w h = rw (h.no_mask, zero_bit_and) refl

serve_event-Maskless :
    (mask q r n : ℕ) (w : World) → Maskless r n w → Maskless r n (serve_event mask q w).1
unfolding serve_event ◌>>=◌ replies
serve_event-Maskless mask q r n w h = elim (Bool-cases (q == r)) [
  | inl e ↦
      let same = ap (λ x. serve_event mask x w) (==_sound q r e) ∙ serve_event-same mask r n w h in
      subst (Maskless r n) (sym (ap (λ x. x.1) same)) h
  | inr e ↦ elim (Bool-cases (is_set (bit_and (w.reqs q).wire_error mask))) [
    | inl d ↦ rw d (record { replied = rw e (omega (arith, h.replied)); no_mask = rw e h.no_mask })
    | inr d ↦ rw d h
  ]
]

-- The sweep of the event list leaves such a request where it is.
sweep-Maskless :
    (mask r n : ℕ) (l : List ℕ) (w : World)
    → Maskless r n w
    → Maskless r n (sweep (serve_event mask) l w).1
      × (count r (sweep (serve_event mask) l w).0 ≡ count r l)
unfolding sweep count
sweep-Maskless mask r n [] w h = (h, refl)
sweep-Maskless mask r n (q ∷ l) w h =
    let rest = sweep-Maskless mask r n l _ (serve_event-Maskless mask q r n w h) in
    (
      rest.0,
      elim (Bool-cases (q == r)) [
        | inl e ↦
            let same =
              ap (λ x. (serve_event mask x w).0) (==_sound q r e)
              ∙ ap (λ x. x.0) (serve_event-same mask r n w h) in
            rw same (omega (arith, rest.1))
        | inr e ↦ elim (Bool-cases (serve_event mask q w).0) [
          | inl d ↦ rw (d, e) (omega (arith, rest.1))
          | inr d ↦ rw d (omega (arith, rest.1))
        ]
      ],
    )

-- SignalEvent for one mask of events after another.
unfoldable pub signal_all : List ℕ → World → World
signal_all [] w = w
signal_all (mask ∷ masks) w = signal_all masks (signal_event mask w).1

-- The request stands in the event list `m` times.
record Listed (r n m : ℕ) (w : World) : Type 0 where
  maskless : Maskless r n w
  listed : count r w.unit.event_list ≡ m

signal_event-Listed :
    (mask r n m : ℕ) (w : World) → Listed r n m w → Listed r n m (signal_event mask w).1
unfolding signal_event sweep_events ◌>>=◌ replies
signal_event-Listed mask r n m w h =
    let swept =
      sweep-Maskless mask r n w.unit.event_list (call_ forbid w).1
        (record { replied = omega (arith, h.maskless.replied); no_mask = h.maskless.no_mask }) in
    record {
      maskless = record { replied = omega (arith, swept.0.replied); no_mask = swept.0.no_mask };
      listed = omega (arith, swept.1, h.listed);
    }

signal_all-Listed :
    (masks : List ℕ) (r n m : ℕ) (w : World) → Listed r n m w → Listed r n m (signal_all masks w)
unfolding signal_all
signal_all-Listed [] r n m w h = h
signal_all-Listed (mask ∷ masks) r n m w h =
    signal_all-Listed masks r n m _ (signal_event-Listed mask r n m w h)

begin_io-Listed :
    (q : ℕ) (w : World)
    → (w.reqs q).io_command ≡ s2_onevent
    → Listed q (replies q w.trace) (count q w.unit.event_list + 1) (begin_io q w).1
unfolding begin_io begin_command begin_onevent queue_event replies ◌>>=◌ count
begin_io-Listed q w e = rw e (record {
  maskless = record { replied = omega arith; no_mask = rw (==_refl q) refl };
  listed = rw (count-append q w.unit.event_list (q ∷ []), ==_refl q) (omega arith);
})

-- After BeginIO of an S2_ONEVENT, and any number of calls of SignalEvent that follow it, with whatever
-- events: the request has not been replied to, and stands in the event list once more than before.
pub onevent-never_served :
    (q : ℕ) (masks : List ℕ) (w : World)
    → (w.reqs q).io_command ≡ s2_onevent
    → (replies q (signal_all masks (begin_io q w).1).trace ≡ replies q w.trace)
      × (count q (signal_all masks (begin_io q w).1).unit.event_list
          ≡ count q w.unit.event_list + 1)
onevent-never_served q masks w e =
    let after = signal_all-Listed masks q _ _ _ (begin_io-Listed q w e) in
    (after.maskless.replied, after.listed)
