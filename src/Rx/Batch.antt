-- ===== src/Rx/Batch.antt =====
-- PA6TEth_ProcessRX of src/hw/rx.c as a whole: the loop, the position that it leaves, and the
-- credits.
use pa6t_eth.Base.{
  ℕ, ◌+◌, ◌-◌, ◌*◌, ◌%◌, ◌^◌, ◌≡◌, ◌<◌, ◌∙◌, refl, sym, ap, List, [], ◌∷◌, Option, none, some, true,
  false, is_set, ◌&&◌, ltb, leb, length, Bool-cases, inl, inr, arith, if◌then◌else◌, bit_and,
}
use pa6t_eth.Base.Bits.{bit_and-2047}
use pa6t_eth.Regs.Xct.{xct_macrx_o}
use pa6t_eth.Regs.Dma.{pas_dma_rxint_incr}
use pa6t_eth.Machine.{World, History, uint32_of, ◌>>=◌}
use pa6t_eth.Machine.Structs.{EthUnit, rx_index, rx_ring_size}
use pa6t_eth.Machine.Calls.{Call, write_dma}
use pa6t_eth.Rx.Process.{RxBatch, process_rx, rx_finish, rx_loop, rx_fuel, rx_start, owned}
use pa6t_eth.Rx.Rounds.{rx_loop-ends, Ended}
use pa6t_eth.Rx.Window.{rotate}
use pa6t_eth.Rx.Queue.{Posted}
use pa6t_eth.Rx.Turning.{InOrder, TurnedBy, rx_loop-TurnedBy}

-- The position that the driver keeps: it is taken into the ring only when it has left it.
abbrev kept : ℕ → ℕ
kept n = if leb rx_ring_size n then bit_and n (rx_ring_size - 1) else n

kept-eq : (n : ℕ) → kept n ≡ n % 2048
kept-eq n = elim (Bool-cases (leb rx_ring_size n)) [
  | inl e ↦ rw e (bit_and-2047 n)
  | inr e ↦ let inside : n < 2048 = ground arith in rw e (omega arith)
]

kept-index : (n : ℕ) → rx_index (kept n) ≡ rx_index n
kept-index n = bit_and-2047 (kept n) ∙ omega (arith, kept-eq n) ∙ sym (bit_and-2047 n)

rx_finish-unit :
    (b : RxBatch) (w : World) → (rx_finish b w).1.unit ≡ record w.unit { rx_next_clean = kept b.n }
unfolding rx_finish ◌>>=◌
rx_finish-unit b w = elim (Bool-cases (ltb 0 b.count)) [ inl e ↦ rw e refl | inr e ↦ rw e refl ]

abbrev pub last_call : History → Option Call
last_call [] = none
last_call ((c, v) ∷ h) = some c

-- The call that credits the interface with `n` buffers.
abbrev pub credit_of : World → ℕ → Call
credit_of w n = write_dma (pas_dma_rxint_incr (uint32_of w.base.dma_if)) n

rx_finish-credit :
    (b : RxBatch) (w : World)
    → 0 < b.count
    → last_call (rx_finish b w).1.trace ≡ some (credit_of (rx_finish b w).1 b.replenish)
unfolding rx_finish ◌>>=◌
rx_finish-credit b w h =
    let some_frames : ltb 0 b.count ≡ true = ground arith in rw some_frames refl

-- What a batch of `c` frames leaves of a ring whose queue was `q` from slot `h` on, and where the
-- driver stood at `s`.
pub record Received (s h : ℕ) (q : List ℕ) (c : ℕ) (w : World) : Type 0 where
  pub queue : Posted ((h + c) % 2048) (rotate c q) w.unit
  pub next_clean : w.unit.rx_next_clean ≡ (s + 4 * c) % 2048
  pub drained : owned w.unit w.unit.rx_next_clean ≡ false
  pub credited : 0 < c → last_call w.trace ≡ some (credit_of w c)

Posted-next_clean :
    {h : ℕ} {q : List ℕ} (n : ℕ) (u : EthUnit)
    → Posted h q u
    → Posted h q (record u { rx_next_clean = n })
Posted-next_clean n u p = record {
  in_ring = p.in_ring;
  few = p.few;
  write_ptr = p.write_ptr;
  slots = p.slots;
  words = p.words;
  buffers = p.buffers;
}

rx_finish-Received :
    (s h : ℕ) (q : List ℕ) (b : RxBatch) (w : World)
    → Ended s b w
    → TurnedBy h q b w
    → Received s h q b.count (rx_finish b w).1
rx_finish-Received s h q b w e t =
    let v = rx_finish-unit b w in
    record {
      queue = rw v (Posted-next_clean (kept b.n) w.unit t.queue);
      next_clean = rw v (kept-eq b.n ∙ omega (arith, e.at_position));
      drained = rw v (
          ap (λ i. is_set (bit_and (w.unit.rx_desc i) xct_macrx_o)) (kept-index b.n) ∙ e.not_owned);
      credited =
          λ k. rx_finish-credit b w k ∙ ap (λ n. some (credit_of (rx_finish b w).1 n)) t.credits;
    }

-- PA6TEth_ProcessRX on the receive ring implements a queue of buffers that turns. The slots of the
-- buffer ring from `h` up to the write pointer hold a queue of at least one buffer, each with the
-- word that posts it, and the completed descriptors name these slots in their order. Then, for the
-- number of descriptors that it counts, it has taken so many buffers from the front and posted each
-- behind the others, the good frames and the bad ones alike; it stands four words further for each
-- of them, and there at a descriptor that is not complete; and if there was one, its last call is
-- the store that credits the interface with exactly so many buffers.
pub process_rx-Received :
    (w : World) (h : ℕ) (q : List ℕ)
    → (is_set w.unit.rx_ring && is_set w.unit.rx_buf_ring) ≡ true
    → w.unit.rx_next_clean < 2 ^ 32
    → 0 < length q
    → Posted h q w.unit
    → InOrder w.unit.rx_next_clean h 0 w.unit
    → Received w.unit.rx_next_clean h q
        (rx_loop rx_fuel (rx_start w.unit) w).0.count
        (process_rx w).1
unfolding process_rx ◌>>=◌
process_rx-Received w h q r n l p o =
    let batch = rx_loop rx_fuel (rx_start w.unit) w in
    rw r (
      rx_finish-Received w.unit.rx_next_clean h q batch.0 batch.1 (rx_loop-ends w n)
        (rx_loop-TurnedBy w h q n l p o))
