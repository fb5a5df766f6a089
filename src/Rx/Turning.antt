-- ===== src/Rx/Turning.antt =====
-- PA6TEth_ProcessRX of src/hw/rx.c over a batch of frames: the ring of receive buffers as a queue
-- that turns, one buffer for each completed descriptor.
use pa6t_eth.Base.{
  ℕ, zero, suc, ◌+◌, ◌%◌, ◌^◌, ◌≡◌, ◌<◌, ◌≤◌, ◌∙◌, refl, sym, ap, List, true, false, length,
  Bool-cases, ◌≢◌, ◌==◌, ==_ne, inl, inr, arith,
}
use pa6t_eth.Base.Bits.{bit_and-2047}
use pa6t_eth.Machine.{World}
use pa6t_eth.Machine.Structs.{EthUnit, rx_index}
use pa6t_eth.Rx.Process.{
  RxBatch, rx_packet, rx_loop, owned, ring_slot, rx_fuel, rx_start, rx_word, add32,
}
use pa6t_eth.Rx.Rounds.{
  position, cleared, Advanced, Advanced-step, Advanced-more, Advanced-start, rx_packet-ring,
}
use pa6t_eth.Rx.Window.{turn, rotate, length-rotate}
use pa6t_eth.Rx.Queue.{Posted, rx_packet-Posted}

-- The completed descriptors from `s` on name the slots from `h` on, one after the other.
pub record InOrder (s h i : ℕ) (u : EthUnit) : Type 0 where
  pub names :
      (j : ℕ)
      → i ≤ j
      → j < 512
      → owned u (position s j) ≡ true
      → ring_slot u (position s j) ≡ (h + j) % 2048

apart : (x y : ℕ) → x % 2048 ≢ y % 2048 → (rx_index x == rx_index y) ≡ false
apart x y h = ==_ne (rx_index x) (rx_index y) (λ e. h (sym (bit_and-2047 x) ∙ e ∙ bit_and-2047 y))

-- The words of a descriptor that comes later are not touched.
later_word :
    (s i j m y : ℕ) (d : ℕ → ℕ)
    → i < j
    → j < 512
    → m < 2
    → y ≡ add32 (position s j) m
    → cleared (position s i) d (rx_index y) ≡ d (rx_index y)
later_word s i j m y d a b c e =
    rw
      (
        apart (position s i) y (λ f. omega (arith, e, f)),
        apart (add32 (position s i) 1) y (λ f. omega (arith, e, f)),
        apart (add32 (position s i) 2) y (λ f. omega (arith, e, f)),
        apart (add32 (position s i) 3) y (λ f. omega (arith, e, f)),
      )
      refl

-- A round leaves of the later descriptors what they say.
module _ (s i j : ℕ) (b : RxBatch) (w : World) (a : b.n ≡ position s i) (l : i < j)
    (k : j < 512) where
  later_same :
      (m y : ℕ)
      → m < 2
      → y ≡ add32 (position s j) m
      → rx_word (rx_packet b w).1.unit y ≡ rx_word w.unit y
  later_same m y c e =
      ap (λ d. d (rx_index y)) (rx_packet-ring b w)
      ∙ ap (λ n. cleared n w.unit.rx_desc (rx_index y)) a
      ∙ later_word s i j m y w.unit.rx_desc l k c e

  later_owned : owned (rx_packet b w).1.unit (position s j) ≡ owned w.unit (position s j)
  later_owned = rw (later_same 0 (position s j) (omega arith) (omega arith)) refl

  later_ring_slot :
      ring_slot (rx_packet b w).1.unit (position s j) ≡ ring_slot w.unit (position s j)
  unfolding ring_slot
  later_ring_slot = rw (later_same 1 (add32 (position s j) 1) (omega arith) refl) refl

next_slot :
    (h i : ℕ) (q : List ℕ) (u : EthUnit)
    → Posted (((h + i) % 2048 + 1) % 2048) (turn (rotate i q)) u
    → Posted ((h + (i + 1)) % 2048) (rotate (i + 1) q) u
unfolding rotate
next_slot h i q u p =
    let same : ((h + i) % 2048 + 1) % 2048 ≡ (h + (i + 1)) % 2048 = omega arith in
    let next : i + 1 ≡ suc i = omega arith in rw (← same, next) p

first_slot :
    (h : ℕ) (q : List ℕ) (u : EthUnit) → Posted h q u → Posted ((h + 0) % 2048) (rotate 0 q) u
unfolding rotate
first_slot h q u p = let same : (h + 0) % 2048 ≡ h = omega (arith, p.in_ring) in rw same p

-- `i` rounds have been made: the queue has turned `i` times.
record Turned (s h : ℕ) (q : List ℕ) (i : ℕ) (b : RxBatch) (w : World) : Type 0 where
  advanced : Advanced s i b w
  left : InOrder s h i w.unit
  posted : Posted ((h + i) % 2048) (rotate i q) w.unit
  replenished : b.replenish ≡ i

Turned-step :
    (s h i : ℕ) (q : List ℕ) (b : RxBatch) (w : World)
    → 0 < length q
    → i < 512
    → owned w.unit b.n ≡ true
    → Turned s h q i b w
    → Turned s h q (i + 1) (rx_packet b w).0 (rx_packet b w).1
Turned-step s h i q b w e k o t =
    let slot : ring_slot w.unit b.n ≡ (h + i) % 2048 =
      ap (ring_slot w.unit) t.advanced.here
      ∙ t.left.names i (omega arith) k (ap (owned w.unit) (sym t.advanced.here) ∙ o) in
    let round =
      rx_packet-Posted (rotate i q) b w (omega (arith, length-rotate i q)) t.posted slot in
    record {
      advanced = Advanced-step s i b w k t.advanced;
      left = record {
        names = λ j c d o'.
            later_ring_slot s i j b w t.advanced.here (omega arith) d
            ∙ t.left.names j (omega arith) d
                (sym (later_owned s i j b w t.advanced.here (omega arith) d) ∙ o');
      };
      posted = next_slot h i q _ round.0;
      replenished = round.1 ∙ omega (arith, t.replenished);
    }

-- What the loop over a queue `q` of buffers, the first in slot `h`, does with the ring: it turned
-- the queue once for each descriptor, and the hardware gets as many credits.
pub record TurnedBy (h : ℕ) (q : List ℕ) (b : RxBatch) (w : World) : Type 0 where
  pub queue : Posted ((h + b.count) % 2048) (rotate b.count q) w.unit
  pub credits : b.replenish ≡ b.count

Turned-TurnedBy :
    (s h i : ℕ) (q : List ℕ) (b : RxBatch) (w : World) → Turned s h q i b w → TurnedBy h q b w
Turned-TurnedBy s h i q b w t =
    let done : i ≡ b.count = sym t.advanced.counted in
    record { queue = rw done at t.posted; credits = t.replenished ∙ done }

rx_loop-Turned :
    (fuel s h i : ℕ) (q : List ℕ) (b : RxBatch) (w : World)
    → 0 < length q
    → i ≤ 512
    → Turned s h q i b w
    → TurnedBy h q (rx_loop fuel b w).0 (rx_loop fuel b w).1
unfolding rx_loop
rx_loop-Turned zero s h i q b w e k t = Turned-TurnedBy s h i q b w t
rx_loop-Turned (suc fuel) s h i q b w e k t = elim (Bool-cases (owned w.unit b.n)) [
  | inl o ↦
      let more = Advanced-more s i b w t.advanced k o in
      rw (o, rx_loop)
        (rx_loop-Turned fuel s h (i + 1) q (rx_packet b w).0 (rx_packet b w).1 e (omega arith)
          (Turned-step s h i q b w e more o t))
  | inr o ↦ rw (o, rx_loop) (Turned-TurnedBy s h i q b w t)
]

pub rx_loop-TurnedBy :
    (w : World) (h : ℕ) (q : List ℕ)
    → w.unit.rx_next_clean < 2 ^ 32
    → 0 < length q
    → Posted h q w.unit
    → InOrder w.unit.rx_next_clean h 0 w.unit
    → TurnedBy h q (rx_loop rx_fuel (rx_start w.unit) w).0 (rx_loop rx_fuel (rx_start w.unit) w).1
rx_loop-TurnedBy w h q b e p o =
    rx_loop-Turned rx_fuel w.unit.rx_next_clean h 0 q (rx_start w.unit) w e (omega arith) (record {
      advanced = Advanced-start w b;
      left = o;
      posted = first_slot h q w.unit p;
      replenished = refl;
    })
