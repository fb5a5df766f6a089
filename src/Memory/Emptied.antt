-- ===== src/Memory/Emptied.antt =====
-- What PA6TEth_HWCleanup of src/hw/hw_init.c leaves of the unit's memory.
use mathlib.Core.List.{map}
use pa6t_eth.Base.{
  ℕ, zero, suc, ◌+◌, ◌*◌, ◌<◌, ◌≡◌, ◌∙◌, refl, ap, Bool, true, Bool-cases, inl, inr, is_set, arith,
  update, ==_refl, ==_ne, dichotomy,
}
use pa6t_eth.Machine.{World, when, modify_unit, ◌>>=◌, ◌>>◌}
use pa6t_eth.Machine.Structs.{
  EthUnit, num_rx_bufs, rx_buf_size, rx_ring_size, tx_ring_size, rx_buf_ring_size,
}
use pa6t_eth.Rx.Post.{to_ram_done}
use pa6t_eth.Hw.Tx.{from_ram_done}
use pa6t_eth.Machine.Triples.{Takes, Keeps, Takes-bind}
use pa6t_eth.Machine.OnUnit.{OnUnit, on_unit_rules}
use pa6t_eth.Machine.Calls.{DmaFlags}
use pa6t_eth.Machine.Plain.{MemSafe, Kept, kept, opener_at, mem_rules}
use pa6t_eth.Memory.Cleanup.{disable_mac-mem, stop_channels-mem}
use pa6t_eth.Hw.Cleanup.{
  disable_mac, stop_channels, release_mapped, free_rx_buf, free_rx_bufs, free_rx_buf_ring,
  free_rx_ring, free_tx_ring, hw_cleanup,
}
use pa6t_eth.Memory.{is_at, held, stored, wrappers, listed, zero_is_at}

-- What the cleanup does not look at is as before, and the first `k` receive buffers are gone.
record Out (p : Kept) (k : ℕ) (u : EthUnit) : Type 0 where
  same_ipv4 : u.read_list_ipv4 ≡ p.read_list_ipv4
  same_arp : u.read_list_arp ≡ p.read_list_arp
  same_other : u.read_list_other ≡ p.read_list_other
  pending : u.tx_buf_pending ≡ p.tx_buf_pending
  same_openers : map opener_at u.opener_list ≡ p.openers
  gone : (i : ℕ) → i < k → u.rx_bufs i ≡ 0

-- The same with one, two and all three of the rings gone.
abbrev Out1 : Kept → EthUnit → Type 0
Out1 p u = Out p 512 u × (u.rx_buf_ring ≡ 0)

abbrev Out2 : Kept → EthUnit → Type 0
Out2 p u = Out1 p u × (u.rx_ring ≡ 0)

abbrev Out3 : Kept → EthUnit → Type 0
Out3 p u = Out2 p u × (u.tx_ring ≡ 0)

-- Whether there was a block to release or not, an assertion that holds after it is forgotten, and
-- where there is none, holds in the end.
release_then :
    {Q : EthUnit → Type 0} (p entries size : ℕ) (flags : DmaFlags) (f : EthUnit → EthUnit)
    (w : World)
    → Q (f w.unit)
    → (p ≡ 0 → Q w.unit)
    → OnUnit Q (when (is_set p) (release_mapped p entries size flags >>= λ _. modify_unit f) w).1
unfolding release_mapped ◌>>=◌
release_then p entries size flags f w q n = elim (Bool-cases (is_set p)) [
  | inl k ↦ elim (Bool-cases (is_set entries)) [
    | inl x ↦ rw (k, x) (record { holds = q })
    | inr x ↦ rw (k, x) (record { holds = q })
  ]
  | inr k ↦ rw k (record { holds = n (ground arith) })
]

gone_next :
    (k : ℕ) (f : ℕ → ℕ) → ((i : ℕ) → i < k → f i ≡ 0) → (i : ℕ) → i < suc k → update f k 0 i ≡ 0
gone_next k f g i b = elim (dichotomy i k (omega arith)) [
  | inl l ↦ rw (==_ne k i (λ e. omega (arith, e))) (g i l)
  | inr e ↦ rw (e, ==_refl k) refl
]

gone_too :
    (k : ℕ) (f : ℕ → ℕ) → ((i : ℕ) → i < k → f i ≡ 0) → f k ≡ 0 → (i : ℕ) → i < suc k → f i ≡ 0
gone_too k f g z i b = elim (dichotomy i k (omega arith)) [ inl l ↦ g i l | inr e ↦ rw e z ]

-- The rings are not among the fields that it is about.
rings_aside :
    {p : Kept} {k x y z : ℕ} {u : EthUnit}
    → Out p k u
    → Out p k (record u { rx_buf_ring = x; rx_ring = y; tx_ring = z })
rings_aside o = record {
  same_ipv4 = o.same_ipv4;
  same_arp = o.same_arp;
  same_other = o.same_other;
  pending = o.pending;
  same_openers = o.same_openers;
  gone = o.gone;
}

module _ {p : Kept} where
  free_rx_buf-Out : (k : ℕ) → Takes (OnUnit (Out p k)) (OnUnit (Out p (suc k))) (free_rx_buf k)
  unfolding free_rx_buf ◌>>=◌
  free_rx_buf-Out k = record {
    at = λ w h.
        let o = h.holds in
        let f : EthUnit → EthUnit = λ u. record u { rx_bufs = update u.rx_bufs k 0 } in
        release_then (w.unit.rx_bufs k) (w.unit.rx_bufs_dma_entries k) rx_buf_size to_ram_done f w
          (record {
            same_ipv4 = o.same_ipv4;
            same_arp = o.same_arp;
            same_other = o.same_other;
            pending = o.pending;
            same_openers = o.same_openers;
            gone = gone_next k w.unit.rx_bufs o.gone;
          })
          (λ z. record {
            same_ipv4 = o.same_ipv4;
            same_arp = o.same_arp;
            same_other = o.same_other;
            pending = o.pending;
            same_openers = o.same_openers;
            gone = gone_too k w.unit.rx_bufs o.gone z;
          });
  }

  free_rx_bufs-Out : (k : ℕ) → Takes (OnUnit (Out p 0)) (OnUnit (Out p k)) (free_rx_bufs k)
  unfolding free_rx_bufs
  free_rx_bufs-Out zero = search on_unit_rules depth 20 fits 4000
  free_rx_bufs-Out (suc k) = Takes-bind _ _ (free_rx_bufs-Out k) (λ _. free_rx_buf-Out k)

  free_rx_buf_ring-Out : Takes (OnUnit (Out p 512)) (OnUnit (Out1 p)) free_rx_buf_ring
  unfolding free_rx_buf_ring ◌>>=◌
  free_rx_buf_ring-Out = record {
    at = λ w h.
        let f : EthUnit → EthUnit = λ u. record u { rx_buf_ring = 0 } in
        release_then w.unit.rx_buf_ring w.unit.rx_buf_ring_dma_entries (rx_buf_ring_size * 8)
          to_ram_done f w (rings_aside h.holds, refl) (λ z. (h.holds, z));
  }

  free_rx_ring-Out : Takes (OnUnit (Out1 p)) (OnUnit (Out2 p)) free_rx_ring
  unfolding free_rx_ring ◌>>=◌
  free_rx_ring-Out = record {
    at = λ w h.
        let f : EthUnit → EthUnit = λ u. record u { rx_ring = 0 } in
        release_then w.unit.rx_ring w.unit.rx_ring_dma_entries (rx_ring_size * 8) to_ram_done f w
          ((rings_aside h.holds.0, h.holds.1), refl) (λ z. (h.holds, z));
  }

  free_tx_ring-Out : Takes (OnUnit (Out2 p)) (OnUnit (Out3 p)) free_tx_ring
  unfolding free_tx_ring ◌>>=◌
  free_tx_ring-Out = record {
    at = λ w h.
        let f : EthUnit → EthUnit = λ u. record u { tx_ring = 0 } in
        release_then w.unit.tx_ring w.unit.tx_ring_dma_entries (tx_ring_size * 8) from_ram_done f w
          (((rings_aside h.holds.0.0, h.holds.0.1), h.holds.1), refl) (λ z. (h.holds, z));
  }

instance Out-MemSafe : {p : Kept} {k : ℕ} → MemSafe (OnUnit (Out p k))
Out-MemSafe {p} {k} = record {
  on_rest = λ w v e k t h. record { holds = other_unit w.unit v.unit e h.holds };
  on_call = λ c x w v m e k t h. record { holds = other_unit w.unit v.unit e h.holds };
}
  where
    other_unit : (u v : EthUnit) → kept v ≡ kept u → Out p k u → Out p k v
    other_unit u v e o = record {
      same_ipv4 = ap (λ x. x.read_list_ipv4) e ∙ o.same_ipv4;
      same_arp = ap (λ x. x.read_list_arp) e ∙ o.same_arp;
      same_other = ap (λ x. x.read_list_other) e ∙ o.same_other;
      pending = ap (λ x. x.tx_buf_pending) e ∙ o.pending;
      same_openers = ap (λ x. x.openers) e ∙ o.same_openers;
      gone = λ i b. ap (λ x. x.rx_bufs i) e ∙ o.gone i b;
    }

-- The part of the cleanup that is done for a unit.
all_out :
    {p : Kept}
    → Takes
        (OnUnit (Out p 0))
        (OnUnit (Out3 p))
        (do free_rx_bufs num_rx_bufs; free_rx_buf_ring; free_rx_ring; free_tx_ring)
all_out = Takes-bind _ _ (free_rx_bufs-Out num_rx_bufs) (λ _.
    Takes-bind _ _ free_rx_buf_ring-Out
      (λ _. Takes-bind _ _ free_rx_ring-Out (λ _. free_tx_ring-Out)))

stops-Out :
    {p : Kept} (a b : Bool)
    → Keeps (OnUnit (Out p 0)) (when a disable_mac >>= λ _. when b stop_channels)
stops-Out a b = search (mem_rules, disable_mac-mem, stop_channels-mem) depth 20 fits 4000

hw_cleanup-Out3 :
    {p : Kept} (w : World)
    → is_set w.base.unit ≡ true
    → Out p 0 w.unit
    → Out3 p (hw_cleanup w).1.unit
unfolding hw_cleanup ◌>>=◌
hw_cleanup-Out3 w e o =
    let stopped =
      (stops-Out (is_set w.base.mac_dev) (is_set w.base.dma_dev)).at w (record { holds = o }) in
    rw e (all_out.at _ stopped).holds

pub stored_gone : (a n : ℕ) (f : ℕ → ℕ) → 0 < a → ((i : ℕ) → i < n → f i ≡ 0) → stored a n f ≡ 0
unfolding stored
stored_gone a zero f l g = refl
stored_gone a (suc n) f l g =
    let here = ap (λ x. is_at x a) (g n (omega arith)) in
    let below = stored_gone a n f l (λ i b. g i (omega arith)) in
    omega (arith, here, below, zero_is_at a l)

-- What PA6TEth_HWCleanup does not free: the wrappers of the reads that wait, the transmit buffer
-- that is pending, and the openers.
abbrev pub leftover : ℕ → EthUnit → ℕ
leftover a u =
    wrappers a u.read_list_ipv4
    + wrappers a u.read_list_arp
    + wrappers a u.read_list_other
    + is_at u.tx_buf_pending a
    + listed a (map opener_at u.opener_list)

held-Out3 : (a : ℕ) (v u : EthUnit) → 0 < a → Out3 (kept v) u → held a u ≡ leftover a v
held-Out3 a v u l (((o, x), y), z) =
    let ring1 = ap (λ q. is_at q a) x in
    let ring2 = ap (λ q. is_at q a) y in
    let ring3 = ap (λ q. is_at q a) z in
    let pend = ap (λ q. is_at q a) o.pending in
    let v4 = ap (wrappers a) o.same_ipv4 in
    let ar = ap (wrappers a) o.same_arp in
    let ot = ap (wrappers a) o.same_other in
    let op = ap (listed a) o.same_openers in
    let bufs = stored_gone a num_rx_bufs u.rx_bufs l o.gone in
    omega (arith, ring1, ring2, ring3, pend, v4, ar, ot, op, bufs, zero_is_at a l)

pub hw_cleanup-held :
    (a : ℕ) (w : World)
    → 0 < a
    → is_set w.base.unit ≡ true
    → held a (hw_cleanup w).1.unit ≡ leftover a w.unit
hw_cleanup-held a w l e = held-Out3 a w.unit _ l (
    hw_cleanup-Out3 w e (record {
      same_ipv4 = refl;
      same_arp = refl;
      same_other = refl;
      pending = refl;
      same_openers = refl;
      gone = λ i b. absurd (omega arith);
    }))
