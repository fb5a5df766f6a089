-- ===== src/Memory/Expunged.antt =====
-- Expunge of src/Expunge.c: what is left of the memory when the device has gone.
use pa6t_eth.Base.{ℕ, ◌+◌, ◌<◌, ◌≡◌, ◌∙◌, refl, ap, true, arith, is_set, Bool-cases, inl, inr, ◌==◌}
use pa6t_eth.Machine.{World, call_, ◌>>=◌, ◌>>◌}
use pa6t_eth.Machine.Structs.{EthUnit}
use pa6t_eth.Machine.Calls.{remove_node, delete_library}
use pa6t_eth.Machine.Triples.{Keeps}
use pa6t_eth.Machine.Plain.{MemSafe, Kept, kept, mem_rules}
use pa6t_eth.Hw.Irq.{remove_irq}
use pa6t_eth.Hw.Cleanup.{hw_cleanup}
use pa6t_eth.Device.Start.{release_unit, release_iob, release_dma, release_mac}
use pa6t_eth.Device.Close.{drop_libraries, expunge}
use pa6t_eth.Memory.{held, kept_at, is_at, wrappers, listed, zero_is_at}
use pa6t_eth.Memory.Closing.{
  remove_irq-mem, release_iob-mem, release_dma-mem, release_mac-mem, drop_libraries-mem,
}
use pa6t_eth.Memory.Emptied.{leftover, hw_cleanup-held}

-- What the unit has is as in `u`, and the base has the unit `p`.
record Same (u : EthUnit) (p : ℕ) (w : World) : Type 0 where
  units : kept w.unit ≡ kept u
  bases : w.base.unit ≡ p

instance Same-MemSafe : {u : EthUnit} {p : ℕ} → MemSafe (Same u p)
Same-MemSafe = record {
  on_rest = λ w v e k t h. record { units = e ∙ h.units; bases = k ∙ h.bases };
  on_call = λ c x w v m e k t h. record { units = e ∙ h.units; bases = k ∙ h.bases };
}

remove-Same : {u : EthUnit} {p : ℕ} → Keeps (Same u p) (call_ remove_node >>= λ _. remove_irq)
remove-Same = search (mem_rules, remove_irq-mem) depth 20 fits 4000

-- The unit is given back, and the base has none.
release_unit-Same : {u : EthUnit} (w : World) → w.unit ≡ u → Same u 0 (release_unit w).1
unfolding release_unit ◌>>=◌
release_unit-Same w e = elim (Bool-cases (is_set w.base.unit)) [
  | inl b ↦ rw b (record { units = ap kept e; bases = refl })
  | inr b ↦ rw b (record { units = ap kept e; bases = ground arith })
]

releases-Same :
    {u : EthUnit}
    → Keeps
        (Same u 0)
        (do release_iob; release_dma; release_mac; drop_libraries; call_ delete_library)
releases-Same =
    search (mem_rules, release_iob-mem, release_dma-mem, release_mac-mem, drop_libraries-mem) depth
      20 fits 4000

abbrev left_of : ℕ → Kept → ℕ
left_of a k =
    wrappers a k.read_list_ipv4
    + wrappers a k.read_list_arp
    + wrappers a k.read_list_other
    + is_at k.tx_buf_pending a
    + listed a k.openers

pub expunge-held :
    (a : ℕ) (w : World)
    → 0 < a
    → is_set w.base.unit ≡ true
    → w.base.lib_open_cnt ≡ 0
    → held a (expunge w).1.unit + is_at (expunge w).1.base.unit a ≡ leftover a w.unit
unfolding expunge ◌>>=◌
expunge-held a w l b c =
    let removed =
      (remove-Same {u = w.unit} {p = w.base.unit}).at w (record { units = refl; bases = refl }) in
    let v1 = (remove_irq (call_ remove_node w).1).1 in
    let v2 = (hw_cleanup v1).1 in
    let cleaned = hw_cleanup-held a v1 l (ap is_set removed.bases ∙ b) in
    let done = releases-Same.at _ (release_unit-Same v2 refl) in
    let closed : (w.base.lib_open_cnt == 0) ≡ true = ground arith in
    rw closed (
      omega (
        arith,
        cleaned,
        ap (left_of a) removed.units,
        ap (kept_at a) done.units,
        ap (λ p. is_at p a) done.bases,
        zero_is_at a l,
      ))
