-- ===== src/Memory/Leaked.antt =====
-- _manager_Init of src/Init.c when the interrupt handler cannot be installed: the rings that
-- PA6TEth_HWInit has allocated are not freed.
use pa6t_eth.Base.{
  ℕ, zero, suc, ◌+◌, ◌<◌, ◌≡◌, ◌∙◌, refl, ap, true, false, arith, is_set, Bool-cases, inl, inr,
}
use pa6t_eth.Machine.{World, ◌>>=◌, ◌>>◌}
use pa6t_eth.Machine.Structs.{EthUnit}
use pa6t_eth.Machine.Triples.{Keeps}
use pa6t_eth.Machine.OnUnit.{OnUnit, on_unit_rules}
use pa6t_eth.Machine.Plain.{MemSafe, kept, mem_rules}
use pa6t_eth.Hw.Init.{hw_init}
use pa6t_eth.Hw.Irq.{install_irq}
use pa6t_eth.Device.Start.{
  release_unit, release_libraries, release_iob, release_dma, release_mac, release_pci, start_fail,
  start_hardware,
}
use pa6t_eth.Memory.{held, is_at, allocs, frees, zero_is_at}
use pa6t_eth.Memory.Closing.{release_iob-mem, release_dma-mem, release_mac-mem}
use pa6t_eth.Memory.Starting.{ring}
use pa6t_eth.Memory.Account.{IsBalanced}
use pa6t_eth.Memory.Device.{start_hardware-Holds, release_libraries-mem, release_pci-mem}

module _ {P : EthUnit → Type 0} where
  install_irq-OnUnit : Keeps (OnUnit P) install_irq
  unfolding install_irq
  install_irq-OnUnit = search on_unit_rules depth 24 fits 4000

  start_fail-OnUnit : Keeps (OnUnit P) start_fail
  unfolding start_fail release_unit release_libraries release_iob release_dma release_mac
      release_pci
  start_fail-OnUnit = search on_unit_rules depth 40 fits 8000

record NoUnit (w : World) : Type 0 where
  no_unit : w.base.unit ≡ 0

instance NoUnit-MemSafe : MemSafe NoUnit
NoUnit-MemSafe = record {
  on_rest = λ w v e k t h. record { no_unit = k ∙ h.no_unit };
  on_call = λ c p w v m e k t h. record { no_unit = k ∙ h.no_unit };
}

release_unit-NoUnit : (w : World) → NoUnit (release_unit w).1
unfolding release_unit ◌>>=◌
release_unit-NoUnit w = elim (Bool-cases (is_set w.base.unit)) [
  | inl e ↦ rw e (record { no_unit = refl })
  | inr e ↦ rw e (record { no_unit = ground arith })
]

releases-NoUnit :
    Keeps NoUnit (do release_libraries; release_iob; release_dma; release_mac; release_pci)
releases-NoUnit =
    search
      (
        mem_rules, release_libraries-mem, release_iob-mem, release_dma-mem, release_mac-mem,
        release_pci-mem,
      )
      depth 24 fits 4000

start_fail-NoUnit : (w : World) → (start_fail w).1.base.unit ≡ 0
unfolding start_fail ◌>>=◌
start_fail-NoUnit w = (releases-NoUnit.at _ (release_unit-NoUnit w)).no_unit

record IsUnit (u v : EthUnit) : Type 0 where
  is_unit : v ≡ u

-- None of the three rings is allocated.
pub record NoRings (u : EthUnit) : Type 0 where
  pub no_tx_ring : u.tx_ring ≡ 0
  pub no_rx_ring : u.rx_ring ≡ 0
  pub no_rx_buf_ring : u.rx_buf_ring ≡ 0

pub NoRings-bare : (u : EthUnit) → NoRings u → (i : ℕ) → i < 3 → ring i (kept u) ≡ 0
NoRings-bare u n zero b = n.no_rx_buf_ring
NoRings-bare u n (suc zero) b = n.no_rx_ring
NoRings-bare u n (suc (suc i)) b = n.no_tx_ring

-- What Init leaves when PA6TEth_HWInit has succeeded and the interrupt handler cannot be installed,
-- from a unit whose rings are NULL: it fails, and the base has no unit; but what the unit held
-- after HWInit is as before, so that its blocks, the rings among them, have not been freed as often
-- as they were allocated. The address is any but NULL.
pub start_hardware-Leaks :
    (a : ℕ) (w : World)
    → 0 < a
    → IsBalanced a 0 w
    → NoRings w.unit
    → (hw_init w).0 ≡ true
    → (install_irq (hw_init w).1).0 ≡ false
    → ((start_hardware w).0 ≡ false)
      × ((start_hardware w).1.base.unit ≡ 0)
      × (frees a (start_hardware w).1.trace + held a (hw_init w).1.unit
          ≡ allocs a (start_hardware w).1.trace)
unfolding start_hardware start_fail ◌>>=◌
start_hardware-Leaks a w l h n r f =
    let start : World = (hw_init w).1 in
    let irq : World = (install_irq start).1 in
    let kept_irq =
      (install_irq-OnUnit {P = IsUnit start.unit}).at start
        (record { holds = record { is_unit = refl } }) in
    let kept_fail = (start_fail-OnUnit {P = IsUnit start.unit}).at irq kept_irq in
    let gone = start_fail-NoUnit irq in
    let account =
      (start_hardware-Holds {s = 0} l).at w
        (record { holds = record { balance = omega (arith, h) }; bare = NoRings-bare w.unit n }) in
    let balance = rw (r, f) at account.balance in
    rw (r, f)
      (
        refl,
        gone,
        omega (
          arith,
          balance,
          ap (held a) kept_fail.holds.is_unit,
          ap (λ p. is_at p a) gone,
          zero_is_at a l,
        ),
      )
