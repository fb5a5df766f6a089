-- ===== src/Memory/Device.antt =====
-- Init of src/Init.c: the unit and its rings are there afterwards, or freed.
use pa6t_eth.Base.{ℕ, zero, suc, ◌<◌, ◌≡◌, ◌∙◌, ap, refl, arith, is_set, Bool-cases, inl, inr}
use pa6t_eth.Machine.{World, ◌>>=◌}
use pa6t_eth.Machine.Triples.{Takes, Keeps, Takes-before, Takes-after}
use pa6t_eth.Machine.Plain.{MemSafe, kept, mem_rules}
use pa6t_eth.Machine.Structs.{num_rx_bufs}
use pa6t_eth.Machine.Calls.{alloc_vec}
use pa6t_eth.Hw.Pci.{find_devices_fail, find_iob, find_dma, find_devices}
use pa6t_eth.Hw.Irq.{install_irq}
use pa6t_eth.Device.Start.{
  release_libraries, release_pci, start_fail, new_unit, start_hardware, start_unit, start_utility,
  start_devices, init,
}
use pa6t_eth.Memory.{
  Holds, Holds-MemSafe, is_at, held, kept_at, wrappers, listed, allocs, frees, zero_is_at,
  null_is_at,
}
use pa6t_eth.Memory.Closing.{release_unit-Holds, release_iob-mem, release_dma-mem, release_mac-mem}
use pa6t_eth.Memory.Emptied.{stored_gone}
use pa6t_eth.Memory.Starting.{Bare, Bare-MemSafe, ring, hw_init-Holds}

module _ {P : World → Type 0} ⦃s : MemSafe P⦄ where
  find_devices_fail-mem : Keeps P find_devices_fail
  unfolding find_devices_fail
  find_devices_fail-mem = search mem_rules depth 24 fits 4000

  find_iob-mem : Keeps P find_iob
  unfolding find_iob
  find_iob-mem = search (mem_rules, find_devices_fail-mem) depth 24 fits 4000

  find_dma-mem : Keeps P find_dma
  unfolding find_dma
  find_dma-mem = search (mem_rules, find_devices_fail-mem, find_iob-mem) depth 24 fits 4000

  find_devices-mem : Keeps P find_devices
  unfolding find_devices
  find_devices-mem = search (mem_rules, find_devices_fail-mem, find_dma-mem) depth 24 fits 4000

  install_irq-mem : Keeps P install_irq
  unfolding install_irq
  install_irq-mem = search mem_rules depth 24 fits 4000

  pub release_libraries-mem : Keeps P release_libraries
  unfolding release_libraries
  release_libraries-mem = search mem_rules depth 24 fits 4000

  pub release_pci-mem : Keeps P release_pci
  unfolding release_pci
  release_pci-mem = search mem_rules depth 24 fits 4000

-- The account of a base that has no unit yet.
record Fresh (a s b : ℕ) (w : World) : Type 0 where
  holds : Holds a s b w
  no_unit : w.base.unit ≡ 0
  nothing : held a w.unit ≡ 0

instance Fresh-MemSafe : {a s b : ℕ} → MemSafe (Fresh a s b)
Fresh-MemSafe {a} = record {
  on_rest = λ w v e k t h. record {
    holds = Holds-MemSafe.on_rest w v e k t h.holds;
    no_unit = k ∙ h.no_unit;
    nothing = ap (kept_at a) e ∙ h.nothing;
  };
  on_call = λ c p w v m e k t h. record {
    holds = Holds-MemSafe.on_call c p w v m e k t h.holds;
    no_unit = k ∙ h.no_unit;
    nothing = ap (kept_at a) e ∙ h.nothing;
  };
}

held-new_unit : (a : ℕ) → 0 < a → held a new_unit ≡ 0
unfolding new_unit wrappers listed
held-new_unit a l =
    omega (arith, zero_is_at a l, stored_gone a num_rx_bufs (λ i. 0) l (λ i b. refl))

new_unit-bare : (i : ℕ) → i < 3 → ring i (kept new_unit) ≡ 0
unfolding new_unit
new_unit-bare zero b = refl
new_unit-bare (suc zero) b = refl
new_unit-bare (suc (suc i)) b = refl

module _ {a s : ℕ} (l : 0 < a) where
  start_fail-Holds : Keeps (Holds a s 0) start_fail
  unfolding start_fail
  start_fail-Holds =
      search
        (
          mem_rules, release_unit-Holds, release_libraries-mem, release_iob-mem, release_dma-mem,
          release_mac-mem, release_pci-mem,
        )
        depth 24 fits 4000

  fresh_fail-Holds : Takes (Fresh a s 0) (Holds a s 0) start_fail
  fresh_fail-Holds = record { at = λ w h. start_fail-Holds.at w h.holds }

  pub start_hardware-Holds : Takes (Bare a s 0 3) (Holds a s 0) start_hardware
  unfolding start_hardware
  start_hardware-Holds =
      Takes-after _ _ (hw_init-Holds l)
        (λ ready. search (mem_rules, install_irq-mem, start_fail-Holds) depth 24 fits 4000)

  -- The unit that was allocated is the base's, and a new one has no rings.
  start_unit-Holds : Takes (Fresh a s 0) (Holds a s 0) start_unit
  unfolding start_unit ◌>>=◌ allocs frees new_unit
  start_unit-Holds = record {
    at = λ w h.
        let p = w.env w.trace (alloc_vec w.sdk.sizeof_unit) in
        let none_before = ap (λ q. is_at q a) h.no_unit in
        elim (Bool-cases (is_set p)) [
          | inl e ↦ rw e (
              start_hardware-Holds.at _ (record {
                holds = record {
                  balance = omega (
                    arith,
                    h.holds.balance,
                    h.nothing,
                    none_before,
                    zero_is_at a l,
                    held-new_unit a l,
                  );
                };
                bare = new_unit-bare;
              }))
          | inr e ↦ rw e (
              start_fail-Holds.at _
                (record { balance = omega (arith, h.holds.balance, null_is_at p a l e) }))
        ];
  }

  start_utility-Holds : Takes (Fresh a s 0) (Holds a s 0) start_utility
  unfolding start_utility
  start_utility-Holds =
      search (Takes-before, mem_rules, start_unit-Holds, fresh_fail-Holds) depth 24 fits 4000

  start_devices-Holds : Takes (Fresh a s 0) (Holds a s 0) start_devices
  unfolding start_devices
  start_devices-Holds =
      search (Takes-before, mem_rules, find_devices-mem, start_utility-Holds, fresh_fail-Holds)
        depth 24 fits 4000

  init-Fresh : (seglist : ℕ) → Takes (Fresh a s 0) (Holds a s 0) (init seglist)
  unfolding init
  init-Fresh seglist =
      search (Takes-before, mem_rules, start_devices-Holds, fresh_fail-Holds) depth 24 fits 4000

  -- From a base without a unit, whose structure holds no memory yet.
  pub init-Holds :
      (seglist : ℕ) (w : World)
      → w.base.unit ≡ 0
      → held a w.unit ≡ 0
      → Holds a s 0 w
      → Holds a s 0 (init seglist w).1
  init-Holds seglist w u n h =
      (init-Fresh seglist).at w (record { holds = h; no_unit = u; nothing = n })
