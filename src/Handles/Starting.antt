-- ===== src/Handles/Starting.antt =====
-- _manager_Init of src/Init.c and PA6TEth_FindDevices of src/hw/pci.c: what becomes of the libraries,
-- interfaces and PCI devices that they take.
use pa6t_eth.Base.{ℕ, ◌<◌, ◌≡◌, refl, sym, Bool, true, arith, is_set}
use mathlib.Core.Bool.{false≢true}
use pa6t_eth.Machine.{World, pure, ◌>>=◌}
use pa6t_eth.Machine.Calls.{utility_library, expansion_library}
use pa6t_eth.Hw.Pci.{find_devices_fail, find_iob, find_dma, find_devices}
use pa6t_eth.Device.Start.{
  start_fail, start_hardware, start_unit, start_utility, start_devices, init,
}
use pa6t_eth.Handles.{
  Kind, library, interface, pci_device, takes, returns, BaseHandles, handles, among,
}
use pa6t_eth.Handles.Giving.{drop, close, free, from_iob-among}
use pa6t_eth.Handles.Held.{Held, held_rules}
use pa6t_eth.Handles.Configuring.{hw_init-Held, install_irq-Held}
use pa6t_eth.Handles.Acquiring.{
  Ends, Settled, Ends-bind, Ends-if, Ends-acquire, Held-even, opens, gets, finds,
}
use pa6t_eth.Handles.Releasing.{no_handles, find_devices_fail-Held, start_fail-Held}

abbrev with_devices : ℕ → ℕ → ℕ → ℕ → ℕ → BaseHandles
with_devices e i p q s = record {
  expansion_base = e;
  utility_base = 0;
  ipci = i;
  iutility = 0;
  mac_dev = p;
  dma_dev = q;
  iob_dev = s;
}

none-among : (k : Kind) (h : ℕ) → 0 < h → among k h no_handles ≡ 0
none-among library h l = ground arith
none-among interface h l = ground arith
none-among pci_device h l = ground arith

-- The account after PA6TEth_FindDevices, whether it found the devices or not.
record Found (k : Kind) (h t r e i : ℕ) (ok : Bool) (w : World) : Type 0 where
  mac : ℕ
  dma : ℕ
  iob : ℕ
  held : Held k h t r (with_devices e i mac dma iob) w

module _ {k : Kind} {h t r : ℕ} (l : 0 < h) where
  pure-Ends : {b : BaseHandles} → Ends k h t r (Settled k h t r) b (pure true)
  unfolding ◌>>=◌
  pure-Ends = record {
    at = λ w x. record { even = Held-even w x; forgotten = λ e. absurd (false≢true (sym e)) };
  }

  start_fail-Ends : {b : BaseHandles} → Ends k h t r (Settled k h t r) b start_fail
  start_fail-Ends = record {
    at = λ w x.
        let y = (start_fail-Held l).at w x in
        record { even = Held-even _ y; forgotten = λ _. y.same_base };
  }

  start_hardware-Ends : {b : BaseHandles} → Ends k h t r (Settled k h t r) b start_hardware
  unfolding start_hardware
  start_hardware-Ends =
      search
        (
          held_rules,
          Ends-bind,
          Ends-if,
          pure-Ends,
          start_fail-Ends,
          hw_init-Held l,
          install_irq-Held,
        )
        depth 24 fits 4000

  start_unit-Ends : {b : BaseHandles} → Ends k h t r (Settled k h t r) b start_unit
  unfolding start_unit
  start_unit-Ends =
      search (held_rules, Ends-bind, Ends-if, start_fail-Ends, start_hardware-Ends) depth 24 fits
        4000

  start_utility-Ends :
      {e i p q s : ℕ} → Ends k h t r (Settled k h t r) (with_devices e i p q s) start_utility
  unfolding start_utility
  start_utility-Ends =
      Ends-acquire l (opens utility_library) close (λ p b. record b { utility_base = p })
        (λ p b. record b { utility_base = p }) (λ p. omega arith) (λ p a. refl)
        (λ lib.
          Ends-if (is_set lib) _ _
            (Ends-acquire l (gets lib) drop (λ p b. record b { iutility = p })
              (λ p b. record b { iutility = p }) (λ p. omega arith) (λ p a. refl)
              (λ p. Ends-if (is_set p) _ _ start_unit-Ends start_fail-Ends))
            start_fail-Ends)

  with_devices-Ends :
      {e i p q s : ℕ} → Ends k h t r (Found k h t r e i) (with_devices e i p q s) (pure true)
  unfolding ◌>>=◌
  with_devices-Ends = record { at = λ w x. record { mac = _; dma = _; iob = _; held = x } }

  find_devices_fail-Ends :
      {e i p q s : ℕ} → Ends k h t r (Found k h t r e i) (with_devices e i p q s) find_devices_fail
  find_devices_fail-Ends {s = s} = record {
    at = λ w x. record { mac = 0; dma = 0; iob = s; held = (find_devices_fail-Held l).at w x };
  }

  find_iob-Ends : {e i p q : ℕ} → Ends k h t r (Found k h t r e i) (with_devices e i p q 0) find_iob
  unfolding find_iob
  find_iob-Ends =
      Ends-acquire l (finds _ _) free (λ p b. record b { iob_dev = p })
        (λ p b. record b { iob_dev = p }) (λ p. omega arith) (λ p a. refl)
        (λ d.
          search (held_rules, Ends-bind, Ends-if, with_devices-Ends, find_devices_fail-Ends) depth
            20 fits 4000)

  find_dma-Ends : {e i p : ℕ} → Ends k h t r (Found k h t r e i) (with_devices e i p 0 0) find_dma
  unfolding find_dma
  find_dma-Ends =
      Ends-acquire l (finds _ _) free (λ p b. record b { dma_dev = p })
        (λ p b. record b { dma_dev = p }) (λ p. omega arith) (λ p a. refl)
        (λ d. Ends-if (is_set d) _ _ find_iob-Ends find_devices_fail-Ends)

  find_devices-Ends :
      {e i : ℕ} → Ends k h t r (Found k h t r e i) (with_devices e i 0 0 0) find_devices
  unfolding find_devices
  find_devices-Ends =
      Ends-acquire l (finds _ _) free (λ p b. record b { mac_dev = p })
        (λ p b. record b { mac_dev = p }) (λ p. omega arith) (λ p a. refl)
        (λ d. Ends-if (is_set d) _ _ find_dma-Ends find_devices_fail-Ends)

  start_devices-Ends :
      {e i : ℕ} → Ends k h t r (Settled k h t r) (with_devices e i 0 0 0) start_devices
  unfolding start_devices ◌>>=◌
  start_devices-Ends = record {
    at = λ w x.
        let found = find_devices-Ends.at w x in
        (Ends-if (find_devices w).0 _ _ start_utility-Ends start_fail-Ends).at _ found.held;
  }

  init-Ends : (seglist : ℕ) → Ends k h t r (Settled k h t r) no_handles (init seglist)
  unfolding init
  init-Ends seglist = Ends-bind _ _ (search held_rules depth 20 fits 4000) (λ _.
      Ends-bind _ _ (search held_rules depth 20 fits 4000) (λ _.
        Ends-acquire l (opens expansion_library) close (λ p b. record b { expansion_base = p })
          (λ p b. record b { expansion_base = p }) (λ p. omega arith) (λ p a. refl)
          (λ lib.
            Ends-if (is_set lib) _ _
              (Ends-acquire l (gets lib) drop (λ p b. record b { ipci = p })
                (λ p b. record b { ipci = p }) (λ p. omega arith) (λ p a. refl)
                (λ p. Ends-if (is_set p) _ _ start_devices-Ends start_fail-Ends))
              start_fail-Ends)))

-- Init from a base without handles, whether it fails or not: each library, interface or PCI device,
-- by its address, has since been taken as often as it was given back or is in the base, and the base
-- has none if Init failed.
pub init-Settled :
    (k : Kind) (h seglist : ℕ) (w : World)
    → 0 < h
    → handles w.base ≡ no_handles
    → Settled k h (takes k h w.trace) (returns k h w.trace) (init seglist w).0 (init seglist w).1
init-Settled k h seglist w l e =
    let held : Held k h (takes k h w.trace) (returns k h w.trace) no_handles w = record {
      even = omega (arith, from_iob-among k h no_handles, none-among k h l);
      same_base = e;
    } in
    (init-Ends l seglist).at w held
