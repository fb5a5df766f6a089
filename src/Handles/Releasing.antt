-- ===== src/Handles/Releasing.antt =====
-- The account of what the failure paths of src/Init.c and src/hw/pci.c release.
use pa6t_eth.Base.{ℕ, ◌+◌, ◌<◌, ◌≡◌, refl, ap, arith, is_set, Bool-cases, inl, inr, sym}
use mathlib.Core.Path.{subst}
use pa6t_eth.Machine.{World, M, call_, modify_base, get_base, when, ◌>>=◌}
use pa6t_eth.Machine.Structs.{EthBase}
use pa6t_eth.Machine.Calls.{Call, drop_interface, close_library}
use pa6t_eth.Machine.Triples.{Takes, Keeps}
use pa6t_eth.Hw.Pci.{find_devices_fail}
use pa6t_eth.Device.Start.{
  release_unit, release_libraries, release_iob, release_dma, release_mac, release_pci, start_fail,
}
use pa6t_eth.Handles.{Kind, takes, returns, given_back, BaseHandles, handles}
use pa6t_eth.Handles.Giving.{IsGiving, drop, close, free, giving-taken, giving-null, from_iob}
use pa6t_eth.Handles.Held.{Held, held_rules}

abbrev pub no_handles : BaseHandles
no_handles = record {
  expansion_base = 0;
  utility_base = 0;
  ipci = 0;
  iutility = 0;
  mac_dev = 0;
  dma_dev = 0;
  iob_dev = 0;
}

module _ {k : Kind} {h t r : ℕ} (l : 0 < h) where
  -- It is enough to look at the handles that the base has.
  at_base :
      {b : BaseHandles} (g : BaseHandles → BaseHandles) (m : M (Unit {0}))
      → ((w : World) → Held k h t r (handles w.base) w → Held k h t r (g (handles w.base)) (m w).1)
      → Takes (Held k h t r b) (Held k h t r (g b)) m
  at_base g m f = record {
    at = λ w x.
        let y = f w (record {
          even =
              subst (λ a. returns k h w.trace + from_iob k h a + t ≡ takes k h w.trace + r)
                (sym x.same_base) x.even;
          same_base = refl;
        }) in
        subst (λ a. Held k h t r (g a) (m w).1) x.same_base y;
  }

  -- The handle `p` is given back, if it is there.
  forget :
      {c : ℕ → Call} (g : IsGiving c) (p : ℕ) (f : EthBase → EthBase) (w : World)
      {b d : BaseHandles}
      → given_back k h (c p) + from_iob k h d ≡ from_iob k h b + given_back k h (c 0)
      → handles (f w.base) ≡ d
      → (p ≡ 0 → b ≡ d)
      → Held k h t r b w
      → Held k h t r d (when (is_set p) (call_ (c p) >>= λ _. modify_base f) w).1
  unfolding ◌>>=◌ takes returns
  forget {c = c} g p f w {b = b} e d z x = elim (Bool-cases (is_set p)) [
    | inl s ↦ rw s (record {
      even = omega (
        arith,
        x.even,
        e,
        giving-taken g k h p (w.env w.trace (c p)),
        giving-null g k h 0 l refl,
      );
      same_base = d;
    })
    | inr s ↦ rw s (subst (λ a. Held k h t r a w) (z (ground arith)) x)
  ]

  release_iob-Held :
      {b : BaseHandles}
      → Takes (Held k h t r b) (Held k h t r (record b { iob_dev = 0 })) release_iob
  unfolding release_iob ◌>>=◌
  release_iob-Held =
      at_base (λ b. record b { iob_dev = 0 }) release_iob
        (λ w.
          forget free w.base.iob_dev (λ b. record b { iob_dev = 0 }) w (omega arith) refl
            (λ e. ap (λ q. record (handles w.base) { iob_dev = q }) e))

  release_dma-Held :
      {b : BaseHandles}
      → Takes (Held k h t r b) (Held k h t r (record b { dma_dev = 0 })) release_dma
  unfolding release_dma ◌>>=◌
  release_dma-Held =
      at_base (λ b. record b { dma_dev = 0 }) release_dma
        (λ w.
          forget free w.base.dma_dev (λ b. record b { dma_dev = 0 }) w (omega arith) refl
            (λ e. ap (λ q. record (handles w.base) { dma_dev = q }) e))

  release_mac-Held :
      {b : BaseHandles}
      → Takes (Held k h t r b) (Held k h t r (record b { mac_dev = 0 })) release_mac
  unfolding release_mac ◌>>=◌
  release_mac-Held =
      at_base (λ b. record b { mac_dev = 0 }) release_mac
        (λ w.
          forget free w.base.mac_dev (λ b. record b { mac_dev = 0 }) w (omega arith) refl
            (λ e. ap (λ q. record (handles w.base) { mac_dev = q }) e))

  release_libraries-Held :
      {b : BaseHandles}
      → Takes
          (Held k h t r b)
          (Held k h t r (record b { iutility = 0; utility_base = 0 }))
          release_libraries
  unfolding release_libraries ◌>>=◌
  release_libraries-Held = record {
    at = λ w x.
        let first =
          (at_base (λ b. record b { iutility = 0 })
              (get_base >>= λ b. when (is_set b.iutility) (
                call_ (drop_interface b.iutility) >>= λ _.
                modify_base (λ b. record b { iutility = 0 })))
              (λ w.
                forget drop w.base.iutility (λ b. record b { iutility = 0 }) w (omega arith) refl
                  (λ e. ap (λ q. record (handles w.base) { iutility = q }) e))).at
            w x in
        (at_base (λ b. record b { utility_base = 0 })
            (get_base >>= λ b. when (is_set b.utility_base) (
              call_ (close_library b.utility_base) >>= λ _.
              modify_base (λ b. record b { utility_base = 0 })))
            (λ w.
              forget close w.base.utility_base (λ b. record b { utility_base = 0 }) w (omega arith)
                refl (λ e. ap (λ q. record (handles w.base) { utility_base = q }) e))).at
          _ first;
  }

  release_pci-Held :
      {b : BaseHandles}
      → Takes
          (Held k h t r b)
          (Held k h t r (record b { ipci = 0; expansion_base = 0 }))
          release_pci
  unfolding release_pci ◌>>=◌
  release_pci-Held = record {
    at = λ w x.
        let first =
          (at_base (λ b. record b { ipci = 0 })
              (get_base >>= λ b.
                when (is_set b.ipci)
                  (call_ (drop_interface b.ipci) >>= λ _. modify_base (λ b. record b { ipci = 0 })))
              (λ w.
                forget drop w.base.ipci (λ b. record b { ipci = 0 }) w (omega arith) refl
                  (λ e. ap (λ q. record (handles w.base) { ipci = q }) e))).at
            w x in
        (at_base (λ b. record b { expansion_base = 0 })
            (get_base >>= λ b. when (is_set b.expansion_base) (
              call_ (close_library b.expansion_base) >>= λ _.
              modify_base (λ b. record b { expansion_base = 0 })))
            (λ w.
              forget close w.base.expansion_base (λ b. record b { expansion_base = 0 }) w
                (omega arith) refl
                (λ e. ap (λ q. record (handles w.base) { expansion_base = q }) e))).at
          _ first;
  }

  release_unit-Held : {b : BaseHandles} → Keeps (Held k h t r b) release_unit
  unfolding release_unit
  release_unit-Held = search held_rules depth 24 fits 4000

  pub find_devices_fail-Held :
      {b : BaseHandles}
      → Takes
          (Held k h t r b)
          (Held k h t r (record b { dma_dev = 0; mac_dev = 0 }))
          find_devices_fail
  unfolding find_devices_fail release_dma release_mac ◌>>=◌
  find_devices_fail-Held = record {
    at = λ w x. release_mac-Held.at (release_dma w).1 (release_dma-Held.at w x);
  }

  pub start_fail-Held :
      {b : BaseHandles} → Takes (Held k h t r b) (Held k h t r no_handles) start_fail
  unfolding start_fail ◌>>=◌
  start_fail-Held = record {
    at = λ w x.
        let a = release_libraries-Held.at _ (release_unit-Held.at w x) in
        let b = release_mac-Held.at _ (release_dma-Held.at _ (release_iob-Held.at _ a)) in
        release_pci-Held.at _ b;
  }
