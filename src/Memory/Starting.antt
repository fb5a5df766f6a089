-- ===== src/Memory/Starting.antt =====
-- PA6TEth_HWInit of src/hw/hw_init.c: the rings that are allocated are in the unit afterwards, or
-- freed.
use pa6t_eth.Base.{ℕ, zero, suc, ◌+◌, ◌<◌, ◌≡◌, ◌∙◌, refl, ap, Bool, arith, is_set, if◌then◌else◌}
use pa6t_eth.Machine.{World, M, call, modify_unit, ◌>>=◌, ◌>>◌}
use pa6t_eth.Machine.Triples.{Takes, Takes-before, Takes-if}
use pa6t_eth.Machine.Plain.{MemSafe, Kept, kept, mem_rules, mem-modify_unit}
use pa6t_eth.Machine.Structs.{EthUnit}
use pa6t_eth.Machine.Calls.{DmaFlags, alloc_vec}
use pa6t_eth.Hw.Init.{
  init_fail, configure, alloc_rx_buf_ring, alloc_rx_ring, alloc_tx_ring, check_channels, hw_init,
}
use pa6t_eth.Hw.Channels.{get_phys}
use pa6t_eth.Memory.{Holds, Holds-MemSafe, is_at, held, allocs, frees, zero_is_at}
use pa6t_eth.Memory.Cleanup.{hw_cleanup-Holds}
use pa6t_eth.Memory.Configuring.{
  configure-mem, get_phys-mem, read_mac_addr-mem, check_mac_addr-mem, find_dma_interface_of_mac-mem,
}

-- The rings, in the order in which HWInit allocates them, the last one first.
abbrev pub ring : ℕ → Kept → ℕ
ring zero k = k.rx_buf_ring
ring (suc zero) k = k.rx_ring
ring (suc (suc i)) k = k.tx_ring

-- The account, where the last `n` rings are not allocated yet.
pub record Bare (a s b n : ℕ) (w : World) : Type 0 where
  pub holds : Holds a s b w
  pub bare : (i : ℕ) → i < n → ring i (kept w.unit) ≡ 0

instance pub Bare-MemSafe : {a s b n : ℕ} → MemSafe (Bare a s b n)
Bare-MemSafe = record {
  on_rest = λ w v e k t h. record {
    holds = Holds-MemSafe.on_rest w v e k t h.holds;
    bare = λ i l. ap (ring i) e ∙ h.bare i l;
  };
  on_call = λ c p w v m e k t h. record {
    holds = Holds-MemSafe.on_call c p w v m e k t h.holds;
    bare = λ i l. ap (ring i) e ∙ h.bare i l;
  };
}

-- The stores of the first two rings leave the ones that come after.
rx_others :
    (p : ℕ) (u : EthUnit) (j : ℕ)
    → j < 1
    → ring j (kept (record u { rx_ring = p; rx_desc = λ i. if is_set p then 0 else u.rx_desc i }))
      ≡ ring j (kept u)
rx_others p u zero b = refl
rx_others p u (suc j) b = absurd (omega arith)

tx_others :
    (p : ℕ) (u : EthUnit) (j : ℕ)
    → j < 2
    → ring j (kept (record u { tx_ring = p; tx_desc = λ i. if is_set p then 0 else u.tx_desc i }))
      ≡ ring j (kept u)
tx_others p u zero b = refl
tx_others p u (suc zero) b = refl
tx_others p u (suc (suc j)) b = absurd (omega arith)

-- A ring that is NULL holds no block.
was_null : {a : ℕ} → 0 < a → (p : ℕ) → p ≡ 0 → is_at p a ≡ 0
was_null {a} l p e = ap (λ q. is_at q a) e ∙ zero_is_at a l

module _ {a s : ℕ} (l : 0 < a) where
  init_fail-Holds : {n : ℕ} → Takes (Bare a s 0 n) (Holds a s 0) init_fail
  unfolding init_fail ◌>>=◌
  init_fail-Holds = record { at = λ w h. (hw_cleanup-Holds l).at w h.holds }

  -- A ring is allocated, and stored whether it was or not.
  Bare-alloc :
      {B : Type 0} (n i : ℕ) (store : ℕ → EthUnit → EthUnit) (f : ℕ → M B)
      → ((p : ℕ) (u : EthUnit) → ring i (kept u) ≡ 0 → held a (store p u) ≡ held a u + is_at p a)
      → ((p : ℕ) (u : EthUnit) (j : ℕ) → j < i → ring j (kept (store p u)) ≡ ring j (kept u))
      → ((p : ℕ) → Takes (Bare a s 0 i) (Holds a s 0) (f p))
      → Takes
          (Bare a s 0 (suc i))
          (Holds a s 0)
          (call (alloc_vec n) >>= λ p. modify_unit (store p) >>= λ _. f p)
  unfolding ◌>>=◌ allocs frees
  Bare-alloc n i store f put others k = record {
    at = λ w h.
        let p = w.env w.trace (alloc_vec n) in
        let stored = put p w.unit (h.bare i (omega arith)) in
        (k p).at _ (record {
          holds = record { balance = omega (arith, stored, h.holds.balance) };
          bare = λ j b. others p w.unit j b ∙ h.bare j (omega arith);
        });
  }

  mapped_or :
      (i : ℕ) (p n : ℕ) (flags : DmaFlags) (save : ℕ × ℕ → EthUnit → EthUnit) (next : M Bool)
      → ((x : ℕ × ℕ) (u : EthUnit) → kept (save x u) ≡ kept u)
      → Takes (Bare a s 0 i) (Holds a s 0) next
      → Takes (Bare a s 0 i) (Holds a s 0) (
          if is_set p
          then (do
            phys ← get_phys p n flags
            modify_unit (save phys)
            if is_set phys.0 then next else init_fail)
          else init_fail)
  mapped_or i p n flags save next e k =
      Takes-if (is_set p) _ _
        (Takes-before _ _ (get_phys-mem p n flags) (λ phys.
          Takes-before _ _ (mem-modify_unit (save phys) (e phys))
            (λ _. Takes-if (is_set phys.0) _ _ k init_fail-Holds)))
        init_fail-Holds

  configure-Bare : Takes (Bare a s 0 0) (Holds a s 0) configure
  configure-Bare = record { at = λ w h. (configure-mem {P = Holds a s 0}).at w h.holds }

  alloc_rx_buf_ring-Bare : Takes (Bare a s 0 1) (Holds a s 0) alloc_rx_buf_ring
  unfolding alloc_rx_buf_ring
  alloc_rx_buf_ring-Bare =
      Bare-alloc _ 0 _ _ (λ p u e. omega (arith, was_null l u.rx_buf_ring e))
        (λ p u j b. absurd (omega arith)) (λ p. mapped_or 0 p _ _ _ _ (λ x u. refl) configure-Bare)

  alloc_rx_ring-Bare : Takes (Bare a s 0 2) (Holds a s 0) alloc_rx_ring
  unfolding alloc_rx_ring
  alloc_rx_ring-Bare =
      Bare-alloc _ 1 _ _ (λ p u e. omega (arith, was_null l u.rx_ring e)) rx_others
        (λ p. mapped_or 1 p _ _ _ _ (λ x u. refl) alloc_rx_buf_ring-Bare)

  alloc_tx_ring-Bare : Takes (Bare a s 0 3) (Holds a s 0) alloc_tx_ring
  unfolding alloc_tx_ring
  alloc_tx_ring-Bare =
      Bare-alloc _ 2 _ _ (λ p u e. omega (arith, was_null l u.tx_ring e)) tx_others
        (λ p. mapped_or 2 p _ _ _ _ (λ x u. refl) alloc_rx_ring-Bare)

  check_channels-Bare : Takes (Bare a s 0 3) (Holds a s 0) check_channels
  unfolding check_channels
  check_channels-Bare =
      search (Takes-before, mem_rules, alloc_tx_ring-Bare, init_fail-Holds) depth 24 fits 4000

  pub hw_init-Holds : Takes (Bare a s 0 3) (Holds a s 0) hw_init
  unfolding hw_init
  hw_init-Holds =
      search
        (
          Takes-before, mem_rules, check_channels-Bare, init_fail-Holds,
          find_dma_interface_of_mac-mem, read_mac_addr-mem, check_mac_addr-mem,
        )
        depth 24 fits 4000
