-- ===== src/Handles/Expunging.antt =====
-- _manager_Expunge of src/Expunge.c: what it gives back of the libraries, interfaces and PCI devices.
use pa6t_eth.Base.{ℕ, ◌+◌, ◌<◌, ◌≡◌, refl, ap, true, arith, is_set, Bool-cases, inl, inr, ◌==◌}
use pa6t_eth.Machine.{World, call_, modify_base, when, ◌>>=◌, ◌>>◌}
use pa6t_eth.Machine.Structs.{EthBase}
use pa6t_eth.Machine.Calls.{Call, remove_node, delete_library, drop_interface, close_library}
use pa6t_eth.Machine.Triples.{Keeps}
use pa6t_eth.Hw.Irq.{remove_irq}
use pa6t_eth.Hw.Stopped.{hw_cleanup-quiet}
use pa6t_eth.Hw.Cleanup.{hw_cleanup}
use pa6t_eth.Device.Start.{release_unit, release_iob, release_dma, release_mac}
use pa6t_eth.Device.Close.{drop_libraries, expunge}
use pa6t_eth.Handles.{
  Kind, takes, returns, given_back, BaseHandles, handles, among, Has, Has-QuietSafe, has_rules,
}
use pa6t_eth.Handles.Giving.{
  IsGiving, drop, close, free, giving-taken, giving-null, after_iutility, after_utility, after_pci,
  from_libraries, from_mac, from_dma, from_iob, from_iob-among,
}

module _ {k : Kind} {h t r : ℕ} {b : BaseHandles} where
  remove_irq-Has : Keeps (Has k h t r b) remove_irq
  unfolding remove_irq
  remove_irq-Has = search has_rules depth 24 fits 4000

  release_unit-Has : Keeps (Has k h t r b) release_unit
  unfolding release_unit
  release_unit-Has = search has_rules depth 24 fits 4000

  stopping-Has : Keeps (Has k h t r b) (do call_ remove_node; remove_irq; hw_cleanup; release_unit)
  stopping-Has =
      search (has_rules, remove_irq-Has, hw_cleanup-quiet, release_unit-Has) depth 24 fits 4000

-- The handle was taken `t` times; what was given back of it and what is `left` to give are `n`.
record Left (k : Kind) (h t n : ℕ) (left : EthBase → ℕ) (w : World) : Type 0 where
  all_taken : takes k h w.trace ≡ t
  balance : returns k h w.trace + left w.base ≡ n

-- One step gives back the handle `p`, if it is there.
module _ {k : Kind} {h t n : ℕ} {c : ℕ → Call} (g : IsGiving c) (l : 0 < h) where
  forget :
      {left : EthBase → ℕ} (m : EthBase → ℕ) (f : EthBase → EthBase) (w : World) (p : ℕ)
      → given_back k h (c p) + m w.base ≡ left w.base
      → m (f w.base) ≡ m w.base
      → Left k h t n left w
      → Left k h t n m (when (is_set p) (call_ (c p) >>= λ _. modify_base f) w).1
  unfolding ◌>>=◌ takes returns
  forget m f w p e d x = elim (Bool-cases (is_set p)) [
    | inl s ↦ rw s (record {
      all_taken = omega (arith, x.all_taken, giving-taken g k h p (w.env w.trace (c p)));
      balance = omega (arith, x.balance, e, d);
    })
    | inr s ↦ rw s (record {
      all_taken = x.all_taken;
      balance = omega (arith, x.balance, e, giving-null g k h p l s);
    })
  ]

  give :
      {left : EthBase → ℕ} (m : ℕ) (w : World) (p : ℕ)
      → given_back k h (c p) + m ≡ left w.base
      → Left k h t n left w
      → Left k h t n (λ _. m) (when (is_set p) (call_ (c p)) w).1
  unfolding ◌>>=◌ takes returns
  give m w p e x = elim (Bool-cases (is_set p)) [
    | inl s ↦ rw s (record {
      all_taken = omega (arith, x.all_taken, giving-taken g k h p (w.env w.trace (c p)));
      balance = omega (arith, x.balance, e);
    })
    | inr s ↦ rw s (record {
      all_taken = x.all_taken;
      balance = omega (arith, x.balance, e, giving-null g k h p l s);
    })
  ]

module _ {k : Kind} {h t n : ℕ} (l : 0 < h) (w : World) where
  release_iob-Left :
      Left k h t n (λ b. from_iob k h (handles b)) w
      → Left k h t n (λ b. from_dma k h (handles b)) (release_iob w).1
  unfolding release_iob ◌>>=◌
  release_iob-Left =
      forget free l (λ b. from_dma k h (handles b)) (λ b. record b { iob_dev = 0 }) w w.base.iob_dev
        refl refl

  release_dma-Left :
      Left k h t n (λ b. from_dma k h (handles b)) w
      → Left k h t n (λ b. from_mac k h (handles b)) (release_dma w).1
  unfolding release_dma ◌>>=◌
  release_dma-Left =
      forget free l (λ b. from_mac k h (handles b)) (λ b. record b { dma_dev = 0 }) w w.base.dma_dev
        refl refl

  release_mac-Left :
      Left k h t n (λ b. from_mac k h (handles b)) w
      → Left k h t n (λ b. from_libraries k h (handles b)) (release_mac w).1
  unfolding release_mac ◌>>=◌
  release_mac-Left =
      forget free l (λ b. from_libraries k h (handles b)) (λ b. record b { mac_dev = 0 }) w
        w.base.mac_dev refl refl

  -- Each of the four steps reads the base as it was at the first.
  drop_libraries-Left :
      Left k h t n (λ b. from_libraries k h (handles b)) w
      → Left k h t n (λ _. 0) (drop_libraries w).1
  unfolding drop_libraries ◌>>=◌
  drop_libraries-Left x =
      let b = w.base in
      let v1 = (when (is_set b.iutility) (call_ (drop_interface b.iutility)) w).1 in
      let v2 = (when (is_set b.utility_base) (call_ (close_library b.utility_base)) v1).1 in
      let v3 = (when (is_set b.ipci) (call_ (drop_interface b.ipci)) v2).1 in
      let one = give drop l (after_iutility k h (handles b)) w b.iutility refl x in
      let two = give close l (after_utility k h (handles b)) v1 b.utility_base refl one in
      let three = give drop l (after_pci k h (handles b)) v2 b.ipci refl two in
      give close l 0 v3 b.expansion_base (omega arith) three

delete_library-Has :
    {k : Kind} {h t r : ℕ} {b : BaseHandles} → Keeps (Has k h t r b) (call_ delete_library)
delete_library-Has = search has_rules depth 20 fits 4000

Left-start :
    {k : Kind} {h t r : ℕ} {b : BaseHandles} {w : World}
    → Has k h t r b w
    → Left k h t (r + among k h b) (λ b. from_iob k h (handles b)) w
Left-start {k = k} {h = h} {w = w} x = record {
  all_taken = x.all_taken;
  balance =
      omega (arith, x.all_back, from_iob-among k h (handles w.base), ap (among k h) x.same_base);
}

-- From `w` to `v` the handle was not taken, and was given back as often as the base of `w` has it.
pub record GaveBack (k : Kind) (h : ℕ) (w v : World) : Type 0 where
  pub all_taken : takes k h v.trace ≡ takes k h w.trace
  pub all_back : returns k h v.trace ≡ returns k h w.trace + among k h (handles w.base)

-- Expunge with no openers of the device: each library, interface or PCI device, by its address, is
-- not taken any more, and is given back as often as the base has it.
pub expunge-GaveBack :
    (k : Kind) (h : ℕ) (w : World) → 0 < h → w.base.lib_open_cnt ≡ 0 → GaveBack k h w (expunge w).1
unfolding expunge ◌>>=◌
expunge-GaveBack k h w l e =
    let closed : (w.base.lib_open_cnt == 0) ≡ true = ground arith in
    let stopped =
      stopping-Has.at w (record { all_taken = refl; all_back = refl; same_base = refl }) in
    let v = ((do call_ remove_node; remove_irq; hw_cleanup; release_unit) w).1 in
    let start = Left-start stopped in
    let v1 = (release_iob v).1 in
    let v2 = (release_dma v1).1 in
    let v3 = (release_mac v2).1 in
    let left =
      drop_libraries-Left l v3
        (release_mac-Left l v2 (release_dma-Left l v1 (release_iob-Left l v start))) in
    let done =
      delete_library-Has.at (drop_libraries v3).1
        (record { all_taken = left.all_taken; all_back = refl; same_base = refl }) in
    rw closed
      (record { all_taken = done.all_taken; all_back = omega (arith, done.all_back, left.balance) })
