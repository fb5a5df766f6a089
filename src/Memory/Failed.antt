-- ===== src/Memory/Failed.antt =====
-- PA6TEth_HWInit of src/hw/hw_init.c when it fails: what is left of the memory.
use mathlib.Core.Bool.{false≢true}
use pa6t_eth.Base.{
  ℕ, ◌+◌, ◌<◌, ◌≡◌, ◌∙◌, refl, sym, ap, Bool, true, false, arith, is_set, if◌then◌else◌,
}
use pa6t_eth.Machine.{World, M, call, modify_unit, ◌>>=◌}
use pa6t_eth.Machine.Triples.{Keeps}
use pa6t_eth.Machine.Plain.{MemSafe, Kept, kept, mem_rules}
use pa6t_eth.Machine.Structs.{EthUnit}
use pa6t_eth.Machine.Calls.{alloc_vec}
use pa6t_eth.Hw.Init.{
  init_fail, configure, alloc_rx_buf_ring, alloc_rx_ring, alloc_tx_ring, check_channels, hw_init,
}
use pa6t_eth.Memory.{is_at, held, allocs, frees, wrappers, listed}
use pa6t_eth.Memory.Account.{IsBalanced}
use pa6t_eth.Memory.Emptied.{leftover, hw_cleanup-held}
use pa6t_eth.Memory.Starting.{hw_init-Holds}
use pa6t_eth.Memory.Leaked.{NoRings, NoRings-bare}
use pa6t_eth.Memory.Configuring.{
  get_phys-mem, read_mac_addr-mem, check_mac_addr-mem, find_dma_interface_of_mac-mem,
}

abbrev left_of : ℕ → Kept → ℕ
left_of a k =
    wrappers a k.read_list_ipv4
    + wrappers a k.read_list_arp
    + wrappers a k.read_list_other
    + is_at k.tx_buf_pending a
    + listed a k.openers

-- The base has its unit, and what HWCleanup does not free of it is `n`.
record Leaves (a n : ℕ) (w : World) : Type 0 where
  left : left_of a (kept w.unit) ≡ n
  has_unit : is_set w.base.unit ≡ true

instance Leaves-MemSafe : {a n : ℕ} → MemSafe (Leaves a n)
Leaves-MemSafe {a} = record {
  on_rest = λ w v e k t h. record {
    left = ap (left_of a) e ∙ h.left;
    has_unit = ap is_set k ∙ h.has_unit;
  };
  on_call = λ c p w v m e k t h. record {
    left = ap (left_of a) e ∙ h.left;
    has_unit = ap is_set k ∙ h.has_unit;
  };
}

-- Where the code fails, the unit holds just what HWCleanup leaves.
record Fails (a n : ℕ) (m : M Bool) : Type 0 where
  at : (w : World) → Leaves a n w → (m w).0 ≡ false → held a (m w).1.unit ≡ n

module _ {a n : ℕ} (l : 0 < a) where
  Fails-bind :
      {A : Type 0} (m : M A) (f : A → M Bool)
      → Keeps (Leaves a n) m
      → ((x : A) → Fails a n (f x))
      → Fails a n (m >>= f)
  unfolding ◌>>=◌
  Fails-bind m f x y = record { at = λ w h e. (y (m w).0).at _ (x.at w h) e }

  Fails-if : (b : Bool) (m k : M Bool) → Fails a n m → Fails a n k → Fails a n (if b then m else k)
  Fails-if true m k x y = x
  Fails-if false m k x y = y

  Leaves-alloc : (size : ℕ) → Keeps (Leaves a n) (call (alloc_vec size))
  unfolding ◌>>=◌
  Leaves-alloc size = record { at = λ w h. record { left = h.left; has_unit = h.has_unit } }

  -- The three rings are not among what is left.
  Leaves-store :
      (f : EthUnit → EthUnit)
      → ((u : EthUnit) → left_of a (kept (f u)) ≡ left_of a (kept u))
      → Keeps (Leaves a n) (modify_unit f)
  unfolding ◌>>=◌
  Leaves-store f e = record {
    at = λ w h. record { left = e w.unit ∙ h.left; has_unit = h.has_unit };
  }

  init_fail-Fails : Fails a n init_fail
  unfolding init_fail ◌>>=◌
  init_fail-Fails = record { at = λ w h e. hw_cleanup-held a w l h.has_unit ∙ h.left }

  configure-Fails : Fails a n configure
  unfolding configure ◌>>=◌
  configure-Fails = record { at = λ w h e. absurd (false≢true (sym e)) }

  alloc_rx_buf_ring-Fails : Fails a n alloc_rx_buf_ring
  unfolding alloc_rx_buf_ring
  alloc_rx_buf_ring-Fails =
      search
        (
          mem_rules, Fails-bind, Fails-if, Leaves-alloc, Leaves-store, get_phys-mem,
          configure-Fails, init_fail-Fails,
        )
        depth 24 fits 4000

  alloc_rx_ring-Fails : Fails a n alloc_rx_ring
  unfolding alloc_rx_ring
  alloc_rx_ring-Fails =
      search
        (
          mem_rules, Fails-bind, Fails-if, Leaves-alloc, Leaves-store, get_phys-mem,
          alloc_rx_buf_ring-Fails, init_fail-Fails,
        )
        depth 24 fits 4000

  alloc_tx_ring-Fails : Fails a n alloc_tx_ring
  unfolding alloc_tx_ring
  alloc_tx_ring-Fails =
      search
        (
          mem_rules, Fails-bind, Fails-if, Leaves-alloc, Leaves-store, get_phys-mem,
          alloc_rx_ring-Fails, init_fail-Fails,
        )
        depth 24 fits 4000

  check_channels-Fails : Fails a n check_channels
  unfolding check_channels
  check_channels-Fails =
      search (mem_rules, Fails-bind, Fails-if, alloc_tx_ring-Fails, init_fail-Fails) depth 24 fits
        4000

  hw_init-Fails : Fails a n hw_init
  unfolding hw_init
  hw_init-Fails =
      search
        (
          mem_rules, Fails-bind, Fails-if, check_channels-Fails, init_fail-Fails,
          find_dma_interface_of_mac-mem, read_mac_addr-mem, check_mac_addr-mem,
        )
        depth 24 fits 4000

-- PA6TEth_HWInit, from a base with its unit, whose rings are NULL, when it fails, at whichever step:
-- each block, at an address other than NULL, has been freed as often as it was allocated, but for
-- what the unit had before of the wrappers of reads, the openers and the pending transmit buffer,
-- and for the unit itself, if that was so of the blocks that were held at the start.
pub hw_init-frees :
    (a : ℕ) (w : World)
    → 0 < a
    → IsBalanced a 0 w
    → is_set w.base.unit ≡ true
    → NoRings w.unit
    → (hw_init w).0 ≡ false
    → frees a (hw_init w).1.trace + leftover a w.unit + is_at (hw_init w).1.base.unit a
      ≡ allocs a (hw_init w).1.trace
hw_init-frees a w l h b r e =
    let account =
      (hw_init-Holds {s = 0} l).at w
        (record { holds = record { balance = omega (arith, h) }; bare = NoRings-bare w.unit r }) in
    let left = (hw_init-Fails l).at w (record { left = refl; has_unit = b }) e in
    omega (arith, account.balance, left)
