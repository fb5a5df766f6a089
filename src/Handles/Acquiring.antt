-- ===== src/Handles/Acquiring.antt =====
-- Statements about code that takes libraries, interfaces and PCI devices and keeps them in the base.
use pa6t_eth.Base.{ℕ, ◌+◌, ◌<◌, ◌≡◌, ◌∙◌, refl, ap, Bool, true, false, arith, if◌then◌else◌}
use pa6t_eth.Machine.{World, M, call, modify_base, ◌>>=◌}
use pa6t_eth.Machine.Structs.{EthBase}
use pa6t_eth.Machine.Calls.{
  Call, Library, open_library, get_interface, find_device, drop_interface, close_library,
  free_device,
}
use pa6t_eth.Machine.Triples.{Keeps}
use pa6t_eth.Handles.{
  Kind, library, interface, pci_device, takes, returns, taken, given_back, BaseHandles, handles,
  among,
}
use pa6t_eth.Handles.Giving.{IsGiving, giving-null, from_iob, from_iob-among}
use pa6t_eth.Handles.Held.{Held}
use pa6t_eth.Handles.Releasing.{no_handles}

-- The calls that take a handle, and how it is given back.
pub data IsTaking : Call → (ℕ → Call) → Type 1 where
  opens : (lib : Library) → IsTaking (open_library lib) close_library
  gets : (lib : ℕ) → IsTaking (get_interface lib) drop_interface
  finds : (v d : ℕ) → IsTaking (find_device v d) free_device

taking-taken :
    {c : Call} {d : ℕ → Call}
    → IsTaking c d
    → (k : Kind) (h p : ℕ) → taken k h c p ≡ given_back k h (d p)
taking-taken (opens lib) library h p = refl
taking-taken (opens lib) interface h p = refl
taking-taken (opens lib) pci_device h p = refl
taking-taken (gets lib) library h p = refl
taking-taken (gets lib) interface h p = refl
taking-taken (gets lib) pci_device h p = refl
taking-taken (finds v d) library h p = refl
taking-taken (finds v d) interface h p = refl
taking-taken (finds v d) pci_device h p = refl

taking-given : {c : Call} {d : ℕ → Call} → IsTaking c d → (k : Kind) (h : ℕ) → given_back k h c ≡ 0
taking-given (opens lib) library h = refl
taking-given (opens lib) interface h = refl
taking-given (opens lib) pci_device h = refl
taking-given (gets lib) library h = refl
taking-given (gets lib) interface h = refl
taking-given (gets lib) pci_device h = refl
taking-given (finds v d) library h = refl
taking-given (finds v d) interface h = refl
taking-given (finds v d) pci_device h = refl

-- Since a state where the handle `h` had been taken `t` times and given back `r` times: it
-- was taken as often as it was given back or is in the base, which has none if the result is false.
pub record Settled (k : Kind) (h t r : ℕ) (ok : Bool) (w : World) : Type 0 where
  pub even : returns k h w.trace + among k h (handles w.base) + t ≡ takes k h w.trace + r
  pub forgotten : ok ≡ false → handles w.base ≡ no_handles

-- From the account with the handles `b`, the code ends with `R` of its result.
pub record Ends (k : Kind) (h t r : ℕ) (R : Bool → World → Type 0) (b : BaseHandles) (m : M Bool)
    : Type 0 where
  pub at : (w : World) → Held k h t r b w → R (m w).0 (m w).1

pub Held-even :
    {k : Kind} {h t r : ℕ} {b : BaseHandles} (w : World)
    → Held k h t r b w
    → returns k h w.trace + among k h (handles w.base) + t ≡ takes k h w.trace + r
Held-even {k = k} {h = h} {b = b} w x =
    omega (arith, x.even, from_iob-among k h b, ap (among k h) x.same_base)

module _ {k : Kind} {h t r : ℕ} {R : Bool → World → Type 0} where
  pub Ends-bind :
      {A : Type 0} {b : BaseHandles} (m : M A) (f : A → M Bool)
      → Keeps (Held k h t r b) m
      → ((a : A) → Ends k h t r R b (f a))
      → Ends k h t r R b (m >>= f)
  unfolding ◌>>=◌
  Ends-bind m f x y = record { at = λ w z. (y (m w).0).at _ (x.at w z) }

  pub Ends-if :
      {b : BaseHandles} (ok : Bool) (m n : M Bool)
      → Ends k h t r R b m
      → Ends k h t r R b n
      → Ends k h t r R b (if ok then m else n)
  Ends-if true m n x y = x
  Ends-if false m n x y = y

  -- A handle is taken, and kept in the base where there was none.
  pub Ends-acquire :
      {c : Call} {d : ℕ → Call} {b : BaseHandles} {rest : ℕ → M Bool}
      → 0 < h
      → IsTaking c d
      → IsGiving d
      → (f : ℕ → EthBase → EthBase) (q : ℕ → BaseHandles → BaseHandles)
      → ((p : ℕ)
          → from_iob k h (q p b) + given_back k h (d 0) ≡ from_iob k h b + given_back k h (d p))
      → ((p : ℕ) (a : EthBase) → handles (f p a) ≡ q p (handles a))
      → ((p : ℕ) → Ends k h t r R (q p b) (rest p))
      → Ends k h t r R b (call c >>= λ p. modify_base (f p) >>= λ _. rest p)
  unfolding ◌>>=◌ takes returns
  Ends-acquire {c = c} l s g f q e z y = record {
    at = λ w x.
        let p = w.env w.trace c in
        (y p).at _ (record {
          even = omega (
            arith,
            x.even,
            e p,
            taking-taken s k h p,
            taking-given s k h,
            giving-null g k h 0 l refl,
          );
          same_base = z p w.base ∙ ap (q p) x.same_base;
        });
  }
