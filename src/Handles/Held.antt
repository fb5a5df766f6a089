-- ===== src/Handles/Held.antt =====
-- The account of one library, interface or PCI device, and code that keeps it.
use pa6t_eth.Base.{ℕ, ◌+◌, ◌≡◌, ◌∙◌, true, arith}
use pa6t_eth.Machine.{World, call, call_, modify_unit, modify_base, ◌>>=◌}
use pa6t_eth.Machine.Structs.{EthUnit, EthBase}
use pa6t_eth.Machine.Calls.{Call}
use pa6t_eth.Machine.Triples.{Keeps, keeps_rules}
use pa6t_eth.Machine.Quiet.{QuietSafe, is_quiet}
use pa6t_eth.Handles.{
  Kind, library, interface, pci_device, takes, returns, taken, given_back, BaseHandles, handles,
  quiet-taken, quiet-given_back, same_handles, is_true,
}
use pa6t_eth.Handles.Giving.{from_iob}

-- The base has the handles `b`, and since a state where the handle `h` had been taken `t` times and
-- given back `r` times, it was taken as often as it was given back or is in the base.
pub record Held (k : Kind) (h t r : ℕ) (b : BaseHandles) (w : World) : Type 0 where
  pub even : returns k h w.trace + from_iob k h b + t ≡ takes k h w.trace + r
  pub same_base : handles w.base ≡ b

module _ {k : Kind} {h t r : ℕ} {b : BaseHandles} where
  pub Held-call : (c : Call) → is_quiet c ≡ true → Keeps (Held k h t r b) (call c)
  unfolding ◌>>=◌ takes returns
  Held-call c e = record {
    at = λ w x. record {
      even = omega (arith, x.even, quiet-taken k h c (w.env w.trace c) e, quiet-given_back k h c e);
      same_base = x.same_base;
    };
  }

  pub Held-call_ : (c : Call) → is_quiet c ≡ true → Keeps (Held k h t r b) (call_ c)
  unfolding ◌>>=◌ takes returns
  Held-call_ c e = record {
    at = λ w x. record {
      even = omega (arith, x.even, quiet-taken k h c (w.env w.trace c) e, quiet-given_back k h c e);
      same_base = x.same_base;
    };
  }

  pub Held-modify_unit : (f : EthUnit → EthUnit) → Keeps (Held k h t r b) (modify_unit f)
  unfolding ◌>>=◌
  Held-modify_unit f = record { at = λ w x. record { even = x.even; same_base = x.same_base } }

  pub Held-modify_base :
      (f : EthBase → EthBase)
      → ((a : EthBase) → handles (f a) ≡ handles a)
      → Keeps (Held k h t r b) (modify_base f)
  unfolding ◌>>=◌
  Held-modify_base f e = record {
    at = λ w x. record { even = x.even; same_base = e w.base ∙ x.same_base };
  }

instance pub Held-QuietSafe : {k : Kind} {h t r : ℕ} {b : BaseHandles} → QuietSafe (Held k h t r b)
Held-QuietSafe = record {
  on_call = λ c e. Held-call c e;
  on_call_ = λ c e. Held-call_ c e;
  on_unit = λ f e. Held-modify_unit f;
}

pub ruleset held_rules = (
  keeps_rules, Held-call, Held-call_, Held-modify_unit, Held-modify_base, same_handles, is_true,
  Held-QuietSafe,
)
