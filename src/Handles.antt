-- ===== src/Handles.antt =====
-- What has become of each library, interface and PCI device: how often it was taken, how often it was
-- given back, and how often the base has it.
pub mod Giving
pub mod Held
pub mod Configuring
pub mod Expunging
pub mod Releasing
pub mod Acquiring
pub mod Starting
use mathlib.Core.Bool.{false≢true}
use pa6t_eth.Base.{
  ℕ, ◌+◌, ◌≡◌, refl, sym, ap, [], ◌∷◌, Bool, true, false, arith, ◌==◌, if◌then◌else◌, ◌∙◌,
}
use pa6t_eth.Machine.{World, History, call, call_, modify_unit, modify_base, ◌>>=◌}
use pa6t_eth.Machine.Structs.{EthUnit, EthBase}
use pa6t_eth.Machine.Calls.{
  Call, open_library, close_library, get_interface, get_mmu_interface, drop_interface, find_device,
  free_device,
}
use pa6t_eth.Machine.Triples.{Keeps, keeps_rules}
use pa6t_eth.Machine.Quiet.{QuietSafe, is_quiet, soft}
use pa6t_eth.Memory.{is_at}

pub data Kind : Type 0 where
  library interface pci_device : Kind

-- How often a call with its answer takes the handle `h`, and how often a call gives it back.
abbrev pub taken : Kind → ℕ → Call → ℕ → ℕ
taken library h (open_library l) p = is_at p h
taken interface h (get_interface l) p = is_at p h
taken interface h get_mmu_interface p = is_at p h
taken pci_device h (find_device v d) p = is_at p h
taken k h _ p = 0

abbrev pub given_back : Kind → ℕ → Call → ℕ
given_back library h (close_library p) = is_at p h
given_back interface h (drop_interface p) = is_at p h
given_back pci_device h (free_device p) = is_at p h
given_back k h _ = 0

unfoldable pub takes : Kind → ℕ → History → ℕ
takes k h [] = 0
takes k h ((c, p) ∷ t) = taken k h c p + takes k h t

unfoldable pub returns : Kind → ℕ → History → ℕ
returns k h [] = 0
returns k h ((c, p) ∷ t) = given_back k h c + returns k h t

-- The handles of the base.
pub record BaseHandles : Type 0 where
  pub expansion_base : ℕ
  pub utility_base : ℕ
  pub ipci : ℕ
  pub iutility : ℕ
  pub mac_dev : ℕ
  pub dma_dev : ℕ
  pub iob_dev : ℕ

abbrev pub handles : EthBase → BaseHandles
handles b = record {
  expansion_base = b.expansion_base;
  utility_base = b.utility_base;
  ipci = b.ipci;
  iutility = b.iutility;
  mac_dev = b.mac_dev;
  dma_dev = b.dma_dev;
  iob_dev = b.iob_dev;
}

-- How often the handle is among them.
abbrev pub among : Kind → ℕ → BaseHandles → ℕ
among library h b = is_at b.expansion_base h + is_at b.utility_base h
among interface h b = is_at b.ipci h + is_at b.iutility h
among pci_device h b = is_at b.mac_dev h + is_at b.dma_dev h + is_at b.iob_dev h

-- The base has the handles `b`; the handle has been taken `t` times, and given back `r` times.
pub record Has (k : Kind) (h t r : ℕ) (b : BaseHandles) (w : World) : Type 0 where
  pub all_taken : takes k h w.trace ≡ t
  pub all_back : returns k h w.trace ≡ r
  pub same_base : handles w.base ≡ b

pub quiet-taken : (k : Kind) (h : ℕ) (c : Call) (p : ℕ) → is_quiet c ≡ true → taken k h c p ≡ 0
quiet-taken library h (open_library l) p e = absurd (false≢true e)
quiet-taken library h _ p e = refl
quiet-taken interface h (get_interface l) p e = absurd (false≢true e)
quiet-taken interface h get_mmu_interface p e = absurd (false≢true e)
quiet-taken interface h _ p e = refl
quiet-taken pci_device h (find_device v d) p e = absurd (false≢true e)
quiet-taken pci_device h _ p e = refl

pub quiet-given_back : (k : Kind) (h : ℕ) (c : Call) → is_quiet c ≡ true → given_back k h c ≡ 0
quiet-given_back library h (close_library p) e = absurd (false≢true e)
quiet-given_back library h _ e = refl
quiet-given_back interface h (drop_interface p) e = absurd (false≢true e)
quiet-given_back interface h _ e = refl
quiet-given_back pci_device h (free_device p) e = absurd (false≢true e)
quiet-given_back pci_device h _ e = refl

module _ {k : Kind} {h t r : ℕ} {b : BaseHandles} where
  pub Has-call : (c : Call) → is_quiet c ≡ true → Keeps (Has k h t r b) (call c)
  unfolding ◌>>=◌ takes returns
  Has-call c e = record {
    at = λ w x. record {
      all_taken = omega (arith, x.all_taken, quiet-taken k h c (w.env w.trace c) e);
      all_back = omega (arith, x.all_back, quiet-given_back k h c e);
      same_base = x.same_base;
    };
  }

  pub Has-call_ : (c : Call) → is_quiet c ≡ true → Keeps (Has k h t r b) (call_ c)
  unfolding ◌>>=◌ takes returns
  Has-call_ c e = record {
    at = λ w x. record {
      all_taken = omega (arith, x.all_taken, quiet-taken k h c (w.env w.trace c) e);
      all_back = omega (arith, x.all_back, quiet-given_back k h c e);
      same_base = x.same_base;
    };
  }

  pub Has-modify_unit : (f : EthUnit → EthUnit) → Keeps (Has k h t r b) (modify_unit f)
  unfolding ◌>>=◌
  Has-modify_unit f = record {
    at = λ w x. record { all_taken = x.all_taken; all_back = x.all_back; same_base = x.same_base };
  }

  pub Has-modify_base :
      (f : EthBase → EthBase)
      → ((a : EthBase) → handles (f a) ≡ handles a)
      → Keeps (Has k h t r b) (modify_base f)
  unfolding ◌>>=◌
  Has-modify_base f e = record {
    at = λ w x. record {
      all_taken = x.all_taken;
      all_back = x.all_back;
      same_base = e w.base ∙ x.same_base;
    };
  }

instance pub Has-QuietSafe : {k : Kind} {h t r : ℕ} {b : BaseHandles} → QuietSafe (Has k h t r b)
Has-QuietSafe = record {
  on_call = λ c e. Has-call c e;
  on_call_ = λ c e. Has-call_ c e;
  on_unit = λ f e. Has-modify_unit f;
}

pub same_handles : (b : BaseHandles) → b ≡ b
same_handles b = refl

pub is_true : true ≡ true
is_true = refl

pub ruleset has_rules = (
  keeps_rules, Has-call, Has-call_, Has-modify_unit, Has-modify_base, same_handles, is_true,
  Has-QuietSafe,
)
