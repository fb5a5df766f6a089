-- ===== src/Handles/Giving.antt =====
-- The calls that give a library, an interface or a PCI device back, and what the base has of them in
-- the order in which src/Expunge.c gives it back.
use pa6t_eth.Base.{ℕ, ◌+◌, ◌<◌, ◌≡◌, refl, false, arith, is_set}
use pa6t_eth.Machine.Calls.{Call, drop_interface, close_library, free_device}
use pa6t_eth.Memory.{null_is_at}
use pa6t_eth.Handles.{Kind, library, interface, pci_device, taken, given_back, BaseHandles, among}

-- The three ways to give back take nothing, and give nothing back at NULL.
pub data IsGiving : (ℕ → Call) → Type 1 where
  drop : IsGiving drop_interface
  close : IsGiving close_library
  free : IsGiving free_device

pub giving-taken : {c : ℕ → Call} → IsGiving c → (k : Kind) (h p e : ℕ) → taken k h (c p) e ≡ 0
giving-taken drop library h p e = refl
giving-taken drop interface h p e = refl
giving-taken drop pci_device h p e = refl
giving-taken close library h p e = refl
giving-taken close interface h p e = refl
giving-taken close pci_device h p e = refl
giving-taken free library h p e = refl
giving-taken free interface h p e = refl
giving-taken free pci_device h p e = refl

pub giving-null :
    {c : ℕ → Call}
    → IsGiving c
    → (k : Kind) (h p : ℕ) → 0 < h
    → is_set p ≡ false
    → given_back k h (c p) ≡ 0
giving-null drop library h p l e = refl
giving-null drop interface h p l e = null_is_at p h l e
giving-null drop pci_device h p l e = refl
giving-null close library h p l e = null_is_at p h l e
giving-null close interface h p l e = refl
giving-null close pci_device h p l e = refl
giving-null free library h p l e = refl
giving-null free interface h p l e = refl
giving-null free pci_device h p l e = null_is_at p h l e

-- What the steps of drop_libraries give back, what is left from release_mac on, and so forth.
module _ (k : Kind) (h : ℕ) (b : BaseHandles) where
  abbrev pub after_pci : ℕ
  after_pci = given_back k h (close_library b.expansion_base)

  abbrev pub after_utility : ℕ
  after_utility = given_back k h (drop_interface b.ipci) + after_pci

  abbrev pub after_iutility : ℕ
  after_iutility = given_back k h (close_library b.utility_base) + after_utility

  abbrev pub from_libraries : ℕ
  from_libraries = given_back k h (drop_interface b.iutility) + after_iutility

  abbrev pub from_mac : ℕ
  from_mac = given_back k h (free_device b.mac_dev) + from_libraries

  abbrev pub from_dma : ℕ
  from_dma = given_back k h (free_device b.dma_dev) + from_mac

  abbrev pub from_iob : ℕ
  from_iob = given_back k h (free_device b.iob_dev) + from_dma

pub from_iob-among : (k : Kind) (h : ℕ) (b : BaseHandles) → from_iob k h b ≡ among k h b
from_iob-among library h b = omega arith
from_iob-among interface h b = omega arith
from_iob-among pci_device h b = omega arith
