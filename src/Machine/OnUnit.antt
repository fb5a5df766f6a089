-- ===== src/Machine/OnUnit.antt =====
-- Assertions about the unit alone: a call keeps them, and a change of the unit takes one to another.
use pa6t_eth.Machine.{World, call, call_, modify_unit, modify_base, ◌>>=◌}
use pa6t_eth.Machine.Triples.{Takes, Keeps, keeps_rules}
use pa6t_eth.Machine.Structs.{EthUnit, EthBase}
use pa6t_eth.Machine.Calls.{Call}

pub record OnUnit (P : EthUnit → Type 0) (w : World) : Type 0 where
  pub holds : P w.unit

module _ {P : EthUnit → Type 0} where
  pub OnUnit-call : (k : Call) → Keeps (OnUnit P) (call k)
  unfolding ◌>>=◌
  OnUnit-call k = record { at = λ w h. record { holds = h.holds } }

  pub OnUnit-call_ : (k : Call) → Keeps (OnUnit P) (call_ k)
  unfolding ◌>>=◌
  OnUnit-call_ k = record { at = λ w h. record { holds = h.holds } }

  pub OnUnit-modify_base : (f : EthBase → EthBase) → Keeps (OnUnit P) (modify_base f)
  unfolding ◌>>=◌
  OnUnit-modify_base f = record { at = λ w h. record { holds = h.holds } }

pub OnUnit-modify_unit :
    {P Q : EthUnit → Type 0} (f : EthUnit → EthUnit)
    → ((u : EthUnit) → P u → Q (f u))
    → Takes (OnUnit P) (OnUnit Q) (modify_unit f)
unfolding ◌>>=◌
OnUnit-modify_unit f e = record { at = λ w h. record { holds = e w.unit h.holds } }

pub ruleset on_unit_rules = (keeps_rules, OnUnit-call, OnUnit-call_, OnUnit-modify_base)
