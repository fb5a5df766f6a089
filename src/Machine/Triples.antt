-- ===== src/Machine/Triples.antt =====
-- Statements about code: from a state with `P` it ends in one with `Q`. One rule for each way to
-- build code, gathered for `search`.
use pa6t_eth.Base.{ℕ, Bool, true, false, if◌then◌else◌}
use pa6t_eth.Machine.{
  World, M, Run, pure, skip, get_unit, get_base, get_sdk, get_req, get_reqs, load_byte, when, ◌>>=◌,
}

pub record Takes {A : Type 0} (P Q : World → Type 0) (m : M A) : Type 0 where
  pub at : (w : World) → P w → Q (m w).1

abbrev pub Keeps : {A : Type 0} → (World → Type 0) → M A → Type 0
Keeps P m = Takes P P m

module _ {A : Type 0} {P Q : World → Type 0} where
  pub Takes-if : (b : Bool) (m n : M A) → Takes P Q m → Takes P Q n → Takes P Q (if b then m else n)
  Takes-if true m n km kn = km
  Takes-if false m n km kn = kn

module _ {A B : Type 0} {P Q R : World → Type 0} where
  -- One change after the other.
  pub Takes-bind :
      (m : M A) (f : A → M B) → Takes P Q m → ((a : A) → Takes Q R (f a)) → Takes P R (m >>= f)
  unfolding ◌>>=◌
  Takes-bind m f km kf = record { at = λ w h. (kf (m w).0).at (m w).1 (km.at w h) }

module _ {A B : Type 0} {P Q : World → Type 0} where
  -- What comes before the change, and what comes after it, keeps the assertions.
  pub Takes-before :
      (m : M A) (f : A → M B) → Takes P P m → ((a : A) → Takes P Q (f a)) → Takes P Q (m >>= f)
  Takes-before m f km kf = Takes-bind m f km kf

  pub Takes-after :
      (m : M A) (f : A → M B) → Takes P Q m → ((a : A) → Takes Q Q (f a)) → Takes P Q (m >>= f)
  Takes-after m f km kf = Takes-bind m f km kf

module _ {A B : Type 0} {P : World → Type 0} where
  pub Keeps-bind :
      (m : M A) (f : A → M B) → Keeps P m → ((a : A) → Keeps P (f a)) → Keeps P (m >>= f)
  Keeps-bind m f km kf = Takes-before m f km kf

module _ {P : World → Type 0} where
  pub Keeps-pure : {A : Type 0} (a : A) → Keeps P (pure a)
  unfolding ◌>>=◌
  Keeps-pure a = record { at = λ w h. h }

  pub Keeps-skip : Keeps P skip
  unfolding ◌>>=◌
  Keeps-skip = record { at = λ w h. h }

  pub Keeps-get_unit : Keeps P get_unit
  unfolding ◌>>=◌
  Keeps-get_unit = record { at = λ w h. h }

  pub Keeps-get_base : Keeps P get_base
  unfolding ◌>>=◌
  Keeps-get_base = record { at = λ w h. h }

  pub Keeps-get_sdk : Keeps P get_sdk
  unfolding ◌>>=◌
  Keeps-get_sdk = record { at = λ w h. h }

  pub Keeps-get_req : (r : ℕ) → Keeps P (get_req r)
  unfolding ◌>>=◌
  Keeps-get_req r = record { at = λ w h. h }

  pub Keeps-get_reqs : Keeps P get_reqs
  unfolding ◌>>=◌
  Keeps-get_reqs = record { at = λ w h. h }

  pub Keeps-load_byte : (p : ℕ) → Keeps P (load_byte p)
  unfolding ◌>>=◌
  Keeps-load_byte p = record { at = λ w h. h }

  pub Keeps-when : (b : Bool) (m : Run) → Keeps P m → Keeps P (when b m)
  unfolding ◌>>=◌
  Keeps-when true m k = k
  Keeps-when false m k = record { at = λ w h. h }

-- Code that keeps an assertion, step by step.
pub ruleset keeps_rules = (
  Keeps-bind, Takes-if, Keeps-pure, Keeps-skip, Keeps-get_unit, Keeps-get_base, Keeps-get_sdk,
  Keeps-get_req, Keeps-get_reqs, Keeps-load_byte, Keeps-when,
)
