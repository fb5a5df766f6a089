-- ===== src/Hw/Table.antt =====
-- The interface table of src/hw/hw_init.c: which byte of a word the search finds.
use pa6t_eth.Base.{
  ℕ, zero, suc, ◌+◌, ◌*◌, ◌≡◌, ◌≤◌, ◌<◌, ◌⊎◌, inl, inr, refl, true, false, Bool, Bool-cases, none,
  some, ◌==◌, bit_and, arith,
}
use pa6t_eth.Regs.Shift.{shr}
use pa6t_eth.Hw.Channels.{find_byte}

-- Byte `j` of the word is `devfn`.
abbrev pub is_byte : ℕ → ℕ → ℕ → Bool
is_byte tmp devfn j = bit_and (shr tmp (8 * j)) 0xff == devfn

-- Byte `i` is the first of the `k` from `j` on that is `devfn`.
pub record IsFirst (k j tmp devfn i : ℕ) : Type 0 where
  pub found : find_byte k j tmp devfn ≡ some i
  pub from_start : j ≤ i
  pub before_end : i < j + k
  pub is_here : is_byte tmp devfn i ≡ true
  pub not_before : (h : ℕ) → j ≤ h → h < i → is_byte tmp devfn h ≡ false

-- None of the `k` bytes from `j` on is `devfn`.
pub record IsNone (k j tmp devfn : ℕ) : Type 0 where
  pub not_found : find_byte k j tmp devfn ≡ none
  pub nowhere : (h : ℕ) → j ≤ h → h < j + k → is_byte tmp devfn h ≡ false

at_or_after : (j h : ℕ) → j ≤ h → (h ≡ j) ⊎ (j + 1 ≤ h)
at_or_after j h k = grind arith

later :
    (tmp devfn j h : ℕ)
    → is_byte tmp devfn j ≡ false
    → j ≤ h
    → (j + 1 ≤ h → is_byte tmp devfn h ≡ false)
    → is_byte tmp devfn h ≡ false
later tmp devfn j h e k f = elim (at_or_after j h k) [ inl s ↦ rw s e | inr s ↦ f s ]

-- The search of a word of the interface table finds the first byte that is the device's number, or
-- no byte is, and then it finds none.
pub find_byte-IsFirst :
    (k j tmp devfn : ℕ) → ((i : ℕ) × IsFirst k j tmp devfn i) ⊎ IsNone k j tmp devfn
unfolding find_byte
find_byte-IsFirst zero j tmp devfn =
    inr (record { not_found = refl; nowhere = λ h a b. absurd (omega arith) })
find_byte-IsFirst (suc k) j tmp devfn = elim (Bool-cases (is_byte tmp devfn j)) [
  | inl e ↦ inl (
    j,
    record {
      found = rw (find_byte, e) refl;
      from_start = omega arith;
      before_end = omega arith;
      is_here = e;
      not_before = λ h a b. absurd (omega arith);
    },
  )
  | inr e ↦ elim (find_byte-IsFirst k (j + 1) tmp devfn) [
    | inl f ↦
        let g = f.1 in
        let lo = g.from_start in
        let hi = g.before_end in
        inl (
          f.0,
          record {
            found = rw (find_byte, e) g.found;
            from_start = omega arith;
            before_end = omega arith;
            is_here = g.is_here;
            not_before = λ h a b. later tmp devfn j h e a (λ s. g.not_before h s b);
          },
        )
    | inr f ↦ inr (record {
      not_found = rw (find_byte, e) f.not_found;
      nowhere = λ h a b. later tmp devfn j h e a (λ s. f.nowhere h s (omega arith));
    })
  ]
]
