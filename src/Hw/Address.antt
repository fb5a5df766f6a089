-- ===== src/Hw/Address.antt =====
-- The MAC address of src/hw/hw_init.c: what is programmed is what is read back, and which address
-- is taken to be good.
use pa6t_eth.Base.{
  ℕ, ◌+◌, ◌*◌, ◌%◌, ◌^◌, ◌≡◌, ◌<◌, ◌∙◌, refl, List, [], ◌∷◌, true, false, Bool, ◌==◌, arith, not,
  ◌&&◌, ◌||◌, Bool-cases, inl, inr, bit_and, bit_or,
}
use pa6t_eth.Base.Bits.{bit_and-255, join, down, bit_and-up}
use pa6t_eth.Regs.Shift.{shl32}
use pa6t_eth.Machine.{World, ◌>>=◌}
use pa6t_eth.Hw.Channels.{mac_addr_of, adr0_of, adr1_of, mac_valid, check_mac_addr, fallback_addr}

adr0-sum :
    (a b c d e f : ℕ)
    → c < 256
    → d < 256
    → e < 256
    → f < 256
    → adr0_of (a ∷ b ∷ c ∷ d ∷ e ∷ f ∷ []) ≡ c * 2 ^ 24 + d * 2 ^ 16 + e * 2 ^ 8 + f
unfolding adr0_of
adr0-sum a b c d e f hc hd he hf =
    let s1 =
      join 24 c (d * 2 ^ 16) (shl32 c 24) (shl32 d 16) (omega arith) (omega arith) (omega arith) in
    let s2 =
      join 16 (c * 256 + d) (e * 2 ^ 8) (bit_or (shl32 c 24) (shl32 d 16)) (shl32 e 8)
        (omega (arith, s1)) (omega arith) (omega arith) in
    let s3 =
      join 8 (c * 2 ^ 16 + d * 256 + e) f (bit_or (bit_or (shl32 c 24) (shl32 d 16)) (shl32 e 8)) f
        (omega (arith, s2)) refl (omega arith) in
    omega (arith, s3)

adr1-sum :
    (a b c d e f old : ℕ)
    → a < 256
    → b < 256
    → (h : ℕ) × (adr1_of (a ∷ b ∷ c ∷ d ∷ e ∷ f ∷ []) old ≡ h * 2 ^ 16 + a * 2 ^ 8 + b)
unfolding adr1_of
adr1-sum a b c d e f old ha hb =
    let high = bit_and-up 16 old 65535 in
    let s1 = join 8 a b (shl32 a 8) b (omega arith) refl (omega arith) in
    let s2 =
      join 16 (bit_and (down 16 old) 65535) (a * 2 ^ 8 + b) (bit_and old 0xffff0000)
        (bit_or (shl32 a 8) b) high (omega (arith, s1)) (omega arith) in
    (bit_and (down 16 old) 65535, omega (arith, s2))

byte : (x : ℕ) {y : ℕ} → x % 256 ≡ y → bit_and x 255 ≡ y
byte x h = bit_and-255 x ∙ h

six :
    {a b c d e f a' b' c' d' e' f' : ℕ}
    → a ≡ a'
    → b ≡ b'
    → c ≡ c'
    → d ≡ d'
    → e ≡ e'
    → f ≡ f'
    → a ∷ b ∷ c ∷ d ∷ e ∷ f ∷ [] ≡ a' ∷ b' ∷ c' ∷ d' ∷ e' ∷ f' ∷ []
six ea eb ec ed ee ef = rw (ea, eb, ec, ed, ee, ef) refl

-- What PA6TEth_ProgramMACAddr writes into ADR0 and ADR1 is read back as the same address, whatever
-- the high half of ADR1 held.
pub mac_addr-round_trip :
    (a b c d e f old : ℕ)
    → a < 256
    → b < 256
    → c < 256
    → d < 256
    → e < 256
    → f < 256
    → (let addr = a ∷ b ∷ c ∷ d ∷ e ∷ f ∷ [] in mac_addr_of (adr0_of addr) (adr1_of addr old))
      ≡ a ∷ b ∷ c ∷ d ∷ e ∷ f ∷ []
unfolding mac_addr_of
mac_addr-round_trip a b c d e f old ha hb hc hd he hf =
    let s0 = adr0-sum a b c d e f hc hd he hf in
    let s1 = adr1-sum a b c d e f old ha hb in
    rw (s0, s1.1)
      (six (byte _ (omega arith)) (byte _ (omega arith)) (byte _ (omega arith))
        (byte _ (omega arith)) (byte _ (omega arith)) (byte _ (omega arith)))

-- The bytes of an address that are 0x00 or 0xFF.
unfoldable pub is_blank : List ℕ → Bool
is_blank [] = true
is_blank (x ∷ xs) = ((x == 0x00) || (x == 0xFF)) && is_blank xs

mac_valid-is_blank : (xs : List ℕ) → mac_valid xs ≡ not (is_blank xs)
unfolding mac_valid is_blank
mac_valid-is_blank [] = refl
mac_valid-is_blank (x ∷ xs) = elim (Bool-cases (x == 0)) [
  | inl e ↦ rw e (mac_valid-is_blank xs)
  | inr e ↦ elim (Bool-cases (x == 0xFF)) [
    | inl d ↦ rw (e, d) (mac_valid-is_blank xs)
    | inr d ↦ rw (e, d) refl
  ]
]

-- The check of the address keeps it if some byte is neither 0x00 nor 0xFF, and puts the fallback
-- in its place if each byte is one of the two; the address that it leaves is always good.
pub check_mac_addr-keeps_good :
    (w : World)
    → (is_blank w.base.mac_addr ≡ false → (check_mac_addr w).1 ≡ w)
      × (is_blank w.base.mac_addr ≡ true → (check_mac_addr w).1.base.mac_addr ≡ fallback_addr)
      × (mac_valid (check_mac_addr w).1.base.mac_addr ≡ true)
unfolding check_mac_addr mac_valid ◌>>=◌
check_mac_addr-keeps_good w =
    let same = mac_valid-is_blank w.base.mac_addr in
    (
      (λ e. rw (same, e) refl),
      (λ e. rw (same, e) refl),
      elim (Bool-cases (mac_valid w.base.mac_addr)) [ inl e ↦ rw e e | inr e ↦ rw e refl ],
    )
