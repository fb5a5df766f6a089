-- ===== src/Base/Bits.antt =====
-- Laws of `&` and `|` at variables: a mask of low bits is a remainder, a field is read back by its
-- mask, and `|` of parts that do not overlap is their sum.
use Prim.Native.Nat.{
  ℕ, zero, suc, ◌+◌, ◌*◌, ◌/◌, ◌%◌, ◌≤◌, ◌<◌, min, max, bit_and, bit_or, digits, bit_and-bitwise,
  bit_or-bitwise,
}
use mathlib.Core.Path.{◌≡◌, refl, ◌∙◌, sym, ap}
use native.Mathlib.Omega.{arith}

module _ (z : ℕ → ℕ) (f : ℕ → ℕ → ℕ) where
  digits-zero : (n b : ℕ) → digits z f n 0 b ≡ z b
  digits-zero zero b = refl
  digits-zero (suc n) b = refl

  -- Fuel beyond the number's size changes nothing.
  digits_more : (m n a b : ℕ) → a ≤ n → n ≤ m → digits z f m a b ≡ digits z f n a b
  digits_more m n zero b h k = digits-zero m b ∙ sym (digits-zero n b)
  digits_more m zero (suc a) b h k = absurd (omega arith)
  digits_more zero (suc n) (suc a) b h k = absurd (omega arith)
  digits_more (suc m) (suc n) (suc a) b h k =
      ap (λ d. d * 2 + f (suc a % 2) (b % 2))
        (digits_more m n (suc a / 2) (b / 2) (omega arith) (omega arith))

-- The lowest digit of `&`.
pub bit_and-digit : (a b : ℕ) → bit_and a b ≡ bit_and (a / 2) (b / 2) * 2 + min (a % 2) (b % 2)
bit_and-digit zero b = omega (arith, bit_and-bitwise 0 b, bit_and-bitwise 0 (b / 2))
bit_and-digit (suc a) b =
    let half = suc a / 2 in
    let same = digits_more (λ y. 0) min a half half (b / 2) (omega arith) (omega arith) in
    omega (arith, bit_and-bitwise (suc a) b, bit_and-bitwise half (b / 2), same)

-- The lowest digit of `|`.
pub bit_or-digit : (a b : ℕ) → bit_or a b ≡ bit_or (a / 2) (b / 2) * 2 + max (a % 2) (b % 2)
bit_or-digit zero b = omega (arith, bit_or-bitwise 0 b, bit_or-bitwise 0 (b / 2))
bit_or-digit (suc a) b =
    let half = suc a / 2 in
    let same = digits_more (λ y. y) max a half half (b / 2) (omega arith) (omega arith) in
    omega (arith, bit_or-bitwise (suc a) b, bit_or-bitwise half (b / 2), same)

-- `x << k`, `x >> k`, the mask of `k` ones, and the `k` low bits of a number.
abbrev pub up : ℕ → ℕ → ℕ
up zero x = x
up (suc k) x = up k x * 2

abbrev pub down : ℕ → ℕ → ℕ
down zero x = x
down (suc k) x = down k (x / 2)

abbrev pub ones : ℕ → ℕ
ones zero = 0
ones (suc k) = ones k * 2 + 1

abbrev pub low : ℕ → ℕ → ℕ
low zero x = 0
low (suc k) x = low k (x / 2) * 2 + x % 2

bit_and-zero_at : (n a : ℕ) → a ≤ n → bit_and a 0 ≡ 0
bit_and-zero_at n zero h = refl
bit_and-zero_at zero (suc a) h = absurd (omega arith)
bit_and-zero_at (suc n) (suc a) h =
    omega (arith, bit_and-digit (suc a) 0, bit_and-zero_at n (suc a / 2) (omega arith))

pub bit_and-zero : (a : ℕ) → bit_and a 0 ≡ 0
bit_and-zero a = bit_and-zero_at a a (omega arith)

zero_bit_and-at : (n b : ℕ) → b ≤ n → bit_and 0 b ≡ 0
zero_bit_and-at n zero h = refl
zero_bit_and-at zero (suc b) h = absurd (omega arith)
zero_bit_and-at (suc n) (suc b) h =
    omega (arith, bit_and-digit 0 (suc b), zero_bit_and-at n (suc b / 2) (omega arith))

pub zero_bit_and : (b : ℕ) → bit_and 0 b ≡ 0
zero_bit_and b = zero_bit_and-at b b (omega arith)

-- A mask of low bits leaves the low bits.
pub bit_and-ones : (k a : ℕ) → bit_and a (ones k) ≡ low k a
bit_and-ones zero a = bit_and-zero a
bit_and-ones (suc k) a =
    let half : (ones k * 2 + 1) / 2 ≡ ones k = omega arith in
    omega
      (arith, bit_and-digit a (ones k * 2 + 1), ap (bit_and (a / 2)) half, bit_and-ones k (a / 2))

half-double : (x : ℕ) → x * 2 / 2 ≡ x
half-double x = omega arith

-- A mask shifted up selects the bits above its shift.
pub bit_and-up : (s a m : ℕ) → bit_and a (up s m) ≡ up s (bit_and (down s a) m)
bit_and-up zero a m = refl
bit_and-up (suc s) a m =
    let digit = bit_and-digit a (up s m * 2) in
    let rest = bit_and-up s (a / 2) m in
    omega (arith, digit, ap (bit_and (a / 2)) (half-double (up s m)), rest)

bit_or-zero_at : (n a : ℕ) → a ≤ n → bit_or a 0 ≡ a
bit_or-zero_at n zero h = refl
bit_or-zero_at zero (suc a) h = absurd (omega arith)
bit_or-zero_at (suc n) (suc a) h =
    omega (arith, bit_or-digit (suc a) 0, bit_or-zero_at n (suc a / 2) (omega arith))

pub bit_or-zero : (a : ℕ) → bit_or a 0 ≡ a
bit_or-zero a = bit_or-zero_at a a (omega arith)

-- Bits above `k` and bits below it do not overlap.
pub bit_or-up : (k a b : ℕ) → b < up k 1 → bit_or (up k a) b ≡ up k a + b
bit_or-up zero a zero h = omega (arith, bit_or-zero a)
bit_or-up zero a (suc b) h = absurd (omega arith)
bit_or-up (suc k) a b h =
    let digit = bit_or-digit (up k a * 2) b in
    let rest = bit_or-up k a (b / 2) (omega arith) in
    omega (arith, digit, ap (λ x. bit_or x (b / 2)) (half-double (up k a)), rest)

-- The index masks of the rings.
pub bit_and-2047 : (n : ℕ) → bit_and n 2047 ≡ n % 2048
bit_and-2047 n = omega (arith, bit_and-ones 11 n)

-- `|` of a part above bit `k` and a part below it.
pub join : (k a b x y : ℕ) → x ≡ up k a → y ≡ b → b < up k 1 → bit_or x y ≡ up k a + b
join k a b x y ex ey h = rw (ex, ey) (bit_or-up k a b h)

pub bit_and-255 : (n : ℕ) → bit_and n 255 ≡ n % 256
bit_and-255 n = omega (arith, bit_and-ones 8 n)

-- A number is put together of a part above `k` bits and one below, and taken apart again.
pub down-up : (k a b : ℕ) → b < up k 1 → down k (up k a + b) ≡ a
down-up zero a b h = omega arith
down-up (suc k) a b h =
    let half : (up k a * 2 + b) / 2 ≡ up k a + b / 2 = omega arith in
    ap (down k) half ∙ down-up k a (b / 2) (omega arith)

pub low-up : (k a b : ℕ) → b < up k 1 → low k (up k a + b) ≡ b
low-up zero a b h = omega arith
low-up (suc k) a b h =
    let half : (up k a * 2 + b) / 2 ≡ up k a + b / 2 = omega arith in
    omega (arith, ap (low k) half, low-up k a (b / 2) (omega arith))

up-zero : (k : ℕ) → up k 0 ≡ 0
up-zero zero = refl
up-zero (suc k) = omega (arith, up-zero k)

pub low_small : (k b : ℕ) → b < up k 1 → low k b ≡ b
low_small k b h =
    let same : up k 0 + b ≡ b = omega (arith, up-zero k) in ap (low k) (sym same) ∙ low-up k 0 b h
