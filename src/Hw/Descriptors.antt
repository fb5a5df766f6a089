-- ===== src/Hw/Descriptors.antt =====
-- The descriptor words of src/hw/tx.c and src/hw/rx.c: what the hardware reads back from them.
use mathlib.Core.Path.{ap₂}
use pa6t_eth.Base.{ℕ, ◌+◌, ◌*◌, ◌%◌, ◌^◌, ◌≡◌, ◌<◌, ◌∙◌, ap, arith, bit_and, bit_or}
use pa6t_eth.Base.Bits.{up, ones, bit_and-ones, bit_and-up, bit_or-up, down-up, low-up, low_small}
use pa6t_eth.Regs.Shift.{shr}
use pa6t_eth.Regs.Xct.{
  xct_mactx_o, xct_mactx_llen, xct_mactx_llen_m, xct_mactx_llen_s, xct_ptr_len, xct_ptr_len_m,
  xct_ptr_len_s, xct_ptr_addr, xct_ptr_addr_m,
}
use pa6t_eth.Hw.Tx.{desc0, desc1}

-- A field of `k` bits from bit `s` on, of a word that is `n` there.
field :
    (s k a n b : ℕ)
    → b < up s 1
    → n < up k 1
    → bit_and (up s (up k a + n) + b) (up s (ones k)) ≡ up s n
field s k a n b h l =
    bit_and-up s (up s (up k a + n) + b) (ones k)
    ∙ ap (λ x. up s (bit_and x (ones k))) (down-up s (up k a + n) b h)
    ∙ ap (up s) (bit_and-ones k (up k a + n) ∙ low-up k a n l)

ptr_len-eq : (n : ℕ) → n < 2 ^ 19 → xct_ptr_len n ≡ up 44 n
ptr_len-eq n h =
    let shifted : n * 2 ^ 44 % 2 ^ 64 ≡ up 44 (up 19 0 + n) + 0 = omega arith in
    ap (λ x. bit_and x xct_ptr_len_m) shifted ∙ field 44 19 0 n 0 (omega arith) (omega arith)

ptr_addr-eq : (p : ℕ) → p < 2 ^ 32 → xct_ptr_addr p ≡ p
ptr_addr-eq p h =
    let shifted : p * 2 ^ 0 % 2 ^ 64 ≡ p = omega arith in
    ap (λ x. bit_and x xct_ptr_addr_m) shifted ∙ bit_and-ones 44 p ∙ low_small 44 p (omega arith)

desc1-eq : (n p : ℕ) → n < 2 ^ 19 → p < 2 ^ 32 → desc1 n p ≡ up 44 n + p
unfolding desc1
desc1-eq n p h k = ap₂ bit_or (ptr_len-eq n h) (ptr_addr-eq p k) ∙ bit_or-up 44 n p (omega arith)

llen-eq : (n : ℕ) → n < 2 ^ 15 → xct_mactx_llen n ≡ up 32 n
llen-eq n h =
    let shifted : n * 2 ^ 32 % 2 ^ 64 ≡ up 32 (up 15 0 + n) + 0 = omega arith in
    ap (λ x. bit_and x xct_mactx_llen_m) shifted ∙ field 32 15 0 n 0 (omega arith) (omega arith)

-- The flags of the first word are the bits 62, 58 and 54.
desc0-eq : (n : ℕ) → n < 2 ^ 15 → desc0 n ≡ up 54 273 + up 32 n
unfolding desc0
desc0-eq n h =
    ap (bit_or 0x4440000000000000) (llen-eq n h) ∙ bit_or-up 54 273 (up 32 n) (omega arith)

-- What the hardware reads back from the two words of a transmit descriptor. For a frame of less than
-- 2 ^ 15 bytes at a 32-bit bus address: the first word hands the descriptor over and has the frame's
-- length, and the second has the frame's length and the address.
pub desc-round_trip :
    (n p : ℕ)
    → n < 2 ^ 15
    → p < 2 ^ 32
    → (bit_and (desc0 n) xct_mactx_o ≡ xct_mactx_o)
      × (shr (bit_and (desc0 n) xct_mactx_llen_m) xct_mactx_llen_s ≡ n)
      × (shr (bit_and (desc1 n p) xct_ptr_len_m) xct_ptr_len_s ≡ n)
      × (bit_and (desc1 n p) xct_ptr_addr_m ≡ p)
desc-round_trip n p h k =
    let word0 = desc0-eq n h in
    let word1 = desc1-eq n p (omega arith) k in
    let first : up 54 273 + up 32 n ≡ up 58 (up 1 8 + 1) + (up 54 1 + up 32 n) = omega arith in
    let second : up 54 273 + up 32 n ≡ up 32 (up 15 (up 7 273) + n) + 0 = omega arith in
    let third : up 44 n + p ≡ up 44 (up 19 0 + n) + p = omega arith in
    (
      ap (λ x. bit_and x xct_mactx_o) (word0 ∙ first)
          ∙ field 58 1 8 1 (up 54 1 + up 32 n) (omega arith) (omega arith),
      ap (λ x. shr (bit_and x xct_mactx_llen_m) xct_mactx_llen_s) (word0 ∙ second)
          ∙ ap (λ x. shr x 32) (field 32 15 (up 7 273) n 0 (omega arith) (omega arith))
          ∙ omega arith,
      ap (λ x. shr (bit_and x xct_ptr_len_m) xct_ptr_len_s) (word1 ∙ third)
          ∙ ap (λ x. shr x 44) (field 44 19 0 n p (omega arith) (omega arith))
          ∙ omega arith,
      ap (λ x. bit_and x xct_ptr_addr_m) word1
          ∙ bit_and-ones 44 (up 44 n + p)
          ∙ low-up 44 n p (omega arith),
    )
