-- ===== src/Regs/Shift.antt =====
-- Shifts of the unsigned C types: what leaves the word is lost.
use pa6t_eth.Base.{ℕ, ◌*◌, ◌/◌, ◌%◌, ◌^◌}

abbrev pub shl64 : ℕ → ℕ → ℕ
shl64 x s = x * 2 ^ s % 2 ^ 64

abbrev pub shl32 : ℕ → ℕ → ℕ
shl32 x s = x * 2 ^ s % 2 ^ 32

abbrev pub shr : ℕ → ℕ → ℕ
shr x s = x / 2 ^ s
