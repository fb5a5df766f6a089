-- ===== src/Hw/Stopping.antt =====
-- The three stop functions of src/hw/hw_init.c (stop_tx_channel, stop_rx_channel,
-- stop_rx_interface): the loop that polls the status register.
use pa6t_eth.Base.{ℕ, zero, suc, ◌≡◌, ◌<◌, refl, Bool, true, false, is_set, bit_and, arith}
use pa6t_eth.Machine.{World, read_dma_reg, write_dma_reg}
use pa6t_eth.Hw.Channels.{stop_poll}

-- After `n` reads of the register.
abbrev pub polled : ℕ → ℕ → World → World
polled reg zero w = w
polled reg (suc n) w = polled reg n (read_dma_reg reg w).1

-- The next read of the register shows the activity bit.
abbrev pub busy : ℕ → ℕ → World → Bool
busy reg act w = is_set (bit_and (read_dma_reg reg w).0 act)

-- When the first `n` reads of the status register show the activity bit and the next one does not,
-- within the tries, the stop loop reads the register no more, writes 0 to it and answers true.
pub stop_poll-stops :
    (tries n reg act : ℕ) (w : World)
    → n < tries
    → ((j : ℕ) → j < n → busy reg act (polled reg j w) ≡ true)
    → busy reg act (polled reg n w) ≡ false
    → stop_poll tries reg act w ≡ (true, (write_dma_reg reg 0 (polled reg (suc n) w)).1)
unfolding stop_poll
stop_poll-stops zero n reg act w l b i = absurd (omega arith)
stop_poll-stops (suc k) zero reg act w l b i = rw (i, stop_poll) refl
stop_poll-stops (suc k) (suc n) reg act w l b i =
    rw (b 0 (omega arith), stop_poll)
      (stop_poll-stops k n reg act (read_dma_reg reg w).1 (omega arith)
        (λ j h. b (suc j) (omega arith)) i)

-- When each of its reads shows the activity bit, the stop loop answers false after exactly as many
-- reads as it has tries, and writes nothing.
pub stop_poll-times_out :
    (tries reg act : ℕ) (w : World)
    → ((j : ℕ) → j < tries → busy reg act (polled reg j w) ≡ true)
    → stop_poll tries reg act w ≡ (false, polled reg tries w)
unfolding stop_poll
stop_poll-times_out zero reg act w b = refl
stop_poll-times_out (suc k) reg act w b =
    rw (b 0 (omega arith), stop_poll)
      (stop_poll-times_out k reg act (read_dma_reg reg w).1 (λ j h. b (suc j) (omega arith)))
