-- ===== src/Tests/Stopping.antt =====
-- Runs of the stop loop on a register that shows the activity bit, 2 here, in two reads or always.
use pa6t_eth.Base.{ℕ, zero, suc, ◌≡◌, ◌<◌, refl, [], true, false, length, ltb, if◌then◌else◌, arith}
use pa6t_eth.Machine.{World, write_dma_reg, ◌>>=◌}
use pa6t_eth.Hw.Channels.{stop_poll}
use pa6t_eth.Hw.Stopping.{polled, busy, stop_poll-stops, stop_poll-times_out}
use pa6t_eth.Fixture.{idle}

abbrev stopping : World
stopping = record idle { trace = []; env = λ calls k. if ltb (length calls) 2 then 2 else 0 }

stopping-busy : (j : ℕ) → j < 2 → busy 8 2 (polled 8 j stopping) ≡ true
unfolding ◌>>=◌
stopping-busy zero l = refl
stopping-busy (suc zero) l = refl
stopping-busy (suc (suc j)) l = absurd (omega arith)

stop_poll-stops_example :
    stop_poll 5 8 2 stopping ≡ (true, (write_dma_reg 8 0 (polled 8 3 stopping)).1)
unfolding ◌>>=◌
stop_poll-stops_example = stop_poll-stops 5 2 8 2 stopping (omega arith) stopping-busy refl

abbrev stuck : World
stuck = record idle { env = λ calls k. 2 }

stuck-busy : (j : ℕ) (w : World) → w.env ≡ stuck.env → busy 8 2 (polled 8 j w) ≡ true
unfolding ◌>>=◌
stuck-busy zero w e = rw e refl
stuck-busy (suc j) w e = stuck-busy j _ e

stop_poll-times_out_example : stop_poll 50000 8 2 stuck ≡ (false, polled 8 50000 stuck)
stop_poll-times_out_example = stop_poll-times_out 50000 8 2 stuck (λ j l. stuck-busy j stuck refl)
