-- ===== src/Hw/Frames.antt =====
-- The length of the frame that src/hw/tx.c builds for a payload, and what it does with one too long.
use pa6t_eth.Base.{ℕ, ◌+◌, ◌-◌, ◌^◌, ◌≡◌, ◌≤◌, ◌<◌, false, ltb, arith}
use pa6t_eth.Machine.Structs.{eth_max_frame}
use pa6t_eth.Hw.Tx.{tx_frame_len}

-- A payload of the last 14 lengths of a `uint32` is taken for a frame of 60 bytes: it passes the
-- test of the longest frame, and the hook is asked for more than the buffer holds.
pub tx_frame_len-wraps :
    (pay_len : ℕ)
    → 2 ^ 32 - 14 ≤ pay_len
    → pay_len < 2 ^ 32
    → (tx_frame_len pay_len ≡ 60)
      × (ltb eth_max_frame (tx_frame_len pay_len) ≡ false)
      × (tx_frame_len pay_len < 14 + pay_len)
unfolding tx_frame_len
tx_frame_len-wraps n h k = (ground arith, ground arith, ground arith)
