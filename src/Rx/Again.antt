-- ===== src/Rx/Again.antt =====
-- PA6TEth_PostRxBuffers of src/hw/rx.c when all buffers are there already.
use pa6t_eth.Base.{
  ℕ, zero, suc, ◌+◌, ◌≡◌, ◌≤◌, ◌<◌, refl, true, ◌&&◌, Bool-cases, inl, inr, arith, is_set,
}
use pa6t_eth.Machine.{World, ◌>>=◌}
use pa6t_eth.Machine.Structs.{num_rx_bufs}
use pa6t_eth.Rx.Post.{post_rx_buffers, alloc_rx_bufs}

alloc_rx_bufs-again :
    (k i n : ℕ) (w : World)
    → ((j : ℕ) → i ≤ j → j < i + k → is_set (w.unit.rx_bufs j) ≡ true)
    → alloc_rx_bufs k i n w ≡ (n, w)
unfolding alloc_rx_bufs
alloc_rx_bufs-again zero i n w h = refl
alloc_rx_bufs-again (suc k) i n w h =
    rw (alloc_rx_bufs, h i (omega arith) (omega arith))
      (alloc_rx_bufs-again k (i + 1) n w (λ j a b. h j (omega arith) (omega arith)))

-- When each of the 512 buffers is allocated already, PA6TEth_PostRxBuffers does nothing: it posts no
-- buffer, writes no register and makes no call at all.
pub post_rx_buffers-again :
    (w : World)
    → ((j : ℕ) → j < num_rx_bufs → is_set (w.unit.rx_bufs j) ≡ true)
    → (post_rx_buffers w).1 ≡ w
unfolding post_rx_buffers ◌>>=◌
post_rx_buffers-again w h =
    let none_new = alloc_rx_bufs-again num_rx_bufs 0 0 w (λ j a b. h j b) in
    elim (Bool-cases (is_set w.unit.rx_buf_ring && is_set w.unit.rx_ring)) [
      | inl e ↦ rw (e, none_new) refl
      | inr e ↦ rw e refl
    ]
