-- ===== src/Rx/Short.antt =====
-- PA6TEth_PostRxBuffers of src/hw/rx.c when it could not allocate all of its buffers.
use mathlib.Core.Bool.{false≢true}
use pa6t_eth.Base.{
  ℕ, zero, suc, ◌≡◌, ◌≢◌, ◌<◌, ◌∙◌, refl, sym, true, false, is_set, ◌&&◌, ltb, ==_ne, Bool-cases,
  inl, inr, arith, update, ◌%◌, ◌^◌,
}
use pa6t_eth.Machine.{World, ◌>>=◌}
use pa6t_eth.Machine.Triples.{Takes}
use pa6t_eth.Machine.OnUnit.{OnUnit}
use pa6t_eth.Machine.Structs.{EthUnit, num_rx_bufs}
use pa6t_eth.Rx.Process.{rxb_word}
use pa6t_eth.Rx.Post.{
  clear_rings, post_buffer, post_buffers, start_receiver, post_rx_buffers, alloc_rx_bufs,
}
use pa6t_eth.Rx.Starting.{start_receiver-OnUnit}

-- The slots of the buffers that have no address are empty.
record Sparse (u : EthUnit) : Type 0 where
  unmapped : (j : ℕ) → j < 512 → is_set (u.rx_bufs_phys j) ≡ false → u.rx_buff j ≡ 0

-- The slots of the buffers that have no address are empty, and the write pointer is behind all.
pub record Short (u : EthUnit) : Type 0 where
  pub unmapped : (j : ℕ) → j < 512 → is_set (u.rx_bufs_phys j) ≡ false → u.rx_buff j ≡ 0
  pub write_ptr : u.rx_buf_write_ptr ≡ 512

record AnyUnit (u : EthUnit) : Type 0 where

clear_rings-Sparse : (u : EthUnit) → AnyUnit u → Sparse (clear_rings u)
unfolding clear_rings
clear_rings-Sparse u a = record {
  unmapped = λ j b n. let inside : ltb j 2048 ≡ true = ground arith in rw inside refl;
}

store-Sparse :
    (k x y : ℕ) (u : EthUnit)
    → is_set (u.rx_bufs_phys k) ≡ true
    → Sparse u
    → Sparse (record u { rx_buff = update u.rx_buff k x; rx_slot_buf = update u.rx_slot_buf k y })
store-Sparse k x y u m s = record {
  unmapped = λ j b n.
      let other : k ≢ j = λ e. false≢true (sym n ∙ rw (sym e) m) in
      rw (==_ne k j other) (s.unmapped j b n);
}

post_buffer-Sparse : (k : ℕ) (u : EthUnit) → Sparse u → Sparse (post_buffer k u)
unfolding post_buffer
post_buffer-Sparse k u s = elim (Bool-cases (is_set (u.rx_bufs_phys k))) [
  | inl m ↦ rw m (store-Sparse k (rxb_word u k) (k % 2 ^ 16) u m s)
  | inr m ↦ rw m s
]

post_buffers-Sparse : (k : ℕ) (u : EthUnit) → Sparse u → Sparse (post_buffers k u)
unfolding post_buffers
post_buffers-Sparse zero u s = s
post_buffers-Sparse (suc k) u s =
    post_buffer-Sparse k (post_buffers k u) (post_buffers-Sparse k u s)

load_rings-Short :
    (u : EthUnit)
    → Sparse u
    → Short (record (post_buffers num_rx_bufs u) { rx_buf_write_ptr = num_rx_bufs })
load_rings-Short u s = record {
  unmapped = (post_buffers-Sparse num_rx_bufs u s).unmapped;
  write_ptr = refl;
}

next_clean-Short : (u : EthUnit) → Short u → Short (record u { rx_next_clean = 0 })
next_clean-Short u s = record { unmapped = s.unmapped; write_ptr = s.write_ptr }

start_receiver-Short : Takes (OnUnit AnyUnit) (OnUnit Short) start_receiver
start_receiver-Short = start_receiver-OnUnit load_rings-Short clear_rings-Sparse next_clean-Short

-- With both rings there and at least one buffer allocated, PA6TEth_PostRxBuffers puts the write
-- pointer to 512, however few buffers were allocated; the slot of each buffer that has no address
-- is empty.
pub post_rx_buffers-Short :
    (w : World)
    → (is_set w.unit.rx_buf_ring && is_set w.unit.rx_ring) ≡ true
    → is_set (alloc_rx_bufs num_rx_bufs 0 0 w).0 ≡ true
    → Short (post_rx_buffers w).1.unit
unfolding post_rx_buffers ◌>>=◌
post_rx_buffers-Short w r a =
    rw (r, a)
      (start_receiver-Short.at (alloc_rx_bufs num_rx_bufs 0 0 w).1
        (record { holds = record {} })).holds
