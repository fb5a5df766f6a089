-- ===== src/Tests/Ring.antt =====
-- Runs on the receive ring at concrete inputs.
use mathlib.Core.Bool.{false≢true}
use pa6t_eth.Base.{
  ℕ, zero, suc, ◌+◌, ◌*◌, ◌%◌, ◌≡◌, ◌<◌, ◌∙◌, refl, sym, List, [], ◌∷◌, ◌-◌, true, false, ap,
  is_set, bit_and, arith, length, ltb, if◌then◌else◌,
}
use pa6t_eth.Base.Bits.{bit_and-2047}
use pa6t_eth.Regs.Xct.{xct_macrx_o}
use pa6t_eth.Machine.{World, store_bytes, ◌>>=◌}
use pa6t_eth.Machine.Structs.{rx_index}
use pa6t_eth.Rx.Process.{
  process_rx, rx_loop, rx_fuel, rx_start, ring_slot, owned, rxb_word, rx_accept,
}
use pa6t_eth.Rx.Post.{
  post_rx_buffers, alloc_rx_bufs, alloc_rx_buf, map_rx_buf, give_up_buf, set_rx_buf,
}
use pa6t_eth.Rx.Batch.{Received, process_rx-Received}
use pa6t_eth.Rx.Allocated.{post_rx_buffers-Armed}
use pa6t_eth.Rx.Starting.{Armed}
use pa6t_eth.Rx.Short.{Short, post_rx_buffers-Short}
use pa6t_eth.Rx.Header.{Told, header-round_trip}
use pa6t_eth.Requests.{read_list_of}
use pa6t_eth.Hw.Tx.{eth_header}
use pa6t_eth.Rx.Rounds.{position}
use pa6t_eth.Device.Start.{new_unit}
use pa6t_eth.Fixture.{unit, idle, busy}

-- Two buffers are posted, and the frame is in the first.
abbrev posted_two : World
posted_two = record idle {
  unit = record unit { rx_slot_buf = λ i. i; rx_buff = λ i. rxb_word unit i; rx_buf_write_ptr = 2 };
}

posted_two-InOrder :
    (j : ℕ)
    → j < 512
    → owned posted_two.unit (position 0 j) ≡ true
    → ring_slot posted_two.unit (position 0 j) ≡ (0 + j) % 2048
unfolding ring_slot
posted_two-InOrder zero l o = refl
posted_two-InOrder (suc j) l o =
    let index : rx_index (position 0 (suc j)) ≡ 4 * suc j =
      bit_and-2047 (position 0 (suc j)) ∙ omega arith in
    let empty : unit.rx_desc (4 * suc j) ≡ 0 = ground arith in
    let not_owned : owned posted_two.unit (position 0 (suc j)) ≡ false =
      ap (λ i. is_set (bit_and (unit.rx_desc i) xct_macrx_o)) index
      ∙ ap (λ d. is_set (bit_and d xct_macrx_o)) empty in
    absurd (false≢true (sym not_owned ∙ o))

process_rx-Received_example :
    Received 0 0
      (0 ∷ 1 ∷ [])
      (rx_loop rx_fuel (rx_start posted_two.unit) posted_two).0.count
      (process_rx posted_two).1
unfolding new_unit
process_rx-Received_example =
    process_rx-Received posted_two 0 (0 ∷ 1 ∷ []) refl (omega arith) (omega arith)
      (record {
        in_ring = omega arith;
        few = omega arith;
        write_ptr = refl;
        slots = refl;
        words = refl;
        buffers = refl;
      })
      (record { names = λ j a. posted_two-InOrder j })

-- No buffer is allocated yet.
abbrev unarmed : World
unarmed = record idle { unit = record unit { rx_bufs = λ i. 0; rx_bufs_phys = λ i. 0 } }

unarmed-alloc : (alloc_rx_bufs 512 0 0 unarmed).0 ≡ 512
unfolding alloc_rx_bufs alloc_rx_buf map_rx_buf give_up_buf set_rx_buf ◌>>=◌ new_unit
unarmed-alloc = refl

post_rx_buffers-Armed_example : Armed (post_rx_buffers unarmed).1.unit
post_rx_buffers-Armed_example = post_rx_buffers-Armed unarmed refl unarmed-alloc

-- The same, but the calls succeed only while fewer than forty are made: eight buffers are allocated.
abbrev exhausted : World
exhausted = record unarmed { env = λ calls k. if ltb (length calls) 40 then 1 else 0 }

exhausted-alloc : (alloc_rx_bufs 512 0 0 exhausted).0 ≡ 8
unfolding alloc_rx_bufs alloc_rx_buf map_rx_buf give_up_buf set_rx_buf ◌>>=◌ new_unit
exhausted-alloc = refl

post_rx_buffers-Short_example : Short (post_rx_buffers exhausted).1.unit
post_rx_buffers-Short_example = post_rx_buffers-Short exhausted refl (ap is_set exhausted-alloc)

-- A frame of 100 bytes to the six bytes of `to_addr`, in the buffer at 8192; request 1 reads IPv4.
abbrev to_addr : List ℕ
to_addr = 1 ∷ 2 ∷ 3 ∷ 4 ∷ 5 ∷ 6 ∷ []

abbrev from_addr : List ℕ
from_addr = 0 ∷ 255 ∷ 0 ∷ 255 ∷ 0 ∷ 255 ∷ []

header-round_trip_example :
    Told 1 to_addr from_addr
      (100 - 14)
      78
      (rx_accept 0 8192 100 (store_bytes 8192 (eth_header to_addr from_addr 0x0800) busy).1).1.reqs
unfolding read_list_of
header-round_trip_example =
    header-round_trip to_addr from_addr 0x0800 8192 0 100 (record { at = 700; ioreq = 1 }) [] busy
      refl refl (omega arith) (omega arith) (omega arith) refl
