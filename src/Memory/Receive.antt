-- ===== src/Memory/Receive.antt =====
-- PA6TEth_ProcessRX of src/hw/rx.c: the wrapper of the read that gets a frame is freed.
use pa6t_eth.Base.{
  ℕ, zero, suc, ◌≡◌, refl, List, [], ◌∷◌, Bool, true, Option, none, some, Bool-cases, inl, inr,
  arith,
}
use pa6t_eth.Machine.{World, ◌>>=◌}
use pa6t_eth.Machine.Triples.{Keeps}
use pa6t_eth.Machine.Plain.{MemSafe, mem_rules}
use pa6t_eth.Machine.Structs.{EthUnit, PendingRead, Opener}
use pa6t_eth.Requests.{ReadList, read_list, read_list_of}
use pa6t_eth.Rx.Deliver.{
  RxFrame, no_buffer, run_copy_hook, copy_with, finish_read, deliver_to, deliver_read,
  deliver_orphan, count_drop, offer_orphan, offer_read, dispatch_frame, take_orphan,
}
use pa6t_eth.Rx.Process.{
  RxBatch, next_desc, clear_desc, repost, rx_finish, rx_accept, rx_frame, Verdict, drop, accept,
  rx_packet, rx_loop, process_rx, owned,
}
use pa6t_eth.Memory.{Holds, Holds-MemSafe, allocs, frees}
use pa6t_eth.Memory.Reads.{held-take}

module _ {P : World → Type 0} ⦃s : MemSafe P⦄ where
  no_buffer-mem : (q : ℕ) → Keeps P (no_buffer q)
  unfolding no_buffer
  no_buffer-mem q = search mem_rules depth 20 fits 4000

  run_copy_hook-mem : (f : RxFrame) (q cookie hook : ℕ) → Keeps P (run_copy_hook f q cookie hook)
  unfolding run_copy_hook
  run_copy_hook-mem f q cookie hook = search (mem_rules, no_buffer-mem) depth 20 fits 4000

  copy_with-mem :
      (strict : Bool) (f : RxFrame) (q cookie : ℕ) (op : Option Opener)
      → Keeps P (copy_with strict f q cookie op)
  unfolding copy_with
  copy_with-mem strict f q cookie none = search mem_rules depth 20 fits 4000
  copy_with-mem strict f q cookie (some op) =
      search (mem_rules, no_buffer-mem, run_copy_hook-mem) depth 20 fits 4000

  count_drop-mem : Keeps P count_drop
  unfolding count_drop
  count_drop-mem = search mem_rules depth 20 fits 4000

  finish_read-mem : (q cookie : ℕ) → Keeps P (finish_read q cookie)
  unfolding finish_read
  finish_read-mem q cookie = search mem_rules depth 20 fits 4000

  deliver_to-mem : (strict : Bool) (f : RxFrame) (q : ℕ) → Keeps P (deliver_to strict f q)
  unfolding deliver_to
  deliver_to-mem strict f q = search (mem_rules, copy_with-mem, finish_read-mem) depth 20 fits 4000

  deliver_read-mem : (f : RxFrame) (q : ℕ) → Keeps P (deliver_read f q)
  unfolding deliver_read
  deliver_read-mem f q = deliver_to-mem true f q

  deliver_orphan-mem : (f : RxFrame) (q : ℕ) → Keeps P (deliver_orphan f q)
  unfolding deliver_orphan
  deliver_orphan-mem f q = search (mem_rules, deliver_to-mem) depth 20 fits 4000

  offer_orphan-mem : (f : RxFrame) (o : Option (ℕ × List ℕ)) → Keeps P (offer_orphan f o)
  unfolding offer_orphan
  offer_orphan-mem f none = search (mem_rules, count_drop-mem) depth 20 fits 4000
  offer_orphan-mem f (some (q, rest)) = search (mem_rules, deliver_orphan-mem) depth 20 fits 4000

  next_desc-mem : (b : RxBatch) (slot buf : ℕ) → Keeps P (next_desc b slot buf)
  unfolding next_desc clear_desc repost
  next_desc-mem b slot buf = search mem_rules depth 20 fits 4000

  rx_finish-mem : (b : RxBatch) → Keeps P (rx_finish b)
  unfolding rx_finish
  rx_finish-mem b = search mem_rules depth 20 fits 4000

module _ {a s : ℕ} where
  offer_read-Holds :
      (f : RxFrame) (j : ReadList) (l : List PendingRead) (w : World)
      → read_list j w.unit ≡ l
      → Holds a s 0 w
      → Holds a s 0 (offer_read f j l w).1
  unfolding offer_read ◌>>=◌ allocs frees
  offer_read-Holds f j [] w e h =
      (offer_orphan-mem {P = Holds a s 0} f (take_orphan w.reqs w.unit.event_list)).at w h
  offer_read-Holds f j (pr ∷ rest) w e h =
      (deliver_read-mem {P = Holds a s 0} f pr.ioreq).at _
        (record { balance = omega (arith, held-take a j pr rest w.unit e, h.balance) })

  dispatch_frame-Holds : (f : RxFrame) → Keeps (Holds a s 0) (dispatch_frame f)
  unfolding dispatch_frame ◌>>=◌ allocs frees
  dispatch_frame-Holds f = record {
    at = λ w h.
        let j = read_list_of f.ether_type in
        offer_read-Holds f j (read_list j w.unit) _ refl
          (record { balance = omega (arith, h.balance) });
  }

  rx_accept-Holds : (m p n : ℕ) → Keeps (Holds a s 0) (rx_accept m p n)
  unfolding rx_accept
  rx_accept-Holds m p n = search (mem_rules, dispatch_frame-Holds) depth 20 fits 4000

  rx_frame-Holds : (u : EthUnit) (n : ℕ) (v : Verdict) → Keeps (Holds a s 0) (rx_frame u n v)
  unfolding rx_frame
  rx_frame-Holds u n drop = count_drop-mem
  rx_frame-Holds u n (accept len) = rx_accept-Holds _ _ len

  rx_packet-Holds : (b : RxBatch) → Keeps (Holds a s 0) (rx_packet b)
  unfolding rx_packet
  rx_packet-Holds b = search (mem_rules, rx_frame-Holds, next_desc-mem) depth 20 fits 4000

  rx_loop-Holds : (fuel : ℕ) (b : RxBatch) → Keeps (Holds a s 0) (rx_loop fuel b)
  unfolding rx_loop
  rx_loop-Holds zero b = record { at = λ w h. h }
  rx_loop-Holds (suc fuel) b = record {
    at = λ w h. elim (Bool-cases (owned w.unit b.n)) [
      | inl e ↦ rw (e, rx_loop) ((rx_loop-Holds fuel _).at _ ((rx_packet-Holds b).at w h))
      | inr e ↦ rw (e, rx_loop) h
    ];
  }

  pub process_rx-Holds : Keeps (Holds a s 0) process_rx
  unfolding process_rx
  process_rx-Holds = search (mem_rules, rx_loop-Holds, rx_finish-mem) depth 20 fits 4000
