-- ===== src/Memory/Buffers.antt =====
-- PA6TEth_PostRxBuffers of src/hw/rx.c: a receive buffer is freed, or it stands in the array.
use pa6t_eth.Base.{
  ℕ, zero, suc, ◌+◌, ◌<◌, ◌≤◌, ◌≡◌, ◌∙◌, refl, ap, Bool, false, Bool-cases, inl, inr, is_set, arith,
  ==_refl,
}
use pa6t_eth.Machine.{World, M, pure, call, ◌>>=◌}
use pa6t_eth.Machine.Structs.{EthUnit, num_rx_bufs}
use pa6t_eth.Machine.Calls.{Device, alloc_vec}
use pa6t_eth.Machine.Triples.{Takes, Keeps, Takes-before, Takes-bind}
use pa6t_eth.Machine.Plain.{MemSafe, Kept, kept, mem_rules}
use pa6t_eth.Rx.Post.{
  enable_rx, enable_iob, enable_master, post_and_credit, start_receiver, post_rx_buffers,
  alloc_rx_buf, alloc_rx_bufs, map_rx_buf, give_up_buf, set_rx_buf, post_buffers, post_buffer,
  clear_rings,
}
use pa6t_eth.Memory.{Holds, Holds-MemSafe, is_at, allocs, frees, stored-update, zero_is_at}

-- The account, with what stands at an index of the array.
record Slot (a s b i p : ℕ) (w : World) : Type 0 where
  holds : Holds a s b w
  slot : w.unit.rx_bufs i ≡ p

abbrev slot_of : ℕ → Kept → ℕ
slot_of i k = k.rx_bufs i

instance Slot-MemSafe : {a s b i p : ℕ} → MemSafe (Slot a s b i p)
Slot-MemSafe {a} {s} {b} {i} = record {
  on_rest = λ w v e k t h. record {
    holds = Holds-MemSafe.on_rest w v e k t h.holds;
    slot = ap (slot_of i) e ∙ h.slot;
  };
  on_call = λ c p w v m e k t h. record {
    holds = Holds-MemSafe.on_call c p w v m e k t h.holds;
    slot = ap (slot_of i) e ∙ h.slot;
  };
}

module _ {a s i : ℕ} (l : 0 < a) (k : i < 512) where
  Slot-pure : {p : ℕ} (x : Bool) → Takes (Slot a s 0 i p) (Holds a s 0) (pure x)
  unfolding ◌>>=◌
  Slot-pure x = record { at = λ w h. h.holds }

  -- The buffer that the code has takes the place of none.
  set_rx_buf-Slot : (p : ℕ) → Takes (Slot a s (is_at p a) i 0) (Slot a s 0 i p) (set_rx_buf i p)
  unfolding set_rx_buf ◌>>=◌
  set_rx_buf-Slot p = record {
    at = λ w h.
        let was = ap (λ x. is_at x a) h.slot in
        let moved = stored-update a 512 i p w.unit.rx_bufs k in
        record {
          holds = record { balance = omega (arith, h.holds.balance, was, moved, zero_is_at a l) };
          slot = rw (==_refl i) refl;
        };
  }

  give_up_buf-Slot : (p : ℕ) → Takes (Slot a s 0 i p) (Holds a s 0) (give_up_buf i p)
  unfolding give_up_buf set_rx_buf ◌>>=◌ allocs frees
  give_up_buf-Slot p = record {
    at = λ w h.
        let was = ap (λ x. is_at x a) h.slot in
        let moved = stored-update a 512 i 0 w.unit.rx_bufs k in
        record { balance = omega (arith, h.holds.balance, was, moved, zero_is_at a l) };
  }

  map_rx_buf-Slot : (p n : ℕ) → Takes (Slot a s 0 i p) (Holds a s 0) (map_rx_buf i p n)
  unfolding map_rx_buf
  map_rx_buf-Slot p n =
      search (Takes-before, mem_rules, give_up_buf-Slot, Slot-pure) depth 24 fits 4000

  Slot-alloc :
      {B : Type 0} (n : ℕ) (f : ℕ → M B)
      → ((p : ℕ) → Takes (Slot a s (is_at p a) i 0) (Holds a s 0) (f p))
      → Takes (Slot a s 0 i 0) (Holds a s 0) (call (alloc_vec n) >>= f)
  unfolding ◌>>=◌ allocs frees
  Slot-alloc n f g = record {
    at = λ w h.
        (g (w.env w.trace (alloc_vec n))).at _
          (record { holds = record { balance = omega (arith, h.holds.balance) }; slot = h.slot });
  }

  alloc_rx_buf-Slot : Takes (Slot a s 0 i 0) (Holds a s 0) (alloc_rx_buf i)
  unfolding alloc_rx_buf
  alloc_rx_buf-Slot = Slot-alloc _ _ (λ p. Takes-bind _ _ (set_rx_buf-Slot p) (λ _.
      search (Takes-before, mem_rules, map_rx_buf-Slot, give_up_buf-Slot, Slot-pure) depth 24 fits
        4000))

null_of : (p : ℕ) → is_set p ≡ false → p ≡ 0
null_of p e = ground arith

clear_rings-kept : (u : EthUnit) → kept (clear_rings u) ≡ kept u
unfolding clear_rings
clear_rings-kept u = refl

post_buffer-kept : (n : ℕ) (u : EthUnit) → kept (post_buffer n u) ≡ kept u
unfolding post_buffer
post_buffer-kept n u = elim (Bool-cases (is_set (u.rx_bufs_phys n))) [
  | inl e ↦ rw e refl
  | inr e ↦ rw e refl
]

post_buffers-kept : (n : ℕ) (u : EthUnit) → kept (post_buffers n u) ≡ kept u
unfolding post_buffers
post_buffers-kept zero u = refl
post_buffers-kept (suc n) u = post_buffer-kept n (post_buffers n u) ∙ post_buffers-kept n u

module _ {P : World → Type 0} ⦃s : MemSafe P⦄ where
  enable_rx-mem : Keeps P enable_rx
  unfolding enable_rx
  enable_rx-mem = search mem_rules depth 20 fits 4000

  enable_master-mem : (d : Device) → Keeps P (enable_master d)
  unfolding enable_master
  enable_master-mem d = search mem_rules depth 20 fits 4000

  enable_iob-mem : Keeps P enable_iob
  unfolding enable_iob
  enable_iob-mem = search mem_rules depth 24 fits 4000

  post_and_credit-mem : Keeps P post_and_credit
  unfolding post_and_credit
  post_and_credit-mem = search (mem_rules, post_buffers-kept) depth 24 fits 4000

  start_receiver-mem : Keeps P start_receiver
  unfolding start_receiver
  start_receiver-mem =
      search
        (
          mem_rules, enable_rx-mem, enable_master-mem, enable_iob-mem, post_and_credit-mem,
          clear_rings-kept,
        )
        depth 24 fits 4000

module _ {a s : ℕ} (l : 0 < a) where
  alloc_rx_bufs-Holds :
      (k i n : ℕ) (w : World) → i + k ≤ 512 → Holds a s 0 w → Holds a s 0 (alloc_rx_bufs k i n w).1
  unfolding alloc_rx_bufs
  alloc_rx_bufs-Holds zero i n w b h = h
  alloc_rx_bufs-Holds (suc k) i n w b h = elim (Bool-cases (is_set (w.unit.rx_bufs i))) [
    | inl e ↦ rw (e, alloc_rx_bufs) (alloc_rx_bufs-Holds k (i + 1) n w (omega arith) h)
    | inr e ↦
        let inside : i < 512 = omega arith in
        let empty = null_of (w.unit.rx_bufs i) e in
        let after = (alloc_rx_buf-Slot l inside).at w (record { holds = h; slot = empty }) in
        elim (Bool-cases (alloc_rx_buf i w).0) [
          | inl f ↦
              rw (e, f, alloc_rx_bufs) (alloc_rx_bufs-Holds k (i + 1) (n + 1) _ (omega arith) after)
          | inr f ↦ rw (e, f, alloc_rx_bufs) after
        ]
  ]

  all_bufs-Holds : Keeps (Holds a s 0) (alloc_rx_bufs num_rx_bufs 0 0)
  all_bufs-Holds = record { at = λ w h. alloc_rx_bufs-Holds num_rx_bufs 0 0 w (omega arith) h }

  pub post_rx_buffers-Holds : Keeps (Holds a s 0) post_rx_buffers
  unfolding post_rx_buffers
  post_rx_buffers-Holds = search (mem_rules, all_bufs-Holds, start_receiver-mem) depth 24 fits 4000
