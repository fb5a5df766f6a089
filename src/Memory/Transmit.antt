-- ===== src/Memory/Transmit.antt =====
-- PA6TEth_TransmitPacket of src/hw/tx.c: the buffer of a frame is freed on each way out, or it is
-- the one that is pending, and the one that was pending before is freed.
use pa6t_eth.Base.{
  ℕ, zero, suc, ◌+◌, ◌<◌, ◌≡◌, ◌∙◌, refl, ap, ◌%◌, ◌^◌, Bool-cases, inl, inr, is_set, arith,
  if◌then◌else◌,
}
use pa6t_eth.Machine.{World, call_, modify_unit, pasemi_wmb, ◌>>=◌, ◌>>◌}
use pa6t_eth.Machine.Triples.{Takes, Keeps, Takes-before, Takes-after, Takes-bind}
use pa6t_eth.Machine.Plain.{MemSafe, Kept, mem_rules}
use pa6t_eth.Machine.Structs.{IoError}
use pa6t_eth.Machine.Calls.{free_vec, end_dma}
use pa6t_eth.Hw.Tx.{
  store_desc, tx_owned, tx_poll, tx_wait, tx_cleanup_pending, tx_submit, tx_reply, tx_done,
  tx_abandon, tx_map, tx_copy, tx_fill_buffer, tx_alloc, transmit_packet, from_ram_done,
}
use pa6t_eth.Memory.{
  Holds, is_at, allocs, frees, Holds-MemSafe, Holds-alloc, Holds-free, Holds-if_set, zero_is_at,
}

module _ {P : World → Type 0} ⦃s : MemSafe P⦄ where
  store_desc-mem : (n v : ℕ) → Keeps P (store_desc n v)
  unfolding store_desc
  store_desc-mem n v = search mem_rules depth 20 fits 4000

  tx_owned-mem : (n : ℕ) → Keeps P (tx_owned n)
  tx_owned-mem n = search mem_rules depth 20 fits 4000

  tx_poll-mem : (tries n : ℕ) → Keeps P (tx_poll tries n)
  unfolding tx_poll
  tx_poll-mem zero n = record { at = λ w h. h }
  tx_poll-mem (suc tries) n = record {
    at = λ w h. elim (Bool-cases (tx_owned n w).0) [
      | inl e ↦ rw (e, tx_poll) ((tx_poll-mem tries n).at _ ((tx_owned-mem n).at w h))
      | inr e ↦ rw (e, tx_poll) ((tx_owned-mem n).at w h)
    ];
  }

  tx_wait-mem : (n : ℕ) → Keeps P (tx_wait n)
  unfolding tx_wait
  tx_wait-mem n = search (mem_rules, tx_poll-mem, tx_owned-mem) depth 20 fits 4000

  pub tx_reply-mem : (q : ℕ) (e : IoError) (v : ℕ) → Keeps P (tx_reply q e v)
  unfolding tx_reply
  tx_reply-mem q e v = search mem_rules depth 20 fits 4000

  tx_done-mem : (q : ℕ) → Keeps P (tx_done q)
  unfolding tx_done
  tx_done-mem q = search (mem_rules, tx_reply-mem) depth 20 fits 4000

-- The account, with the buffer that is pending.
record Pending (a s b p : ℕ) (w : World) : Type 0 where
  holds : Holds a s b w
  pending : w.unit.tx_buf_pending ≡ p

abbrev pending_of : Kept → ℕ
pending_of k = k.tx_buf_pending

instance Pending-MemSafe : {a s b p : ℕ} → MemSafe (Pending a s b p)
Pending-MemSafe {a} {s} {b} = record {
  on_rest = λ w v e k t h. record {
    holds = Holds-MemSafe.on_rest w v e k t h.holds;
    pending = ap pending_of e ∙ h.pending;
  };
  on_call = λ c p w v m e k t h. record {
    holds = Holds-MemSafe.on_call c p w v m e k t h.holds;
    pending = ap pending_of e ∙ h.pending;
  };
}

module _ {a s b : ℕ} (l : 0 < a) where
  -- The buffer that was pending is freed, and forgotten.
  forget_pending :
      (p : ℕ)
      → Takes
          (Pending a s b p)
          (Pending a s b 0)
          (call_ (free_vec p) >>= λ _. modify_unit (λ v. record v { tx_buf_pending = 0 }))
  unfolding ◌>>=◌ allocs frees
  forget_pending p = record {
    at = λ w h.
        let e = ap (λ x. is_at x a) h.pending in
        record {
          holds = record { balance = omega (arith, h.holds.balance, e, zero_is_at a l) };
          pending = refl;
        };
  }

  cleanup :
      (p len fill : ℕ)
      → Takes (Pending a s b p) (Pending a s b 0) (do
        tx_wait fill
        store_desc fill 0
        store_desc ((fill + 1) % 2 ^ 32) 0
        pasemi_wmb
        call_ (end_dma p len from_ram_done)
        call_ (free_vec p)
        modify_unit (λ v. record v { tx_buf_pending = 0 }))
  cleanup p len fill =
      search (Takes-before, mem_rules, tx_wait-mem, store_desc-mem, forget_pending) depth 24 fits
        4000

  tx_cleanup_pending-Pending : Takes (Holds a s b) (Pending a s b 0) tx_cleanup_pending
  unfolding tx_cleanup_pending ◌>>=◌
  tx_cleanup_pending-Pending = record {
    at = λ w h. elim (Bool-cases (is_set w.unit.tx_buf_pending)) [
      | inl e ↦
          rw e ((cleanup w.unit.tx_buf_pending _ _).at w (record { holds = h; pending = refl }))
      | inr e ↦ rw e (record { holds = h; pending = ground arith })
    ];
  }

module _ {a s : ℕ} (l : 0 < a) where
  -- The new frame's buffer is the one that is pending.
  remember_pending :
      (p len fill : ℕ)
      → Takes (Pending a s (is_at p a) 0) (Holds a s 0) (
          modify_unit (λ x. record x {
            tx_buf_pending = p;
            tx_buf_pending_len = len;
            tx_fill_pending = fill;
          }))
  unfolding ◌>>=◌
  remember_pending p len fill = record {
    at = λ w h.
        let e = ap (λ x. is_at x a) h.pending in
        record { balance = omega (arith, h.holds.balance, e, zero_is_at a l) };
  }

  tx_submit-Holds : (p n x : ℕ) → Takes (Holds a s (is_at p a)) (Holds a s 0) (tx_submit p n x)
  unfolding tx_submit
  tx_submit-Holds p n x = Takes-before _ _ (search mem_rules depth 20 fits 4000) (λ _.
      Takes-bind _ _ (tx_cleanup_pending-Pending l) (λ _.
        search (Takes-before, Takes-after, mem_rules, store_desc-mem, remember_pending) depth 24
          fits 4000))

  tx_abandon-Holds :
      (q p : ℕ) (e : IoError) (v : ℕ)
      → Takes (Holds a s (is_at p a)) (Holds a s 0) (tx_abandon q p e v)
  unfolding tx_abandon
  tx_abandon-Holds q p e v =
      search (Takes-after, mem_rules, Holds-free, tx_reply-mem) depth 20 fits 4000

  tx_map-Holds : (q p n : ℕ) → Takes (Holds a s (is_at p a)) (Holds a s 0) (tx_map q p n)
  unfolding tx_map
  tx_map-Holds q p n =
      search (Takes-before, Takes-after, mem_rules, tx_submit-Holds, tx_done-mem, tx_abandon-Holds)
        depth 24 fits 4000

  tx_copy-Holds :
      (q p n c hook : ℕ) → Takes (Holds a s (is_at p a)) (Holds a s 0) (tx_copy q p n c hook)
  unfolding tx_copy
  tx_copy-Holds q p n c hook =
      search (Takes-before, mem_rules, tx_map-Holds, tx_abandon-Holds) depth 20 fits 4000

  tx_fill_buffer-Holds :
      (q p n : ℕ) → Takes (Holds a s (is_at p a)) (Holds a s 0) (tx_fill_buffer q p n)
  unfolding tx_fill_buffer
  tx_fill_buffer-Holds q p n =
      search (Takes-before, mem_rules, tx_copy-Holds, tx_abandon-Holds) depth 20 fits 4000

  alloc_or-Holds :
      (q n v : ℕ) (e : IoError) (p : ℕ)
      → Takes
          (Holds a s (is_at p a))
          (Holds a s 0)
          (if is_set p then tx_fill_buffer q p n else tx_reply q e v)
  alloc_or-Holds q n v e p = Holds-if_set p _ _ l (tx_fill_buffer-Holds q p n) (tx_reply-mem q e v)

  tx_alloc-Holds : (q n : ℕ) → Keeps (Holds a s 0) (tx_alloc q n)
  unfolding tx_alloc
  tx_alloc-Holds q n = search (mem_rules, Holds-alloc, alloc_or-Holds) depth 20 fits 4000

  pub transmit_packet-Holds : (q : ℕ) → Keeps (Holds a s 0) (transmit_packet q)
  unfolding transmit_packet
  transmit_packet-Holds q = search (mem_rules, tx_alloc-Holds, tx_reply-mem) depth 20 fits 4000
