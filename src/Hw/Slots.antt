-- ===== src/Hw/Slots.antt =====
-- The TX ring of src/hw/tx.c: two words for a frame, and the position of the next one.
use pa6t_eth.Base.{
  ℕ, zero, suc, ◌+◌, ◌-◌, ◌%◌, ◌^◌, ◌≡◌, ◌≢◌, ◌<◌, ◌∙◌, refl, Bool-cases, inl, inr, arith, bit_and,
  ==_refl, ==_ne,
}
use pa6t_eth.Base.Bits.{bit_and-255}
use pa6t_eth.Machine.{World, call, call_, modify_unit, ◌>>=◌}
use pa6t_eth.Machine.Triples.{Keeps, keeps_rules}
use pa6t_eth.Machine.Structs.{EthUnit, tx_ring_size, tx_index}
use pa6t_eth.Machine.Calls.{Call, obtain, tx_lock}
use pa6t_eth.Hw.Tx.{
  store_desc, tx_poll, tx_owned, tx_wait, tx_cleanup_pending, tx_submit, desc0, desc1,
}

record HasFill (n : ℕ) (w : World) : Type 0 where
  fill : w.unit.tx_next_fill ≡ n

module _ {n : ℕ} where
  HasFill-call : (c : Call) → Keeps (HasFill n) (call c)
  unfolding ◌>>=◌
  HasFill-call c = record { at = λ w h. record { fill = h.fill } }

  HasFill-call_ : (c : Call) → Keeps (HasFill n) (call_ c)
  unfolding ◌>>=◌
  HasFill-call_ c = record { at = λ w h. record { fill = h.fill } }

  HasFill-modify_unit :
      (f : EthUnit → EthUnit)
      → ((u : EthUnit) → (f u).tx_next_fill ≡ u.tx_next_fill)
      → Keeps (HasFill n) (modify_unit f)
  unfolding ◌>>=◌
  HasFill-modify_unit f e = record { at = λ w h. record { fill = e w.unit ∙ h.fill } }

same_fill : (n : ℕ) → n ≡ n
same_fill n = refl

ruleset fill_rules = (keeps_rules, HasFill-call, HasFill-call_, HasFill-modify_unit, same_fill)

module _ {n : ℕ} where
  store_desc-fill : (i v : ℕ) → Keeps (HasFill n) (store_desc i v)
  unfolding store_desc
  store_desc-fill i v = search fill_rules depth 20 fits 4000

  tx_owned-fill : (i : ℕ) → Keeps (HasFill n) (tx_owned i)
  tx_owned-fill i = search fill_rules depth 20 fits 4000

  tx_poll-fill : (tries i : ℕ) → Keeps (HasFill n) (tx_poll tries i)
  unfolding tx_poll
  tx_poll-fill zero i = record { at = λ w h. h }
  tx_poll-fill (suc tries) i = record {
    at = λ w h. elim (Bool-cases (tx_owned i w).0) [
      | inl e ↦ rw (e, tx_poll) ((tx_poll-fill tries i).at _ ((tx_owned-fill i).at w h))
      | inr e ↦ rw (e, tx_poll) ((tx_owned-fill i).at w h)
    ];
  }

  tx_wait-fill : (i : ℕ) → Keeps (HasFill n) (tx_wait i)
  unfolding tx_wait
  tx_wait-fill i = search (fill_rules, tx_poll-fill, tx_owned-fill) depth 20 fits 4000

  tx_cleanup_pending-fill : Keeps (HasFill n) tx_cleanup_pending
  unfolding tx_cleanup_pending
  tx_cleanup_pending-fill = search (fill_rules, tx_wait-fill, store_desc-fill) depth 20 fits 4000

-- The position is even and in the ring.
abbrev pub IsSlot : ℕ → Type 0
IsSlot n = (n % 2 ≡ 0) × (n < tx_ring_size)

after-IsSlot :
    (n : ℕ) → n < 2 ^ 32 → n % 2 ≡ 0 → IsSlot (bit_and ((n + 2) % 2 ^ 32) (tx_ring_size - 1))
after-IsSlot n h e = let m = bit_and-255 ((n + 2) % 2 ^ 32) in (omega (arith, m), omega (arith, m))

distinct : (n : ℕ) → IsSlot n → tx_index ((n + 1) % 2 ^ 32) ≢ tx_index n
distinct n s e =
    let a = bit_and-255 ((n + 1) % 2 ^ 32) in
    let b = bit_and-255 n in let even = s.0 in let less = s.1 in omega (arith, a, b, e)

-- The unit after a frame was queued at position `n`.
pub record Queued (tx_buf frame_len tx_phys n : ℕ) (u : EthUnit) : Type 0 where
  pub first_word : u.tx_desc (tx_index n) ≡ desc0 frame_len
  pub second_word : u.tx_desc (tx_index ((n + 1) % 2 ^ 32)) ≡ desc1 frame_len tx_phys
  pub pending : u.tx_buf_pending ≡ tx_buf
  pub pending_at : u.tx_fill_pending ≡ n
  pub next : u.tx_next_fill ≡ (n + 2) % tx_ring_size
  pub next_slot : IsSlot u.tx_next_fill

-- A frame that is queued: its two words stand at the position of the ring that was next, its buffer
-- is remembered with that position, and the next position is two further, again even and in the
-- ring.
pub tx_submit-Queued :
    (tx_buf frame_len tx_phys : ℕ) (w : World)
    → IsSlot w.unit.tx_next_fill
    → Queued tx_buf frame_len tx_phys w.unit.tx_next_fill
        (tx_submit tx_buf frame_len tx_phys w).1.unit
unfolding tx_submit store_desc ◌>>=◌
tx_submit-Queued p l phys w s =
    let locked = (call_ (obtain tx_lock) w).1 in
    let e = (tx_cleanup_pending-fill.at locked (record { fill = refl })).fill in
    let n = w.unit.tx_next_fill in
    let m = bit_and-255 ((n + 2) % 2 ^ 32) in
    let s0 = s.0 in
    let s1 = s.1 in
    let d = ==_ne (tx_index ((n + 1) % 2 ^ 32)) (tx_index n) (distinct n s) in
    record {
      first_word = rw (e, d, ==_refl) refl;
      second_word = rw (e, ==_refl) refl;
      pending = refl;
      pending_at = e;
      next = rw e (omega (arith, m));
      next_slot = rw e (after-IsSlot n (omega arith) s0);
    }
