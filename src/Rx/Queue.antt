-- ===== src/Rx/Queue.antt =====
-- PA6TEth_ProcessRX of src/hw/rx.c and the ring of receive buffers: its slots from the one that the
-- hardware fills next up to `rx_buf_write_ptr` hold a queue of posted buffers.
use mathlib.Core.List.{map}
use pa6t_eth.Base.{
  ℕ, ◌+◌, ◌%◌, ◌^◌, ◌≡◌, ◌<◌, ◌∙◌, refl, sym, ap, List, [], ◌∷◌, ◌++◌, true, length, ltb, update,
  arith, bit_and,
}
use pa6t_eth.Base.Bits.{bit_and-2047}
use pa6t_eth.Machine.{World, ◌>>=◌}
use pa6t_eth.Machine.Structs.{EthUnit}
use pa6t_eth.Rx.Process.{
  RxBatch, rx_packet, rx_verdict, next_desc, clear_desc, repost, ring_slot, actual_buf, rxb_word,
  add32,
}
use pa6t_eth.Rx.Words.{core, rx_frame-core}
use pa6t_eth.Rx.Window.{
  window, window-outside, window-store, turn, below_512, below_512-turn, length-turn, map-turn,
}

-- The slots from `h` on, up to the one that is posted next, hold the buffers of `q` in their order,
-- each with the word that posts it.
pub record Posted (h : ℕ) (q : List ℕ) (u : EthUnit) : Type 0 where
  pub in_ring : h < 2048
  pub few : length q < 2048
  pub write_ptr : u.rx_buf_write_ptr ≡ (h + length q) % 2048
  pub slots : window u.rx_slot_buf h (length q) ≡ q
  pub words : window u.rx_buff h (length q) ≡ map (rxb_word u) q
  pub buffers : below_512 q ≡ true

Posted-core : {h : ℕ} {q : List ℕ} {u : EthUnit} → Posted h q u → Posted h q (core u)
Posted-core p = record {
  in_ring = p.in_ring;
  few = p.few;
  write_ptr = p.write_ptr;
  slots = p.slots;
  words = p.words;
  buffers = p.buffers;
}

Posted-of_core : {h : ℕ} {q : List ℕ} {u : EthUnit} → Posted h q (core u) → Posted h q u
Posted-of_core p = record {
  in_ring = p.in_ring;
  few = p.few;
  write_ptr = p.write_ptr;
  slots = p.slots;
  words = p.words;
  buffers = p.buffers;
}

-- The queue is a matter of the core of the unit alone.
Posted-same : {h : ℕ} {q : List ℕ} (u v : EthUnit) → core v ≡ core u → Posted h q u → Posted h q v
Posted-same {h} {q} u v e p = Posted-of_core (rw e (Posted-core p))

head_or : ℕ → List ℕ → ℕ
head_or d [] = d
head_or d (x ∷ xs) = x

tail_of : List ℕ → List ℕ
tail_of [] = []
tail_of (x ∷ xs) = xs

bit_and_slot : (h : ℕ) → h < 2048 → bit_and h 2047 ≡ h
bit_and_slot h b = bit_and-2047 h ∙ omega arith

module _ {h b : ℕ} {q : List ℕ} {u : EthUnit} (p : Posted h (b ∷ q) u) where
  pub head_slot : u.rx_slot_buf h ≡ b
  unfolding head_or
  head_slot = ap (head_or 0) p.slots

  pub head_small : b < 512
  head_small = let small = p.buffers in ground arith

  tail_slots : window u.rx_slot_buf ((h + 1) % 2048) (length q) ≡ q
  unfolding tail_of
  tail_slots = ap tail_of p.slots

  tail_words : window u.rx_buff ((h + 1) % 2048) (length q) ≡ map (rxb_word u) q
  unfolding tail_of
  tail_words = ap tail_of p.words

  -- The slot that is given back lies behind the queue.
  tail_cleared : window (update u.rx_buff h 0) ((h + 1) % 2048) (length q) ≡ map (rxb_word u) q
  tail_cleared =
      window-outside u.rx_buff h 0 ((h + 1) % 2048) (length q) (omega arith)
        (λ k i e. omega (arith, e, p.few, p.in_ring))
      ∙ tail_words

  -- A store at the position of the next buffer makes the tail longer.
  tail-store :
      (a : ℕ → ℕ) (x : ℕ) (l : List ℕ)
      → window a ((h + 1) % 2048) (length q) ≡ l
      → window (update a u.rx_buf_write_ptr x) ((h + 1) % 2048) (length (turn (b ∷ q)))
        ≡ l ++ (x ∷ [])
  tail-store a x l e =
      ap (window (update a u.rx_buf_write_ptr x) ((h + 1) % 2048)) (length-turn (b ∷ q))
      ∙ window-store a u.rx_buf_write_ptr x ((h + 1) % 2048) (length q) (omega arith)
          (omega (arith, p.few)) (omega (arith, p.write_ptr))
      ∙ ap (λ m. m ++ (x ∷ [])) e

  -- The first buffer of the queue is taken from its slot and posted behind the others.
  Posted-repost : (n : ℕ) → Posted ((h + 1) % 2048) (turn (b ∷ q)) (repost b (clear_desc n h u))
  unfolding repost clear_desc
  Posted-repost n =
      let here : bit_and h 2047 ≡ h = bit_and_slot h p.in_ring in
      let there : bit_and u.rx_buf_write_ptr 2047 ≡ u.rx_buf_write_ptr =
        bit_and_slot u.rx_buf_write_ptr (omega (arith, p.write_ptr)) in
      let inside : ltb h 2048 ≡ true = ground (arith, p.in_ring) in
      let same : b % 65536 ≡ b = omega (arith, head_small) in
      record {
        in_ring = omega arith;
        few = omega (arith, p.few, length-turn (b ∷ q));
        write_ptr =
            bit_and-2047 (add32 u.rx_buf_write_ptr 1)
            ∙ omega (arith, p.few, p.write_ptr, length-turn (b ∷ q));
        slots = tail-store u.rx_slot_buf (b % 65536) q tail_slots ∙ ap (λ x. q ++ (x ∷ [])) same;
        words =
            rw (inside, here, there)
              (tail-store (update u.rx_buff h 0) (rxb_word u b) (map (rxb_word u) q) tail_cleared
                ∙ sym (map-turn (rxb_word u) b q));
        buffers = below_512-turn (b ∷ q) ∙ p.buffers;
      }

module _ {h x : ℕ} {q : List ℕ} (b : RxBatch) (w : World) (p : Posted h (x ∷ q) w.unit) where
  actual_buf-head : ring_slot w.unit b.n ≡ h → actual_buf w.unit b.n ≡ x
  unfolding actual_buf
  actual_buf-head e =
      let inside : ltb h 2048 ≡ true = ground (arith, p.in_ring) in rw (e, inside) (head_slot p)

  rx_packet-head :
      ring_slot w.unit b.n ≡ h
      → (Posted ((h + 1) % 2048) (turn (x ∷ q)) (rx_packet b w).1.unit)
        × ((rx_packet b w).0.replenish ≡ (b.replenish + 1) % 2 ^ 32)
  unfolding rx_packet next_desc ◌>>=◌
  rx_packet-head e =
      let after = rx_frame-core w.unit b.n (rx_verdict w.unit b.n) w in
      let small : ltb x 512 ≡ true = ground (arith, head_small p) in
      rw (e, actual_buf-head e, small) (Posted-repost (Posted-same w.unit _ after p) b.n, refl)

-- A round at a descriptor that names the first slot of a queue takes that buffer, and posts it
-- again behind the others, whether the frame in it was good or not.
pub rx_packet-Posted :
    {h : ℕ} (q : List ℕ) (b : RxBatch) (w : World)
    → 0 < length q
    → Posted h q w.unit
    → ring_slot w.unit b.n ≡ h
    → (Posted ((h + 1) % 2048) (turn q) (rx_packet b w).1.unit)
      × ((rx_packet b w).0.replenish ≡ (b.replenish + 1) % 2 ^ 32)
rx_packet-Posted [] b w k p e = absurd (omega arith)
rx_packet-Posted (x ∷ q) b w k p e = rx_packet-head b w p e
