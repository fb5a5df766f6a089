-- ===== src/Rx/Rounds.antt =====
-- The loop of PA6TEth_ProcessRX over the receive ring comes to its end by itself, and where.
use mathlib.Core.Bool.{false≢true}
use pa6t_eth.Base.{
  ℕ, zero, suc, ◌+◌, ◌*◌, ◌%◌, ◌^◌, ◌≡◌, ◌<◌, ◌≤◌, ◌∙◌, ap, refl, sym, true, false, dichotomy,
  ==_refl, arith, Bool-cases, inl, inr, update, ltb, ◌==◌,
}
use pa6t_eth.Base.Bits.{bit_and-2047}
use pa6t_eth.Machine.{World, ◌>>=◌}
use pa6t_eth.Machine.Structs.{num_rx_bufs, rx_index}
use pa6t_eth.Rx.Process.{
  RxBatch, rx_packet, rx_loop, owned, rx_fuel, rx_start, clear_desc, repost, next_desc, rx_verdict,
  add32,
}
use pa6t_eth.Rx.Words.{rx_frame-core, desc_of}

-- What a round leaves of the ring's words: those of its descriptor are 0.
abbrev pub cleared : ℕ → (ℕ → ℕ) → ℕ → ℕ
cleared n d =
    update
      (update (update (update d (rx_index n) 0) (rx_index (add32 n 1)) 0) (rx_index (add32 n 2)) 0)
      (rx_index (add32 n 3)) 0

next_desc-ring :
    (b : RxBatch) (slot buf : ℕ) (w : World)
    → (next_desc b slot buf w).1.unit.rx_desc ≡ cleared b.n w.unit.rx_desc
unfolding next_desc clear_desc repost ◌>>=◌
next_desc-ring b slot buf w = elim (Bool-cases (ltb buf num_rx_bufs)) [
  | inl e ↦ rw e refl
  | inr e ↦ rw e refl
]

pub rx_packet-ring :
    (b : RxBatch) (w : World) → (rx_packet b w).1.unit.rx_desc ≡ cleared b.n w.unit.rx_desc
unfolding rx_packet ◌>>=◌
rx_packet-ring b w =
    let after = rx_frame-core w.unit b.n (rx_verdict w.unit b.n) w in
    next_desc-ring b _ _ _ ∙ ap (cleared b.n) (ap desc_of after)

pub rx_packet-n : (b : RxBatch) (w : World) → (rx_packet b w).0.n ≡ add32 b.n 4
unfolding rx_packet next_desc ◌>>=◌
rx_packet-n b w = refl

rx_packet-count : (b : RxBatch) (w : World) → (rx_packet b w).0.count ≡ (b.count + 1) % 2 ^ 32
unfolding rx_packet next_desc ◌>>=◌
rx_packet-count b w = refl

update-keeps : (d : ℕ → ℕ) (p m : ℕ) → d m ≡ 0 → update d p 0 m ≡ 0
update-keeps d p m e = elim (Bool-cases (p == m)) [ inl h ↦ rw h refl | inr h ↦ rw h e ]

update-here : (d : ℕ → ℕ) (p : ℕ) → update d p 0 p ≡ 0
update-here d p = rw (==_refl) refl

module _ (n : ℕ) (d : ℕ → ℕ) where
  -- The ring after the first store of the four, and after the ones that follow.
  abbrev once : ℕ → ℕ
  once = update d (rx_index n) 0

  abbrev twice : ℕ → ℕ
  twice = update once (rx_index (add32 n 1)) 0

  abbrev thrice : ℕ → ℕ
  thrice = update twice (rx_index (add32 n 2)) 0

  once-cleared : (m : ℕ) → once m ≡ 0 → cleared n d m ≡ 0
  once-cleared m e =
      update-keeps thrice (rx_index (add32 n 3)) m
        (update-keeps twice (rx_index (add32 n 2)) m (update-keeps once (rx_index (add32 n 1)) m e))

  cleared-keeps : (m : ℕ) → d m ≡ 0 → cleared n d m ≡ 0
  cleared-keeps m e = once-cleared m (update-keeps d (rx_index n) m e)

  cleared-here : cleared n d (rx_index n) ≡ 0
  cleared-here = once-cleared (rx_index n) (update-here d (rx_index n))

-- The position after `i` rounds from `s`.
abbrev pub position : ℕ → ℕ → ℕ
position s i = (s + 4 * i) % 2 ^ 32

-- `i` rounds from `s` have been made, and the first word of each of their descriptors is 0.
pub record Advanced (s i : ℕ) (b : RxBatch) (w : World) : Type 0 where
  pub here : b.n ≡ position s i
  pub counted : b.count ≡ i
  pub cleared_behind : (j : ℕ) → j < i → w.unit.rx_desc (rx_index (position s j)) ≡ 0

pub Advanced-step :
    (s i : ℕ) (b : RxBatch) (w : World)
    → i < 512
    → Advanced s i b w
    → Advanced s (i + 1) (rx_packet b w).0 (rx_packet b w).1
Advanced-step s i b w h a = record {
  here = rx_packet-n b w ∙ ap (λ n. add32 n 4) a.here ∙ omega arith;
  counted = rx_packet-count b w ∙ omega (arith, a.counted);
  cleared_behind = λ j k.
      ap (λ d. d (rx_index (position s j))) (rx_packet-ring b w) ∙ elim (dichotomy j i k) [
        | inl e ↦ cleared-keeps b.n w.unit.rx_desc (rx_index (position s j)) (a.cleared_behind j e)
        | inr e ↦
            ap (λ x. cleared b.n w.unit.rx_desc (rx_index x)) (ap (position s) e ∙ sym a.here)
            ∙ cleared-here b.n w.unit.rx_desc
      ];
}

-- After 512 rounds the ring is back where it began.
index_wraps : (s : ℕ) → rx_index (position s 512) ≡ rx_index (position s 0)
index_wraps s = bit_and-2047 (position s 512) ∙ omega arith ∙ sym (bit_and-2047 (position s 0))

Advanced-full : (s : ℕ) (b : RxBatch) (w : World) → Advanced s 512 b w → owned w.unit b.n ≡ false
Advanced-full s b w a =
    let word : w.unit.rx_desc (rx_index b.n) ≡ 0 =
      ap (λ x. w.unit.rx_desc (rx_index x)) a.here
      ∙ ap w.unit.rx_desc (index_wraps s)
      ∙ a.cleared_behind 0 (omega arith) in
    rw word refl

-- The end of the loop: a descriptor that is not complete, after at most 512 rounds from `s`.
pub record Ended (s : ℕ) (b : RxBatch) (w : World) : Type 0 where
  pub not_owned : owned w.unit b.n ≡ false
  pub at_most_512 : b.count ≤ 512
  pub at_position : b.n ≡ position s b.count

-- At a completed descriptor there are fewer than 512 rounds behind.
pub Advanced-more :
    (s i : ℕ) (b : RxBatch) (w : World)
    → Advanced s i b w
    → i ≤ 512
    → owned w.unit b.n ≡ true
    → i < 512
Advanced-more s i b w a h o = elim (dichotomy i 512 (omega arith)) [
  | inl m ↦ m
  | inr m ↦ absurd (false≢true (sym (Advanced-full s b w (rw m at a)) ∙ o))
]

rx_loop-Ended :
    (fuel s i : ℕ) (b : RxBatch) (w : World)
    → Advanced s i b w
    → i ≤ 512
    → 512 < i + fuel
    → Ended s (rx_loop fuel b w).0 (rx_loop fuel b w).1
unfolding rx_loop
rx_loop-Ended zero s i b w a h k = absurd (omega arith)
rx_loop-Ended (suc fuel) s i b w a h k = elim (Bool-cases (owned w.unit b.n)) [
  | inl e ↦
      let more = Advanced-more s i b w a h e in
      rw (e, rx_loop)
        (rx_loop-Ended fuel s (i + 1) (rx_packet b w).0 (rx_packet b w).1
          (Advanced-step s i b w more a) (omega arith) (omega arith))
  | inr e ↦
      rw (e, rx_loop)
        (record {
          not_owned = e;
          at_most_512 = omega (arith, a.counted);
          at_position = a.here ∙ ap (position s) (sym a.counted);
        })
]

pub Advanced-start :
    (w : World)
    → w.unit.rx_next_clean < 2 ^ 32
    → Advanced w.unit.rx_next_clean 0 (rx_start w.unit) w
Advanced-start w h = record {
  here = omega arith;
  counted = refl;
  cleared_behind = λ j k. absurd (omega arith);
}

-- The loop over the receive ring ends of its own accord within the fuel it is given, whatever the
-- ring, the memory and the copy hooks hold: after at most 512 rounds, four words each, it stands at
-- a descriptor that the hardware has not completed.
pub rx_loop-ends :
    (w : World)
    → w.unit.rx_next_clean < 2 ^ 32
    → Ended w.unit.rx_next_clean
        (rx_loop rx_fuel (rx_start w.unit) w).0
        (rx_loop rx_fuel (rx_start w.unit) w).1
rx_loop-ends w h =
    rx_loop-Ended rx_fuel w.unit.rx_next_clean 0 (rx_start w.unit) w (Advanced-start w h)
      (omega arith) (omega arith)
