-- ===== src/Rx/Starting.antt =====
-- PA6TEth_PostRxBuffers of src/hw/rx.c after its allocation loop: what the ring of receive buffers
-- holds when the receiver is set going.
use mathlib.Core.List.{map, map-append}
use mathlib.Core.Path.{ap₂}
use pa6t_eth.Base.{
  ℕ, zero, suc, ◌%◌, ◌≡◌, ◌<◌, ◌≤◌, ◌∙◌, refl, sym, ap, List, [], ◌∷◌, ◌++◌, true, false, is_set,
  length, ltb, update, bit_or, bit_and, ◌^◌, arith,
}
use pa6t_eth.Machine.Triples.{Takes, Keeps, Takes-bind, Takes-before, Takes-after}
use pa6t_eth.Machine.OnUnit.{OnUnit, OnUnit-modify_unit, on_unit_rules}
use pa6t_eth.Base.Bits.{bit_and-2047}
use pa6t_eth.Machine.Structs.{EthUnit, num_rx_bufs, rx_buf_size, rx_index}
use pa6t_eth.Regs.Xct.{xct_rxb_len, xct_rxb_addr, xct_macrx_o}
use pa6t_eth.Machine.Calls.{Device, mac_device, dma_device}
use pa6t_eth.Rx.Process.{rxb_word, owned}
use pa6t_eth.Rx.Post.{
  clear_rings, post_buffer, post_buffers, enable_rx, enable_master, enable_iob, post_and_credit,
  start_receiver,
}
use pa6t_eth.Rx.Window.{window, window-store, below_512, below_512-append, length-append}
use pa6t_eth.Rx.Queue.{Posted}

-- The numbers below `k`, in their order.
abbrev pub ids : ℕ → List ℕ
ids zero = []
ids (suc k) = ids k ++ (k ∷ [])

length-ids : (k : ℕ) → length (ids k) ≡ k
length-ids zero = refl
length-ids (suc k) = length-append (ids k) k ∙ ap suc (length-ids k)

below_512-ids : (k : ℕ) → k ≤ 512 → below_512 (ids k) ≡ true
below_512-ids zero h = refl
below_512-ids (suc k) h =
    let before = below_512-ids k (omega arith) in below_512-append (ids k) k ∙ ground arith

abbrev word_at : (ℕ → ℕ) → ℕ → ℕ
word_at phys b = bit_or (xct_rxb_len rx_buf_size) (xct_rxb_addr (phys b))

-- The first `k` slots hold the first `k` buffers, and the words that post them.
record Filled (k : ℕ) (u v : EthUnit) : Type 0 where
  same_phys : v.rx_bufs_phys ≡ u.rx_bufs_phys
  same_desc : v.rx_desc ≡ u.rx_desc
  slots : window v.rx_slot_buf 0 k ≡ ids k
  words : window v.rx_buff 0 k ≡ map (rxb_word u) (ids k)

post_buffer-Filled :
    (k : ℕ) (u v : EthUnit)
    → k < 512
    → is_set (v.rx_bufs_phys k) ≡ true
    → Filled k u v
    → Filled (suc k) u (post_buffer k v)
unfolding post_buffer
post_buffer-Filled k u v h m f =
    let small : k % 2 ^ 16 ≡ k = omega arith in
    let word : rxb_word v k ≡ rxb_word u k = rw f.same_phys refl in
    let filled : Filled (suc k) u (record v {
      rx_buff = update v.rx_buff k (rxb_word v k);
      rx_slot_buf = update v.rx_slot_buf k (k % 2 ^ 16);
    }) =
      record {
        same_phys = f.same_phys;
        same_desc = f.same_desc;
        slots =
            window-store v.rx_slot_buf k (k % 2 ^ 16) 0 k (omega arith) (omega arith) (omega arith)
            ∙ ap₂ (λ l x. l ++ (x ∷ [])) f.slots small;
        words =
            window-store v.rx_buff k (rxb_word v k) 0 k (omega arith) (omega arith) (omega arith)
            ∙ ap₂ (λ l x. l ++ (x ∷ [])) f.words word
            ∙ sym (map-append (rxb_word u) (ids k) (k ∷ []));
      } in
    rw m filled

post_buffers-Filled :
    (k : ℕ) (u : EthUnit)
    → k ≤ 512
    → ((j : ℕ) → j < k → is_set (u.rx_bufs_phys j) ≡ true)
    → Filled k u (post_buffers k u)
unfolding post_buffers
post_buffers-Filled zero u h m = record {
  same_phys = refl;
  same_desc = refl;
  slots = refl;
  words = refl;
}
post_buffers-Filled (suc k) u h m =
    let f = post_buffers-Filled k u (omega arith) (λ j l. m j (omega arith)) in
    post_buffer-Filled k u (post_buffers k u) (omega arith)
      (ap (λ a. is_set (a k)) f.same_phys ∙ m k (omega arith)) f

Filled-Posted :
    (k : ℕ) (u v : EthUnit) → k ≤ 512 → Filled k u v → v.rx_buf_write_ptr ≡ k → Posted 0 (ids k) v
Filled-Posted k u v h f e = record {
  in_ring = omega arith;
  few = omega (arith, length-ids k);
  write_ptr = e ∙ omega (arith, length-ids k);
  slots = rw (length-ids k) f.slots;
  words = rw (length-ids k) (f.words ∙ ap (λ a. map (word_at a) (ids k)) (sym f.same_phys));
  buffers = below_512-ids k h;
}

-- The stages: the buffers are mapped, and then the rings are empty, and then loaded.
pub record Mapped (u : EthUnit) : Type 0 where
  pub mapped : (j : ℕ) → j < 512 → is_set (u.rx_bufs_phys j) ≡ true

record Emptied (u : EthUnit) : Type 0 where
  mapped : (j : ℕ) → j < 512 → is_set (u.rx_bufs_phys j) ≡ true
  clean : (n : ℕ) → owned u n ≡ false

record Loaded (u : EthUnit) : Type 0 where
  posted : Posted 0 (ids 512) u
  clean : (n : ℕ) → owned u n ≡ false

-- The receiver is armed: the slots hold all buffers in their order, no descriptor is complete, and
-- the driver looks at the first one next.
pub record Armed (u : EthUnit) : Type 0 where
  pub posted : Posted 0 (ids 512) u
  pub clean : (n : ℕ) → owned u n ≡ false
  pub next_clean : u.rx_next_clean ≡ 0

clear_rings-Emptied : (u : EthUnit) → Mapped u → Emptied (clear_rings u)
unfolding clear_rings
clear_rings-Emptied u m = record {
  mapped = m.mapped;
  clean = λ n.
      let index : ltb (rx_index n) 2048 ≡ true = ground (arith, bit_and-2047 n) in rw index refl;
}

load_rings-Loaded :
    (u : EthUnit)
    → Emptied u
    → Loaded (record (post_buffers num_rx_bufs u) { rx_buf_write_ptr = num_rx_bufs })
load_rings-Loaded u e =
    let f = post_buffers-Filled 512 u (omega arith) e.mapped in
    let v = record (post_buffers num_rx_bufs u) { rx_buf_write_ptr = num_rx_bufs } in
    let g : Filled 512 u v = record {
      same_phys = f.same_phys;
      same_desc = f.same_desc;
      slots = f.slots;
      words = f.words;
    } in
    record {
      posted = Filled-Posted 512 u v (omega arith) g refl;
      clean = λ n. ap (λ d. is_set (bit_and (d (rx_index n)) xct_macrx_o)) f.same_desc ∙ e.clean n;
    }

next_clean-Armed : (u : EthUnit) → Loaded u → Armed (record u { rx_next_clean = 0 })
next_clean-Armed u l = record {
  posted = record {
    in_ring = l.posted.in_ring;
    few = l.posted.few;
    write_ptr = l.posted.write_ptr;
    slots = l.posted.slots;
    words = l.posted.words;
    buffers = l.posted.buffers;
  };
  clean = l.clean;
  next_clean = refl;
}

module _ {P : EthUnit → Type 0} where
  enable_rx-OnUnit : Keeps (OnUnit P) enable_rx
  unfolding enable_rx
  enable_rx-OnUnit = search on_unit_rules depth 20 fits 4000

  enable_master-OnUnit : (d : Device) → Keeps (OnUnit P) (enable_master d)
  unfolding enable_master
  enable_master-OnUnit d = search on_unit_rules depth 20 fits 4000

  enable_iob-OnUnit : Keeps (OnUnit P) enable_iob
  unfolding enable_iob
  enable_iob-OnUnit = search on_unit_rules depth 24 fits 4000

-- The receiver is set going, for assertions on the unit: at first, with the rings empty, with the
-- rings loaded, and at last.
module _ {Q R : EthUnit → Type 0}
    (load : (u : EthUnit)
      → Q u
      → R (record (post_buffers num_rx_bufs u) { rx_buf_write_ptr = num_rx_bufs })) where
  post_and_credit-OnUnit : Takes (OnUnit Q) (OnUnit R) post_and_credit
  unfolding post_and_credit
  post_and_credit-OnUnit =
      Takes-after _ _ (OnUnit-modify_unit _ load) (λ a. search on_unit_rules depth 20 fits 4000)

  pub start_receiver-OnUnit :
      {P S : EthUnit → Type 0}
      → ((u : EthUnit) → P u → Q (clear_rings u))
      → ((u : EthUnit) → R u → S (record u { rx_next_clean = 0 }))
      → Takes (OnUnit P) (OnUnit S) start_receiver
  unfolding start_receiver
  start_receiver-OnUnit clear next = Takes-bind _ _ (OnUnit-modify_unit _ clear) (λ _.
      Takes-before _ _ (search on_unit_rules depth 20 fits 4000) (λ _.
        Takes-before _ _ enable_rx-OnUnit (λ _. Takes-bind _ _ post_and_credit-OnUnit (λ _.
          Takes-before _ _ (enable_master-OnUnit mac_device) (λ _.
            Takes-before _ _ (enable_master-OnUnit dma_device) (λ _.
              Takes-before _ _ (search on_unit_rules depth 20 fits 4000)
                (λ _. Takes-after _ _ (OnUnit-modify_unit _ next) (λ _. enable_iob-OnUnit))))))))

pub start_receiver-Armed : Takes (OnUnit Mapped) (OnUnit Armed) start_receiver
start_receiver-Armed = start_receiver-OnUnit load_rings-Loaded clear_rings-Emptied next_clean-Armed
