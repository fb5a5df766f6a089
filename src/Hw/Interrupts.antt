-- ===== src/Hw/Interrupts.antt =====
-- What the interrupt handler of src/hw/irq.c acknowledges, and whom it wakes.
use pa6t_eth.Base.{
  ℕ, ◌+◌, ◌%◌, ◌^◌, ◌≡◌, refl, true, Bool-cases, inl, inr, bit_and, is_set, Bool, [], ◌∷◌, ◌&&◌,
  if◌then◌else◌, ◌==◌, ==_refl, arith,
}
use pa6t_eth.Regs.Iob.{
  pas_iob_dma_rxch_stat, pas_iob_dma_rxch_stat_intgen, pas_iob_dma_rxch_reset_pcntrst,
  pas_iob_dma_rxch_reset_pintc, pas_iob_dma_rxch_reset_tintc, pas_iob_dma_rxch_reset_sintc,
  pas_iob_dma_rxch_reset_dintc, pas_status_timer, pas_status_soft, pas_status_error,
}
use pa6t_eth.Machine.{World, History, ◌>>=◌, uint32_of}
use pa6t_eth.Machine.Calls.{Call, read_iob, signal}
use pa6t_eth.Hw.Irq.{interrupt_handler, status_word, reset_val}

-- The channel's status register, as the handler reads it, shows an interrupt.
abbrev pub is_raised : World → Bool
is_raised w =
    let reg = pas_iob_dma_rxch_stat (uint32_of w.base.rx_channel_num) in
    is_set (bit_and (w.env w.trace (read_iob reg) % 2 ^ 32) pas_iob_dma_rxch_stat_intgen)

-- A cause is in the word that is written to the reset register exactly if the status word shows it:
-- the timer, the soft and the error interrupt. The packet count and the packet interrupt always are.
pub reset_val-acknowledges :
    (ps : ℕ)
    → (is_set (bit_and (reset_val ps) pas_iob_dma_rxch_reset_tintc)
        ≡ is_set (bit_and ps pas_status_timer))
      × (is_set (bit_and (reset_val ps) pas_iob_dma_rxch_reset_sintc)
          ≡ is_set (bit_and ps pas_status_soft))
      × (is_set (bit_and (reset_val ps) pas_iob_dma_rxch_reset_dintc)
          ≡ is_set (bit_and ps pas_status_error))
      × (is_set (bit_and (reset_val ps) pas_iob_dma_rxch_reset_pcntrst) ≡ true)
      × (is_set (bit_and (reset_val ps) pas_iob_dma_rxch_reset_pintc) ≡ true)
unfolding reset_val
reset_val-acknowledges ps = elim (Bool-cases (is_set (bit_and ps pas_status_timer))) [
  | inl a ↦ elim (Bool-cases (is_set (bit_and ps pas_status_soft))) [
    | inl b ↦ elim (Bool-cases (is_set (bit_and ps pas_status_error))) [
      | inl c ↦ rw (a, b, c) (refl, refl, refl, refl, refl)
      | inr c ↦ rw (a, b, c) (refl, refl, refl, refl, refl)
    ]
    | inr b ↦ elim (Bool-cases (is_set (bit_and ps pas_status_error))) [
      | inl c ↦ rw (a, b, c) (refl, refl, refl, refl, refl)
      | inr c ↦ rw (a, b, c) (refl, refl, refl, refl, refl)
    ]
  ]
  | inr a ↦ elim (Bool-cases (is_set (bit_and ps pas_status_soft))) [
    | inl b ↦ elim (Bool-cases (is_set (bit_and ps pas_status_error))) [
      | inl c ↦ rw (a, b, c) (refl, refl, refl, refl, refl)
      | inr c ↦ rw (a, b, c) (refl, refl, refl, refl, refl)
    ]
    | inr b ↦ elim (Bool-cases (is_set (bit_and ps pas_status_error))) [
      | inl c ↦ rw (a, b, c) (refl, refl, refl, refl, refl)
      | inr c ↦ rw (a, b, c) (refl, refl, refl, refl, refl)
    ]
  ]
]

-- How often a task was signalled with a mask, and how often any was.
abbrev pub is_wake : ℕ → ℕ → Call → ℕ
is_wake t m (signal s n) = if (s == t) && (n == m) then 1 else 0
is_wake t m _ = 0

abbrev pub is_signal : Call → ℕ
is_signal (signal s n) = 1
is_signal _ = 0

unfoldable pub wakes : ℕ → ℕ → History → ℕ
wakes t m [] = 0
wakes t m ((c, a) ∷ h) = is_wake t m c + wakes t m h

unfoldable pub signals : History → ℕ
signals [] = 0
signals ((c, a) ∷ h) = is_signal c + signals h

-- The unit's task waits for an interrupt, and the device shows one.
abbrev pub is_due : World → ℕ
is_due w = if is_raised w && is_set w.base.unit && is_set w.unit.irq_wait_task then 1 else 0

-- The interrupt handler signals the task that waits for interrupts, with its mask, and no other task:
-- once if the device shows an interrupt, the base has its unit and a task waits, and else not at all.
pub interrupt_handler-wakes :
    (w : World)
    → (wakes w.unit.irq_wait_task w.unit.irq_signal_mask (interrupt_handler w).1.trace
        ≡ wakes w.unit.irq_wait_task w.unit.irq_signal_mask w.trace + is_due w)
      × (signals (interrupt_handler w).1.trace ≡ signals w.trace + is_due w)
unfolding interrupt_handler status_word wakes signals ◌>>=◌
interrupt_handler-wakes w =
    let t = w.unit.irq_wait_task in
    let m = w.unit.irq_signal_mask in
    elim (Bool-cases (is_raised w)) [
      | inl e ↦ elim (Bool-cases (is_set w.base.pasdma_status)) [
        | inl d ↦ elim (Bool-cases (is_set w.base.unit && is_set t)) [
          | inl f ↦ rw (e, d, f, ==_refl t, ==_refl m) (omega arith, omega arith)
          | inr f ↦ rw (e, d, f) (omega arith, omega arith)
        ]
        | inr d ↦ elim (Bool-cases (is_set w.base.unit && is_set t)) [
          | inl f ↦ rw (e, d, f, ==_refl t, ==_refl m) (omega arith, omega arith)
          | inr f ↦ rw (e, d, f) (omega arith, omega arith)
        ]
      ]
      | inr e ↦ rw e (omega arith, omega arith)
    ]
