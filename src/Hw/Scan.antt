-- ===== src/Hw/Scan.antt =====
-- find_dma_interface_of_mac of src/hw/hw_init.c: the scan of the interface table finds the first
-- byte of it that is the device's number.
use pa6t_eth.Base.{
  ℕ, zero, suc, ◌+◌, ◌*◌, ◌%◌, ◌^◌, ◌≡◌, ◌<◌, ◌≤◌, ◌∙◌, ◌⊎◌, refl, ap, false, true, inl, inr, some,
  none, arith, Option,
}
use pa6t_eth.Machine.{World, read_dma_reg}
use pa6t_eth.Hw.Channels.{scan_table}
use pa6t_eth.Hw.Table.{is_byte, find_byte-IsFirst}

-- The world after the read of a word of the table, and the `n`-th word from word `i` on.
abbrev pub entry : ℕ → ℕ → ℕ
entry off i = (off + 4 * i) % 2 ^ 32

abbrev pub table_word : ℕ → ℕ → ℕ → World → ℕ
table_word off i zero w = (read_dma_reg (entry off i) w).0
table_word off i (suc n) w = table_word off (i + 1) n (read_dma_reg (entry off i) w).1

-- Byte `j` of the `n`-th word is the first that is the device's number, and its index is found.
pub record FirstOf (k i off devfn : ℕ) (w : World) (n j : ℕ) (r : Option ℕ) : Type 0 where
  pub found : r ≡ some ((i + n) * 4 + j)
  pub in_table : n < k
  pub in_word : j < 4
  pub matches : is_byte (table_word off i n w) devfn j ≡ true
  pub none_in_word : (h : ℕ) → h < j → is_byte (table_word off i n w) devfn h ≡ false
  pub none_before :
      (m : ℕ) → m < n → (h : ℕ) → h < 4 → is_byte (table_word off i m w) devfn h ≡ false

-- No byte of the words is the device's number, and nothing is found.
pub record NoneOf (k i off devfn : ℕ) (w : World) (r : Option ℕ) : Type 0 where
  pub not_found : r ≡ none
  pub nowhere : (m : ℕ) → m < k → (h : ℕ) → h < 4 → is_byte (table_word off i m w) devfn h ≡ false

-- Neither the first word nor those after it.
and_first :
    (i off devfn : ℕ) (w : World) (n : ℕ)
    → ((h : ℕ) → 0 ≤ h → h < 4 → is_byte (read_dma_reg (entry off i) w).0 devfn h ≡ false)
    → ((m : ℕ)
        → m < n
        → (h : ℕ) → h < 4
        → is_byte (table_word off (i + 1) m (read_dma_reg (entry off i) w).1) devfn h ≡ false)
    → (m : ℕ) → m < suc n
    → (h : ℕ) → h < 4
    → is_byte (table_word off i m w) devfn h ≡ false
and_first i off devfn w n f g zero b h c = f h (omega arith) c
and_first i off devfn w n f g (suc m) b h c = g m (omega arith) h c

-- The scan of `k` words from word `i` on finds the index of the first byte that is the device's
-- number, the low byte of a word first, or no byte is, and then it finds none.
pub scan_table-FirstOf :
    (k i off devfn : ℕ) (w : World)
    → ((n : ℕ) × ((j : ℕ) × FirstOf k i off devfn w n j (scan_table k i off devfn w).0))
      ⊎ NoneOf k i off devfn w (scan_table k i off devfn w).0
unfolding scan_table
scan_table-FirstOf zero i off devfn w =
    inr (record { not_found = refl; nowhere = λ m b h c. absurd (omega arith) })
scan_table-FirstOf (suc k) i off devfn w =
    let tmp = (read_dma_reg (entry off i) w).0 in
    let w1 = (read_dma_reg (entry off i) w).1 in
    elim (find_byte-IsFirst 4 0 tmp devfn) [
      | inl (j, f) ↦ inl (
        0,
        (
          j,
          record {
            found = rw (f.found, scan_table) (ap some (omega arith));
            in_table = omega arith;
            in_word = f.before_end;
            matches = f.is_here;
            none_in_word = λ h b. f.not_before h (omega arith) b;
            none_before = λ m b h c. absurd (omega arith);
          },
        ),
      )
      | inr f ↦ elim (scan_table-FirstOf k (i + 1) off devfn w1) [
        | inl (n, (j, g)) ↦ inl (
          suc n,
          (
            j,
            record {
              found = rw (f.not_found, scan_table) (g.found ∙ ap some (omega arith));
              in_table = omega (arith, g.in_table);
              in_word = g.in_word;
              matches = g.matches;
              none_in_word = g.none_in_word;
              none_before = and_first i off devfn w n f.nowhere g.none_before;
            },
          ),
        )
        | inr g ↦ inr (record {
          not_found = rw (f.not_found, scan_table) g.not_found;
          nowhere = and_first i off devfn w k f.nowhere g.nowhere;
        })
      ]
    ]
