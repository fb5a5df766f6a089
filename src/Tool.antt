-- ===== src/Tool.antt =====
-- tools/dma_interfaces.c: what the diagnostic prints of the DMA engine, as data.
use Prim.Native.String.{String}
use pa6t_eth.Base.{
  ℕ, zero, suc, ◌+◌, ◌*◌, ◌/◌, ◌%◌, ◌^◌, List, [], ◌∷◌, ◌++◌, Bool, ◌==◌, leb, if◌then◌else◌,
  is_set, bit_and, Option, none, some,
}
use pa6t_eth.Regs.Shift.{shr}
use pa6t_eth.Regs.Iob.{pasemi_vendor_id, pasemi_dev_dma}
use pa6t_eth.Machine.{M, pure, ◌>>=◌, ◌>>◌, call, call_, read_dma_reg}
use pa6t_eth.Machine.Calls.{
  open_library, close_library, expansion_library, get_interface, drop_interface, find_device,
  free_device,
}

abbrev pub cap_txch : ℕ
cap_txch = 0x44

abbrev pub cap_rxch : ℕ
cap_rxch = 0x48

abbrev pub cap_ifi : ℕ
cap_ifi = 0x4c

abbrev pub tcmdsta : ℕ → ℕ
tcmdsta c = 0x300 + c * 0x20

abbrev pub tx_basel : ℕ → ℕ
tx_basel c = 0x318 + c * 0x20

abbrev pub tx_baseu : ℕ → ℕ
tx_baseu c = 0x31c + c * 0x20

abbrev pub ccmdsta : ℕ → ℕ
ccmdsta c = 0x800 + c * 0x20

abbrev pub rx_basel : ℕ → ℕ
rx_basel c = 0x818 + c * 0x20

abbrev pub rx_baseu : ℕ → ℕ
rx_baseu c = 0x81c + c * 0x20

-- `x1000_serdes_map` up to its end mark.
pub record Serdes : Type 0 where
  pub devfn : ℕ
  pub hw_name : String
  pub x1000_use : String

unfoldable pub x1000_serdes_map : List Serdes
x1000_serdes_map =
    record { devfn = 0xA8; hw_name = "XAUI (not wired on X1000)"; x1000_use = "unused" }
    ∷ record { devfn = 0xA9; hw_name = "XAUI (not wired on X1000)"; x1000_use = "unused" }
    ∷ record {
      devfn = 0xA0;
      hw_name = "Quad 5 Lane 0 -- PCIe slot 3";
      x1000_use = "PCIe (not SGMII)";
    }
    ∷ record {
      devfn = 0xA1;
      hw_name = "Quad 5 Lane 1 -- PCIe slot 4";
      x1000_use = "PCIe (not SGMII)";
    }
    ∷ record {
      devfn = 0xA2;
      hw_name = "Quad 5 Lane 2 -- PCIe slot 5";
      x1000_use = "PCIe (not SGMII)";
    }
    ∷ record {
      devfn = 0xA3;
      hw_name = "Quad 5 Lane 3 -- SGMII";
      x1000_use = "Ethernet (Vitesse VSC8221 PHY)";
    }
    ∷ []

unfoldable pub name_in : List Serdes → ℕ → String
name_in [] devfn = "unknown"
name_in (s ∷ ss) devfn = if s.devfn == devfn then s.hw_name else name_in ss devfn

unfoldable pub use_in : List Serdes → ℕ → String
use_in [] devfn = "unknown"
use_in (s ∷ ss) devfn = if s.devfn == devfn then s.x1000_use else use_in ss devfn

unfoldable pub serdes_hw_name : ℕ → String
serdes_hw_name devfn = name_in x1000_serdes_map devfn

unfoldable pub serdes_x1000_use : ℕ → String
serdes_x1000_use devfn = use_in x1000_serdes_map devfn

-- A line of the interface table: an empty entry, or a lane.
pub data Line : Type 0 where
  empty : ℕ → Line
  lane : ℕ → ℕ → ℕ → ℕ → String → String → Line

unfoldable pub line_of : ℕ → ℕ → Line
line_of intf_num devfn =
    if devfn == 0
    then empty intf_num
    else lane intf_num devfn (bit_and (shr devfn 3) 0x1f) (bit_and devfn 0x07)
        (serdes_hw_name devfn) (serdes_x1000_use devfn)

-- The inner loop over word `i`, from byte `j` on with `k` to go; it ends at `nintf`.
unfoldable pub word_lines : ℕ → ℕ → ℕ → ℕ → ℕ → List Line
word_lines zero i j nintf entry = []
word_lines (suc k) i j nintf entry =
    if leb nintf (i * 4 + j)
    then []
    else line_of (i * 4 + j) (bit_and (shr entry (8 * j)) 0xff) ∷ word_lines k i (j + 1) nintf entry

-- The outer loop, from word `i` on with `k` to go.
unfoldable pub table_lines : ℕ → ℕ → ℕ → ℕ → M (List Line)
table_lines zero i nintf off = pure []
table_lines (suc k) i nintf off = do
  entry ← read_dma_reg ((off + 4 * i) % 2 ^ 32)
  rest ← table_lines k (i + 1) nintf off
  pure (word_lines 4 i 0 nintf entry ++ rest)

-- A line of the channel tables.
pub record Channel : Type 0 where
  pub number : ℕ
  pub sta : ℕ
  pub active : Bool
  pub enabled : Bool
  pub base_l : ℕ
  pub base_u : ℕ

unfoldable pub channel : (ℕ → ℕ) → (ℕ → ℕ) → (ℕ → ℕ) → ℕ → M Channel
channel status basel baseu i = do
  sta ← read_dma_reg (status i)
  base_l ← read_dma_reg (basel i)
  base_u ← read_dma_reg (baseu i)
  pure (record {
    number = i;
    sta = sta;
    active = is_set (bit_and sta 0x00010000);
    enabled = is_set (bit_and sta 0x00000001);
    base_l = base_l;
    base_u = base_u;
  })

unfoldable pub channels : (ℕ → ℕ) → (ℕ → ℕ) → (ℕ → ℕ) → ℕ → ℕ → M (List Channel)
channels status basel baseu zero i = pure []
channels status basel baseu (suc k) i = do
  c ← channel status basel baseu i
  rest ← channels status basel baseu k (i + 1)
  pure (c ∷ rest)

pub record Report : Type 0 where
  pub interfaces : List Line
  pub tx_channels : List Channel
  pub rx_channels : List Channel

-- `(x & 0x00ff0000) >> 16` and `(x & 0xff000000) >> 24`.
abbrev pub count_field : ℕ → ℕ
count_field x = shr (bit_and x 0x00ff0000) 16

abbrev pub offset_field : ℕ → ℕ
offset_field x = shr (bit_and x 0xff000000) 24

unfoldable pub report : M Report
report = do
  ifi ← read_dma_reg cap_ifi
  txch ← read_dma_reg cap_txch
  rxch ← read_dma_reg cap_rxch
  interfaces ← table_lines ((count_field ifi + 3) / 4) 0 (count_field ifi) (offset_field ifi)
  tx ← channels tcmdsta tx_basel tx_baseu (count_field txch) 0
  rx ← channels ccmdsta rx_basel rx_baseu (count_field rxch) 0
  pure (record { interfaces = interfaces; tx_channels = tx; rx_channels = rx })

-- `main`: the report, or `none` where it returns 20.
unfoldable pub main_report : M (Option Report)
main_report = do
  lib ← call (open_library expansion_library)
  if is_set lib
      then (do
        ipci ← call (get_interface lib)
        if is_set ipci
            then (do
              dev ← call (find_device pasemi_vendor_id pasemi_dev_dma)
              if is_set dev
                  then (do
                    out ← report
                    call_ (free_device dev)
                    call_ (drop_interface ipci)
                    call_ (close_library lib)
                    pure (some out))
                  else (do call_ (drop_interface ipci); call_ (close_library lib); pure none))
            else (do call_ (close_library lib); pure none))
      else pure none
