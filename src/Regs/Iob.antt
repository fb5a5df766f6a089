-- ===== src/Regs/Iob.antt =====
-- include/pa6t_eth_regs.h: PCI identities, IOB registers and the bits of pasdma_status.
use pa6t_eth.Base.{ℕ, ◌+◌, ◌*◌, bit_and}
use pa6t_eth.Regs.Shift.{shl32}

abbrev pub pasemi_vendor_id : ℕ
pasemi_vendor_id = 0x1959

abbrev pub pasemi_dev_gmac : ℕ
pasemi_dev_gmac = 0xa005

abbrev pub pasemi_dev_dma : ℕ
pasemi_dev_dma = 0xa007

abbrev pub pasemi_dev_iob : ℕ
pasemi_dev_iob = 0xa001

abbrev pub pa6t_iob_ecam : ℕ
pa6t_iob_ecam = 0xE0000000

abbrev pub pa6t_dma_ecam : ℕ
pa6t_dma_ecam = 0xE00D0000

abbrev pub pa6t_mac_ecam : ℕ
pa6t_mac_ecam = 0xE00A3000

abbrev pub pas_iob_com_pkthdrcnt : ℕ
pas_iob_com_pkthdrcnt = 0x0120

abbrev pub pas_iob_dma_com_timeoutcfg : ℕ
pas_iob_dma_com_timeoutcfg = 0x1700

abbrev pub pas_iob_dma_com_timeoutcfg_tcnt : ℕ → ℕ
pas_iob_dma_com_timeoutcfg_tcnt x = bit_and x 0x00ffffff

abbrev pub pas_iob_dma_rxch_cfg : ℕ → ℕ
pas_iob_dma_rxch_cfg i = 0x1100 + i * 4

abbrev pub pas_iob_dma_txch_cfg : ℕ → ℕ
pas_iob_dma_txch_cfg i = 0x1200 + i * 4

abbrev pub pas_iob_dma_rxch_stat : ℕ → ℕ
pas_iob_dma_rxch_stat i = 0x1300 + i * 4

abbrev pub pas_iob_dma_txch_stat : ℕ → ℕ
pas_iob_dma_txch_stat i = 0x1400 + i * 4

abbrev pub pas_iob_dma_rxch_reset : ℕ → ℕ
pas_iob_dma_rxch_reset i = 0x1500 + i * 4

abbrev pub pas_iob_dma_txch_reset : ℕ → ℕ
pas_iob_dma_txch_reset i = 0x1600 + i * 4

abbrev pub pas_iob_dma_rxch_cfg_cntth : ℕ → ℕ
pas_iob_dma_rxch_cfg_cntth x = bit_and x 0xfff

abbrev pub pas_iob_dma_txch_cfg_cntth : ℕ → ℕ
pas_iob_dma_txch_cfg_cntth x = bit_and x 0xfff

abbrev pub pas_iob_dma_rxch_stat_intgen : ℕ
pas_iob_dma_rxch_stat_intgen = 0x00001000

abbrev pub pas_iob_dma_rxch_stat_cntdel_m : ℕ
pas_iob_dma_rxch_stat_cntdel_m = 0x00000fff

abbrev pub pas_iob_dma_txch_stat_cntdel_m : ℕ
pas_iob_dma_txch_stat_cntdel_m = 0x00000fff

abbrev pub pas_iob_dma_rxch_reset_pcnt : ℕ → ℕ
pas_iob_dma_rxch_reset_pcnt x = shl32 (bit_and x 0xffff) 16

abbrev pub pas_iob_dma_rxch_reset_pcntrst : ℕ
pas_iob_dma_rxch_reset_pcntrst = 0x00000020

abbrev pub pas_iob_dma_rxch_reset_dcntrst : ℕ
pas_iob_dma_rxch_reset_dcntrst = 0x00000010

abbrev pub pas_iob_dma_rxch_reset_tintc : ℕ
pas_iob_dma_rxch_reset_tintc = 0x00000008

abbrev pub pas_iob_dma_rxch_reset_dintc : ℕ
pas_iob_dma_rxch_reset_dintc = 0x00000004

abbrev pub pas_iob_dma_rxch_reset_sintc : ℕ
pas_iob_dma_rxch_reset_sintc = 0x00000002

abbrev pub pas_iob_dma_rxch_reset_pintc : ℕ
pas_iob_dma_rxch_reset_pintc = 0x00000001

abbrev pub pas_iob_dma_txch_reset_pcnt : ℕ → ℕ
pas_iob_dma_txch_reset_pcnt x = shl32 (bit_and x 0xffff) 16

abbrev pub pas_iob_dma_txch_reset_pintc : ℕ
pas_iob_dma_txch_reset_pintc = 0x00000001

abbrev pub pas_status_timer : ℕ
pas_status_timer = 0x1000000000000000

abbrev pub pas_status_error : ℕ
pas_status_error = 0x2000000000000000

abbrev pub pas_status_soft : ℕ
pas_status_soft = 0x4000000000000000
