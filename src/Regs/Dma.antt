-- ===== src/Regs/Dma.antt =====
-- include/pa6t_eth_regs.h: the registers of the DMA controller that the driver uses.
use pa6t_eth.Base.{ℕ, ◌+◌, ◌*◌, bit_and}
use pa6t_eth.Regs.Shift.{shl32}

abbrev pub pas_dma_cap_ifi : ℕ
pas_dma_cap_ifi = 0x4c

abbrev pub pas_dma_com_txcmd : ℕ
pas_dma_com_txcmd = 0x100

abbrev pub pas_dma_com_rxcmd : ℕ
pas_dma_com_rxcmd = 0x108

abbrev pub pas_dma_com_rxsta : ℕ
pas_dma_com_rxsta = 0x10c

abbrev pub pas_dma_com_txcmd_en : ℕ
pas_dma_com_txcmd_en = 0x00000001

abbrev pub pas_dma_com_rxcmd_en : ℕ
pas_dma_com_rxcmd_en = 0x00000001

abbrev pub pas_dma_com_rxsta_act : ℕ
pas_dma_com_rxsta_act = 0x00000001

abbrev pub pas_dma_cap_ifi_nin_m : ℕ
pas_dma_cap_ifi_nin_m = 0x00ff0000

abbrev pub pas_dma_cap_ifi_nin_s : ℕ
pas_dma_cap_ifi_nin_s = 16

abbrev pub pas_dma_cap_ifi_ioff_m : ℕ
pas_dma_cap_ifi_ioff_m = 0xff000000

abbrev pub pas_dma_cap_ifi_ioff_s : ℕ
pas_dma_cap_ifi_ioff_s = 24

abbrev pub pas_dma_rxint_stride : ℕ
pas_dma_rxint_stride = 0x20

abbrev pub pas_dma_rxint_rcmdsta : ℕ → ℕ
pas_dma_rxint_rcmdsta i = 0x200 + i * pas_dma_rxint_stride

abbrev pub pas_dma_rxint_cfg : ℕ → ℕ
pas_dma_rxint_cfg i = 0x204 + i * pas_dma_rxint_stride

abbrev pub pas_dma_rxint_incr : ℕ → ℕ
pas_dma_rxint_incr i = 0x210 + i * pas_dma_rxint_stride

abbrev pub pas_dma_rxint_basel : ℕ → ℕ
pas_dma_rxint_basel i = 0x218 + i * pas_dma_rxint_stride

abbrev pub pas_dma_rxint_baseu : ℕ → ℕ
pas_dma_rxint_baseu i = 0x21c + i * pas_dma_rxint_stride

abbrev pub pas_dma_rxint_rcmdsta_en : ℕ
pas_dma_rxint_rcmdsta_en = 0x00000001

abbrev pub pas_dma_rxint_rcmdsta_st : ℕ
pas_dma_rxint_rcmdsta_st = 0x00000002

abbrev pub pas_dma_rxint_rcmdsta_drops_m : ℕ
pas_dma_rxint_rcmdsta_drops_m = 0xfffe0000

abbrev pub pas_dma_rxint_rcmdsta_act : ℕ
pas_dma_rxint_rcmdsta_act = 0x00010000

abbrev pub pas_dma_rxint_rcmdsta_bp : ℕ
pas_dma_rxint_rcmdsta_bp = 0x00004000

abbrev pub pas_dma_rxint_rcmdsta_oo : ℕ
pas_dma_rxint_rcmdsta_oo = 0x00002000

abbrev pub pas_dma_rxint_rcmdsta_dr : ℕ
pas_dma_rxint_rcmdsta_dr = 0x00001000

abbrev pub pas_dma_rxint_rcmdsta_bt : ℕ
pas_dma_rxint_rcmdsta_bt = 0x00000800

abbrev pub pas_dma_rxint_cfg_rbp : ℕ
pas_dma_rxint_cfg_rbp = 0x80000000

abbrev pub pas_dma_rxint_cfg_dhl_s : ℕ
pas_dma_rxint_cfg_dhl_s = 24

abbrev pub pas_dma_rxint_cfg_dhl_m : ℕ
pas_dma_rxint_cfg_dhl_m = 0x07000000

abbrev pub pas_dma_rxint_cfg_dhl : ℕ → ℕ
pas_dma_rxint_cfg_dhl x = bit_and (shl32 x pas_dma_rxint_cfg_dhl_s) pas_dma_rxint_cfg_dhl_m

abbrev pub pas_dma_rxint_cfg_lw : ℕ
pas_dma_rxint_cfg_lw = 0x00200000

abbrev pub pas_dma_rxint_cfg_l2 : ℕ
pas_dma_rxint_cfg_l2 = 0x00100000

abbrev pub pas_dma_rxint_cfg_hen : ℕ
pas_dma_rxint_cfg_hen = 0x00080000

abbrev pub pas_dma_rxint_basel_brbl : ℕ → ℕ
pas_dma_rxint_basel_brbl x = bit_and x 0xffffffc0

abbrev pub pas_dma_rxint_baseu_brbh : ℕ → ℕ
pas_dma_rxint_baseu_brbh x = bit_and x 0xfff

abbrev pub pas_dma_rxint_baseu_siz_s : ℕ
pas_dma_rxint_baseu_siz_s = 16

abbrev pub pas_dma_rxint_baseu_siz : ℕ → ℕ
pas_dma_rxint_baseu_siz x = bit_and (shl32 x pas_dma_rxint_baseu_siz_s) 0x3fff0000

abbrev pub pas_dma_txchan_stride : ℕ
pas_dma_txchan_stride = 0x20

abbrev pub pas_dma_txchan_tcmdsta : ℕ → ℕ
pas_dma_txchan_tcmdsta c = 0x300 + c * pas_dma_txchan_stride

abbrev pub pas_dma_txchan_cfg : ℕ → ℕ
pas_dma_txchan_cfg c = 0x304 + c * pas_dma_txchan_stride

abbrev pub pas_dma_txchan_incr : ℕ → ℕ
pas_dma_txchan_incr c = 0x310 + c * pas_dma_txchan_stride

abbrev pub pas_dma_txchan_basel : ℕ → ℕ
pas_dma_txchan_basel c = 0x318 + c * pas_dma_txchan_stride

abbrev pub pas_dma_txchan_baseu : ℕ → ℕ
pas_dma_txchan_baseu c = 0x31c + c * pas_dma_txchan_stride

abbrev pub pas_dma_txchan_tcmdsta_en : ℕ
pas_dma_txchan_tcmdsta_en = 0x00000001

abbrev pub pas_dma_txchan_tcmdsta_st : ℕ
pas_dma_txchan_tcmdsta_st = 0x00000002

abbrev pub pas_dma_txchan_tcmdsta_act : ℕ
pas_dma_txchan_tcmdsta_act = 0x00010000

abbrev pub pas_dma_txchan_tcmdsta_sz : ℕ
pas_dma_txchan_tcmdsta_sz = 0x00000800

abbrev pub pas_dma_txchan_tcmdsta_db : ℕ
pas_dma_txchan_tcmdsta_db = 0x00000400

abbrev pub pas_dma_txchan_tcmdsta_de : ℕ
pas_dma_txchan_tcmdsta_de = 0x00000200

abbrev pub pas_dma_txchan_tcmdsta_da : ℕ
pas_dma_txchan_tcmdsta_da = 0x00000100

abbrev pub pas_dma_txchan_cfg_ty_iface : ℕ
pas_dma_txchan_cfg_ty_iface = 0x00000000

abbrev pub pas_dma_txchan_cfg_tattr_s : ℕ
pas_dma_txchan_cfg_tattr_s = 2

abbrev pub pas_dma_txchan_cfg_tattr_m : ℕ
pas_dma_txchan_cfg_tattr_m = 0x0000003c

abbrev pub pas_dma_txchan_cfg_tattr : ℕ → ℕ
pas_dma_txchan_cfg_tattr x = bit_and (shl32 x pas_dma_txchan_cfg_tattr_s) pas_dma_txchan_cfg_tattr_m

abbrev pub pas_dma_txchan_cfg_up : ℕ
pas_dma_txchan_cfg_up = 0x00004000

abbrev pub pas_dma_txchan_cfg_wt_s : ℕ
pas_dma_txchan_cfg_wt_s = 6

abbrev pub pas_dma_txchan_cfg_wt : ℕ → ℕ
pas_dma_txchan_cfg_wt x = bit_and (shl32 x pas_dma_txchan_cfg_wt_s) 0x000003c0

abbrev pub pas_dma_txchan_basel_brbl : ℕ → ℕ
pas_dma_txchan_basel_brbl x = bit_and x 0xffffffc0

abbrev pub pas_dma_txchan_baseu_brbh : ℕ → ℕ
pas_dma_txchan_baseu_brbh x = bit_and x 0xfff

abbrev pub pas_dma_txchan_baseu_siz_s : ℕ
pas_dma_txchan_baseu_siz_s = 16

abbrev pub pas_dma_txchan_baseu_siz : ℕ → ℕ
pas_dma_txchan_baseu_siz x = bit_and (shl32 x pas_dma_txchan_baseu_siz_s) 0x3fff0000

abbrev pub pas_dma_rxchan_stride : ℕ
pas_dma_rxchan_stride = 0x20

abbrev pub pas_dma_rxchan_ccmdsta : ℕ → ℕ
pas_dma_rxchan_ccmdsta c = 0x800 + c * pas_dma_rxchan_stride

abbrev pub pas_dma_rxchan_cfg : ℕ → ℕ
pas_dma_rxchan_cfg c = 0x804 + c * pas_dma_rxchan_stride

abbrev pub pas_dma_rxchan_incr : ℕ → ℕ
pas_dma_rxchan_incr c = 0x810 + c * pas_dma_rxchan_stride

abbrev pub pas_dma_rxchan_basel : ℕ → ℕ
pas_dma_rxchan_basel c = 0x818 + c * pas_dma_rxchan_stride

abbrev pub pas_dma_rxchan_baseu : ℕ → ℕ
pas_dma_rxchan_baseu c = 0x81c + c * pas_dma_rxchan_stride

abbrev pub pas_dma_rxchan_ccmdsta_en : ℕ
pas_dma_rxchan_ccmdsta_en = 0x00000001

abbrev pub pas_dma_rxchan_ccmdsta_st : ℕ
pas_dma_rxchan_ccmdsta_st = 0x00000002

abbrev pub pas_dma_rxchan_ccmdsta_act : ℕ
pas_dma_rxchan_ccmdsta_act = 0x00010000

abbrev pub pas_dma_rxchan_ccmdsta_du : ℕ
pas_dma_rxchan_ccmdsta_du = 0x00020000

abbrev pub pas_dma_rxchan_ccmdsta_od : ℕ
pas_dma_rxchan_ccmdsta_od = 0x00002000

abbrev pub pas_dma_rxchan_ccmdsta_fd : ℕ
pas_dma_rxchan_ccmdsta_fd = 0x00001000

abbrev pub pas_dma_rxchan_ccmdsta_dt : ℕ
pas_dma_rxchan_ccmdsta_dt = 0x00000800

abbrev pub pas_dma_rxchan_cfg_hbu_s : ℕ
pas_dma_rxchan_cfg_hbu_s = 7

abbrev pub pas_dma_rxchan_cfg_hbu_m : ℕ
pas_dma_rxchan_cfg_hbu_m = 0x00000380

abbrev pub pas_dma_rxchan_cfg_hbu : ℕ → ℕ
pas_dma_rxchan_cfg_hbu x = bit_and (shl32 x pas_dma_rxchan_cfg_hbu_s) pas_dma_rxchan_cfg_hbu_m

abbrev pub pas_dma_rxchan_basel_brbl : ℕ → ℕ
pas_dma_rxchan_basel_brbl x = bit_and x 0xffffffc0

abbrev pub pas_dma_rxchan_baseu_brbh : ℕ → ℕ
pas_dma_rxchan_baseu_brbh x = bit_and x 0xfff

abbrev pub pas_dma_rxchan_baseu_siz_s : ℕ
pas_dma_rxchan_baseu_siz_s = 16

abbrev pub pas_dma_rxchan_baseu_siz : ℕ → ℕ
pas_dma_rxchan_baseu_siz x = bit_and (shl32 x pas_dma_rxchan_baseu_siz_s) 0x3fff0000
