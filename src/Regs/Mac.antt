-- ===== src/Regs/Mac.antt =====
-- include/pa6t_eth_regs.h: the MAC registers that the driver writes, and their fields.
use pa6t_eth.Base.{ℕ, ◌+◌, ◌*◌, bit_and}
use pa6t_eth.Regs.Shift.{shl32}

abbrev pub pas_mac_cfg_pcfg : ℕ
pas_mac_cfg_pcfg = 0x80

abbrev pub pas_mac_cfg_maccfg : ℕ
pas_mac_cfg_maccfg = 0x84

abbrev pub pas_mac_cfg_adr0 : ℕ
pas_mac_cfg_adr0 = 0x8c

abbrev pub pas_mac_cfg_adr1 : ℕ
pas_mac_cfg_adr1 = 0x90

abbrev pub pas_mac_cfg_txp : ℕ
pas_mac_cfg_txp = 0x98

abbrev pub pas_mac_cfg_rmon : ℕ → ℕ
pas_mac_cfg_rmon r = 0x100 + r * 4

abbrev pub pas_mac_ipc_chnl : ℕ
pas_mac_ipc_chnl = 0x208

abbrev pub pas_mac_cfg_pcfg_pe : ℕ
pas_mac_cfg_pcfg_pe = 0x80000000

abbrev pub pas_mac_cfg_pcfg_ce : ℕ
pas_mac_cfg_pcfg_ce = 0x40000000

abbrev pub pas_mac_cfg_pcfg_tsr_1g : ℕ
pas_mac_cfg_pcfg_tsr_1g = 0x08000000

abbrev pub pas_mac_cfg_pcfg_pr : ℕ
pas_mac_cfg_pcfg_pr = 0x01000000

abbrev pub pas_mac_cfg_pcfg_s1 : ℕ
pas_mac_cfg_pcfg_s1 = 0x00000080

abbrev pub pas_mac_cfg_pcfg_spd_1g : ℕ
pas_mac_cfg_pcfg_spd_1g = 0x00000002

abbrev pub pas_mac_cfg_maccfg_maxf_m : ℕ
pas_mac_cfg_maccfg_maxf_m = 0x00ffff00

abbrev pub pas_mac_cfg_maccfg_maxf_s : ℕ
pas_mac_cfg_maccfg_maxf_s = 8

abbrev pub pas_mac_cfg_maccfg_maxf : ℕ → ℕ
pas_mac_cfg_maccfg_maxf x = bit_and (shl32 x pas_mac_cfg_maccfg_maxf_s) pas_mac_cfg_maccfg_maxf_m

abbrev pub pas_mac_cfg_txp_fce : ℕ
pas_mac_cfg_txp_fce = 0x00800000

abbrev pub pas_mac_cfg_txp_fpc_s : ℕ
pas_mac_cfg_txp_fpc_s = 20

abbrev pub pas_mac_cfg_txp_fpc : ℕ → ℕ
pas_mac_cfg_txp_fpc x = bit_and (shl32 x pas_mac_cfg_txp_fpc_s) 0x00300000

abbrev pub pas_mac_cfg_txp_sl_s : ℕ
pas_mac_cfg_txp_sl_s = 16

abbrev pub pas_mac_cfg_txp_sl : ℕ → ℕ
pas_mac_cfg_txp_sl x = bit_and (shl32 x pas_mac_cfg_txp_sl_s) 0x00030000

abbrev pub pas_mac_cfg_txp_cob_s : ℕ
pas_mac_cfg_txp_cob_s = 12

abbrev pub pas_mac_cfg_txp_cob : ℕ → ℕ
pas_mac_cfg_txp_cob x = bit_and (shl32 x pas_mac_cfg_txp_cob_s) 0x0000f000

abbrev pub pas_mac_cfg_txp_tift_s : ℕ
pas_mac_cfg_txp_tift_s = 8

abbrev pub pas_mac_cfg_txp_tift : ℕ → ℕ
pas_mac_cfg_txp_tift x = bit_and (shl32 x pas_mac_cfg_txp_tift_s) 0x00000f00

abbrev pub pas_mac_cfg_txp_tifg_s : ℕ
pas_mac_cfg_txp_tifg_s = 0

abbrev pub pas_mac_cfg_txp_tifg : ℕ → ℕ
pas_mac_cfg_txp_tifg x = bit_and (shl32 x pas_mac_cfg_txp_tifg_s) 0x000000ff

abbrev pub pas_mac_ipc_chnl_dchno_s : ℕ
pas_mac_ipc_chnl_dchno_s = 16

abbrev pub pas_mac_ipc_chnl_dchno : ℕ → ℕ
pas_mac_ipc_chnl_dchno x = bit_and (shl32 x pas_mac_ipc_chnl_dchno_s) 0x003f0000

abbrev pub pas_mac_ipc_chnl_bch_s : ℕ
pas_mac_ipc_chnl_bch_s = 0

abbrev pub pas_mac_ipc_chnl_bch : ℕ → ℕ
pas_mac_ipc_chnl_bch x = bit_and (shl32 x pas_mac_ipc_chnl_bch_s) 0x0000003f
