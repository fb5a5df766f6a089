-- ===== src/Regs/Xct.antt =====
-- include/pa6t_eth_regs.h: the bit fields of the TX, RX and buffer descriptors, 64-bit words.
-- `x << s` on a `uint64` is `shl64`: what is shifted out is lost.
use pa6t_eth.Base.{ℕ, bit_and}
use pa6t_eth.Regs.Shift.{shl64}

abbrev pub xct_mactx_o : ℕ
xct_mactx_o = 0x0400000000000000

abbrev pub xct_mactx_st : ℕ
xct_mactx_st = 0x4000000000000000

abbrev pub xct_mactx_crc_pad : ℕ
xct_mactx_crc_pad = 0x0040000000000000

abbrev pub xct_mactx_llen_s : ℕ
xct_mactx_llen_s = 32

abbrev pub xct_mactx_llen_m : ℕ
xct_mactx_llen_m = 0x00007fff00000000

abbrev pub xct_mactx_llen : ℕ → ℕ
xct_mactx_llen x = bit_and (shl64 x xct_mactx_llen_s) xct_mactx_llen_m

abbrev pub xct_ptr_len_s : ℕ
xct_ptr_len_s = 44

abbrev pub xct_ptr_len_m : ℕ
xct_ptr_len_m = 0x7ffff00000000000

abbrev pub xct_ptr_len : ℕ → ℕ
xct_ptr_len x = bit_and (shl64 x xct_ptr_len_s) xct_ptr_len_m

abbrev pub xct_ptr_addr_m : ℕ
xct_ptr_addr_m = 0x00000fffffffffff

abbrev pub xct_ptr_addr_s : ℕ
xct_ptr_addr_s = 0

abbrev pub xct_ptr_addr : ℕ → ℕ
xct_ptr_addr x = bit_and (shl64 x xct_ptr_addr_s) xct_ptr_addr_m

abbrev pub xct_macrx_o : ℕ
xct_macrx_o = 0x0400000000000000

abbrev pub xct_macrx_e : ℕ
xct_macrx_e = 0x0200000000000000

abbrev pub xct_macrx_llen_m : ℕ
xct_macrx_llen_m = 0x00003fff00000000

abbrev pub xct_macrx_llen_s : ℕ
xct_macrx_llen_s = 32

abbrev pub xct_macrx_crc : ℕ
xct_macrx_crc = 0x0000000080000000

abbrev pub xct_macrx_cast_m : ℕ
xct_macrx_cast_m = 0x0000000018000000

abbrev pub xct_macrx_cast_multi : ℕ
xct_macrx_cast_multi = 0x0000000008000000

abbrev pub xct_macrx_cast_broad : ℕ
xct_macrx_cast_broad = 0x0000000010000000

abbrev pub xct_rxres_8b_eval_m : ℕ
xct_rxres_8b_eval_m = 0x000000ffff000000

abbrev pub xct_rxres_8b_eval_s : ℕ
xct_rxres_8b_eval_s = 24

abbrev pub xct_rxb_len_s : ℕ
xct_rxb_len_s = 44

abbrev pub xct_rxb_len_m : ℕ
xct_rxb_len_m = 0x0ffff00000000000

abbrev pub xct_rxb_len : ℕ → ℕ
xct_rxb_len x = bit_and (shl64 x xct_rxb_len_s) xct_rxb_len_m

abbrev pub xct_rxb_addr_m : ℕ
xct_rxb_addr_m = 0x00000fffffffffff

abbrev pub xct_rxb_addr_s : ℕ
xct_rxb_addr_s = 0

abbrev pub xct_rxb_addr : ℕ → ℕ
xct_rxb_addr x = bit_and (shl64 x xct_rxb_addr_s) xct_rxb_addr_m
