-- ===== src/Machine/Structs.antt =====
-- include/pa6t_eth.h: the driver's constants and structures, and of the SANA-II request the fields
-- that the driver reads or writes. A pointer is a number, and NULL is 0. A ring or an array is a
-- function of its index.
use pa6t_eth.Base.{ℕ, ◌-◌, Bool, Option, List, bit_and}

abbrev pub eth_addr_len : ℕ
eth_addr_len = 6

abbrev pub eth_hdr_len : ℕ
eth_hdr_len = 14

abbrev pub eth_max_frame : ℕ
eth_max_frame = 1514

abbrev pub rx_buf_size : ℕ
rx_buf_size = 2048

abbrev pub tx_ring_size : ℕ
tx_ring_size = 256

abbrev pub rx_ring_size : ℕ
rx_ring_size = 2048

abbrev pub rx_buf_ring_size : ℕ
rx_buf_ring_size = rx_ring_size

abbrev pub num_rx_bufs : ℕ
num_rx_bufs = 512

-- The index that `TX_DESC`, `RX_DESC` and `RX_BUFF` use: the ring's size is a power of two.
abbrev pub tx_index : ℕ → ℕ
tx_index n = bit_and n (tx_ring_size - 1)

abbrev pub rx_index : ℕ → ℕ
rx_index n = bit_and n (rx_ring_size - 1)

abbrev pub rx_buff_index : ℕ → ℕ
rx_buff_index n = bit_and n (rx_buf_ring_size - 1)

-- The commands that the driver knows, and any other.
pub data Command : Type 0 where
  s2_devicequery s2_getstationaddress s2_configinterface s2_online s2_offline : Command
  cmd_read s2_readorphan cmd_write s2_broadcast s2_multicast cmd_flush s2_onevent : Command
  s2_getglobalstats s2_addmulticastaddress s2_delmulticastaddresses : Command
  s2_delmulticastaddress s2_addmulticastaddresses s2_tracktype s2_untracktype : Command
  s2_sana2hook : Command
  other_command : ℕ → Command

-- `io_Error`: zero, and the codes that the driver sets.
pub data IoError : Type 0 where
  success : IoError
  s2err_no_resources s2err_bad_argument s2err_bad_state s2err_mtu_exceeded : IoError
  s2err_tx_failure s2err_outofservice ioerr_openfail ioerr_aborted ioerr_nocmd : IoError

-- The bits of `io_Flags` that the driver uses.
pub record Flags : Type 0 where
  pub iof_quick : Bool
  pub sana2iof_bcast : Bool
  pub sana2iof_mcast : Bool

-- `struct IOSana2Req`.
pub record IoSana2Req : Type 0 where
  -- whether the driver has set the type of its node to NT_REPLYMSG
  pub is_replymsg : Bool
  pub io_command : Command
  pub io_flags : Flags
  pub io_error : IoError
  pub io_unit : ℕ
  pub io_device : ℕ
  pub wire_error : ℕ
  pub packet_type : ℕ
  pub src_addr : List ℕ
  pub dst_addr : List ℕ
  pub data_length : ℕ
  pub ios2_data : ℕ
  pub stat_data : ℕ
  pub buffer_management : ℕ

-- `struct Sana2DeviceQuery` and `struct Sana2DeviceStats`.
pub record DeviceQuery : Type 0 where
  pub size_available : ℕ
  pub size_supplied : ℕ
  pub dev_query_format : ℕ
  pub device_level : ℕ
  pub addr_field_size : ℕ
  pub mtu : ℕ
  pub bps : ℕ
  pub hardware_type : ℕ
  pub raw_mtu : ℕ

pub record DeviceStats : Type 0 where
  pub packets_received : ℕ
  pub packets_sent : ℕ
  pub bad_data : ℕ
  pub overruns : ℕ
  pub unknown_types_received : ℕ
  pub reconfigurations : ℕ

-- `struct Opener`. `at` is the address of the structure.
pub record Opener : Type 0 where
  pub at : ℕ
  pub bm_cookie : ℕ
  pub s2hook : ℕ

-- `struct PendingRead`.
pub record PendingRead : Type 0 where
  pub at : ℕ
  pub ioreq : ℕ

-- `struct PA6TEthUnit`. `port_msgs` is the message list of `io_port`; `tx_desc`, `rx_desc` and
-- `rx_buff` are the words that `tx_ring`, `rx_ring` and `rx_buf_ring` point to.
pub record EthUnit : Type 0 where
  pub open_count : ℕ
  pub online : Bool
  pub task : ℕ
  pub io_port : ℕ
  pub io_port_mask : ℕ
  pub port_msgs : List ℕ
  pub task_shutdown : Bool
  pub irq_wait_task : ℕ
  pub irq_signal_mask : ℕ
  pub read_list_ipv4 : List PendingRead
  pub read_list_arp : List PendingRead
  pub read_list_other : List PendingRead
  pub event_list : List ℕ
  pub opener_list : List Opener
  pub tx_ring : ℕ
  pub tx_desc : ℕ → ℕ
  pub tx_ring_phys : ℕ
  pub tx_ring_dma_entries : ℕ
  pub tx_next_fill : ℕ
  pub rx_ring : ℕ
  pub rx_desc : ℕ → ℕ
  pub rx_ring_phys : ℕ
  pub rx_ring_dma_entries : ℕ
  pub rx_next_clean : ℕ
  pub rx_buf_ring : ℕ
  pub rx_buff : ℕ → ℕ
  pub rx_buf_ring_phys : ℕ
  pub rx_buf_ring_dma_entries : ℕ
  pub rx_buf_write_ptr : ℕ
  pub rx_slot_buf : ℕ → ℕ
  pub rx_bufs : ℕ → ℕ
  pub rx_bufs_phys : ℕ → ℕ
  pub rx_bufs_dma_entries : ℕ → ℕ
  pub tx_buf_pending : ℕ
  pub tx_buf_pending_len : ℕ
  pub tx_fill_pending : ℕ
  pub stat_rx : ℕ
  pub stat_tx : ℕ
  pub stat_rx_dropped : ℕ
  pub loop_count : ℕ

-- `struct PA6TEthBase`. An `int32` of which the code tests the sign is an `Option`: `none` is a
-- negative number.
pub record EthBase : Type 0 where
  pub lib_open_cnt : ℕ
  pub libf_delexp : Bool
  pub ref_count : ℕ
  pub expansion_base : ℕ
  pub ipci : ℕ
  pub utility_base : ℕ
  pub iutility : ℕ
  pub mac_dev : ℕ
  pub dma_dev : ℕ
  pub iob_dev : ℕ
  pub dma_if : Option ℕ
  pub tx_channel_num : Option ℕ
  pub rx_channel_num : Option ℕ
  pub mac_addr : List ℕ
  pub dev_seg_list : ℕ
  pub unit : ℕ
  pub pasdma_status : ℕ
  pub irq_number : ℕ
  pub irq_installed : Bool
  pub irq_enter : ℕ
  pub irq_exit : ℕ
  pub irq_miss : ℕ
