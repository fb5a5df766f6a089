-- ===== src/Machine/Calls.antt =====
-- What the driver asks of the operating system and of the hardware. None of it is code of the
-- repository: each use is a call, and what comes back is chosen by the environment.
use pa6t_eth.Base.{ℕ, Bool}

-- DMA_ReadFromRAM and DMAF_NoModify.
pub record DmaFlags : Type 0 where
  pub read_from_ram : Bool
  pub no_modify : Bool

pub data Device : Type 0 where
  mac_device dma_device iob_device : Device

-- The semaphores, which the driver obtains and releases.
pub data Semaphore : Type 0 where
  tx_lock opener_lock : Semaphore

pub data Library : Type 0 where
  expansion_library utility_library : Library

pub data Ring : Type 0 where
  tx_descriptors rx_descriptors rx_buffers : Ring

-- `schm_Method`.
pub data CopyMethod : Type 0 where
  s2_copy_to_buff s2_copy_from_buff : CopyMethod

-- `struct SANA2CopyHookMsg`.
pub record CopyHookMsg : Type 0 where
  pub method : CopyMethod
  pub to : ℕ
  pub from : ℕ
  pub size : ℕ

pub data Call : Type 0 where
  -- memory: size to address or NULL; address
  alloc_vec : ℕ → Call
  free_vec : ℕ → Call
  -- DMA mapping: address, length, flags
  start_dma end_dma : ℕ → ℕ → DmaFlags → Call
  alloc_dma_list : ℕ → Call
  get_dma_list : ℕ → ℕ → DmaFlags → ℕ → Call
  free_dma_list : ℕ → Call
  set_cache_inhibited : ℕ → ℕ → Call
  -- messages: the request
  reply_msg put_msg : ℕ → Call
  -- scheduling
  forbid permit reschedule : Call
  obtain release : Semaphore → Call
  init_semaphore : Semaphore → Call
  signal : ℕ → ℕ → Call
  wait : ℕ → Call
  set_signal : ℕ → Call
  alloc_signal : Call
  free_signal : ℕ → Call
  alloc_port : Call
  port_sig_bit : ℕ → Call
  free_port : ℕ → Call
  find_task : Call
  create_task : Call
  -- libraries and interfaces
  open_library : Library → Call
  close_library : ℕ → Call
  get_interface : ℕ → Call
  get_mmu_interface : Call
  drop_interface : ℕ → Call
  remove_node delete_library : Call
  -- the copy hook of an opener: hook, request, message; 0 is a failure
  call_hook : ℕ → ℕ → CopyHookMsg → Call
  -- PCI devices: vendor and device identity; configuration space; command word
  find_device : ℕ → ℕ → Call
  free_device : ℕ → Call
  get_address : Device → Call
  map_interrupt : Call
  add_int_server : ℕ → Call
  rem_int_server : ℕ → Call
  read_mac read_dma : ℕ → Call
  write_mac write_dma : ℕ → ℕ → Call
  read_command : Device → Call
  write_command : Device → ℕ → Call
  -- the IOB, memory-mapped, and its status words
  read_iob : ℕ → Call
  write_iob : ℕ → ℕ → Call
  read_status : ℕ → Call
  -- memory that the hardware shares
  read_tx_desc : ℕ → Call
  store_tx_desc : ℕ → ℕ → Call
  wmb : Call
