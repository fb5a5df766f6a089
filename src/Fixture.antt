-- ===== src/Fixture.antt =====
-- A concrete state: a unit that is online with one opener, a frame in its receive ring, and the
-- same with requests that wait.
use pa6t_eth.Base.{ℕ, ◌+◌, List, [], ◌∷◌, true, false, ◌==◌, if◌then◌else◌, some}
use pa6t_eth.Machine.{World, Sdk}
use pa6t_eth.Machine.Structs.{
  EthUnit, EthBase, IoSana2Req, Opener, Command, cmd_read, cmd_write, s2_onevent, s2_offline,
  s2_readorphan, success,
}
use pa6t_eth.Machine.Calls.{set_signal}
use pa6t_eth.Device.Start.{new_unit}
use pa6t_eth.Ledger.Account.{Event, begin, abort, round, interrupt}

abbrev pub sdk : Sdk
sdk = record {
  s2werr_generic_error = 0;
  s2werr_unit_online = 3;
  s2werr_unit_offline = 4;
  s2werr_buff_error = 7;
  s2werr_null_pointer = 9;
  s2event_online = 8;
  s2event_offline = 16;
  sigbreakf_ctrl_c = 4096;
  pci_command_memory = 2;
  pci_command_master = 4;
  s2_wire_type_ethernet = 1;
  sizeof_device_query = 36;
  addr_field_size_end = 18;
  mtu_end = 22;
  bps_end = 26;
  hardware_type_end = 30;
  raw_mtu_end = 34;
  sizeof_opener = 16;
  sizeof_unit = 5000;
  sizeof_pending_read = 12;
}

abbrev pub opener : Opener
opener = record { at = 64; bm_cookie = 7; s2hook = 9 }

-- The requests: 1 reads, 2 waits for an event, 3 takes the unit offline, 4 reads orphans, and each
-- other one writes 100 bytes.
abbrev pub command_of : ℕ → Command
command_of q =
    if q == 1
    then cmd_read
    else if q == 2
    then s2_onevent
    else if q == 3
    then s2_offline
    else if q == 4
    then s2_readorphan
    else cmd_write

abbrev pub request : ℕ → IoSana2Req
request q = record {
  is_replymsg = false;
  io_command = command_of q;
  io_flags = record { iof_quick = true; sana2iof_bcast = false; sana2iof_mcast = false };
  io_error = success;
  io_unit = 128;
  io_device = 32;
  wire_error = 8;
  packet_type = 0x0800;
  src_addr = [];
  dst_addr = 1 ∷ 2 ∷ 3 ∷ 4 ∷ 5 ∷ 6 ∷ [];
  data_length = 100;
  ios2_data = 77;
  stat_data = 78;
  buffer_management = 7;
}

-- Online, with a complete descriptor at index 0 for a frame of 100 bytes in buffer 0.
abbrev pub unit : EthUnit
unit = record new_unit {
  open_count = 1;
  online = true;
  task = 512;
  io_port = 600;
  io_port_mask = 2;
  irq_wait_task = 512;
  irq_signal_mask = 4;
  opener_list = opener ∷ [];
  tx_ring = 1000;
  rx_ring = 2000;
  rx_buf_ring = 3000;
  rx_desc = λ i.
      if i == 0
      then 0x0400006400000000
      else if i == 1
      then 0x1000000
      else if i == 2
      then 16384
      else 0;
  rx_bufs = λ i. 8192 + i;
  rx_bufs_phys = λ i. 16384 + i;
}

abbrev pub base : EthBase
base = record {
  lib_open_cnt = 1;
  libf_delexp = false;
  ref_count = 1;
  expansion_base = 1;
  ipci = 1;
  utility_base = 1;
  iutility = 1;
  mac_dev = 1;
  dma_dev = 1;
  iob_dev = 1;
  dma_if = some 3;
  tx_channel_num = some 1;
  rx_channel_num = some 1;
  mac_addr = 0 ∷ 255 ∷ 0 ∷ 255 ∷ 0 ∷ 255 ∷ [];
  dev_seg_list = 1;
  unit = 128;
  pasdma_status = 0xfd800000;
  irq_number = 40;
  irq_installed = true;
  irq_enter = 5;
  irq_exit = 3;
  irq_miss = 2;
}

-- The environment answers 4096, also as the status of the channel, and no signal as a break.
abbrev pub idle : World
idle = record {
  base = base;
  unit = unit;
  reqs = request;
  queries = λ p. record {
    size_available = 36;
    size_supplied = 0;
    dev_query_format = 0;
    device_level = 0;
    addr_field_size = 0;
    mtu = 0;
    bps = 0;
    hardware_type = 0;
    raw_mtu = 0;
  };
  stats = λ p. record {
    packets_received = 0;
    packets_sent = 0;
    bad_data = 0;
    overruns = 0;
    unknown_types_received = 0;
    reconfigurations = 0;
  };
  mem = λ p. p;
  trace = [];
  env = λ h c. elim c [ set_signal s ↦ 0 | _ ↦ 4096 ];
  sdk = sdk;
}

-- The same with a reader of IPv4, an event waiter, and a message in the port.
abbrev pub busy : World
busy = record idle {
  unit = record unit {
    read_list_ipv4 = record { at = 700; ioreq = 1 } ∷ [];
    event_list = 2 ∷ 4 ∷ [];
    port_msgs = 3 ∷ [];
  };
}

abbrev pub events : List Event
events = begin 1 ∷ begin 2 ∷ abort 1 ∷ begin 1 ∷ begin 5 ∷ interrupt ∷ round ∷ begin 3 ∷ round ∷ []
