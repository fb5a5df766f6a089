-- ===== src/Machine/Quiet.antt =====
-- Assertions that the code below the queues keeps: its calls send no message and take no library,
-- interface or PCI device, and it changes only the part of the unit that the hardware shares.
use pa6t_eth.Base.{ℕ, ◌≡◌, refl, List, Bool, true, false}
use pa6t_eth.Machine.{World, call, call_, modify_unit}
use pa6t_eth.Machine.Structs.{EthUnit, Opener, PendingRead}
use pa6t_eth.Machine.Calls.{
  Call, reply_msg, put_msg, open_library, close_library, get_interface, get_mmu_interface,
  drop_interface, find_device, free_device,
}
use pa6t_eth.Machine.Triples.{Takes, Keeps, keeps_rules}

-- A call that sends no message, and neither takes nor gives back a library, an interface or a PCI
-- device.
abbrev pub is_quiet : Call → Bool
is_quiet (open_library l) = false
is_quiet (close_library p) = false
is_quiet (get_interface p) = false
is_quiet get_mmu_interface = false
is_quiet (drop_interface p) = false
is_quiet (find_device v d) = false
is_quiet (free_device p) = false
is_quiet (reply_msg q) = false
is_quiet (put_msg q) = false
is_quiet _ = true

-- The part of the unit that only the driver's own processes use.
pub record Soft : Type 0 where
  pub open_count : ℕ
  pub online : Bool
  pub task : ℕ
  pub io_port : ℕ
  pub port_msgs : List ℕ
  pub task_shutdown : Bool
  pub irq_wait_task : ℕ
  pub irq_signal_mask : ℕ
  pub read_list_ipv4 : List PendingRead
  pub read_list_arp : List PendingRead
  pub read_list_other : List PendingRead
  pub event_list : List ℕ
  pub opener_list : List Opener

abbrev pub soft : EthUnit → Soft
soft u = record {
  open_count = u.open_count;
  online = u.online;
  task = u.task;
  io_port = u.io_port;
  port_msgs = u.port_msgs;
  task_shutdown = u.task_shutdown;
  irq_wait_task = u.irq_wait_task;
  irq_signal_mask = u.irq_signal_mask;
  read_list_ipv4 = u.read_list_ipv4;
  read_list_arp = u.read_list_arp;
  read_list_other = u.read_list_other;
  event_list = u.event_list;
  opener_list = u.opener_list;
}

-- The assertion holds after a quiet call, and after a change that leaves the soft part.
pub record QuietSafe (P : World → Type 0) : Type 0 where
  pub on_call : (c : Call) → is_quiet c ≡ true → Keeps P (call c)
  pub on_call_ : (c : Call) → is_quiet c ≡ true → Keeps P (call_ c)
  pub on_unit :
      (f : EthUnit → EthUnit) → ((u : EthUnit) → soft (f u) ≡ soft u) → Keeps P (modify_unit f)

module _ {P : World → Type 0} ⦃s : QuietSafe P⦄ where
  pub quiet-call : (c : Call) → is_quiet c ≡ true → Keeps P (call c)
  quiet-call c e = s.on_call c e

  pub quiet-call_ : (c : Call) → is_quiet c ≡ true → Keeps P (call_ c)
  quiet-call_ c e = s.on_call_ c e

  pub quiet-modify_unit :
      (f : EthUnit → EthUnit) → ((u : EthUnit) → soft (f u) ≡ soft u) → Keeps P (modify_unit f)
  quiet-modify_unit f e = s.on_unit f e

pub quiet_soft : (a : Soft) → a ≡ a
quiet_soft a = refl

pub quiet_true : true ≡ true
quiet_true = refl

pub ruleset quiet_rules =
    (keeps_rules, quiet-call, quiet-call_, quiet-modify_unit, quiet_soft, quiet_true)
