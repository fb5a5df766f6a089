-- ===== src/Machine.antt =====
-- The driver's state with its environment, and the monad of the code that runs over it.
-- `trace` holds every call made so far, newest first, with its answer. The environment `env`
-- answers a call by the calls before it, so it may answer equal calls differently.
pub mod Structs
pub mod Calls
pub mod Triples
pub mod Quiet
pub mod OnUnit
pub mod Plain
pub mod Bytes
use pa6t_eth.Base.{
  ℕ, ◌+◌, ◌%◌, ◌^◌, List, [], ◌∷◌, Bool, true, false, if◌then◌else◌, update, Option, none, some,
  ◌-◌,
}
use Structs.{EthUnit, EthBase, IoSana2Req, DeviceQuery, DeviceStats}
use Calls.{
  Call, alloc_vec, free_vec, reply_msg, read_mac, read_dma, write_mac, write_dma, read_iob,
  write_iob, wmb, forbid, permit,
}

abbrev pub History : Type 0
History = List (Call × ℕ)

-- The numbers that the SANA-II and Exec headers define, which the driver only stores and masks.
pub record Sdk : Type 0 where
  pub s2werr_generic_error : ℕ
  pub s2werr_unit_online : ℕ
  pub s2werr_unit_offline : ℕ
  pub s2werr_buff_error : ℕ
  pub s2werr_null_pointer : ℕ
  pub s2event_online : ℕ
  pub s2event_offline : ℕ
  pub sigbreakf_ctrl_c : ℕ
  pub pci_command_memory : ℕ
  pub pci_command_master : ℕ
  pub s2_wire_type_ethernet : ℕ
  pub sizeof_device_query : ℕ
  pub addr_field_size_end : ℕ
  pub mtu_end : ℕ
  pub bps_end : ℕ
  pub hardware_type_end : ℕ
  pub raw_mtu_end : ℕ
  pub sizeof_opener : ℕ
  pub sizeof_unit : ℕ
  pub sizeof_pending_read : ℕ

-- `unit` is the structure that `base.unit` points to, `reqs` the request at each address, `queries`
-- and `stats` the structures that a request may point to, and `mem` the bytes of memory.
pub record World : Type 0 where
  pub base : EthBase
  pub unit : EthUnit
  pub reqs : ℕ → IoSana2Req
  pub queries : ℕ → DeviceQuery
  pub stats : ℕ → DeviceStats
  pub mem : ℕ → ℕ
  pub trace : History
  pub env : History → Call → ℕ
  pub sdk : Sdk

-- Code over the state: its result, and the state that it leaves.
abbrev pub M : Type 0 → Type 0
M A = World → A × World

-- Code that returns nothing.
abbrev pub Run : Type 0
Run = M (Unit {0})

pub pure : {A : Type 0} → A → M A
pure a w = (a, w)

pub skip : Run
skip w = (tt, w)

-- A call of the system or the hardware, with its answer, and without it.
pub call : Call → M ℕ
call c w = (w.env w.trace c, record w { trace = (c, w.env w.trace c) ∷ w.trace })

pub call_ : Call → Run
call_ c w = (tt, record w { trace = (c, w.env w.trace c) ∷ w.trace })

pub get_unit : M EthUnit
get_unit w = (w.unit, w)

pub get_base : M EthBase
get_base w = (w.base, w)

pub get_sdk : M Sdk
get_sdk w = (w.sdk, w)

pub get_req : ℕ → M IoSana2Req
get_req r w = (w.reqs r, w)

pub get_reqs : M (ℕ → IoSana2Req)
get_reqs w = (w.reqs, w)

-- Assignments to fields of the unit, of the base, and of a request.
pub modify_unit : (EthUnit → EthUnit) → Run
modify_unit f w = (tt, record w { unit = f w.unit })

pub modify_base : (EthBase → EthBase) → Run
modify_base f w = (tt, record w { base = f w.base })

pub modify_req : ℕ → (IoSana2Req → IoSana2Req) → Run
modify_req r f w = (tt, record w { reqs = update w.reqs r (f (w.reqs r)) })

-- Assignments to the structures that a request points to.
pub modify_query : ℕ → (DeviceQuery → DeviceQuery) → Run
modify_query p f w = (tt, record w { queries = update w.queries p (f (w.queries p)) })

pub store_stats : ℕ → DeviceStats → Run
store_stats p s w = (tt, record w { stats = update w.stats p s })

pub load_byte : ℕ → M ℕ
load_byte p w = (w.mem p % 2 ^ 8, w)

-- A condition without an else branch.
pub when : Bool → Run → Run
when b m w = if b then m w else (tt, w)

infixl 5 ◌>>=◌ ◌>>◌
unfoldable pub ◌>>=◌ : {A B : Type 0} → M A → (A → M B) → M B
unfolding pure skip call call_ get_unit get_base get_sdk get_req get_reqs modify_unit modify_base
    modify_req modify_query store_stats load_byte when
◌>>=◌ m f w = f (m w).0 (m w).1

abbrev pub ◌>>◌ : {B : Type 0} → M (Unit {0}) → M B → M B
m >> k = m >>= λ _. k

-- `byte_copy` from memory, and to memory.
unfoldable pub load_bytes : ℕ → ℕ → M (List ℕ)
load_bytes p ℕ.zero w = ([], w)
load_bytes p (ℕ.suc n) w = (w.mem p % 2 ^ 8 ∷ (load_bytes (p + 1) n w).0, w)

unfoldable pub store_bytes : ℕ → List ℕ → Run
store_bytes p [] w = (tt, w)
store_bytes p (b ∷ bs) w = store_bytes (p + 1) bs (record w { mem = update w.mem p (b % 2 ^ 8) })

-- Register access: `ReadConfigLong` and `WriteConfigLong`, and the IOB's memory-mapped registers.
-- What is read is a `uint32`.
abbrev pub read_mac_reg : ℕ → M ℕ
read_mac_reg offset = do v ← call (read_mac offset); pure (v % 2 ^ 32)

abbrev pub write_mac_reg : ℕ → ℕ → Run
write_mac_reg offset val = call_ (write_mac offset val)

abbrev pub read_dma_reg : ℕ → M ℕ
read_dma_reg offset = do v ← call (read_dma offset); pure (v % 2 ^ 32)

abbrev pub write_dma_reg : ℕ → ℕ → Run
write_dma_reg offset val = call_ (write_dma offset val)

abbrev pub read_iob_mmio : ℕ → M ℕ
read_iob_mmio offset = do v ← call (read_iob offset); pure (v % 2 ^ 32)

abbrev pub write_iob_mmio : ℕ → ℕ → Run
write_iob_mmio offset val = call_ (write_iob offset val)

abbrev pub pasemi_wmb : Run
pasemi_wmb = call_ wmb

-- `(uint32)` of a number that may be negative: the code uses it only where it is not.
abbrev pub uint32_of : Option ℕ → ℕ
uint32_of (some n) = n
uint32_of none = 2 ^ 32 - 1
