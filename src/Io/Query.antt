-- ===== src/Io/Query.antt =====
-- S2_DEVICEQUERY of src/BeginIO.c: what the caller's structure holds afterwards.
use pa6t_eth.Base.{
  ℕ, ◌*◌, ◌≡◌, ◌≢◌, ◌<◌, ◌≤◌, refl, true, false, is_set, Bool-cases, inl, inr, arith, ==_refl,
  ==_ne, not, update,
}
use pa6t_eth.Machine.{World, Sdk, ◌>>=◌}
use pa6t_eth.Machine.Structs.{
  DeviceQuery, IoError, success, s2err_bad_argument, eth_addr_len, eth_max_frame,
}
use pa6t_eth.Io.Begin.{device_query, fill_query, reply_ioreq}

-- What is stored into a structure `d`, as `e`: SizeSupplied, with a value of at most SizeAvailable and
-- at most the size of the structure, and format and level, which are 0; these three whatever the room.
-- Each other field that the caller's room does not reach is as it was; and a caller with room for the
-- whole structure gets all of it.
pub record IsSupplied (sdk : Sdk) (d e : DeviceQuery) : Type 0 where
  pub same_room : e.size_available ≡ d.size_available
  pub fits_room : e.size_supplied ≤ d.size_available
  pub fits_struct : e.size_supplied ≤ sdk.sizeof_device_query
  pub always : (e.dev_query_format ≡ 0) × (e.device_level ≡ 0)
  pub no_addr_field_size :
      d.size_available < sdk.addr_field_size_end → e.addr_field_size ≡ d.addr_field_size
  pub no_mtu : d.size_available < sdk.mtu_end → e.mtu ≡ d.mtu
  pub no_bps : d.size_available < sdk.bps_end → e.bps ≡ d.bps
  pub no_hardware_type :
      d.size_available < sdk.hardware_type_end → e.hardware_type ≡ d.hardware_type
  pub no_raw_mtu : d.size_available < sdk.raw_mtu_end → e.raw_mtu ≡ d.raw_mtu
  pub whole :
      sdk.sizeof_device_query ≤ d.size_available
      → sdk.addr_field_size_end ≤ sdk.sizeof_device_query
      → sdk.mtu_end ≤ sdk.sizeof_device_query
      → sdk.bps_end ≤ sdk.sizeof_device_query
      → sdk.hardware_type_end ≤ sdk.sizeof_device_query
      → sdk.raw_mtu_end ≤ sdk.sizeof_device_query
      → (e.size_supplied ≡ sdk.sizeof_device_query)
        × (e.addr_field_size ≡ eth_addr_len * 8)
        × (e.mtu ≡ 1500)
        × (e.bps ≡ 1000000000)
        × (e.hardware_type ≡ sdk.s2_wire_type_ethernet)
        × (e.raw_mtu ≡ eth_max_frame)

fill_query-IsSupplied : (sdk : Sdk) (d : DeviceQuery) → IsSupplied sdk d (fill_query sdk d)
unfolding fill_query
fill_query-IsSupplied sdk d = record {
  same_room = refl;
  fits_room = ground arith;
  fits_struct = ground arith;
  always = (refl, refl);
  no_addr_field_size = λ h. ground arith;
  no_mtu = λ h. ground arith;
  no_bps = λ h. ground arith;
  no_hardware_type = λ h. ground arith;
  no_raw_mtu = λ h. ground arith;
  whole = λ a b c d e f.
      (ground arith, ground arith, ground arith, ground arith, ground arith, ground arith);
}

-- What a reply leaves: the two errors of its request, and the structures of the callers.
module _ (r : ℕ) (e : IoError) (v : ℕ) (w : World) where
  reply_ioreq-error : ((reply_ioreq r e v w).1.reqs r).io_error ≡ e
  unfolding reply_ioreq ◌>>=◌
  reply_ioreq-error = elim (Bool-cases (not (w.reqs r).io_flags.iof_quick)) [
    | inl q ↦ rw (q, ==_refl r) refl
    | inr q ↦ rw (q, ==_refl r) refl
  ]

  reply_ioreq-wire_error : ((reply_ioreq r e v w).1.reqs r).wire_error ≡ v
  unfolding reply_ioreq ◌>>=◌
  reply_ioreq-wire_error = elim (Bool-cases (not (w.reqs r).io_flags.iof_quick)) [
    | inl q ↦ rw (q, ==_refl r) refl
    | inr q ↦ rw (q, ==_refl r) refl
  ]

  reply_ioreq-queries : (reply_ioreq r e v w).1.queries ≡ w.queries
  unfolding reply_ioreq ◌>>=◌
  reply_ioreq-queries = elim (Bool-cases (not (w.reqs r).io_flags.iof_quick)) [
    | inl q ↦ rw q refl
    | inr q ↦ rw q refl
  ]

-- The query was answered, at the address `p`.
pub record Answered (r p : ℕ) (w v : World) : Type 0 where
  pub no_error : (v.reqs r).io_error ≡ success
  pub no_wire_error : (v.reqs r).wire_error ≡ 0
  pub supplied : IsSupplied w.sdk (w.queries p) (v.queries p)
  pub elsewhere : (q : ℕ) → p ≢ q → v.queries q ≡ w.queries q

-- The query was refused.
pub record Refused (r : ℕ) (w v : World) : Type 0 where
  pub error : (v.reqs r).io_error ≡ s2err_bad_argument
  pub wire_error : (v.reqs r).wire_error ≡ w.sdk.s2werr_null_pointer
  pub untouched : v.queries ≡ w.queries

abbrev filled : ℕ → World → World
filled p w = record w { queries = update w.queries p (fill_query w.sdk (w.queries p)) }

filled-IsSupplied : (p : ℕ) (w : World) → IsSupplied w.sdk (w.queries p) ((filled p w).queries p)
filled-IsSupplied p w = rw (==_refl p) (fill_query-IsSupplied w.sdk (w.queries p))

-- S2_DEVICEQUERY with no structure is refused and writes none. With one, it succeeds and writes that
-- one only. It stores SizeSupplied, DevQueryFormat and DeviceLevel whatever room the caller has, the
-- first with a value of at most SizeAvailable and at most the size of the structure, the others with 0;
-- each later field that the room does not reach is left as it was, and a caller with room for all
-- gets all.
pub device_query-outcome :
    (r : ℕ) (w : World)
    → (is_set (w.reqs r).stat_data ≡ true → Answered r (w.reqs r).stat_data w (device_query r w).1)
      × (is_set (w.reqs r).stat_data ≡ false → Refused r w (device_query r w).1)
unfolding device_query ◌>>=◌
device_query-outcome r w = (
  λ e. rw e (record {
    no_error = reply_ioreq-error r success 0 _;
    no_wire_error = reply_ioreq-wire_error r success 0 _;
    supplied =
        let p = (w.reqs r).stat_data in
        rw (reply_ioreq-queries r success 0 (filled p w)) (filled-IsSupplied p w);
    elsewhere = λ q n.
        let p = (w.reqs r).stat_data in
        rw (reply_ioreq-queries r success 0 (filled p w), ==_ne p q n) refl;
  }),
  λ e. rw e (record {
    error = reply_ioreq-error r s2err_bad_argument w.sdk.s2werr_null_pointer w;
    wire_error = reply_ioreq-wire_error r s2err_bad_argument w.sdk.s2werr_null_pointer w;
    untouched = reply_ioreq-queries r s2err_bad_argument w.sdk.s2werr_null_pointer w;
  }),
)
