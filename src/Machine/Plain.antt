-- ===== src/Machine/Plain.antt =====
-- Assertions that code keeps which neither allocates nor frees memory, and leaves alone the fields
-- of the unit and of the base that own some.
use mathlib.Core.List.{map}
use pa6t_eth.Base.{ℕ, ◌+◌, ◌≡◌, refl, List, [], ◌∷◌, Bool, true, false}
use pa6t_eth.Machine.{
  World, call, call_, modify_unit, modify_req, modify_base, modify_query, store_stats, load_bytes,
  store_bytes, ◌>>=◌,
}
use pa6t_eth.Machine.Structs.{
  EthUnit, EthBase, IoSana2Req, Opener, PendingRead, DeviceQuery, DeviceStats,
}
use pa6t_eth.Machine.Calls.{Call, alloc_vec, free_vec}
use pa6t_eth.Machine.Triples.{Keeps, keeps_rules}

abbrev pub is_memory : Call → Bool
is_memory (alloc_vec n) = true
is_memory (free_vec p) = true
is_memory _ = false

-- The fields that own memory while the unit is open.
pub record Kept : Type 0 where
  pub read_list_ipv4 : List PendingRead
  pub read_list_arp : List PendingRead
  pub read_list_other : List PendingRead
  pub tx_buf_pending : ℕ
  pub rx_bufs : ℕ → ℕ
  pub tx_ring : ℕ
  pub rx_ring : ℕ
  pub rx_buf_ring : ℕ
  pub openers : List ℕ

abbrev pub opener_at : Opener → ℕ
opener_at op = op.at

abbrev pub kept : EthUnit → Kept
kept u = record {
  read_list_ipv4 = u.read_list_ipv4;
  read_list_arp = u.read_list_arp;
  read_list_other = u.read_list_other;
  tx_buf_pending = u.tx_buf_pending;
  rx_bufs = u.rx_bufs;
  tx_ring = u.tx_ring;
  rx_ring = u.rx_ring;
  rx_buf_ring = u.rx_buf_ring;
  openers = map opener_at u.opener_list;
}

pub record MemSafe (P : World → Type 0) : Type 0 where
  pub on_rest :
      (w v : World)
      → kept v.unit ≡ kept w.unit
      → v.base.unit ≡ w.base.unit
      → v.trace ≡ w.trace
      → P w
      → P v
  pub on_call :
      (c : Call) (p : ℕ) (w v : World)
      → is_memory c ≡ false
      → kept v.unit ≡ kept w.unit
      → v.base.unit ≡ w.base.unit
      → v.trace ≡ (c, p) ∷ w.trace
      → P w
      → P v

module _ {P : World → Type 0} ⦃s : MemSafe P⦄ where
  pub mem-call : (c : Call) → is_memory c ≡ false → Keeps P (call c)
  unfolding ◌>>=◌
  mem-call c e = record { at = λ w h. s.on_call c (w.env w.trace c) w _ e refl refl refl h }

  pub mem-call_ : (c : Call) → is_memory c ≡ false → Keeps P (call_ c)
  unfolding ◌>>=◌
  mem-call_ c e = record { at = λ w h. s.on_call c (w.env w.trace c) w _ e refl refl refl h }

  pub mem-modify_unit :
      (f : EthUnit → EthUnit) → ((u : EthUnit) → kept (f u) ≡ kept u) → Keeps P (modify_unit f)
  unfolding ◌>>=◌
  mem-modify_unit f e = record { at = λ w h. s.on_rest w _ (e w.unit) refl refl h }

  pub mem-modify_req : (q : ℕ) (f : IoSana2Req → IoSana2Req) → Keeps P (modify_req q f)
  unfolding ◌>>=◌
  mem-modify_req q f = record { at = λ w h. s.on_rest w _ refl refl refl h }

  pub mem-modify_base :
      (f : EthBase → EthBase) → ((b : EthBase) → (f b).unit ≡ b.unit) → Keeps P (modify_base f)
  unfolding ◌>>=◌
  mem-modify_base f e = record { at = λ w h. s.on_rest w _ refl (e w.base) refl h }

  pub mem-modify_query : (p : ℕ) (f : DeviceQuery → DeviceQuery) → Keeps P (modify_query p f)
  unfolding ◌>>=◌
  mem-modify_query p f = record { at = λ w h. s.on_rest w _ refl refl refl h }

  pub mem-store_stats : (p : ℕ) (d : DeviceStats) → Keeps P (store_stats p d)
  unfolding ◌>>=◌
  mem-store_stats p d = record { at = λ w h. s.on_rest w _ refl refl refl h }

  pub mem-load_bytes : (p n : ℕ) → Keeps P (load_bytes p n)
  unfolding load_bytes
  mem-load_bytes p ℕ.zero = record { at = λ w h. h }
  mem-load_bytes p (ℕ.suc n) = record { at = λ w h. h }

  pub mem-store_bytes : (p : ℕ) (bs : List ℕ) → Keeps P (store_bytes p bs)
  unfolding store_bytes
  mem-store_bytes p [] = record { at = λ w h. h }
  mem-store_bytes p (x ∷ bs) = record {
    at = λ w h. (mem-store_bytes (p + 1) bs).at _ (s.on_rest w _ refl refl refl h);
  }

pub kept_same : (k : Kept) → k ≡ k
kept_same k = refl

pub unit_same : (p : ℕ) → p ≡ p
unit_same p = refl

pub plain_call : false ≡ false
plain_call = refl

pub ruleset mem_rules = (
  keeps_rules, mem-call, mem-call_, mem-modify_unit, mem-modify_req, mem-modify_base,
  mem-modify_query, mem-store_stats, mem-load_bytes, mem-store_bytes, kept_same, unit_same,
  plain_call,
)
