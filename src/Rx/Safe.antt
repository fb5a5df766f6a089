-- ===== src/Rx/Safe.antt =====
-- Assertions that PA6TEth_ProcessRX of src/hw/rx.c keeps: those that hold after any call, after any
-- change of the queues of readers and the statistics, and after any change of the rings.
use pa6t_eth.Base.{ℕ, zero, suc, ◌≡◌, refl, Bool-cases, inl, inr}
use pa6t_eth.Machine.{World, call, call_, modify_unit, ◌>>=◌}
use pa6t_eth.Machine.Structs.{EthUnit}
use pa6t_eth.Machine.Calls.{Call}
use pa6t_eth.Machine.Quiet.{Soft, soft}
use pa6t_eth.Machine.Triples.{Keeps, keeps_rules}
use pa6t_eth.Rx.Words.{CoreSafe, rx_frame-safe}
use pa6t_eth.Rx.Process.{
  RxBatch, next_desc, clear_desc, repost, rx_finish, rx_packet, rx_loop, process_rx, owned,
}

pub record RxSafe (P : World → Type 0) : Type 0 where
  pub frames : CoreSafe P
  pub rings : (w v : World) → soft v.unit ≡ soft w.unit → v.trace ≡ w.trace → P w → P v

module _ {P : World → Type 0} ⦃s : RxSafe P⦄ where
  instance frames_of : CoreSafe P
  frames_of = s.frames

  ring-call : (k : Call) → Keeps P (call k)
  unfolding ◌>>=◌
  ring-call k = record { at = λ w h. s.frames.on_call k (w.env w.trace k) w _ refl refl h }

  ring-call_ : (k : Call) → Keeps P (call_ k)
  unfolding ◌>>=◌
  ring-call_ k = record { at = λ w h. s.frames.on_call k (w.env w.trace k) w _ refl refl h }

  ring-modify_unit :
      (f : EthUnit → EthUnit) → ((u : EthUnit) → soft (f u) ≡ soft u) → Keeps P (modify_unit f)
  unfolding ◌>>=◌
  ring-modify_unit f e = record { at = λ w h. s.rings w _ (e w.unit) refl h }

same_soft : (a : Soft) → a ≡ a
same_soft a = refl

ruleset ring_rules = (keeps_rules, ring-call, ring-call_, ring-modify_unit, same_soft)

module _ {P : World → Type 0} ⦃s : RxSafe P⦄ where
  next_desc-safe : (b : RxBatch) (slot buf : ℕ) → Keeps P (next_desc b slot buf)
  unfolding next_desc clear_desc repost
  next_desc-safe b slot buf = search ring_rules depth 20 fits 4000

  rx_finish-safe : (b : RxBatch) → Keeps P (rx_finish b)
  unfolding rx_finish
  rx_finish-safe b = search ring_rules depth 20 fits 4000

  rx_packet-safe : (b : RxBatch) → Keeps P (rx_packet b)
  unfolding rx_packet
  rx_packet-safe b = search (ring_rules, rx_frame-safe, next_desc-safe) depth 20 fits 4000

  rx_loop-safe : (fuel : ℕ) (b : RxBatch) → Keeps P (rx_loop fuel b)
  unfolding rx_loop
  rx_loop-safe zero b = record { at = λ w h. h }
  rx_loop-safe (suc fuel) b = record {
    at = λ w h. elim (Bool-cases (owned w.unit b.n)) [
      | inl e ↦ rw (e, rx_loop) ((rx_loop-safe fuel _).at _ ((rx_packet-safe b).at w h))
      | inr e ↦ rw (e, rx_loop) h
    ];
  }

  pub process_rx-safe : Keeps P process_rx
  unfolding process_rx
  process_rx-safe = search (ring_rules, rx_loop-safe, rx_finish-safe) depth 20 fits 4000
