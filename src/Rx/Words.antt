-- ===== src/Rx/Words.antt =====
-- The delivery of a frame (PA6TEth_ProcessRX of src/hw/rx.c) changes nothing of the unit but the
-- queues of readers and the statistics.
use pa6t_eth.Base.{ℕ, ◌≡◌, ◌∙◌, refl, List, [], ◌∷◌, true, Option, none, some, Bool}
use pa6t_eth.Machine.{World, call, call_, modify_unit, modify_req, load_bytes, ◌>>=◌}
use pa6t_eth.Machine.Triples.{Keeps, keeps_rules}
use pa6t_eth.Machine.Structs.{PendingRead, EthUnit, IoSana2Req, Opener}
use pa6t_eth.Machine.Calls.{Call}
use pa6t_eth.Requests.{ReadList, ipv4, arp, other, set_read_list}
use pa6t_eth.Rx.Deliver.{
  RxFrame, no_buffer, run_copy_hook, copy_with, finish_read, deliver_to, deliver_read,
  deliver_orphan, offer_orphan, offer_read, dispatch_frame, count_drop,
}
use pa6t_eth.Rx.Process.{rx_accept, rx_frame, Verdict, drop, accept}

-- The unit without the queues of readers and the statistics of frames.
abbrev pub core : EthUnit → EthUnit
core u = record u {
  read_list_ipv4 = [];
  read_list_arp = [];
  read_list_other = [];
  event_list = [];
  stat_rx = 0;
  stat_rx_dropped = 0;
}

abbrev pub desc_of : EthUnit → ℕ → ℕ
desc_of u = u.rx_desc

-- Assertions that hold after any call, and after any change that leaves the core of the unit.
pub record CoreSafe (P : World → Type 0) : Type 0 where
  pub on_rest : (w v : World) → core v.unit ≡ core w.unit → v.trace ≡ w.trace → P w → P v
  pub on_call :
      (c : Call) (p : ℕ) (w v : World)
      → core v.unit ≡ core w.unit
      → v.trace ≡ (c, p) ∷ w.trace
      → P w
      → P v

module _ {P : World → Type 0} ⦃s : CoreSafe P⦄ where
  core-call : (k : Call) → Keeps P (call k)
  unfolding ◌>>=◌
  core-call k = record { at = λ w h. s.on_call k (w.env w.trace k) w _ refl refl h }

  core-call_ : (k : Call) → Keeps P (call_ k)
  unfolding ◌>>=◌
  core-call_ k = record { at = λ w h. s.on_call k (w.env w.trace k) w _ refl refl h }

  core-modify_unit :
      (f : EthUnit → EthUnit) → ((u : EthUnit) → core (f u) ≡ core u) → Keeps P (modify_unit f)
  unfolding ◌>>=◌
  core-modify_unit f e = record { at = λ w h. s.on_rest w _ (e w.unit) refl h }

  core-modify_req : (q : ℕ) (f : IoSana2Req → IoSana2Req) → Keeps P (modify_req q f)
  unfolding ◌>>=◌
  core-modify_req q f = record { at = λ w h. s.on_rest w _ refl refl h }

  core-load_bytes : (p n : ℕ) → Keeps P (load_bytes p n)
  unfolding load_bytes
  core-load_bytes p ℕ.zero = record { at = λ w h. h }
  core-load_bytes p (ℕ.suc n) = record { at = λ w h. h }

same_core : (u : EthUnit) → u ≡ u
same_core u = refl

ruleset core_rules = (
  keeps_rules, core-call, core-call_, core-modify_unit, core-modify_req, core-load_bytes, same_core,
)

set_read_list-core :
    (j : ReadList) (l : List PendingRead) (u : EthUnit) → core (set_read_list j l u) ≡ core u
set_read_list-core ipv4 l u = refl
set_read_list-core arp l u = refl
set_read_list-core other l u = refl

module _ {P : World → Type 0} ⦃s : CoreSafe P⦄ where
  no_buffer-core : (q : ℕ) → Keeps P (no_buffer q)
  unfolding no_buffer
  no_buffer-core q = search core_rules depth 20 fits 4000

  run_copy_hook-core : (f : RxFrame) (q cookie hook : ℕ) → Keeps P (run_copy_hook f q cookie hook)
  unfolding run_copy_hook
  run_copy_hook-core f q cookie hook = search (core_rules, no_buffer-core) depth 20 fits 4000

  copy_with-core :
      (strict : Bool) (f : RxFrame) (q cookie : ℕ) (op : Option Opener)
      → Keeps P (copy_with strict f q cookie op)
  unfolding copy_with
  copy_with-core strict f q cookie none = search core_rules depth 20 fits 4000
  copy_with-core strict f q cookie (some op) =
      search (core_rules, no_buffer-core, run_copy_hook-core) depth 20 fits 4000

  pub count_drop-core : Keeps P count_drop
  unfolding count_drop
  count_drop-core = search core_rules depth 20 fits 4000

  finish_read-core : (q cookie : ℕ) → Keeps P (finish_read q cookie)
  unfolding finish_read
  finish_read-core q cookie = search core_rules depth 20 fits 4000

  deliver_to-core : (strict : Bool) (f : RxFrame) (q : ℕ) → Keeps P (deliver_to strict f q)
  unfolding deliver_to
  deliver_to-core strict f q =
      search (core_rules, copy_with-core, finish_read-core) depth 20 fits 4000

  deliver_read-core : (f : RxFrame) (q : ℕ) → Keeps P (deliver_read f q)
  unfolding deliver_read
  deliver_read-core f q = deliver_to-core true f q

  deliver_orphan-core : (f : RxFrame) (q : ℕ) → Keeps P (deliver_orphan f q)
  unfolding deliver_orphan
  deliver_orphan-core f q = search (core_rules, deliver_to-core) depth 20 fits 4000

  offer_orphan-core : (f : RxFrame) (o : Option (ℕ × List ℕ)) → Keeps P (offer_orphan f o)
  unfolding offer_orphan
  offer_orphan-core f none = search (core_rules, count_drop-core) depth 20 fits 4000
  offer_orphan-core f (some (q, rest)) = search (core_rules, deliver_orphan-core) depth 20 fits 4000

  offer_read-core : (f : RxFrame) (j : ReadList) (l : List PendingRead) → Keeps P (offer_read f j l)
  unfolding offer_read
  offer_read-core f j [] = search (core_rules, offer_orphan-core) depth 20 fits 4000
  offer_read-core f j (pr ∷ rest) =
      search (core_rules, deliver_read-core, set_read_list-core) depth 20 fits 4000

  dispatch_frame-core : (f : RxFrame) → Keeps P (dispatch_frame f)
  unfolding dispatch_frame
  dispatch_frame-core f = search (core_rules, offer_read-core) depth 20 fits 4000

  rx_accept-core : (m p n : ℕ) → Keeps P (rx_accept m p n)
  unfolding rx_accept
  rx_accept-core m p n = search (core_rules, dispatch_frame-core) depth 20 fits 4000

  pub rx_frame-safe : (u : EthUnit) (n : ℕ) (v : Verdict) → Keeps P (rx_frame u n v)
  unfolding rx_frame
  rx_frame-safe u n drop = count_drop-core
  rx_frame-safe u n (accept len) = rx_accept-core _ _ len

-- The core is that of `c`.
record HasCore (c : EthUnit) (w : World) : Type 0 where
  core_same : core w.unit ≡ c

instance HasCore-CoreSafe : {c : EthUnit} → CoreSafe (HasCore c)
HasCore-CoreSafe = record {
  on_rest = λ w v e t h. record { core_same = e ∙ h.core_same };
  on_call = λ c p w v e t h. record { core_same = e ∙ h.core_same };
}

pub rx_frame-core :
    (u : EthUnit) (n : ℕ) (v : Verdict) (w : World) → core (rx_frame u n v w).1.unit ≡ core w.unit
rx_frame-core u n v w =
    ((rx_frame-safe {P = HasCore (core w.unit)} u n v).at w (record { core_same = refl })).core_same
