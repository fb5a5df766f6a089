-- ===== src/Ledger.antt =====
-- What has become of each request: how often it was replied to, and how often it waits in a queue.
pub mod Queues
pub mod Receive
pub mod Dispatch
pub mod Flush
pub mod Port
pub mod Task
pub mod Transmit
pub mod Begin
pub mod Abort
pub mod Missed
pub mod Device
pub mod Silent
pub mod Outcome
pub mod Progress
pub mod Round
pub mod Account
use mathlib.Core.Bool.{false≢true}
use pa6t_eth.Base.{
  ap, ℕ, ◌+◌, List, [], ◌∷◌, ◌++◌, ◌≡◌, refl, Bool, true, false, ◌==◌, if◌then◌else◌, count,
  count-append, arith, update,
}
use pa6t_eth.Machine.{
  World, M, Run, History, call, call_, modify_unit, modify_base, modify_req, modify_query,
  store_stats, load_bytes, store_bytes, ◌>>=◌,
}
use pa6t_eth.Machine.Structs.{EthUnit, EthBase, IoSana2Req, PendingRead, DeviceQuery, DeviceStats}
use pa6t_eth.Machine.Calls.{Call, reply_msg}
use pa6t_eth.Machine.Quiet.{QuietSafe, Soft, soft, is_quiet}
use pa6t_eth.Machine.Triples.{Takes, Keeps, keeps_rules}

abbrev pub reply_count : ℕ → Call → ℕ
reply_count r (reply_msg q) = if q == r then 1 else 0
reply_count r _ = 0

-- How often the request was replied to.
unfoldable pub replies : ℕ → History → ℕ
replies r [] = 0
replies r ((c, a) ∷ h) = reply_count r c + replies r h

-- How often the request stands in a list of pending reads.
unfoldable pub count_reads : ℕ → List PendingRead → ℕ
count_reads r [] = 0
count_reads r (pr ∷ prs) = (if pr.ioreq == r then 1 else 0) + count_reads r prs

pub count_reads-append :
    (r : ℕ) (xs ys : List PendingRead)
    → count_reads r (xs ++ ys) ≡ count_reads r xs + count_reads r ys
unfolding count_reads
count_reads-append r [] ys = omega arith
count_reads-append r (x ∷ xs) ys = omega (arith, count_reads-append r xs ys)

-- How often the request waits: in the read lists, the event list and the unit task's port.
abbrev pub waiting : ℕ → EthUnit → ℕ
waiting r u =
    count_reads r u.read_list_ipv4
    + count_reads r u.read_list_arp
    + count_reads r u.read_list_other
    + count r u.event_list
    + count r u.port_msgs

-- How often the driver answers for the request, now or later.
abbrev pub settled : ℕ → World → ℕ
settled r w = replies r w.trace + waiting r w.unit

-- One, if the request is `q`.
abbrev pub one : ℕ → ℕ → ℕ
one q r = if q == r then 1 else 0

-- The driver answers for the request `k` times, but for the `b` answers that the code still owes.
pub record Owes (r k b : ℕ) (w : World) : Type 0 where
  pub owed : settled r w + b ≡ k

module _ {r k b : ℕ} where
  pub Owes-call : (c : Call) → reply_count r c ≡ 0 → Keeps (Owes r k b) (call c)
  unfolding ◌>>=◌ replies
  Owes-call c e = record { at = λ w h. record { owed = omega (arith, h.owed) } }

  pub Owes-call_ : (c : Call) → reply_count r c ≡ 0 → Keeps (Owes r k b) (call_ c)
  unfolding ◌>>=◌ replies
  Owes-call_ c e = record { at = λ w h. record { owed = omega (arith, h.owed) } }

  pub Owes-modify_unit :
      (f : EthUnit → EthUnit)
      → ((u : EthUnit) → waiting r (f u) ≡ waiting r u)
      → Keeps (Owes r k b) (modify_unit f)
  unfolding ◌>>=◌
  Owes-modify_unit f e = record { at = λ w h. record { owed = omega (arith, e w.unit, h.owed) } }

  pub Owes-modify_base : (f : EthBase → EthBase) → Keeps (Owes r k b) (modify_base f)
  unfolding ◌>>=◌
  Owes-modify_base f = record { at = λ w h. record { owed = h.owed } }

  pub Owes-modify_req : (q : ℕ) (f : IoSana2Req → IoSana2Req) → Keeps (Owes r k b) (modify_req q f)
  unfolding ◌>>=◌
  Owes-modify_req q f = record { at = λ w h. record { owed = h.owed } }

  pub Owes-modify_query :
      (p : ℕ) (f : DeviceQuery → DeviceQuery) → Keeps (Owes r k b) (modify_query p f)
  unfolding ◌>>=◌
  Owes-modify_query p f = record { at = λ w h. record { owed = h.owed } }

  pub Owes-store_stats : (p : ℕ) (s : DeviceStats) → Keeps (Owes r k b) (store_stats p s)
  unfolding ◌>>=◌
  Owes-store_stats p s = record { at = λ w h. record { owed = h.owed } }

  pub Owes-load_bytes : (p n : ℕ) → Keeps (Owes r k b) (load_bytes p n)
  unfolding load_bytes
  Owes-load_bytes p ℕ.zero = record { at = λ w h. h }
  Owes-load_bytes p (ℕ.suc n) = record { at = λ w h. h }

  pub Owes-store_bytes : (p : ℕ) (bs : List ℕ) → Keeps (Owes r k b) (store_bytes p bs)
  unfolding store_bytes
  Owes-store_bytes p [] = record { at = λ w h. h }
  Owes-store_bytes p (x ∷ bs) = record {
    at = λ w h. (Owes-store_bytes (p + 1) bs).at _ (record { owed = h.owed });
  }

pub quiet-reply_count : (r : ℕ) (c : Call) → is_quiet c ≡ true → reply_count r c ≡ 0
quiet-reply_count r (reply_msg q) e = absurd (false≢true e)
quiet-reply_count r _ e = refl

soft-waiting : (r : ℕ) (u v : EthUnit) → soft v ≡ soft u → waiting r v ≡ waiting r u
soft-waiting r u v e =
    let w : Soft → ℕ = λ s.
      count_reads r s.read_list_ipv4
      + count_reads r s.read_list_arp
      + count_reads r s.read_list_other
      + count r s.event_list
      + count r s.port_msgs in
    ap w e

instance pub Owes-QuietSafe : {r k b : ℕ} → QuietSafe (Owes r k b)
Owes-QuietSafe {r} = record {
  on_call = λ c e. Owes-call c (quiet-reply_count r c e);
  on_call_ = λ c e. Owes-call_ c (quiet-reply_count r c e);
  on_unit = λ f e. Owes-modify_unit f (λ u. soft-waiting r u (f u) (e u));
}

-- A reply to `q` is the answer that was owed.
pub Owes-reply : {r k : ℕ} (q : ℕ) → Takes (Owes r k (one q r)) (Owes r k 0) (call_ (reply_msg q))
unfolding ◌>>=◌ replies
Owes-reply q = record { at = λ w h. record { owed = omega (arith, h.owed) } }

pub same : (x : ℕ) → x ≡ x
same x = refl

pub ruleset owes_rules = (
  keeps_rules, Owes-call, Owes-call_, Owes-modify_unit, Owes-modify_base, Owes-modify_req,
  Owes-modify_query, Owes-store_stats, Owes-load_bytes, Owes-store_bytes, same, Owes-QuietSafe,
)
