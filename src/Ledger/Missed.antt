-- ===== src/Ledger/Missed.antt =====
-- AbortIO: where its searches fail, the request does not stand in the list that they search.
use mathlib.Core.Bool.{false≢true}
use pa6t_eth.Base.{
  ℕ, ◌≡◌, refl, sym, List, [], ◌∷◌, false, Bool-cases, inl, inr, Bool, arith, count, ◌==◌, Option,
  none, some,
}
use pa6t_eth.Machine.{World, M, ◌>>=◌}
use pa6t_eth.Machine.Structs.{EthUnit, PendingRead}
use pa6t_eth.Requests.{ReadList, read_list}
use pa6t_eth.Io.Abort.{
  take_read, keep_read, take_req, keep_req, drop_read, drop_event, drop_message,
}
use pa6t_eth.Ledger.{count_reads, replies}

-- A search that replies to nothing, and that leaves the unit alone and counts none where it fails.
pub record Misses (r : ℕ) (g : EthUnit → ℕ) (m : M Bool) : Type 0 where
  pub silent : (w : World) → replies r (m w).1.trace ≡ replies r w.trace
  pub missed : (w : World) → (m w).0 ≡ false → ((m w).1.unit ≡ w.unit) × (g w.unit ≡ 0)

-- How often a search by `take_read` and `take_req` leaves behind what it looks for, if it fails.
abbrev pub MissedReads : ℕ → List PendingRead → Option (ℕ × List PendingRead) → Type 0
MissedReads r l none = count_reads r l ≡ 0
MissedReads r l (some x) = Unit {0}

abbrev pub MissedReqs : ℕ → List ℕ → Option (List ℕ) → Type 0
MissedReqs r l none = count r l ≡ 0
MissedReqs r l (some x) = Unit {0}

keep_read-missed :
    (r : ℕ) (pr : PendingRead) (l : List PendingRead) (o : Option (ℕ × List PendingRead))
    → (pr.ioreq == r) ≡ false
    → MissedReads r l o
    → MissedReads r (pr ∷ l) (keep_read pr o)
unfolding count_reads
keep_read-missed r pr l none e h = rw e (omega (arith, h))
keep_read-missed r pr l (some x) e h = tt

keep_req-missed :
    (r q : ℕ) (l : List ℕ) (o : Option (List ℕ))
    → (q == r) ≡ false
    → MissedReqs r l o
    → MissedReqs r (q ∷ l) (keep_req q o)
unfolding count
keep_req-missed r q l none e h = rw e (omega (arith, h))
keep_req-missed r q l (some x) e h = tt

pub take_read-missed : (r : ℕ) (l : List PendingRead) → MissedReads r l (take_read r l)
unfolding take_read count_reads
take_read-missed r [] = refl
take_read-missed r (pr ∷ l) = elim (Bool-cases (pr.ioreq == r)) [
  | inl e ↦ rw (take_read, e) tt
  | inr e ↦ rw (take_read, e) (keep_read-missed r pr l _ e (take_read-missed r l))
]

pub take_req-missed : (r : ℕ) (l : List ℕ) → MissedReqs r l (take_req r l)
unfolding take_req count
take_req-missed r [] = refl
take_req-missed r (q ∷ l) = elim (Bool-cases (q == r)) [
  | inl e ↦ rw (take_req, e) tt
  | inr e ↦ rw (take_req, e) (keep_req-missed r q l _ e (take_req-missed r l))
]

pub drop_read-silent :
    (r : ℕ) (j : ReadList) (o : Option (ℕ × List PendingRead)) (w : World)
    → replies r (drop_read j o w).1.trace ≡ replies r w.trace
unfolding drop_read ◌>>=◌ replies
drop_read-silent r j none w = refl
drop_read-silent r j (some x) w = omega arith

pub drop_read-missed :
    (r : ℕ) (j : ReadList) (o : Option (ℕ × List PendingRead)) (w : World)
    → MissedReads r (read_list j w.unit) o
    → (drop_read j o w).0 ≡ false
    → ((drop_read j o w).1.unit ≡ w.unit) × (count_reads r (read_list j w.unit) ≡ 0)
unfolding drop_read ◌>>=◌
drop_read-missed r j none w h e = (refl, h)
drop_read-missed r j (some x) w h e = absurd (false≢true (sym e))

pub drop_event-misses :
    (r : ℕ) (o : Option (List ℕ)) (w : World)
    → MissedReqs r w.unit.event_list o
    → (replies r (drop_event o w).1.trace ≡ replies r w.trace)
      × ((drop_event o w).0 ≡ false
          → ((drop_event o w).1.unit ≡ w.unit) × (count r w.unit.event_list ≡ 0))
unfolding drop_event ◌>>=◌
drop_event-misses r none w h = (refl, λ e. (refl, h))
drop_event-misses r (some x) w h = (refl, λ e. absurd (false≢true (sym e)))

pub drop_message-misses :
    (r : ℕ) (o : Option (List ℕ)) (w : World)
    → MissedReqs r w.unit.port_msgs o
    → (replies r (drop_message o w).1.trace ≡ replies r w.trace)
      × ((drop_message o w).0 ≡ false
          → ((drop_message o w).1.unit ≡ w.unit) × (count r w.unit.port_msgs ≡ 0))
unfolding drop_message ◌>>=◌
drop_message-misses r none w h = (refl, λ e. (refl, h))
drop_message-misses r (some x) w h = (refl, λ e. absurd (false≢true (sym e)))
