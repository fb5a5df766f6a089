-- ===== src/Memory/Abort.antt =====
-- AbortIO of src/BeginIO.c: the wrapper of an aborted read is freed.
use pa6t_eth.Base.{
  ℕ, ◌+◌, ◌≡◌, refl, List, [], ◌∷◌, Bool-cases, inl, inr, arith, ◌==◌, Option, none, some,
}
use pa6t_eth.Machine.{World, ◌>>=◌}
use pa6t_eth.Machine.Structs.{PendingRead}
use pa6t_eth.Machine.Triples.{Keeps}
use pa6t_eth.Machine.Plain.{MemSafe, mem_rules}
use pa6t_eth.Requests.{ReadList, ipv4, arp, other, read_list}
use pa6t_eth.Io.Abort.{
  take_read, keep_read, drop_read, abort_read, abort_reads, drop_event, abort_events, drop_message,
  abort_messages, reply_aborted, abort_port, abort_io,
}
use pa6t_eth.Memory.{Holds, Holds-MemSafe, is_at, wrappers, allocs, frees}

-- How often the block is among what a search took out and what it left.
abbrev with_taken : ℕ → List PendingRead → Option (ℕ × List PendingRead) → ℕ
with_taken a l none = wrappers a l
with_taken a l (some (p, rest)) = is_at p a + wrappers a rest

with_taken-keep :
    (a : ℕ) (pr : PendingRead) (l : List PendingRead) (o : Option (ℕ × List PendingRead))
    → wrappers a l ≡ with_taken a l o
    → wrappers a (pr ∷ l) ≡ with_taken a (pr ∷ l) (keep_read pr o)
unfolding wrappers
with_taken-keep a pr l none e = refl
with_taken-keep a pr l (some (p, rest)) e = omega (arith, e)

take_read-with_taken :
    (a r : ℕ) (l : List PendingRead) → wrappers a l ≡ with_taken a l (take_read r l)
unfolding take_read wrappers
take_read-with_taken a r [] = refl
take_read-with_taken a r (pr ∷ l) = elim (Bool-cases (pr.ioreq == r)) [
  | inl e ↦ rw (e, take_read) refl
  | inr e ↦ rw (e, take_read) (with_taken-keep a pr l _ (take_read-with_taken a r l))
]

drop_read-Holds :
    {a s : ℕ} (j : ReadList) (o : Option (ℕ × List PendingRead)) (w : World)
    → wrappers a (read_list j w.unit) ≡ with_taken a (read_list j w.unit) o
    → Holds a s 0 w
    → Holds a s 0 (drop_read j o w).1
unfolding drop_read ◌>>=◌ allocs frees
drop_read-Holds j none w e h = h
drop_read-Holds ipv4 (some (p, rest)) w e h = record { balance = omega (arith, e, h.balance) }
drop_read-Holds arp (some (p, rest)) w e h = record { balance = omega (arith, e, h.balance) }
drop_read-Holds other (some (p, rest)) w e h = record { balance = omega (arith, e, h.balance) }

module _ {P : World → Type 0} ⦃s : MemSafe P⦄ where
  drop_event-mem : (o : Option (List ℕ)) → Keeps P (drop_event o)
  unfolding drop_event
  drop_event-mem none = search mem_rules depth 20 fits 4000
  drop_event-mem (some rest) = search mem_rules depth 20 fits 4000

  drop_message-mem : (o : Option (List ℕ)) → Keeps P (drop_message o)
  unfolding drop_message
  drop_message-mem none = search mem_rules depth 20 fits 4000
  drop_message-mem (some rest) = search mem_rules depth 20 fits 4000

  reply_aborted-mem : (q : ℕ) → Keeps P (reply_aborted q)
  unfolding reply_aborted
  reply_aborted-mem q = search mem_rules depth 20 fits 4000

  abort_events-mem : (q : ℕ) → Keeps P (abort_events q)
  unfolding abort_events
  abort_events-mem q = search (mem_rules, drop_event-mem) depth 20 fits 4000

  abort_port-mem : (q : ℕ) → Keeps P (abort_port q)
  unfolding abort_port abort_messages
  abort_port-mem q = search (mem_rules, drop_message-mem, reply_aborted-mem) depth 20 fits 4000

module _ {a s : ℕ} where
  abort_read-Holds : (j : ReadList) (q : ℕ) → Keeps (Holds a s 0) (abort_read j q)
  unfolding abort_read ◌>>=◌
  abort_read-Holds j q = record {
    at = λ w h. drop_read-Holds j _ w (take_read-with_taken a q (read_list j w.unit)) h;
  }

  abort_reads-Holds : (q : ℕ) → Keeps (Holds a s 0) (abort_reads q)
  unfolding abort_reads
  abort_reads-Holds q = search (mem_rules, abort_read-Holds) depth 20 fits 4000

  pub abort_io-Holds : (q : ℕ) → Keeps (Holds a s 0) (abort_io q)
  unfolding abort_io
  abort_io-Holds q =
      search (mem_rules, abort_reads-Holds, abort_events-mem, reply_aborted-mem, abort_port-mem)
        depth 24 fits 4000
