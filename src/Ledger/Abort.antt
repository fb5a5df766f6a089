-- ===== src/Ledger/Abort.antt =====
-- AbortIO: a request that it finds is taken out of its queue and replied to, once.
use pa6t_eth.Base.{
  ℕ, ◌+◌, ◌≡◌, refl, List, [], ◌∷◌, true, Bool-cases, inl, inr, is_set, Bool, arith, if◌then◌else◌,
  count, ◌==◌, ==_sound, Option, none, some,
}
use pa6t_eth.Machine.{World, M, ◌>>=◌, ◌>>◌, pure, call_, get_unit, get_req}
use pa6t_eth.Machine.Structs.{PendingRead, IoError, ioerr_nocmd}
use pa6t_eth.Machine.Calls.{forbid, permit}
use pa6t_eth.Machine.Triples.{
  Takes, Keeps, Keeps-pure, Keeps-bind, Takes-if, Keeps-get_unit, Keeps-get_req,
}
use pa6t_eth.Requests.{ReadList, ipv4, arp, other, read_list}
use pa6t_eth.Io.Abort.{
  take_read, keep_read, take_req, keep_req, drop_read, abort_read, abort_reads, drop_event,
  abort_events, drop_message, abort_messages, reply_aborted, abort_port, abort_io,
}
use pa6t_eth.Ledger.{Owes, one, count_reads, settled, replies}

-- How often a request is among what a search took out and what it left.
abbrev read_held : ℕ → ℕ → List PendingRead → Option (ℕ × List PendingRead) → ℕ
read_held x r l none = count_reads x l
read_held x r l (some (p, rest)) = one r x + count_reads x rest

abbrev req_held : ℕ → ℕ → List ℕ → Option (List ℕ) → ℕ
req_held x r l none = count x l
req_held x r l (some rest) = one r x + count x rest

read_held-keep :
    (x r : ℕ) (pr : PendingRead) (l : List PendingRead) (o : Option (ℕ × List PendingRead))
    → count_reads x l ≡ read_held x r l o
    → count_reads x (pr ∷ l) ≡ read_held x r (pr ∷ l) (keep_read pr o)
unfolding count_reads
read_held-keep x r pr l none e = refl
read_held-keep x r pr l (some (p, rest)) e = omega (arith, e)

req_held-keep :
    (x r q : ℕ) (l : List ℕ) (o : Option (List ℕ))
    → count x l ≡ req_held x r l o
    → count x (q ∷ l) ≡ req_held x r (q ∷ l) (keep_req q o)
unfolding count
req_held-keep x r q l none e = refl
req_held-keep x r q l (some rest) e = omega (arith, e)

take_read-held :
    (x r : ℕ) (l : List PendingRead) → count_reads x l ≡ read_held x r l (take_read r l)
unfolding take_read count_reads
take_read-held x r [] = refl
take_read-held x r (pr ∷ l) = elim (Bool-cases (pr.ioreq == r)) [
  | inl e ↦ rw (e, take_read, ==_sound pr.ioreq r e) refl
  | inr e ↦ rw (e, take_read) (read_held-keep x r pr l _ (take_read-held x r l))
]

take_req-held : (x r : ℕ) (l : List ℕ) → count x l ≡ req_held x r l (take_req r l)
unfolding take_req count
take_req-held x r [] = refl
take_req-held x r (q ∷ l) = elim (Bool-cases (q == r)) [
  | inl e ↦ rw (e, take_req, ==_sound q r e) refl
  | inr e ↦ rw (e, take_req) (req_held-keep x r q l _ (take_req-held x r l))
]

-- A search for `r` that takes it out exactly if it says that it found it.
record Finds (r : ℕ) (m : M Bool) : Type 0 where
  found : (x : ℕ) (w : World) → settled x (m w).1 + (if (m w).0 then one r x else 0) ≡ settled x w

drop_read-found :
    (x r : ℕ) (j : ReadList) (o : Option (ℕ × List PendingRead)) (w : World)
    → count_reads x (read_list j w.unit) ≡ read_held x r (read_list j w.unit) o
    → settled x (drop_read j o w).1 + (if (drop_read j o w).0 then one r x else 0) ≡ settled x w
unfolding drop_read ◌>>=◌ replies
drop_read-found x r j none w e = omega arith
drop_read-found x r ipv4 (some (p, rest)) w e = omega (arith, e)
drop_read-found x r arp (some (p, rest)) w e = omega (arith, e)
drop_read-found x r other (some (p, rest)) w e = omega (arith, e)

drop_event-found :
    (x r : ℕ) (o : Option (List ℕ)) (w : World)
    → count x w.unit.event_list ≡ req_held x r w.unit.event_list o
    → settled x (drop_event o w).1 + (if (drop_event o w).0 then one r x else 0) ≡ settled x w
unfolding drop_event ◌>>=◌
drop_event-found x r none w e = omega arith
drop_event-found x r (some rest) w e = omega (arith, e)

drop_message-found :
    (x r : ℕ) (o : Option (List ℕ)) (w : World)
    → count x w.unit.port_msgs ≡ req_held x r w.unit.port_msgs o
    → settled x (drop_message o w).1 + (if (drop_message o w).0 then one r x else 0) ≡ settled x w
unfolding drop_message ◌>>=◌
drop_message-found x r none w e = omega arith
drop_message-found x r (some rest) w e = omega (arith, e)

module _ (r : ℕ) where
  abort_read-Finds : (j : ReadList) → Finds r (abort_read j r)
  unfolding abort_read ◌>>=◌
  abort_read-Finds j = record {
    found = λ x w. drop_read-found x r j _ w (take_read-held x r (read_list j w.unit));
  }

  abort_events-Finds : Finds r (abort_events r)
  unfolding abort_events ◌>>=◌
  abort_events-Finds = record {
    found = λ x w. drop_event-found x r _ w (take_req-held x r w.unit.event_list);
  }

  abort_messages-Finds : Finds r (abort_messages r)
  unfolding abort_messages ◌>>=◌
  abort_messages-Finds = record {
    found = λ x w. drop_message-found x r _ w (take_req-held x r w.unit.port_msgs);
  }

  -- One search, and the next if it finds nothing.
  Finds-or :
      (m n : M Bool) → Finds r m → Finds r n → Finds r (m >>= λ a. if a then pure true else n)
  unfolding ◌>>=◌
  Finds-or m n fm fn = record {
    found = λ x w.
        let first = fm.found x w in
        let second = fn.found x (m w).1 in
        elim (Bool-cases (m w).0) [
          | inl e ↦ rw e (omega (arith, rw e at first))
          | inr e ↦ rw e (omega (arith, rw e at first, second))
        ];
  }

  abort_reads-Finds : Finds r (abort_reads r)
  unfolding abort_reads
  abort_reads-Finds =
      Finds-or (abort_read ipv4 r) _ (abort_read-Finds ipv4)
        (Finds-or (abort_read arp r) _ (abort_read-Finds arp) (abort_read-Finds other))

  reply_aborted-Owes : (x k : ℕ) → Takes (Owes x k (one r x)) (Owes x k 0) (reply_aborted r)
  unfolding reply_aborted ◌>>=◌ replies
  reply_aborted-Owes x k = record { at = λ w h. record { owed = omega (arith, h.owed) } }

  -- A search under Forbid, then the reply if it found the request, or what comes after it.
  search_or-Owes :
      (x k : ℕ) (m : M Bool) (n : M IoError)
      → Finds r m
      → Keeps (Owes x k 0) n
      → Keeps (Owes x k 0) (do call_ forbid; a ← m; call_ permit; if a then reply_aborted r else n)
  unfolding ◌>>=◌ replies
  search_or-Owes x k m n f kn = record {
    at = λ w h.
        let w0 = (call_ forbid w).1 in
        let here = f.found x w0 in
        elim (Bool-cases (m w0).0) [
          | inl e ↦ rw e (
              (reply_aborted-Owes x k).at _ (record { owed = omega (arith, rw e at here, h.owed) }))
          | inr e ↦ rw e (kn.at _ (record { owed = omega (arith, rw e at here, h.owed) }))
        ];
  }

  abort_port-Owes : (x k : ℕ) → Keeps (Owes x k 0) (abort_port r)
  unfolding abort_port
  abort_port-Owes x k =
      let idle = Keeps-pure {P = Owes x k 0} ioerr_nocmd in
      let port =
        search_or-Owes x k (abort_messages r) (pure ioerr_nocmd) abort_messages-Finds idle in
      Keeps-bind get_unit _ Keeps-get_unit (λ u. Takes-if (is_set u.io_port) _ _ port idle)

  pub abort_io-Owes : (x k : ℕ) → Keeps (Owes x k 0) (abort_io r)
  unfolding abort_io
  abort_io-Owes x k =
      let events =
        search_or-Owes x k (abort_events r) (abort_port r) abort_events-Finds
          (abort_port-Owes x k) in
      let reads = search_or-Owes x k (abort_reads r) _ abort_reads-Finds events in
      let idle = Keeps-pure {P = Owes x k 0} ioerr_nocmd in
      Keeps-bind (get_req r) _ (Keeps-get_req r) (λ q. Takes-if (is_set q.io_unit) _ _ reads idle)
