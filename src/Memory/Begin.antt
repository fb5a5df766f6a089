-- ===== src/Memory/Begin.antt =====
-- BeginIO of src/BeginIO.c: a read that is queued takes its wrapper into a read list.
use mathlib.Core.List.{map}
use pa6t_eth.Base.{
  ℕ, ◌+◌, ◌<◌, ◌≡◌, ◌%◌, ◌^◌, List, [], ◌∷◌, ◌++◌, Bool, true, false, arith, is_set, if◌then◌else◌,
  refl, ap, ◌==◌, Bool-cases, inl, inr,
}
use pa6t_eth.Machine.{World, ◌>>=◌}
use pa6t_eth.Machine.Structs.{
  EthUnit, Opener, PendingRead, IoError, success, Command, other_command, s2_devicequery,
  s2_getstationaddress, s2_configinterface, s2_online, s2_offline, cmd_read, s2_readorphan,
  cmd_write, s2_broadcast, s2_multicast, cmd_flush, s2_onevent, s2_getglobalstats,
  s2_addmulticastaddress, s2_delmulticastaddresses, s2_delmulticastaddress,
  s2_addmulticastaddresses, s2_tracktype, s2_untracktype, s2_sana2hook,
}
use pa6t_eth.Machine.Triples.{Takes, Keeps}
use pa6t_eth.Machine.Plain.{MemSafe, kept, opener_at, mem_rules}
use pa6t_eth.Requests.{ReadList, ipv4, arp, other, read_list, set_read_list, read_list_of}
use pa6t_eth.Io.Begin.{
  reply_ioreq, queue_to_task, device_query, station_address, go_online, go_offline, queue_read,
  begin_read, queue_event, begin_readorphan, begin_onevent, begin_write, global_stats, sana2_hook,
  set_hook, begin_command, begin_io,
}
use pa6t_eth.Memory.{
  Holds, Holds-MemSafe, Holds-alloc, Holds-if_set, is_at, held, wrappers, allocs, frees,
}
use pa6t_eth.Memory.Transmit.{transmit_packet-Holds}

wrappers-append :
    (a : ℕ) (xs ys : List PendingRead) → wrappers a (xs ++ ys) ≡ wrappers a xs + wrappers a ys
unfolding wrappers
wrappers-append a [] ys = omega arith
wrappers-append a (x ∷ xs) ys = omega (arith, wrappers-append a xs ys)

held-put :
    (a : ℕ) (j : ReadList) (pr : PendingRead) (u : EthUnit)
    → held a (set_read_list j (read_list j u ++ (pr ∷ [])) u) ≡ held a u + is_at pr.at a
unfolding wrappers
held-put a ipv4 pr u = omega (arith, wrappers-append a u.read_list_ipv4 (pr ∷ []))
held-put a arp pr u = omega (arith, wrappers-append a u.read_list_arp (pr ∷ []))
held-put a other pr u = omega (arith, wrappers-append a u.read_list_other (pr ∷ []))

set_hook-openers :
    (bm hook : ℕ) (ops : List Opener) → map opener_at (set_hook bm hook ops) ≡ map opener_at ops
unfolding set_hook
set_hook-openers bm hook [] = refl
set_hook-openers bm hook (op ∷ ops) = elim (Bool-cases (op.bm_cookie == bm)) [
  | inl e ↦ rw (set_hook, e) refl
  | inr e ↦ rw (set_hook, e) (ap (λ l. op.at ∷ l) (set_hook-openers bm hook ops))
]

set_hook-kept :
    (bm hook : ℕ) (u : EthUnit)
    → kept (record u { opener_list = set_hook bm hook u.opener_list }) ≡ kept u
set_hook-kept bm hook u =
    ap (λ l. record (kept u) { openers = l }) (set_hook-openers bm hook u.opener_list)

module _ {P : World → Type 0} ⦃s : MemSafe P⦄ where
  reply_ioreq-mem : (q : ℕ) (e : IoError) (v : ℕ) → Keeps P (reply_ioreq q e v)
  unfolding reply_ioreq
  reply_ioreq-mem q e v = search mem_rules depth 20 fits 4000

  queue_to_task-mem : (q : ℕ) → Keeps P (queue_to_task q)
  unfolding queue_to_task
  queue_to_task-mem q = search mem_rules depth 20 fits 4000

  device_query-mem : (q : ℕ) → Keeps P (device_query q)
  unfolding device_query
  device_query-mem q = search (mem_rules, reply_ioreq-mem) depth 20 fits 4000

  station_address-mem : (q : ℕ) → Keeps P (station_address q)
  unfolding station_address
  station_address-mem q = search (mem_rules, reply_ioreq-mem) depth 20 fits 4000

  go_online-mem : (q : ℕ) → Keeps P (go_online q)
  unfolding go_online
  go_online-mem q = search (mem_rules, reply_ioreq-mem, queue_to_task-mem) depth 20 fits 4000

  go_offline-mem : (q : ℕ) → Keeps P (go_offline q)
  unfolding go_offline
  go_offline-mem q = search (mem_rules, reply_ioreq-mem, queue_to_task-mem) depth 20 fits 4000

  begin_onevent-mem : (q : ℕ) → Keeps P (begin_onevent q)
  unfolding begin_onevent queue_event
  begin_onevent-mem q = search mem_rules depth 20 fits 4000

  begin_readorphan-mem : (q : ℕ) → Keeps P (begin_readorphan q)
  unfolding begin_readorphan queue_event
  begin_readorphan-mem q = search (mem_rules, reply_ioreq-mem) depth 20 fits 4000

  global_stats-mem : (q : ℕ) → Keeps P (global_stats q)
  unfolding global_stats
  global_stats-mem q = search (mem_rules, reply_ioreq-mem) depth 20 fits 4000

  sana2_hook-mem : (q : ℕ) → Keeps P (sana2_hook q)
  unfolding sana2_hook
  sana2_hook-mem q = search (mem_rules, reply_ioreq-mem, set_hook-kept) depth 20 fits 4000

module _ {a s : ℕ} (l : 0 < a) where
  queue_read-Holds : (q p : ℕ) → Takes (Holds a s (is_at p a)) (Holds a s 0) (queue_read q p)
  unfolding queue_read ◌>>=◌ allocs frees
  queue_read-Holds q p = record {
    at = λ w h.
        let j = read_list_of ((w.reqs q).packet_type % 2 ^ 16) in
        record {
          balance = omega (arith, held-put a j (record { at = p; ioreq = q }) w.unit, h.balance);
        };
  }

  wrapper_or-Holds :
      (q v : ℕ) (e : IoError) (p : ℕ)
      → Takes
          (Holds a s (is_at p a))
          (Holds a s 0)
          (if is_set p then queue_read q p else reply_ioreq q e v)
  wrapper_or-Holds q v e p = Holds-if_set p _ _ l (queue_read-Holds q p) (reply_ioreq-mem q e v)

  begin_read-Holds : (q : ℕ) → Keeps (Holds a s 0) (begin_read q)
  unfolding begin_read
  begin_read-Holds q =
      search (mem_rules, Holds-alloc, wrapper_or-Holds, reply_ioreq-mem) depth 20 fits 4000

  begin_write-Holds : (b : Bool) (q : ℕ) → Keeps (Holds a s 0) (begin_write b q)
  unfolding begin_write
  begin_write-Holds b q =
      search (mem_rules, transmit_packet-Holds, reply_ioreq-mem) depth 20 fits 4000

  begin_command-Holds : (c : Command) (q : ℕ) → Keeps (Holds a s 0) (begin_command c q)
  unfolding begin_command
  begin_command-Holds s2_devicequery q = device_query-mem q
  begin_command-Holds s2_getstationaddress q = station_address-mem q
  begin_command-Holds s2_configinterface q = queue_to_task-mem q
  begin_command-Holds s2_online q = go_online-mem q
  begin_command-Holds s2_offline q = go_offline-mem q
  begin_command-Holds cmd_read q = begin_read-Holds q
  begin_command-Holds s2_readorphan q = begin_readorphan-mem q
  begin_command-Holds cmd_write q = begin_write-Holds false q
  begin_command-Holds s2_broadcast q = begin_write-Holds true q
  begin_command-Holds s2_multicast q = begin_write-Holds false q
  begin_command-Holds cmd_flush q = queue_to_task-mem q
  begin_command-Holds s2_onevent q = begin_onevent-mem q
  begin_command-Holds s2_getglobalstats q = global_stats-mem q
  begin_command-Holds s2_addmulticastaddress q = reply_ioreq-mem q success 0
  begin_command-Holds s2_delmulticastaddresses q = reply_ioreq-mem q success 0
  begin_command-Holds s2_delmulticastaddress q = reply_ioreq-mem q success 0
  begin_command-Holds s2_addmulticastaddresses q = reply_ioreq-mem q success 0
  begin_command-Holds s2_tracktype q = reply_ioreq-mem q success 0
  begin_command-Holds s2_untracktype q = reply_ioreq-mem q success 0
  begin_command-Holds s2_sana2hook q = sana2_hook-mem q
  begin_command-Holds (other_command n) q = search (mem_rules, reply_ioreq-mem) depth 20 fits 4000

  pub begin_io-Holds : (q : ℕ) → Keeps (Holds a s 0) (begin_io q)
  unfolding begin_io
  begin_io-Holds q = search (mem_rules, begin_command-Holds) depth 20 fits 4000
