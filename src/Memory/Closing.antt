-- ===== src/Memory/Closing.antt =====
-- Close of src/Close.c, the shutdown of the unit task, and Expunge of src/Expunge.c: an opener that
-- is taken out of the list is freed, and so is the unit.
use mathlib.Core.List.{map}
use pa6t_eth.Base.{
  ℕ, zero, suc, ltb, ◌+◌, ◌-◌, ◌<◌, ◌≡◌, refl, List, [], ◌∷◌, arith, is_set, Bool-cases, inl, inr,
  ◌==◌, Option, none, some,
}
use pa6t_eth.Machine.{World, call_, get_unit, modify_unit, when, ◌>>=◌, ◌>>◌}
use pa6t_eth.Machine.Triples.{Keeps, Keeps-bind, Keeps-get_unit, Keeps-when}
use pa6t_eth.Machine.Plain.{MemSafe, opener_at, mem_rules}
use pa6t_eth.Machine.Structs.{Opener}
use pa6t_eth.Machine.Calls.{release, opener_lock}
use pa6t_eth.Hw.Irq.{remove_irq}
use pa6t_eth.Task.{yield_until_exit, unit_task_shutdown}
use pa6t_eth.Device.Start.{release_unit, release_iob, release_dma, release_mac}
use pa6t_eth.Device.Close.{
  take_opener, keep_opener, drop_opener, close_unit, drop_libraries, expunge, close_device,
}
use pa6t_eth.Memory.{Holds, Holds-MemSafe, is_at, listed, allocs, frees, zero_is_at}
use pa6t_eth.Memory.Task.{task_exit-Holds}
use pa6t_eth.Memory.Cleanup.{hw_cleanup-Holds}

-- How often the block is among what a search took out and what it left.
abbrev with_opener : ℕ → List Opener → Option (Opener × List Opener) → ℕ
with_opener a l none = listed a (map opener_at l)
with_opener a l (some (op, rest)) = is_at op.at a + listed a (map opener_at rest)

with_opener-keep :
    (a : ℕ) (op : Opener) (l : List Opener) (o : Option (Opener × List Opener))
    → listed a (map opener_at l) ≡ with_opener a l o
    → listed a (map opener_at (op ∷ l)) ≡ with_opener a (op ∷ l) (keep_opener op o)
unfolding listed
with_opener-keep a op l none e = refl
with_opener-keep a op l (some (p, rest)) e = omega (arith, e)

take_opener-with_opener :
    (a bm : ℕ) (l : List Opener) → listed a (map opener_at l) ≡ with_opener a l (take_opener bm l)
unfolding take_opener listed
take_opener-with_opener a bm [] = refl
take_opener-with_opener a bm (op ∷ l) = elim (Bool-cases (op.bm_cookie == bm)) [
  | inl e ↦ rw (e, take_opener) refl
  | inr e ↦ rw (e, take_opener) (with_opener-keep a op l _ (take_opener-with_opener a bm l))
]

drop_opener-Holds :
    {a s : ℕ} (o : Option (Opener × List Opener)) (w : World)
    → listed a (map opener_at w.unit.opener_list) ≡ with_opener a w.unit.opener_list o
    → Holds a s 0 w
    → Holds a s 0 (drop_opener o w).1
unfolding drop_opener ◌>>=◌ allocs frees
drop_opener-Holds none w e h = h
drop_opener-Holds (some (op, rest)) w e h = record { balance = omega (arith, e, h.balance) }

module _ {P : World → Type 0} ⦃s : MemSafe P⦄ where
  pub remove_irq-mem : Keeps P remove_irq
  unfolding remove_irq
  remove_irq-mem = search mem_rules depth 20 fits 4000

  pub release_iob-mem : Keeps P release_iob
  unfolding release_iob
  release_iob-mem = search mem_rules depth 20 fits 4000

  pub release_dma-mem : Keeps P release_dma
  unfolding release_dma
  release_dma-mem = search mem_rules depth 20 fits 4000

  pub release_mac-mem : Keeps P release_mac
  unfolding release_mac
  release_mac-mem = search mem_rules depth 20 fits 4000

  pub drop_libraries-mem : Keeps P drop_libraries
  unfolding drop_libraries
  drop_libraries-mem = search mem_rules depth 20 fits 4000

module _ {a s : ℕ} (l : 0 < a) where
  yield_until_exit-Holds : (n : ℕ) → Keeps (Holds a s 0) (yield_until_exit n)
  unfolding yield_until_exit
  yield_until_exit-Holds zero = search mem_rules depth 20 fits 4000
  yield_until_exit-Holds (suc n) = Keeps-bind _ _ Keeps-get_unit (λ u. Keeps-when _ _ (
      Keeps-bind _ _ (search mem_rules depth 20 fits 4000) (λ _.
        Keeps-bind _ _ (search mem_rules depth 20 fits 4000) (λ ran.
          Keeps-bind _ _ (Keeps-when _ _ (task_exit-Holds l)) (λ _. yield_until_exit-Holds n)))))

  unit_task_shutdown-Holds : Keeps (Holds a s 0) unit_task_shutdown
  unfolding unit_task_shutdown
  unit_task_shutdown-Holds = search (mem_rules, yield_until_exit-Holds) depth 24 fits 4000

  close_rest-Holds : Keeps (Holds a s 0) (do
    call_ (release opener_lock)
    v ← get_unit
    when (ltb 0 v.open_count) (do
      modify_unit (λ v. record v { open_count = v.open_count - 1 })
      when (v.open_count == 1) unit_task_shutdown))
  close_rest-Holds = search (mem_rules, unit_task_shutdown-Holds) depth 24 fits 4000

  close_unit-Holds : (bm : ℕ) → Keeps (Holds a s 0) (close_unit bm)
  unfolding close_unit ◌>>=◌ allocs frees
  close_unit-Holds bm = record {
    at = λ w h. close_rest-Holds.at _ (
        drop_opener-Holds (take_opener bm w.unit.opener_list) _
          (take_opener-with_opener a bm w.unit.opener_list)
          (record { balance = omega (arith, h.balance) }));
  }

  pub release_unit-Holds : Keeps (Holds a s 0) release_unit
  unfolding release_unit ◌>>=◌ allocs frees
  release_unit-Holds = record {
    at = λ w h. elim (Bool-cases (is_set w.base.unit)) [
      | inl e ↦ rw e (record { balance = omega (arith, h.balance, zero_is_at a l) })
      | inr e ↦ rw e h
    ];
  }

  pub expunge-Holds : Keeps (Holds a s 0) expunge
  unfolding expunge
  expunge-Holds =
      search
        (
          mem_rules, remove_irq-mem, hw_cleanup-Holds, release_unit-Holds, release_iob-mem,
          release_dma-mem, release_mac-mem, drop_libraries-mem,
        )
        depth 28 fits 4000

  pub close_device-Holds : (r : ℕ) → Keeps (Holds a s 0) (close_device r)
  unfolding close_device
  close_device-Holds r = search (mem_rules, close_unit-Holds, expunge-Holds) depth 24 fits 4000
