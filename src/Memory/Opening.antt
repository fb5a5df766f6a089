-- ===== src/Memory/Opening.antt =====
-- Open of src/Open.c, and the start of the unit task: an opener is allocated, and stands in the list
-- or is freed.
use mathlib.Core.List.{map, map-append}
use pa6t_eth.Base.{ℕ, ◌+◌, ◌<◌, ◌≡◌, ◌∙◌, ap, List, [], ◌∷◌, ◌++◌, arith, is_set, if◌then◌else◌}
use pa6t_eth.Machine.{World, call_, ◌>>=◌, ◌>>◌}
use pa6t_eth.Machine.Triples.{Takes, Keeps, Takes-before, Takes-after, Takes-if}
use pa6t_eth.Machine.Plain.{MemSafe, opener_at, mem_rules}
use pa6t_eth.Machine.Structs.{Opener}
use pa6t_eth.Machine.Calls.{free_vec}
use pa6t_eth.Task.{task_startup, unit_task_start}
use pa6t_eth.Device.Open.{open_fail, add_opener, ensure_task, open_unit, open_device}
use pa6t_eth.Memory.{
  Holds, Holds-MemSafe, Holds-alloc, Holds-free, Holds-if_set, is_at, listed, allocs, frees,
}

listed-append : (a : ℕ) (xs ys : List ℕ) → listed a (xs ++ ys) ≡ listed a xs + listed a ys
unfolding listed
listed-append a [] ys = omega arith
listed-append a (x ∷ xs) ys = omega (arith, listed-append a xs ys)

-- An opener at the end of the list.
listed-put :
    (a : ℕ) (ops : List Opener) (op : Opener)
    → listed a (map opener_at (ops ++ (op ∷ []))) ≡ listed a (map opener_at ops) + is_at op.at a
unfolding listed
listed-put a ops op =
    ap (listed a) (map-append opener_at ops (op ∷ []))
    ∙ omega (arith, listed-append a (map opener_at ops) (op.at ∷ []))

module _ {P : World → Type 0} ⦃s : MemSafe P⦄ where
  task_startup-mem : (parent ready : ℕ) → Keeps P (task_startup parent ready)
  unfolding task_startup
  task_startup-mem parent ready = search mem_rules depth 24 fits 4000

  unit_task_start-mem : Keeps P unit_task_start
  unfolding unit_task_start
  unit_task_start-mem = search (mem_rules, task_startup-mem) depth 24 fits 4000

  ensure_task-mem : Keeps P ensure_task
  unfolding ensure_task
  ensure_task-mem = search (mem_rules, unit_task_start-mem) depth 20 fits 4000

  open_fail-mem : (r : ℕ) → Keeps P (open_fail r)
  unfolding open_fail
  open_fail-mem r = search mem_rules depth 20 fits 4000

module _ {a s : ℕ} (l : 0 < a) where
  add_opener-Holds : (r p : ℕ) → Takes (Holds a s (is_at p a)) (Holds a s 0) (add_opener r p)
  unfolding add_opener ◌>>=◌ allocs frees
  add_opener-Holds r p = record {
    at = λ w h.
        let op : Opener = record { at = p; bm_cookie = (w.reqs r).buffer_management; s2hook = 0 } in
        record { balance = omega (arith, listed-put a w.unit.opener_list op, h.balance) };
  }

  opener_or-Holds :
      (r p : ℕ)
      → Takes (Holds a s (is_at p a)) (Holds a s 0) (
          if is_set p
          then (do
            running ← ensure_task
            if running then add_opener r p else (do call_ (free_vec p); open_fail r))
          else open_fail r)
  opener_or-Holds r p =
      Holds-if_set p _ _ l
        (Takes-before _ _ ensure_task-mem (λ running.
          Takes-if running _ _ (add_opener-Holds r p)
            (Takes-after _ _ (Holds-free p) (λ _. open_fail-mem r))))
        (open_fail-mem r)

  open_unit-Holds : (r : ℕ) → Keeps (Holds a s 0) (open_unit r)
  unfolding open_unit
  open_unit-Holds r = search (mem_rules, Holds-alloc, opener_or-Holds) depth 20 fits 4000

  pub open_device-Holds : (r n : ℕ) → Keeps (Holds a s 0) (open_device r n)
  unfolding open_device
  open_device-Holds r n = search (mem_rules, open_unit-Holds, open_fail-mem) depth 20 fits 4000
