-- ===== src/Ledger/Device.antt =====
-- The requests over src/Open.c, src/Close.c and src/Expunge.c: Open leaves them where they are, and
-- Close answers what waits when it ends the unit task.
use pa6t_eth.Base.{
  ℕ, zero, suc, ◌≡◌, refl, List, [], Option, none, some, true, arith, count, ◌==◌, is_set,
  Bool-cases, inl, inr,
}
use pa6t_eth.Machine.{World, M, call, call_, modify_unit, modify_base, ◌>>=◌}
use pa6t_eth.Machine.Structs.{Opener, EthUnit, EthBase}
use pa6t_eth.Machine.Calls.{Call}
use pa6t_eth.Machine.Triples.{
  Takes, Takes-if, Takes-bind, Takes-before, Keeps, Keeps-bind, Keeps-when, Keeps-get_unit,
  Keeps-get_sdk, Keeps-get_base, Keeps-skip, keeps_rules,
}
use pa6t_eth.Task.{task_startup, unit_task_start, yield_until_exit, unit_task_shutdown}
use pa6t_eth.Hw.Irq.{remove_irq}
use pa6t_eth.Hw.Stopped.{hw_cleanup-quiet}
use pa6t_eth.Device.Start.{release_unit, release_iob, release_dma, release_mac}
use pa6t_eth.Device.Open.{open_fail, add_opener, ensure_task, open_unit, open_device}
use pa6t_eth.Device.Close.{drop_opener, close_unit, drop_libraries, expunge, close_device}
use pa6t_eth.Ledger.{Owes, Owes-QuietSafe, owes_rules, settled, waiting, replies, reply_count, same}
use pa6t_eth.Ledger.Task.{task_exit-Owes}

-- What is settled is `k`, and the request is not in the port.
record Clear (r k : ℕ) (w : World) : Type 0 where
  owed : settled r w ≡ k
  clear : count r w.unit.port_msgs ≡ 0

module _ {r k : ℕ} where
  Clear-call : (c : Call) → reply_count r c ≡ 0 → Keeps (Clear r k) (call c)
  unfolding ◌>>=◌ replies
  Clear-call c e = record { at = λ w h. record { owed = omega (arith, h.owed); clear = h.clear } }

  Clear-call_ : (c : Call) → reply_count r c ≡ 0 → Keeps (Clear r k) (call_ c)
  unfolding ◌>>=◌ replies
  Clear-call_ c e = record { at = λ w h. record { owed = omega (arith, h.owed); clear = h.clear } }

  Clear-modify_unit :
      (f : EthUnit → EthUnit)
      → ((u : EthUnit) → waiting r (f u) ≡ waiting r u)
      → ((u : EthUnit) → count r (f u).port_msgs ≡ count r u.port_msgs)
      → Keeps (Clear r k) (modify_unit f)
  unfolding ◌>>=◌
  Clear-modify_unit f e d = record {
    at = λ w h. record {
      owed = omega (arith, e w.unit, h.owed);
      clear = omega (arith, d w.unit, h.clear);
    };
  }

  Clear-new_port :
      (port : ℕ)
      → Keeps (Clear r k) (modify_unit (λ u. record u { io_port = port; port_msgs = [] }))
  unfolding ◌>>=◌ count
  Clear-new_port port = record {
    at = λ w h. record { owed = omega (arith, h.owed, h.clear); clear = refl };
  }

ruleset clear_rules =
    (keeps_rules, Clear-new_port, Clear-call, Clear-call_, Clear-modify_unit, same)

module _ {r k : ℕ} where
  task_startup-Clear : (parent ready : ℕ) → Keeps (Clear r k) (task_startup parent ready)
  unfolding task_startup
  task_startup-Clear parent ready = search clear_rules depth 24 fits 4000

  unit_task_start-Clear : Keeps (Clear r k) unit_task_start
  unfolding unit_task_start
  unit_task_start-Clear = search (clear_rules, task_startup-Clear) depth 24 fits 4000

-- What is settled is `k`, and without openers the request is not in the port.
pub record Guarded (r k : ℕ) (w : World) : Type 0 where
  pub owed : settled r w ≡ k
  pub guard : (w.unit.open_count == 0) ≡ true → count r w.unit.port_msgs ≡ 0

module _ {r k : ℕ} where
  Guarded-call : (c : Call) → reply_count r c ≡ 0 → Keeps (Guarded r k) (call c)
  unfolding ◌>>=◌ replies
  Guarded-call c e = record { at = λ w h. record { owed = omega (arith, h.owed); guard = h.guard } }

  Guarded-modify_base : (f : EthBase → EthBase) → Keeps (Guarded r k) (modify_base f)
  unfolding ◌>>=◌
  Guarded-modify_base f = record { at = λ w h. record { owed = h.owed; guard = h.guard } }

  Guarded-end : {A : Type 0} (m : M A) → Keeps (Owes r k 0) m → Takes (Guarded r k) (Owes r k 0) m
  Guarded-end m x = record { at = λ w h. x.at w (record { owed = omega (arith, h.owed) }) }

  -- The first opener starts the task, whose port is new.
  ensure_task-Owes : Takes (Guarded r k) (Owes r k 0) ensure_task
  unfolding ensure_task ◌>>=◌
  ensure_task-Owes = record {
    at = λ w h. elim (Bool-cases (w.unit.open_count == 0)) [
      | inl e ↦
          let after = unit_task_start-Clear.at w (record { owed = h.owed; clear = h.guard e }) in
          rw e (record { owed = omega (arith, after.owed) })
      | inr e ↦ rw e (record { owed = omega (arith, h.owed) })
    ];
  }

module _ {r k : ℕ} where
  open_fail-Owes : (q : ℕ) → Keeps (Owes r k 0) (open_fail q)
  unfolding open_fail
  open_fail-Owes q = search owes_rules depth 20 fits 4000

  add_opener-Owes : (q p : ℕ) → Keeps (Owes r k 0) (add_opener q p)
  unfolding add_opener
  add_opener-Owes q p = search owes_rules depth 24 fits 4000

  open_unit-Owes : (q : ℕ) → Takes (Guarded r k) (Owes r k 0) (open_unit q)
  unfolding open_unit
  open_unit-Owes q = Takes-before _ _ Keeps-get_sdk (λ sdk.
      Takes-before _ _ (Guarded-call _ refl) (λ opener.
        Takes-if (is_set opener) _ _
          (Takes-bind _ _ ensure_task-Owes
            (λ running. search (owes_rules, add_opener-Owes, open_fail-Owes) depth 20 fits 4000))
          (Guarded-end _ (open_fail-Owes q))))

  pub open_device-Owes : (q n : ℕ) → Takes (Guarded r k) (Owes r k 0) (open_device q n)
  unfolding open_device
  open_device-Owes q n = Takes-before _ _ Keeps-get_base (λ b.
      Takes-before _ _ (Guarded-modify_base _) (λ _.
        Takes-if (n == 0) _ _
          (Takes-if (is_set b.unit) _ _ (open_unit-Owes q) (Guarded-end _ (open_fail-Owes q)))
          (Guarded-end _ (open_fail-Owes q))))

  drop_opener-Owes : (o : Option (Opener × List Opener)) → Keeps (Owes r k 0) (drop_opener o)
  unfolding drop_opener
  drop_opener-Owes none = Keeps-skip
  drop_opener-Owes (some (op, rest)) = search owes_rules depth 20 fits 4000

  yield_until_exit-Owes : (n : ℕ) → Keeps (Owes r k 0) (yield_until_exit n)
  unfolding yield_until_exit
  yield_until_exit-Owes zero = Keeps-skip
  yield_until_exit-Owes (suc n) = Keeps-bind _ _ Keeps-get_unit (λ u. Keeps-when _ _ (
      Keeps-bind _ _ (search owes_rules depth 20 fits 4000) (λ _.
        Keeps-bind _ _ (search owes_rules depth 20 fits 4000)
          (λ ran. Keeps-bind _ _ (Keeps-when _ _ task_exit-Owes) (λ _. yield_until_exit-Owes n)))))

  unit_task_shutdown-Owes : Keeps (Owes r k 0) unit_task_shutdown
  unfolding unit_task_shutdown
  unit_task_shutdown-Owes = search (owes_rules, yield_until_exit-Owes) depth 24 fits 4000

  close_unit-Owes : (bm : ℕ) → Keeps (Owes r k 0) (close_unit bm)
  unfolding close_unit
  close_unit-Owes bm =
      search (owes_rules, drop_opener-Owes, unit_task_shutdown-Owes) depth 24 fits 4000

  remove_irq-Owes : Keeps (Owes r k 0) remove_irq
  unfolding remove_irq
  remove_irq-Owes = search owes_rules depth 20 fits 4000

  release_unit-Owes : Keeps (Owes r k 0) release_unit
  unfolding release_unit
  release_unit-Owes = search owes_rules depth 20 fits 4000

  release_iob-Owes : Keeps (Owes r k 0) release_iob
  unfolding release_iob
  release_iob-Owes = search owes_rules depth 20 fits 4000

  release_dma-Owes : Keeps (Owes r k 0) release_dma
  unfolding release_dma
  release_dma-Owes = search owes_rules depth 20 fits 4000

  release_mac-Owes : Keeps (Owes r k 0) release_mac
  unfolding release_mac
  release_mac-Owes = search owes_rules depth 20 fits 4000

  drop_libraries-Owes : Keeps (Owes r k 0) drop_libraries
  unfolding drop_libraries
  drop_libraries-Owes = search owes_rules depth 20 fits 4000

  pub expunge-Owes : Keeps (Owes r k 0) expunge
  unfolding expunge
  expunge-Owes =
      search
        (
          owes_rules, remove_irq-Owes, hw_cleanup-quiet, release_unit-Owes, release_iob-Owes,
          release_dma-Owes, release_mac-Owes, drop_libraries-Owes,
        )
        depth 28 fits 4000

  pub close_device-Owes : (q : ℕ) → Keeps (Owes r k 0) (close_device q)
  unfolding close_device
  close_device-Owes q = search (owes_rules, close_unit-Owes, expunge-Owes) depth 24 fits 4000
