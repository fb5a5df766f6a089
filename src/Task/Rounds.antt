-- ===== src/Task/Rounds.antt =====
-- src/unit_task.c: a round of the main loop in the order of its steps.
use mathlib.Core.Bool.{false≢true}
use pa6t_eth.Base.{
  ◌≡◌, ◌∙◌, refl, sym, ap, Bool, true, false, is_set, if◌then◌else◌, bit_and, bit_or, inc32,
}
use pa6t_eth.Machine.{World, M, pure, call, call_, get_unit, modify_unit, when, ◌>>=◌, ◌>>◌}
use pa6t_eth.Machine.Calls.{wait, set_signal}
use pa6t_eth.Rx.Process.{process_rx}
use pa6t_eth.Task.{serve_port, task_round}

-- The state in which the task has waited, what it then knows of a break, and the state after that.
abbrev pub awake : World → World
awake w =
    let counted = (modify_unit (λ u. record u { loop_count = inc32 u.loop_count }) w).1 in
    let waited =
      (call_
        (wait (bit_or (bit_or w.unit.io_port_mask w.unit.irq_signal_mask) w.sdk.sigbreakf_ctrl_c))
        counted).1 in
    (call_ (set_signal w.unit.irq_signal_mask) waited).1

abbrev is_broken : World → Bool
is_broken w =
    is_set (bit_and (call (set_signal w.sdk.sigbreakf_ctrl_c) (awake w)).0 w.sdk.sigbreakf_ctrl_c)

abbrev pub ready : World → World
ready w = (call (set_signal w.sdk.sigbreakf_ctrl_c) (awake w)).1

if_not :
    (b : Bool) (n : M Bool) (w : World)
    → ((if b then pure false else n) w).0 ≡ true
    → (if b then pure false else n) w ≡ n w
unfolding ◌>>=◌
if_not true n w e = absurd (false≢true e)
if_not false n w e = refl

-- A round that does not end the task.
pub task_round-goes_on :
    (w : World)
    → (task_round w).0 ≡ true
    → task_round w ≡ (do serve_port; v ← get_unit; when v.online process_rx; pure true) (ready w)
unfolding task_round ◌>>=◌
task_round-goes_on w e =
    let up = if_not w.unit.task_shutdown _ w e in
    up ∙ if_not (is_broken w) _ (ready w) (ap (λ x. x.0) (sym up) ∙ e)
