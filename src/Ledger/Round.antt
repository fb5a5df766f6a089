-- ===== src/Ledger/Round.antt =====
-- A round of the unit task of src/unit_task.c: what it does for the messages in the port.
use pa6t_eth.Base.{ℕ, ◌+◌, ◌≤◌, ◌≡◌, ◌∙◌, refl, ap, List, [], ◌∷◌, true, arith, count}
use pa6t_eth.Machine.{World, pure, get_unit, when, ◌>>◌, call, call_, modify_unit, ◌>>=◌}
use pa6t_eth.Machine.Structs.{EthUnit}
use pa6t_eth.Machine.Calls.{Call}
use pa6t_eth.Machine.Triples.{Keeps, keeps_rules}
use pa6t_eth.Machine.Quiet.{Soft}
use pa6t_eth.Rx.Safe.{RxSafe, process_rx-safe}
use pa6t_eth.Rx.Process.{process_rx}
use pa6t_eth.Task.{serve_message, drain_port, serve_port, task_round}
use pa6t_eth.Ledger.{replies, one}
use pa6t_eth.Ledger.Port.{serve_message-port}
use pa6t_eth.Task.Rounds.{ready, task_round-goes_on}
use pa6t_eth.Ledger.Progress.{serve_message-least}

-- The port is empty, and the request was replied to at least so often.
record Served (r n : ℕ) (w : World) : Type 0 where
  emptied : w.unit.port_msgs ≡ []
  reached : n ≤ replies r w.trace

module _ {r n : ℕ} where
  Served-call : (c : Call) → Keeps (Served r n) (call c)
  unfolding ◌>>=◌ replies
  Served-call c = record {
    at = λ w h. record { emptied = h.emptied; reached = omega (arith, h.reached) };
  }

  Served-call_ : (c : Call) → Keeps (Served r n) (call_ c)
  unfolding ◌>>=◌ replies
  Served-call_ c = record {
    at = λ w h. record { emptied = h.emptied; reached = omega (arith, h.reached) };
  }

  Served-modify_unit :
      (f : EthUnit → EthUnit)
      → ((u : EthUnit) → (f u).port_msgs ≡ u.port_msgs)
      → Keeps (Served r n) (modify_unit f)
  unfolding ◌>>=◌
  Served-modify_unit f e = record {
    at = λ w h. record { emptied = e w.unit ∙ h.emptied; reached = h.reached };
  }

abbrev soft_port : Soft → List ℕ
soft_port a = a.port_msgs

abbrev port_of : EthUnit → List ℕ
port_of u = u.port_msgs

instance Served-RxSafe : {r n : ℕ} → RxSafe (Served r n)
unfolding replies
Served-RxSafe = record {
  frames = record {
    on_rest = λ w v e t h. record { emptied = ap port_of e ∙ h.emptied; reached = rw t h.reached };
    on_call = λ c p w v e t h. record {
      emptied = ap port_of e ∙ h.emptied;
      reached = rw t (omega (arith, h.reached));
    };
  };
  rings = λ w v e t h. record { emptied = ap soft_port e ∙ h.emptied; reached = rw t h.reached };
}

same_port : (l : List ℕ) → l ≡ l
same_port l = refl

ruleset served_rules = (keeps_rules, Served-call, Served-call_, Served-modify_unit, same_port)

drain_port-Served :
    (r n : ℕ) (ms : List ℕ) (w : World)
    → w.unit.port_msgs ≡ ms
    → n ≤ replies r w.trace
    → Served r (n + count r ms) (drain_port serve_message ms w).1
unfolding drain_port ◌>>=◌ count
drain_port-Served r n [] w e h = record { emptied = e; reached = omega (arith, h) }
drain_port-Served r n (q ∷ ms) w e h =
    let w1 = (modify_unit (λ u. record u { port_msgs = ms }) w).1 in
    let served = (serve_message-least q).at w1 (record { reached = h }) in
    let left = (serve_message-port q).at w1 (record { port = refl }) in
    let rest =
      drain_port-Served r (n + one q r) ms (serve_message q w1).1 left.port served.reached in
    record { emptied = rest.emptied; reached = omega (arith, rest.reached) }

serve_port-Served :
    (r : ℕ) (w : World) → Served r (replies r w.trace + count r w.unit.port_msgs) (serve_port w).1
unfolding serve_port ◌>>=◌
serve_port-Served r w =
    drain_port-Served r (replies r w.trace) w.unit.port_msgs w refl (omega arith)

-- What follows the port in a round.
receive-Served :
    {r n : ℕ} → Keeps (Served r n) (do v ← get_unit; when v.online process_rx; pure true)
receive-Served = search (keeps_rules, process_rx-safe) depth 20 fits 4000

-- A round of the unit task that does not end it serves the port to the end: each message that was in
-- it when the round began has been replied to, as often as it stood there, and the port is empty.
pub task_round-serves :
    (r : ℕ) (w : World)
    → (task_round w).0 ≡ true
    → (replies r w.trace + count r w.unit.port_msgs ≤ replies r (task_round w).1.trace)
      × ((task_round w).1.unit.port_msgs ≡ [])
unfolding task_round ◌>>=◌ replies
task_round-serves r w e =
    let after = receive-Served.at _ (serve_port-Served r (ready w)) in
    rw (task_round-goes_on w e) (omega (arith, after.reached), after.emptied)
