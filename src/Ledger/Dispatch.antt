-- ===== src/Ledger/Dispatch.antt =====
-- PA6TEth_ProcessRX from the choice of a reader up: the frame, the round, the loop.
use pa6t_eth.Base.{
  ℕ, zero, suc, ◌+◌, ◌≡◌, refl, List, [], ◌∷◌, Option, none, some, count, arith, Bool-cases, inl,
  inr,
}
use pa6t_eth.Machine.{World, ◌>>=◌}
use pa6t_eth.Machine.Triples.{Keeps}
use pa6t_eth.Machine.Structs.{PendingRead, IoSana2Req, EthUnit}
use pa6t_eth.Requests.{ReadList, read_list, is_readorphan, read_list_of}
use pa6t_eth.Rx.Deliver.{RxFrame, take_orphan, with_head, offer_orphan, offer_read, dispatch_frame}
use pa6t_eth.Rx.Process.{
  RxBatch, rx_accept, rx_frame, Verdict, drop, accept, rx_packet, rx_loop, process_rx, owned,
}
use pa6t_eth.Ledger.{Owes, owes_rules, replies, one}
use pa6t_eth.Ledger.Queues.{waiting-set_read_list}
use pa6t_eth.Ledger.Receive.{
  deliver_read-Owes, deliver_orphan-Owes, count_drop-Owes, next_desc-Owes, rx_finish-Owes,
}

-- How often the request is among what `take_orphan` found and what it left.
abbrev held : ℕ → List ℕ → Option (ℕ × List ℕ) → ℕ
held r l none = count r l
held r l (some (q, rest)) = one q r + count r rest

held-with_head :
    (r q : ℕ) (l : List ℕ) (o : Option (ℕ × List ℕ))
    → count r l ≡ held r l o
    → count r (q ∷ l) ≡ held r (q ∷ l) (with_head q o)
unfolding count
held-with_head r q l none e = refl
held-with_head r q l (some (p, rest)) e = omega (arith, e)

take_orphan-held :
    (r : ℕ) (reqs : ℕ → IoSana2Req) (l : List ℕ) → count r l ≡ held r l (take_orphan reqs l)
unfolding take_orphan count
take_orphan-held r reqs [] = refl
take_orphan-held r reqs (q ∷ l) = elim (Bool-cases (is_readorphan (reqs q).io_command)) [
  | inl e ↦ rw (e, take_orphan) (omega arith)
  | inr e ↦ rw (e, take_orphan) (held-with_head r q l _ (take_orphan-held r reqs l))
]

module _ {r k : ℕ} where
  offer_orphan-Owes :
      (f : RxFrame) (o : Option (ℕ × List ℕ)) (w : World)
      → count r w.unit.event_list ≡ held r w.unit.event_list o
      → Owes r k 0 w
      → Owes r k 0 (offer_orphan f o w).1
  unfolding offer_orphan ◌>>=◌ replies
  offer_orphan-Owes f none w e h = count_drop-Owes.at _ (record { owed = omega (arith, h.owed) })
  offer_orphan-Owes f (some (q, rest)) w e h =
      (deliver_orphan-Owes f q).at _ (record { owed = omega (arith, e, h.owed) })

  offer_read-Owes :
      (f : RxFrame) (j : ReadList) (l : List PendingRead) (w : World)
      → read_list j w.unit ≡ l
      → Owes r k 0 w
      → Owes r k 0 (offer_read f j l w).1
  unfolding offer_read ◌>>=◌ replies
  offer_read-Owes f j [] w e h =
      offer_orphan-Owes f _ w (take_orphan-held r w.reqs w.unit.event_list) h
  offer_read-Owes f j (pr ∷ rest) w e h =
      (deliver_read-Owes f pr.ioreq).at _
        (record { owed = omega (arith, waiting-set_read_list r j pr rest w.unit e, h.owed) })

  dispatch_frame-Owes : (f : RxFrame) → Keeps (Owes r k 0) (dispatch_frame f)
  unfolding dispatch_frame ◌>>=◌ replies
  dispatch_frame-Owes f = record {
    at = λ w h.
        let j = read_list_of f.ether_type in
        offer_read-Owes f j (read_list j w.unit) _ refl (record { owed = omega (arith, h.owed) });
  }

  rx_accept-Owes : (m p n : ℕ) → Keeps (Owes r k 0) (rx_accept m p n)
  unfolding rx_accept
  rx_accept-Owes m p n = search (owes_rules, dispatch_frame-Owes) depth 20 fits 4000

  rx_frame-Owes : (u : EthUnit) (n : ℕ) (v : Verdict) → Keeps (Owes r k 0) (rx_frame u n v)
  unfolding rx_frame
  rx_frame-Owes u n drop = count_drop-Owes
  rx_frame-Owes u n (accept len) = rx_accept-Owes _ _ len

  rx_packet-Owes : (b : RxBatch) → Keeps (Owes r k 0) (rx_packet b)
  unfolding rx_packet
  rx_packet-Owes b = search (owes_rules, rx_frame-Owes, next_desc-Owes) depth 20 fits 4000

  rx_loop-Owes : (fuel : ℕ) (b : RxBatch) → Keeps (Owes r k 0) (rx_loop fuel b)
  unfolding rx_loop
  rx_loop-Owes zero b = record { at = λ w h. h }
  rx_loop-Owes (suc fuel) b = record {
    at = λ w h. elim (Bool-cases (owned w.unit b.n)) [
      | inl e ↦ rw (e, rx_loop) ((rx_loop-Owes fuel _).at _ ((rx_packet-Owes b).at w h))
      | inr e ↦ rw (e, rx_loop) h
    ];
  }

  pub process_rx-Owes : Keeps (Owes r k 0) process_rx
  unfolding process_rx
  process_rx-Owes = search (owes_rules, rx_loop-Owes, rx_finish-Owes) depth 20 fits 4000
