-- ===== src/Ledger/Transmit.antt =====
-- PA6TEth_TransmitPacket: every way out of it answers the request once.
use pa6t_eth.Base.{ℕ, ◌+◌, ◌≡◌, refl, true, false, Bool, arith, if◌then◌else◌, ==_refl, update, not}
use pa6t_eth.Machine.{World, call_, ◌>>=◌, when}
use pa6t_eth.Machine.Structs.{IoError}
use pa6t_eth.Machine.Calls.{Call, reply_msg}
use pa6t_eth.Machine.Triples.{Takes, Keeps, Takes-before, Takes-after}
use pa6t_eth.Hw.Tx.{
  tx_reply, tx_done, tx_abandon, tx_map, tx_copy, tx_fill_buffer, tx_alloc, transmit_packet,
}
use pa6t_eth.Ledger.{Owes, owes_rules, one, settled, replies, reply_count}
use pa6t_eth.Hw.Quiet.{tx_submit-quiet}

-- One, if the request is `q` and `q` is complete by the flag that its caller set.
abbrev pub quick : ℕ → ℕ → World → ℕ
quick q r w = if (w.reqs q).io_flags.iof_quick then one q r else 0

-- The driver answers for the request `k` times, with the return of a quick `q` as an answer.
pub record Answered (q r k : ℕ) (w : World) : Type 0 where
  pub answered : settled r w + quick q r w ≡ k

module _ {q r k : ℕ} where
  Answered-call_ : (c : Call) → reply_count r c ≡ 0 → Keeps (Answered q r k) (call_ c)
  unfolding ◌>>=◌ replies
  Answered-call_ c e = record { at = λ w h. record { answered = omega (arith, h.answered) } }

  replies_unless_quick :
      (b : Bool) (w : World)
      → (w.reqs q).io_flags.iof_quick ≡ b
      → settled r w + one q r ≡ k
      → Answered q r k (when (not b) (call_ (reply_msg q)) w).1
  unfolding ◌>>=◌ replies
  replies_unless_quick true w e h = record { answered = rw e (omega (arith, h)) }
  replies_unless_quick false w e h = record { answered = rw e (omega (arith, h)) }

  pub tx_reply-answers :
      (e : IoError) (we : ℕ) → Takes (Owes r k (one q r)) (Answered q r k) (tx_reply q e we)
  unfolding tx_reply ◌>>=◌ replies
  tx_reply-answers e we = record {
    at = λ w h.
        replies_unless_quick (w.reqs q).io_flags.iof_quick
          (record w {
            reqs = update w.reqs q (record (w.reqs q) { io_error = e; wire_error = we });
          })
          (rw (==_refl) refl) h.owed;
  }

  tx_done-answers : Takes (Owes r k (one q r)) (Answered q r k) (tx_done q)
  unfolding tx_done
  tx_done-answers =
      search (Takes-before, Takes-after, Answered-call_, owes_rules, tx_reply-answers) depth 20 fits
        4000

  tx_abandon-answers :
      (p : ℕ) (e : IoError) (we : ℕ)
      → Takes (Owes r k (one q r)) (Answered q r k) (tx_abandon q p e we)
  unfolding tx_abandon
  tx_abandon-answers p e we = search (Takes-before, owes_rules, tx_reply-answers) depth 20 fits 4000

  tx_map-answers : (p n : ℕ) → Takes (Owes r k (one q r)) (Answered q r k) (tx_map q p n)
  unfolding tx_map
  tx_map-answers p n =
      search (Takes-before, owes_rules, tx_submit-quiet, tx_done-answers, tx_abandon-answers) depth
        24 fits 4000

  tx_copy-answers :
      (p n c hook : ℕ) → Takes (Owes r k (one q r)) (Answered q r k) (tx_copy q p n c hook)
  unfolding tx_copy
  tx_copy-answers p n c hook =
      search (Takes-before, owes_rules, tx_map-answers, tx_abandon-answers) depth 20 fits 4000

  tx_fill_buffer-answers :
      (p n : ℕ) → Takes (Owes r k (one q r)) (Answered q r k) (tx_fill_buffer q p n)
  unfolding tx_fill_buffer
  tx_fill_buffer-answers p n =
      search (Takes-before, owes_rules, tx_copy-answers, tx_abandon-answers) depth 20 fits 4000

  tx_alloc-answers : (n : ℕ) → Takes (Owes r k (one q r)) (Answered q r k) (tx_alloc q n)
  unfolding tx_alloc
  tx_alloc-answers n =
      search (Takes-before, owes_rules, tx_fill_buffer-answers, tx_reply-answers) depth 20 fits 4000

  pub transmit_packet-answers : Takes (Owes r k (one q r)) (Answered q r k) (transmit_packet q)
  unfolding transmit_packet
  transmit_packet-answers =
      search (Takes-before, owes_rules, tx_alloc-answers, tx_reply-answers) depth 20 fits 4000
