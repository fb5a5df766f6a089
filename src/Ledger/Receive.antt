-- ===== src/Ledger/Receive.antt =====
-- PA6TEth_ProcessRX: a frame goes to one request at most, which is taken out of its queue and
-- replied to once.
use pa6t_eth.Base.{ℕ, Bool, true, Option, none, some}
use pa6t_eth.Machine.Triples.{Takes, Keeps, Takes-before}
use pa6t_eth.Machine.Structs.{Opener}
use pa6t_eth.Rx.Deliver.{
  RxFrame, no_buffer, run_copy_hook, copy_with, finish_read, deliver_to, deliver_read,
  deliver_orphan, count_drop,
}
use pa6t_eth.Rx.Process.{RxBatch, next_desc, clear_desc, repost, rx_finish}
use pa6t_eth.Ledger.{Owes, owes_rules, one, Owes-reply}

module _ {r k b : ℕ} where
  no_buffer-Owes : (q : ℕ) → Keeps (Owes r k b) (no_buffer q)
  unfolding no_buffer
  no_buffer-Owes q = search owes_rules depth 20 fits 4000

  run_copy_hook-Owes :
      (f : RxFrame) (q cookie hook : ℕ) → Keeps (Owes r k b) (run_copy_hook f q cookie hook)
  unfolding run_copy_hook
  run_copy_hook-Owes f q cookie hook = search (owes_rules, no_buffer-Owes) depth 20 fits 4000

  copy_with-Owes :
      (strict : Bool) (f : RxFrame) (q cookie : ℕ) (op : Option Opener)
      → Keeps (Owes r k b) (copy_with strict f q cookie op)
  unfolding copy_with
  copy_with-Owes strict f q cookie none = search owes_rules depth 20 fits 4000
  copy_with-Owes strict f q cookie (some op) =
      search (owes_rules, no_buffer-Owes, run_copy_hook-Owes) depth 20 fits 4000

  pub count_drop-Owes : Keeps (Owes r k b) count_drop
  unfolding count_drop
  count_drop-Owes = search owes_rules depth 20 fits 4000

  pub next_desc-Owes : (s : RxBatch) (slot buf : ℕ) → Keeps (Owes r k b) (next_desc s slot buf)
  unfolding next_desc clear_desc repost
  next_desc-Owes s slot buf = search owes_rules depth 20 fits 4000

  pub rx_finish-Owes : (s : RxBatch) → Keeps (Owes r k b) (rx_finish s)
  unfolding rx_finish
  rx_finish-Owes s = search owes_rules depth 20 fits 4000

module _ {r k : ℕ} where
  finish_read-Owes : (q cookie : ℕ) → Takes (Owes r k (one q r)) (Owes r k 0) (finish_read q cookie)
  unfolding finish_read
  finish_read-Owes q cookie = search (Takes-before, owes_rules, Owes-reply) depth 20 fits 4000

  deliver_to-Owes :
      (strict : Bool) (f : RxFrame) (q : ℕ)
      → Takes (Owes r k (one q r)) (Owes r k 0) (deliver_to strict f q)
  unfolding deliver_to
  deliver_to-Owes strict f q =
      search (Takes-before, owes_rules, copy_with-Owes, finish_read-Owes) depth 20 fits 4000

  pub deliver_read-Owes :
      (f : RxFrame) (q : ℕ) → Takes (Owes r k (one q r)) (Owes r k 0) (deliver_read f q)
  unfolding deliver_read
  deliver_read-Owes f q = deliver_to-Owes true f q

  pub deliver_orphan-Owes :
      (f : RxFrame) (q : ℕ) → Takes (Owes r k (one q r)) (Owes r k 0) (deliver_orphan f q)
  unfolding deliver_orphan
  deliver_orphan-Owes f q = search (Takes-before, owes_rules, deliver_to-Owes) depth 20 fits 4000
