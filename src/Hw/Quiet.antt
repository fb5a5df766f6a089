-- ===== src/Hw/Quiet.antt =====
-- The code of src/hw below the queues keeps each assertion that quiet calls keep and that is about
-- the soft part of the unit only.
use pa6t_eth.Base.{ℕ, zero, suc, ◌+◌, refl, Bool-cases, is_set, inl, inr, ◌≡◌, ◌∙◌}
use pa6t_eth.Machine.{World}
use pa6t_eth.Machine.Structs.{EthUnit}
use pa6t_eth.Machine.Triples.{Keeps}
use pa6t_eth.Machine.Quiet.{QuietSafe, quiet_rules, soft}
use pa6t_eth.Machine.Calls.{Device}
use pa6t_eth.Rx.Post.{
  enable_rx, enable_iob, enable_master, post_and_credit, start_receiver, post_rx_buffers,
  alloc_rx_buf, alloc_rx_bufs, map_rx_buf, give_up_buf, set_rx_buf, post_buffers, post_buffer,
  clear_rings,
}
use pa6t_eth.Hw.Tx.{store_desc, tx_poll, tx_owned, tx_wait, tx_cleanup_pending, tx_submit}

clear_rings-soft : (u : EthUnit) → soft (clear_rings u) ≡ soft u
unfolding clear_rings
clear_rings-soft u = refl

post_buffer-soft : (n : ℕ) (u : EthUnit) → soft (post_buffer n u) ≡ soft u
unfolding post_buffer
post_buffer-soft n u = elim (Bool-cases (is_set (u.rx_bufs_phys n))) [
  | inl e ↦ rw e refl
  | inr e ↦ rw e refl
]

post_buffers-soft : (n : ℕ) (u : EthUnit) → soft (post_buffers n u) ≡ soft u
unfolding post_buffers
post_buffers-soft zero u = refl
post_buffers-soft (suc n) u = post_buffer-soft n (post_buffers n u) ∙ post_buffers-soft n u

module _ {P : World → Type 0} ⦃s : QuietSafe P⦄ where
  enable_rx-quiet : Keeps P enable_rx
  unfolding enable_rx
  enable_rx-quiet = search quiet_rules depth 20 fits 4000

  enable_master-quiet : (d : Device) → Keeps P (enable_master d)
  unfolding enable_master
  enable_master-quiet d = search quiet_rules depth 20 fits 4000

  enable_iob-quiet : Keeps P enable_iob
  unfolding enable_iob
  enable_iob-quiet = search quiet_rules depth 24 fits 4000

  set_rx_buf-quiet : (i p : ℕ) → Keeps P (set_rx_buf i p)
  unfolding set_rx_buf
  set_rx_buf-quiet i p = search quiet_rules depth 20 fits 4000

  give_up_buf-quiet : (i p : ℕ) → Keeps P (give_up_buf i p)
  unfolding give_up_buf
  give_up_buf-quiet i p = search (quiet_rules, set_rx_buf-quiet) depth 20 fits 4000

  map_rx_buf-quiet : (i p n : ℕ) → Keeps P (map_rx_buf i p n)
  unfolding map_rx_buf
  map_rx_buf-quiet i p n = search (quiet_rules, give_up_buf-quiet) depth 20 fits 4000

  alloc_rx_buf-quiet : (i : ℕ) → Keeps P (alloc_rx_buf i)
  unfolding alloc_rx_buf
  alloc_rx_buf-quiet i =
      search (quiet_rules, give_up_buf-quiet, set_rx_buf-quiet, map_rx_buf-quiet) depth 20 fits 4000

  store_desc-quiet : (n v : ℕ) → Keeps P (store_desc n v)
  unfolding store_desc
  store_desc-quiet n v = search quiet_rules depth 20 fits 4000

  tx_owned-quiet : (fill : ℕ) → Keeps P (tx_owned fill)
  tx_owned-quiet fill = search quiet_rules depth 20 fits 4000

  tx_poll-quiet : (tries fill : ℕ) → Keeps P (tx_poll tries fill)
  unfolding tx_poll
  tx_poll-quiet zero fill = record { at = λ w h. h }
  tx_poll-quiet (suc tries) fill = record {
    at = λ w h. elim (Bool-cases (tx_owned fill w).0) [
      | inl e ↦ rw (e, tx_poll) ((tx_poll-quiet tries fill).at _ ((tx_owned-quiet fill).at w h))
      | inr e ↦ rw (e, tx_poll) ((tx_owned-quiet fill).at w h)
    ];
  }

  tx_wait-quiet : (fill : ℕ) → Keeps P (tx_wait fill)
  unfolding tx_wait
  tx_wait-quiet fill = search (quiet_rules, tx_poll-quiet, tx_owned-quiet) depth 20 fits 4000

  tx_cleanup_pending-quiet : Keeps P tx_cleanup_pending
  unfolding tx_cleanup_pending
  tx_cleanup_pending-quiet =
      search (quiet_rules, tx_wait-quiet, store_desc-quiet) depth 20 fits 4000

  pub tx_submit-quiet : (p n phys : ℕ) → Keeps P (tx_submit p n phys)
  unfolding tx_submit
  tx_submit-quiet p n phys =
      search (quiet_rules, tx_cleanup_pending-quiet, store_desc-quiet) depth 24 fits 4000

  alloc_rx_bufs-quiet : (n i nalloced : ℕ) → Keeps P (alloc_rx_bufs n i nalloced)
  unfolding alloc_rx_bufs
  alloc_rx_bufs-quiet zero i nalloced = record { at = λ w h. h }
  alloc_rx_bufs-quiet (suc n) i nalloced = record {
    at = λ w h. elim (Bool-cases (is_set (w.unit.rx_bufs i))) [
      | inl e ↦ rw (e, alloc_rx_bufs) ((alloc_rx_bufs-quiet n (i + 1) nalloced).at w h)
      | inr e ↦
          let next = (alloc_rx_buf-quiet i).at w h in
          elim (Bool-cases (alloc_rx_buf i w).0) [
            | inl d ↦
                rw (e, d, alloc_rx_bufs) ((alloc_rx_bufs-quiet n (i + 1) (nalloced + 1)).at _ next)
            | inr d ↦ rw (e, d, alloc_rx_bufs) next
          ]
    ];
  }

  post_and_credit-quiet : Keeps P post_and_credit
  unfolding post_and_credit
  post_and_credit-quiet = search (quiet_rules, post_buffers-soft) depth 24 fits 4000

  start_receiver-quiet : Keeps P start_receiver
  unfolding start_receiver
  start_receiver-quiet =
      search
        (
          quiet_rules, enable_rx-quiet, enable_master-quiet, enable_iob-quiet,
          post_and_credit-quiet, clear_rings-soft,
        )
        depth 24 fits 4000

  pub post_rx_buffers-quiet : Keeps P post_rx_buffers
  unfolding post_rx_buffers
  post_rx_buffers-quiet =
      search (quiet_rules, alloc_rx_bufs-quiet, start_receiver-quiet) depth 24 fits 4000
