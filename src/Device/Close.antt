-- ===== src/Device/Close.antt =====
-- src/Close.c, _manager_Close, and src/Expunge.c, _manager_Expunge.
use pa6t_eth.Base.{
  ℕ, ◌-◌, List, [], ◌∷◌, true, ◌&&◌, not, Option, none, some, ◌==◌, ltb, if◌then◌else◌, is_set,
}
use pa6t_eth.Machine.{
  M, Run, skip, pure, ◌>>=◌, ◌>>◌, call_, get_unit, modify_unit, get_base, modify_base, get_req,
  modify_req, when,
}
use pa6t_eth.Machine.Structs.{Opener}
use pa6t_eth.Machine.Calls.{
  free_vec, obtain, release, opener_lock, remove_node, drop_interface, close_library,
  delete_library,
}
use pa6t_eth.Hw.Irq.{remove_irq}
use pa6t_eth.Hw.Cleanup.{hw_cleanup}
use pa6t_eth.Task.{unit_task_shutdown}
use pa6t_eth.Device.Open.{minus_one, dec16}
use pa6t_eth.Device.Start.{release_unit, release_iob, release_dma, release_mac}

-- The first opener with the cookie, and the list without it.
abbrev pub keep_opener : Opener → Option (Opener × List Opener) → Option (Opener × List Opener)
keep_opener op none = none
keep_opener op (some (o, rest)) = some (o, op ∷ rest)

unfoldable pub take_opener : ℕ → List Opener → Option (Opener × List Opener)
take_opener bm [] = none
take_opener bm (op ∷ ops) =
    if op.bm_cookie == bm then some (op, ops) else keep_opener op (take_opener bm ops)

unfoldable pub drop_opener : Option (Opener × List Opener) → Run
drop_opener none = skip
drop_opener (some (op, rest)) = do
  modify_unit (λ u. record u { opener_list = rest })
  call_ (free_vec op.at)

unfoldable pub close_unit : ℕ → Run
close_unit bm = do
  call_ (obtain opener_lock)
  u ← get_unit
  drop_opener (take_opener bm u.opener_list)
  call_ (release opener_lock)
  v ← get_unit
  when (ltb 0 v.open_count) (do
    modify_unit (λ v. record v { open_count = v.open_count - 1 })
    when (v.open_count == 1) unit_task_shutdown)

-- The interfaces and libraries, which the base keeps no more after this.
unfoldable pub drop_libraries : Run
drop_libraries = do
  b ← get_base
  when (is_set b.iutility) (call_ (drop_interface b.iutility))
  when (is_set b.utility_base) (call_ (close_library b.utility_base))
  when (is_set b.ipci) (call_ (drop_interface b.ipci))
  when (is_set b.expansion_base) (call_ (close_library b.expansion_base))

-- With openers left the device is only marked; the result is the segment list or 0.
unfoldable pub expunge : M ℕ
expunge = do
  b ← get_base
  if b.lib_open_cnt == 0
      then (do
        call_ remove_node
        remove_irq
        hw_cleanup
        release_unit
        release_iob
        release_dma
        release_mac
        drop_libraries
        call_ delete_library
        pure b.dev_seg_list)
      else (do modify_base (λ b. record b { libf_delexp = true }); pure 0)

unfoldable pub close_device : ℕ → M ℕ
close_device r = do
  q ← get_req r
  when (is_set q.io_unit && not (q.io_unit == minus_one)) (close_unit q.buffer_management)
  modify_req r (λ q'. record q' { io_unit = minus_one; io_device = minus_one })
  modify_base (λ b. record b { lib_open_cnt = dec16 b.lib_open_cnt })
  c ← get_base
  if (c.lib_open_cnt == 0) && c.libf_delexp then expunge else pure 0
