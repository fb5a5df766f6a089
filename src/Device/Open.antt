-- ===== src/Device/Open.antt =====
-- src/Open.c, _manager_Open.
use pa6t_eth.Base.{
  ℕ, ◌+◌, ◌-◌, ◌%◌, ◌^◌, [], ◌∷◌, ◌++◌, Bool, true, false, ◌==◌, if◌then◌else◌, is_set, inc32,
}
use pa6t_eth.Machine.{
  M, pure, ◌>>=◌, ◌>>◌, call, call_, get_unit, modify_unit, get_base, modify_base, get_req,
  modify_req, get_sdk,
}
use pa6t_eth.Machine.Structs.{success, ioerr_openfail}
use pa6t_eth.Machine.Calls.{alloc_vec, free_vec, obtain, release, opener_lock}
use pa6t_eth.Task.{unit_task_start}

-- `(struct Unit *)-1`
abbrev pub minus_one : ℕ
minus_one = 2 ^ 32 - 1

-- `lib_OpenCnt` is a 16-bit word.
abbrev pub inc16 : ℕ → ℕ
inc16 x = (x + 1) % 2 ^ 16

abbrev pub dec16 : ℕ → ℕ
dec16 x = (x + 2 ^ 16 - 1) % 2 ^ 16

-- The error fields that precede each `goto fail`, and fail: itself.
unfoldable pub open_fail : ℕ → M Bool
open_fail r = do
  q ← get_req r
  sdk ← get_sdk
  modify_req r (λ q. record q {
    io_error = ioerr_openfail;
    wire_error = sdk.s2werr_generic_error;
    io_unit = minus_one;
    io_device = minus_one;
  })
  modify_base (λ b. record b { lib_open_cnt = dec16 b.lib_open_cnt })
  pure false

unfoldable pub add_opener : ℕ → ℕ → M Bool
add_opener r opener = do
  q ← get_req r
  call_ (obtain opener_lock)
  modify_unit (λ u. record u {
    opener_list =
        u.opener_list ++ (record { at = opener; bm_cookie = q.buffer_management; s2hook = 0 } ∷ []);
  })
  call_ (release opener_lock)
  modify_unit (λ v. record v { open_count = inc32 v.open_count })
  b ← get_base
  modify_req r (λ q. record q { io_unit = b.unit; io_error = success; is_replymsg = true })
  modify_base (λ b. record b { libf_delexp = false })
  pure true

-- The unit task is started by the first opener.
unfoldable pub ensure_task : M Bool
ensure_task = do u ← get_unit; if u.open_count == 0 then unit_task_start else pure true

unfoldable pub open_unit : ℕ → M Bool
open_unit r = do
  sdk ← get_sdk
  opener ← call (alloc_vec sdk.sizeof_opener)
  if is_set opener
      then (do
        running ← ensure_task
        if running then add_opener r opener else (do call_ (free_vec opener); open_fail r))
      else open_fail r

-- The result is whether it returns the base.
unfoldable pub open_device : ℕ → ℕ → M Bool
open_device r unit_num = do
  b ← get_base
  modify_base (λ b. record b { lib_open_cnt = inc16 b.lib_open_cnt })
  if unit_num == 0 then (if is_set b.unit then open_unit r else open_fail r) else open_fail r
