-- ===== src/Device/Closing.antt =====
-- src/Close.c after src/Open.c: the opener that was added.
use pa6t_eth.Base.{
  ℕ, ◌+◌, ◌-◌, ◌^◌, ◌<◌, ◌≡◌, refl, ap, true, false, none, arith, ◌==◌, ltb, inc32, ==_refl,
}
use pa6t_eth.Machine.{World, ◌>>=◌}
use pa6t_eth.Machine.Structs.{Opener}
use pa6t_eth.Requests.{find_opener}
use pa6t_eth.Device.Open.{add_opener}
use pa6t_eth.Device.Close.{drop_opener, close_unit}
use pa6t_eth.Device.Openers.{take_opener-add}
use pa6t_eth.Memory.{frees}

-- Close undoes Open, for a unit that is open already, by less than 2 ^ 32 - 1 openers, none of which
-- has the cookie of the request `r`. After Open adds an opener at the address `p` for `r`, Close's
-- handling of the unit for that cookie leaves the unit as it was before both, and frees `p` once.
pub close_unit-add_opener :
    (r p : ℕ) (w : World)
    → find_opener (w.reqs r).buffer_management w.unit.opener_list ≡ none
    → 0 < w.unit.open_count
    → w.unit.open_count + 1 < 2 ^ 32
    → ((close_unit (w.reqs r).buffer_management (add_opener r p w).1).1.unit ≡ w.unit)
      × (frees p (close_unit (w.reqs r).buffer_management (add_opener r p w).1).1.trace
          ≡ frees p w.trace + 1)
unfolding add_opener close_unit drop_opener frees ◌>>=◌
close_unit-add_opener r p w n l m =
    let bm = (w.reqs r).buffer_management in
    let op : Opener = record { at = p; bm_cookie = bm; s2hook = 0 } in
    let taken = take_opener-add bm op w.unit.opener_list refl n in
    let c = w.unit.open_count in
    let counted : inc32 c - 1 ≡ c = omega (arith, m) in
    let any : ltb 0 (inc32 c) ≡ true = ground arith in
    let others : (inc32 c == 1) ≡ false = ground arith in
    rw (taken, any, others)
      (ap (λ x. record w.unit { open_count = x }) counted, rw (==_refl p) (omega arith))
