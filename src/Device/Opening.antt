-- ===== src/Device/Opening.antt =====
-- What src/Open.c leaves of the counts and the list of openers.
use pa6t_eth.Base.{
  ℕ, ◌^◌, ◌<◌, ◌≡◌, ◌∙◌, refl, List, [], ◌∷◌, ◌++◌, true, false, Bool, Bool-cases, inl, inr, ◌⊎◌,
  arith, is_set, ◌==◌, ap, inc32,
}
use pa6t_eth.Machine.{World, call, call_, modify_unit, ◌>>=◌}
use pa6t_eth.Machine.Structs.{EthUnit, Opener, IoSana2Req}
use pa6t_eth.Machine.Calls.{Call, alloc_vec, free_vec}
use pa6t_eth.Machine.Triples.{Keeps, keeps_rules}
use pa6t_eth.Task.{task_startup, unit_task_start}
use pa6t_eth.Device.Open.{inc16, dec16, open_fail, add_opener, ensure_task, open_unit, open_device}

-- The counts of the library and of the unit, the list of openers, and the requests.
record Holds (n m : ℕ) (l : List Opener) (rs : ℕ → IoSana2Req) (w : World) : Type 0 where
  unit_cnt : w.unit.open_count ≡ m
  open_cnt : w.base.lib_open_cnt ≡ n
  openers : w.unit.opener_list ≡ l
  reqs_same : w.reqs ≡ rs

module _ {n m : ℕ} {l : List Opener} {rs : ℕ → IoSana2Req} where
  Holds-call : (c : Call) → Keeps (Holds n m l rs) (call c)
  unfolding ◌>>=◌
  Holds-call c = record {
    at = λ w h. record {
      unit_cnt = h.unit_cnt;
      open_cnt = h.open_cnt;
      openers = h.openers;
      reqs_same = h.reqs_same;
    };
  }

  Holds-call_ : (c : Call) → Keeps (Holds n m l rs) (call_ c)
  unfolding ◌>>=◌
  Holds-call_ c = record {
    at = λ w h. record {
      unit_cnt = h.unit_cnt;
      open_cnt = h.open_cnt;
      openers = h.openers;
      reqs_same = h.reqs_same;
    };
  }

  Holds-modify_unit :
      (f : EthUnit → EthUnit)
      → ((u : EthUnit) → (f u).opener_list ≡ u.opener_list)
      → ((u : EthUnit) → (f u).open_count ≡ u.open_count)
      → Keeps (Holds n m l rs) (modify_unit f)
  unfolding ◌>>=◌
  Holds-modify_unit f e d = record {
    at = λ w h. record {
      unit_cnt = d w.unit ∙ h.unit_cnt;
      open_cnt = h.open_cnt;
      openers = e w.unit ∙ h.openers;
      reqs_same = h.reqs_same;
    };
  }

same_openers : (l : List Opener) → l ≡ l
same_openers l = refl

same_count : (n : ℕ) → n ≡ n
same_count n = refl

ruleset holds_rules =
    (keeps_rules, Holds-call, Holds-call_, Holds-modify_unit, same_openers, same_count)

module _ {n m : ℕ} {l : List Opener} {rs : ℕ → IoSana2Req} where
  task_startup-Holds : (p s : ℕ) → Keeps (Holds n m l rs) (task_startup p s)
  unfolding task_startup
  task_startup-Holds p s = search holds_rules depth 24 fits 4000

  unit_task_start-Holds : Keeps (Holds n m l rs) unit_task_start
  unfolding unit_task_start
  unit_task_start-Holds = search (holds_rules, task_startup-Holds) depth 24 fits 4000

  ensure_task-Holds : Keeps (Holds n m l rs) ensure_task
  unfolding ensure_task
  ensure_task-Holds = search (holds_rules, unit_task_start-Holds) depth 20 fits 4000

-- The open failed: both counts and the list are as before.
pub record Refused (w : World) (out : Bool × World) : Type 0 where
  pub answer : out.0 ≡ false
  pub open_cnt_same : out.1.base.lib_open_cnt ≡ w.base.lib_open_cnt
  pub open_count_same : out.1.unit.open_count ≡ w.unit.open_count
  pub openers_same : out.1.unit.opener_list ≡ w.unit.opener_list

-- The open succeeded: one more in both counts, and one opener more, with the request's cookie and no hook.
pub record Opened (r : ℕ) (w : World) (out : Bool × World) : Type 0 where
  pub answer : out.0 ≡ true
  pub one_more : out.1.base.lib_open_cnt ≡ inc16 w.base.lib_open_cnt
  pub one_more_of_unit : out.1.unit.open_count ≡ inc32 w.unit.open_count
  pub at : ℕ
  pub opener_last :
      out.1.unit.opener_list
      ≡ w.unit.opener_list
        ++ (record { at = at; bm_cookie = (w.reqs r).buffer_management; s2hook = 0 } ∷ [])
  pub not_expunged : out.1.base.libf_delexp ≡ false

-- `w` before the open, `v` at a later point of it.
module _ (r : ℕ) (w : World) (c : w.base.lib_open_cnt < 2 ^ 16) where
  Begun : World → Type 0
  Begun v = Holds (inc16 w.base.lib_open_cnt) w.unit.open_count w.unit.opener_list w.reqs v

  open_fail-Refused : (v : World) → Begun v → Refused w (open_fail r v)
  unfolding Begun open_fail ◌>>=◌
  open_fail-Refused v h = record {
    answer = refl;
    open_cnt_same = ap dec16 h.open_cnt ∙ omega (arith, c);
    open_count_same = h.unit_cnt;
    openers_same = h.openers;
  }

  add_opener-Opened : (p : ℕ) (v : World) → Begun v → Opened r w (add_opener r p v)
  unfolding Begun add_opener ◌>>=◌
  add_opener-Opened p v h = record {
    answer = refl;
    one_more = h.open_cnt;
    one_more_of_unit = ap inc32 h.unit_cnt;
    at = p;
    opener_last = rw (h.openers, h.reqs_same) refl;
    not_expunged = refl;
  }

  open_unit-outcome : (v : World) → Begun v → Refused w (open_unit r v) ⊎ Opened r w (open_unit r v)
  unfolding Begun open_unit ◌>>=◌
  open_unit-outcome v h =
      let c1 = alloc_vec v.sdk.sizeof_opener in
      let v1 = (call c1 v).1 in
      let h1 = (Holds-call c1).at v h in
      let h2 = ensure_task-Holds.at v1 h1 in
      elim (Bool-cases (is_set (call c1 v).0)) [
        | inl e ↦ elim (Bool-cases (ensure_task v1).0) [
          | inl d ↦ rw (e, d) (inr (add_opener-Opened (call c1 v).0 (ensure_task v1).1 h2))
          | inr d ↦
              rw (e, d)
                (inl (
                  open_fail-Refused _
                    ((Holds-call_ (free_vec (call c1 v).0)).at (ensure_task v1).1 h2)))
        ]
        | inr e ↦ rw e (inl (open_fail-Refused v1 h1))
      ]

  -- With the unit open already no task is started.
  open_unit-Opened :
      (v : World)
      → Begun v
      → is_set (v.env v.trace (alloc_vec v.sdk.sizeof_opener)) ≡ true
      → (v.unit.open_count == 0) ≡ false
      → Opened r w (open_unit r v)
  unfolding Begun open_unit ensure_task ◌>>=◌
  open_unit-Opened v h a o =
      let c1 = alloc_vec v.sdk.sizeof_opener in
      rw (a, o) (add_opener-Opened (call c1 v).0 (call c1 v).1 ((Holds-call c1).at v h))

-- Open fails and leaves the counts of the library and of the unit and the list of openers as they were,
-- or it succeeds with one more in each count and one opener more, at the end of the list, and cancels a
-- delayed expunge. A unit number other than 0 always fails; unit 0, where the base has its unit, the
-- opener is allocated and the unit is open already, always succeeds.
pub open_device-outcome :
    (r unit_num : ℕ) (w : World)
    → w.base.lib_open_cnt < 2 ^ 16
    → (Refused w (open_device r unit_num w) ⊎ Opened r w (open_device r unit_num w))
      × ((unit_num == 0) ≡ false → Refused w (open_device r unit_num w))
      × ((unit_num == 0) ≡ true
          → is_set w.base.unit ≡ true
          → is_set (w.env w.trace (alloc_vec w.sdk.sizeof_opener)) ≡ true
          → (w.unit.open_count == 0) ≡ false
          → Opened r w (open_device r unit_num w))
unfolding open_device Begun ◌>>=◌
open_device-outcome r unit_num w c =
    let w1 = record w { base = record (w.base) { lib_open_cnt = inc16 w.base.lib_open_cnt } } in
    let h1 : Holds (inc16 w.base.lib_open_cnt) w.unit.open_count w.unit.opener_list w.reqs w1 =
      record { unit_cnt = refl; open_cnt = refl; openers = refl; reqs_same = refl } in
    let failed = open_fail-Refused r w c w1 h1 in
    (
      elim (Bool-cases (unit_num == 0)) [
        | inl e ↦ elim (Bool-cases (is_set w.base.unit)) [
          | inl d ↦ rw (e, d) (open_unit-outcome r w c w1 h1)
          | inr d ↦ rw (e, d) (inl failed)
        ]
        | inr e ↦ rw e (inl failed)
      ],
      λ e. rw e failed,
      λ e d a o. rw (e, d) (open_unit-Opened r w c w1 h1 a o),
    )
