-- ===== src/Rx/Allocated.antt =====
-- PA6TEth_PostRxBuffers of src/hw/rx.c: the allocation loop, and what the receiver holds when it
-- allocated every buffer.
use mathlib.Core.Bool.{false≢true}
use pa6t_eth.Base.{
  ℕ, zero, suc, ◌+◌, ◌≡◌, ◌≢◌, ◌<◌, ◌≤◌, Bool, true, false, is_set, ◌&&◌, Bool-cases, inl, inr,
  dichotomy, arith, update, if◌then◌else◌, ==_refl, ==_ne,
}
use pa6t_eth.Machine.{World, M, pure, call_, modify_unit, ◌>>=◌}
use pa6t_eth.Machine.Triples.{Keeps}
use pa6t_eth.Machine.OnUnit.{OnUnit, OnUnit-modify_unit, on_unit_rules}
use pa6t_eth.Machine.Structs.{EthUnit, num_rx_bufs}
use pa6t_eth.Machine.Calls.{free_dma_list}
use pa6t_eth.Rx.Post.{
  set_rx_buf, give_up_buf, map_rx_buf, alloc_rx_buf, alloc_rx_bufs, post_rx_buffers,
}
use pa6t_eth.Rx.Starting.{Armed, start_receiver-Armed}

-- The buffer has an address for the hardware.
record HasPhys (j : ℕ) (u : EthUnit) : Type 0 where
  phys_set : is_set (u.rx_bufs_phys j) ≡ true

HasPhys-rx_bufs :
    {j : ℕ} (f : ℕ → ℕ) (u : EthUnit) → HasPhys j u → HasPhys j (record u { rx_bufs = f })
HasPhys-rx_bufs f u h = record { phys_set = h.phys_set }

HasPhys-other :
    {j : ℕ} (i p n : ℕ) (u : EthUnit)
    → i ≢ j
    → HasPhys j u
    → HasPhys j (record u {
      rx_bufs_phys = update u.rx_bufs_phys i p;
      rx_bufs_dma_entries = update u.rx_bufs_dma_entries i n;
    })
HasPhys-other {j} i p n u e h = record { phys_set = rw (==_ne i j e) h.phys_set }

-- Code that leaves `Q` where it answers true.
record Grants (Q : World → Type 0) (m : M Bool) : Type 0 where
  at : (w : World) → (m w).0 ≡ true → Q (m w).1

module _ {Q : World → Type 0} where
  Grants-bind :
      {A : Type 0} (m : M A) (f : A → M Bool) → ((a : A) → Grants Q (f a)) → Grants Q (m >>= f)
  unfolding ◌>>=◌
  Grants-bind m f g = record { at = λ w e. (g (m w).0).at (m w).1 e }

  Grants-if : (b : Bool) (m n : M Bool) → Grants Q m → Grants Q n → Grants Q (if b then m else n)
  Grants-if true m n g h = g
  Grants-if false m n g h = h

  Grants-false : Grants Q (pure false)
  unfolding ◌>>=◌
  Grants-false = record { at = λ w e. absurd (false≢true e) }

ruleset grants_rules = (Grants-bind, Grants-if, Grants-false)

give_up_buf-Grants : {Q : World → Type 0} (i p : ℕ) → Grants Q (give_up_buf i p)
unfolding give_up_buf
give_up_buf-Grants i p = search grants_rules depth 20 fits 4000

-- The address is stored before it is tested.
stored-Grants :
    (i x n dlist : ℕ) (otherwise : M Bool)
    → Grants (OnUnit (HasPhys i)) otherwise
    → Grants (OnUnit (HasPhys i)) (
        modify_unit (λ u. record u {
          rx_bufs_phys = update u.rx_bufs_phys i x;
          rx_bufs_dma_entries = update u.rx_bufs_dma_entries i n;
        })
        >>= λ _. call_ (free_dma_list dlist) >>= λ _. if is_set x then pure true else otherwise)
unfolding ◌>>=◌
stored-Grants i x n dlist otherwise g = record {
  at = λ w. elim (Bool-cases (is_set x)) [
    | inl e ↦ rw e (λ f. record { holds = record { phys_set = rw (==_refl i) e } })
    | inr e ↦ rw e (λ f. g.at _ f)
  ];
}

map_rx_buf-Grants : (i p n : ℕ) → Grants (OnUnit (HasPhys i)) (map_rx_buf i p n)
unfolding map_rx_buf
map_rx_buf-Grants i p n =
    search (grants_rules, give_up_buf-Grants, stored-Grants) depth 20 fits 4000

alloc_rx_buf-Grants : (i : ℕ) → Grants (OnUnit (HasPhys i)) (alloc_rx_buf i)
unfolding alloc_rx_buf
alloc_rx_buf-Grants i =
    search (grants_rules, give_up_buf-Grants, map_rx_buf-Grants) depth 20 fits 4000

-- The other buffers keep their address.
module _ {j i : ℕ} (e : i ≢ j) where
  set_rx_buf-HasPhys : (p : ℕ) → Keeps (OnUnit (HasPhys j)) (set_rx_buf i p)
  unfolding set_rx_buf
  set_rx_buf-HasPhys p = OnUnit-modify_unit _ (λ u h. HasPhys-rx_bufs _ u h)

  give_up_buf-HasPhys : (p : ℕ) → Keeps (OnUnit (HasPhys j)) (give_up_buf i p)
  unfolding give_up_buf
  give_up_buf-HasPhys p = search (on_unit_rules, set_rx_buf-HasPhys) depth 20 fits 4000

  store_phys-HasPhys :
      (p n : ℕ)
      → Keeps (OnUnit (HasPhys j)) (
          modify_unit (λ u. record u {
            rx_bufs_phys = update u.rx_bufs_phys i p;
            rx_bufs_dma_entries = update u.rx_bufs_dma_entries i n;
          }))
  store_phys-HasPhys p n = OnUnit-modify_unit _ (λ u h. HasPhys-other i p n u e h)

  map_rx_buf-HasPhys : (p n : ℕ) → Keeps (OnUnit (HasPhys j)) (map_rx_buf i p n)
  unfolding map_rx_buf
  map_rx_buf-HasPhys p n =
      search (on_unit_rules, give_up_buf-HasPhys, store_phys-HasPhys) depth 20 fits 4000

  alloc_rx_buf-HasPhys : Keeps (OnUnit (HasPhys j)) (alloc_rx_buf i)
  unfolding alloc_rx_buf
  alloc_rx_buf-HasPhys =
      search (on_unit_rules, give_up_buf-HasPhys, set_rx_buf-HasPhys, map_rx_buf-HasPhys) depth 20
        fits 4000

alloc_rx_buf-below :
    (i : ℕ) (w : World)
    → (alloc_rx_buf i w).0 ≡ true
    → ((j : ℕ) → j < i → HasPhys j w.unit)
    → (j : ℕ) → j < i + 1
    → HasPhys j (alloc_rx_buf i w).1.unit
alloc_rx_buf-below i w f h j l = elim (dichotomy j i l) [
  | inl b ↦
      let other : i ≢ j = λ e. omega (arith, e) in
      ((alloc_rx_buf-HasPhys other).at w (record { holds = h j b })).holds
  | inr e ↦ rw e (((alloc_rx_buf-Grants i).at w f).holds)
]

-- The loop counts at most its rounds.
alloc_rx_bufs-bound : (k i n : ℕ) (w : World) → (alloc_rx_bufs k i n w).0 ≤ n + k
unfolding alloc_rx_bufs
alloc_rx_bufs-bound zero i n w = omega arith
alloc_rx_bufs-bound (suc k) i n w = elim (Bool-cases (is_set (w.unit.rx_bufs i))) [
  | inl e ↦ rw (e, alloc_rx_bufs) (omega (arith, alloc_rx_bufs-bound k (i + 1) n w))
  | inr e ↦ elim (Bool-cases (alloc_rx_buf i w).0) [
    | inl f ↦
        rw (e, f, alloc_rx_bufs)
          (omega (arith, alloc_rx_bufs-bound k (i + 1) (n + 1) (alloc_rx_buf i w).1))
    | inr f ↦ rw (e, f, alloc_rx_bufs) (omega arith)
  ]
]

-- A loop that counts each of its rounds leaves each of the buffers below with an address.
alloc_rx_bufs-Mapped :
    (k i n : ℕ) (w : World)
    → (alloc_rx_bufs k i n w).0 ≡ n + k
    → ((j : ℕ) → j < i → HasPhys j w.unit)
    → (j : ℕ) → j < i + k
    → HasPhys j (alloc_rx_bufs k i n w).1.unit
unfolding alloc_rx_bufs
alloc_rx_bufs-Mapped zero i n w a h j l = h j (omega arith)
alloc_rx_bufs-Mapped (suc k) i n w a h j l = elim (Bool-cases (is_set (w.unit.rx_bufs i))) [
  | inl e ↦
      let counted = rw (e, alloc_rx_bufs) at a in
      absurd (omega (arith, counted, alloc_rx_bufs-bound k (i + 1) n w))
  | inr e ↦ elim (Bool-cases (alloc_rx_buf i w).0) [
    | inl f ↦
        let counted = rw (e, f, alloc_rx_bufs) at a in
        rw (e, f, alloc_rx_bufs)
          (alloc_rx_bufs-Mapped k (i + 1) (n + 1) (alloc_rx_buf i w).1 (omega (arith, counted))
            (alloc_rx_buf-below i w f h) j (omega arith))
    | inr f ↦ let counted = rw (e, f, alloc_rx_bufs) at a in absurd (omega (arith, counted))
  ]
]

-- PA6TEth_PostRxBuffers arms the receiver. With both rings there and each of the 512 buffers
-- allocated by its loop, the slots of the buffer ring afterwards hold the buffers 0 to 511 in their
-- order, each with the word that posts it, and the write pointer is behind them; no descriptor is
-- complete, and the driver looks at the first one next.
pub post_rx_buffers-Armed :
    (w : World)
    → (is_set w.unit.rx_buf_ring && is_set w.unit.rx_ring) ≡ true
    → (alloc_rx_bufs num_rx_bufs 0 0 w).0 ≡ 512
    → Armed (post_rx_buffers w).1.unit
unfolding post_rx_buffers ◌>>=◌
post_rx_buffers-Armed w r a =
    let all = alloc_rx_bufs-Mapped num_rx_bufs 0 0 w a (λ j l. absurd (omega arith)) in
    rw (r, a)
      (start_receiver-Armed.at (alloc_rx_bufs num_rx_bufs 0 0 w).1
        (record { holds = record { mapped = λ j l. (all j l).phys_set } })).holds
