-- ===== src/Memory.antt =====
-- What has become of each block of memory that AllocVec gave to the driver: how often it was freed,
-- and how often the driver still has it, in a wrapper of a pending read, as the buffer of the frame
-- that is being sent, as a receive buffer, as one of the three rings, as an opener, or as the unit.
pub mod Transmit
pub mod Reads
pub mod Receive
pub mod Begin
pub mod Abort
pub mod Buffers
pub mod Task
pub mod Cleanup
pub mod Emptied
pub mod Opening
pub mod Closing
pub mod Configuring
pub mod Starting
pub mod Device
pub mod Expunged
pub mod Leaked
pub mod Failed
pub mod Account
use mathlib.Core.Bool.{false≢true}
use pa6t_eth.Base.{
  sym, ℕ, zero, suc, ◌+◌, ◌<◌, ◌≤◌, ◌≡◌, refl, List, [], ◌∷◌, ◌++◌, Bool, true, false, ◌==◌,
  if◌then◌else◌, is_set, arith, update, ap, ==_refl, ==_ne, ◌≢◌, dichotomy, inl, inr, Bool-cases,
}
use pa6t_eth.Machine.{World, M, History, call, call_, ◌>>=◌}
use pa6t_eth.Machine.Structs.{EthUnit, PendingRead, num_rx_bufs}
use pa6t_eth.Machine.Calls.{Call, alloc_vec, free_vec}
use pa6t_eth.Machine.Triples.{Takes, Keeps}
use pa6t_eth.Machine.Plain.{MemSafe, Kept, kept, is_memory}

-- One, if the address is `a`.
abbrev pub is_at : ℕ → ℕ → ℕ
is_at p a = if p == a then 1 else 0

abbrev pub given : ℕ → Call → ℕ → ℕ
given a (alloc_vec n) p = is_at p a
given a _ p = 0

abbrev pub freed : ℕ → Call → ℕ
freed a (free_vec p) = is_at p a
freed a _ = 0

-- How often AllocVec answered the address, and how often it was freed.
unfoldable pub allocs : ℕ → History → ℕ
allocs a [] = 0
allocs a ((c, p) ∷ h) = given a c p + allocs a h

unfoldable pub frees : ℕ → History → ℕ
frees a [] = 0
frees a ((c, p) ∷ h) = freed a c + frees a h

-- How often the address is that of a wrapper of the list, or stands in the first `n` of an array.
unfoldable pub wrappers : ℕ → List PendingRead → ℕ
wrappers a [] = 0
wrappers a (pr ∷ prs) = is_at pr.at a + wrappers a prs

unfoldable pub stored : ℕ → ℕ → (ℕ → ℕ) → ℕ
stored a zero f = 0
stored a (suc n) f = is_at (f n) a + stored a n f

unfoldable pub listed : ℕ → List ℕ → ℕ
listed a [] = 0
listed a (p ∷ ps) = is_at p a + listed a ps

abbrev pub kept_at : ℕ → Kept → ℕ
kept_at a k =
    wrappers a k.read_list_ipv4
    + wrappers a k.read_list_arp
    + wrappers a k.read_list_other
    + is_at k.tx_buf_pending a
    + stored a num_rx_bufs k.rx_bufs
    + is_at k.tx_ring a
    + is_at k.rx_ring a
    + is_at k.rx_buf_ring a
    + listed a k.openers

-- How often the unit has the block.
abbrev pub held : ℕ → EthUnit → ℕ
held a u = kept_at a (kept u)

-- The block was freed, or is held, as often as it was allocated, but for `s` at the start, and for
-- the `b` times that the code in progress has it.
pub record Holds (a s b : ℕ) (w : World) : Type 0 where
  pub balance : frees a w.trace + held a w.unit + is_at w.base.unit a + b ≡ allocs a w.trace + s

plain-given : (a : ℕ) (c : Call) (p : ℕ) → is_memory c ≡ false → given a c p ≡ 0
plain-given a (alloc_vec n) p e = absurd (false≢true (sym e))
plain-given a _ p e = refl

plain-freed : (a : ℕ) (c : Call) → is_memory c ≡ false → freed a c ≡ 0
plain-freed a (free_vec p) e = absurd (false≢true (sym e))
plain-freed a _ e = refl

instance pub Holds-MemSafe : {a s b : ℕ} → MemSafe (Holds a s b)
unfolding allocs frees
Holds-MemSafe {a} {s} {b} = record {
  on_rest = λ w v e k t h. record {
    balance = rw t (omega (arith, ap (kept_at a) e, ap (λ p. is_at p a) k, h.balance));
  };
  on_call = λ c p w v m e k t h. record {
    balance = rw t (
        omega (
          arith,
          ap (kept_at a) e,
          ap (λ q. is_at q a) k,
          plain-given a c p m,
          plain-freed a c m,
          h.balance,
        ));
  };
}

-- A block that was allocated is in the hands of the code, and is so no more when it is freed.
pub Holds-alloc :
    {a s : ℕ} {B : Type 0} (n : ℕ) (f : ℕ → M B)
    → ((p : ℕ) → Takes (Holds a s (is_at p a)) (Holds a s 0) (f p))
    → Keeps (Holds a s 0) (call (alloc_vec n) >>= f)
unfolding ◌>>=◌ allocs frees
Holds-alloc n f k = record {
  at =
      λ w h. (k (w.env w.trace (alloc_vec n))).at _ (record { balance = omega (arith, h.balance) });
}

pub Holds-free :
    {a s : ℕ} (p : ℕ) → Takes (Holds a s (is_at p a)) (Holds a s 0) (call_ (free_vec p))
unfolding ◌>>=◌ allocs frees
Holds-free p = record { at = λ w h. record { balance = omega (arith, h.balance) } }

-- NULL is no block.
pub zero_is_at : (a : ℕ) → 0 < a → is_at 0 a ≡ 0
zero_is_at a h = ground arith

pub null_is_at : (p a : ℕ) → 0 < a → is_set p ≡ false → is_at p a ≡ 0
null_is_at p a h e = ground arith

pub Holds-if_set :
    {a s : ℕ} {B : Type 0} {Q : World → Type 0} (p : ℕ) (m n : M B)
    → 0 < a
    → Takes (Holds a s (is_at p a)) Q m
    → Takes (Holds a s 0) Q n
    → Takes (Holds a s (is_at p a)) Q (if is_set p then m else n)
Holds-if_set {a} p m n l km kn = record {
  at = λ w h. elim (Bool-cases (is_set p)) [
    | inl e ↦ rw e (km.at w h)
    | inr e ↦
        let null = null_is_at p a l e in
        rw e (kn.at w (record { balance = omega (arith, h.balance, null) }))
  ];
}

stored-outside : (a n i p : ℕ) (f : ℕ → ℕ) → n ≤ i → stored a n (update f i p) ≡ stored a n f
unfolding stored
stored-outside a zero i p f h = refl
stored-outside a (suc n) i p f h =
    let away : (i == n) ≡ false = ==_ne i n (λ e. omega (arith, e)) in
    rw away (omega (arith, stored-outside a n i p f (omega arith)))

-- A store into an array.
pub stored-update :
    (a n i p : ℕ) (f : ℕ → ℕ)
    → i < n
    → stored a n (update f i p) + is_at (f i) a ≡ stored a n f + is_at p a
unfolding stored
stored-update a zero i p f h = absurd (omega arith)
stored-update a (suc n) i p f h = elim (dichotomy i n (omega arith)) [
  | inl b ↦
      let away : (i == n) ≡ false = ==_ne i n (λ e. omega (arith, e)) in
      rw away (omega (arith, stored-update a n i p f b))
  | inr e ↦ rw (e, ==_refl n) (omega (arith, stored-outside a n n p f (omega arith)))
]
