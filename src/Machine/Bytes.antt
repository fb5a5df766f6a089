-- ===== src/Machine/Bytes.antt =====
-- What byte_copy stores is what byte_copy loads.
use mathlib.Core.Path.{ap₂}
use pa6t_eth.Base.{
  ℕ, zero, suc, ◌+◌, ◌%◌, ◌^◌, ◌≡◌, ◌<◌, ◌∙◌, refl, sym, ap, List, [], ◌∷◌, ◌++◌, arith, length,
  get_or, ==_refl, ==_ne,
}
use pa6t_eth.Machine.{World, load_bytes, store_bytes}

abbrev pub IsBytes : List ℕ → Type 0
IsBytes [] = Unit {0}
IsBytes (x ∷ xs) = (x < 256) × IsBytes xs

get_or-IsBytes : (l : List ℕ) (i : ℕ) → IsBytes l → get_or l i 0 < 256
get_or-IsBytes [] i h = omega arith
get_or-IsBytes (x ∷ xs) zero h = h.0
get_or-IsBytes (x ∷ xs) (suc i) h = get_or-IsBytes xs i h.1

-- The bytes below are left alone, and each byte is stored in its place.
store_bytes-below :
    (l : List ℕ) (p q : ℕ) (w : World) → q < p → (store_bytes p l w).1.mem q ≡ w.mem q
unfolding store_bytes
store_bytes-below [] p q w h = refl
store_bytes-below (x ∷ xs) p q w h =
    store_bytes-below xs (p + 1) q _ (omega arith) ∙ rw (==_ne p q (λ e. omega (arith, e))) refl

pub store_bytes-at :
    (l : List ℕ) (p i : ℕ) (w : World)
    → i < length l
    → (store_bytes p l w).1.mem (p + i) ≡ get_or l i 0 % 2 ^ 8
unfolding store_bytes
store_bytes-at [] p i w h = absurd (omega arith)
store_bytes-at (x ∷ xs) p zero w h =
    let start : p + 0 ≡ p = omega arith in
    rw start (store_bytes-below xs (p + 1) p _ (omega arith) ∙ rw (==_refl p) refl)
store_bytes-at (x ∷ xs) p (suc i) w h =
    let next : p + suc i ≡ p + 1 + i = omega arith in
    rw next (store_bytes-at xs (p + 1) i _ (omega arith))

-- Bytes are stored in the memory only.
pub store_bytes-unit : (l : List ℕ) (p : ℕ) (w : World) → (store_bytes p l w).1.unit ≡ w.unit
unfolding store_bytes
store_bytes-unit [] p w = refl
store_bytes-unit (x ∷ xs) p w = store_bytes-unit xs (p + 1) _

pub store_bytes-reqs : (l : List ℕ) (p : ℕ) (w : World) → (store_bytes p l w).1.reqs ≡ w.reqs
unfolding store_bytes
store_bytes-reqs [] p w = refl
store_bytes-reqs (x ∷ xs) p w = store_bytes-reqs xs (p + 1) _

load_bytes-eq :
    (l : List ℕ) (p : ℕ) (w : World)
    → ((i : ℕ) → i < length l → w.mem (p + i) % 2 ^ 8 ≡ get_or l i 0)
    → (load_bytes p (length l) w).0 ≡ l
unfolding load_bytes
load_bytes-eq [] p w h = refl
load_bytes-eq (x ∷ xs) p w h =
    let start : p + 0 ≡ p = omega arith in
    let first : w.mem p % 2 ^ 8 ≡ x = ap (λ q. w.mem q % 2 ^ 8) (sym start) ∙ h 0 (omega arith) in
    let rest = load_bytes-eq xs (p + 1) w (λ i b.
      let next : p + 1 + i ≡ p + suc i = omega arith in
      ap (λ q. w.mem q % 2 ^ 8) next ∙ h (suc i) (omega arith)) in
    ap₂ (λ y l. y ∷ l) first rest

get_or-append :
    (xs ys : List ℕ) (i : ℕ) → i < length ys → (get_or (xs ++ ys) (length xs + i) 0 ≡ get_or ys i 0)
get_or-append [] ys i h = ap (λ j. get_or ys j 0) (omega arith)
get_or-append (x ∷ xs) ys i h =
    let next : suc (length xs) + i ≡ suc (length xs + i) = omega arith in
    rw next (get_or-append xs ys i h)

get_or-prefix : (ys zs : List ℕ) (i : ℕ) → i < length ys → get_or (ys ++ zs) i 0 ≡ get_or ys i 0
get_or-prefix [] zs i h = absurd (omega arith)
get_or-prefix (y ∷ ys) zs zero h = refl
get_or-prefix (y ∷ ys) zs (suc i) h = get_or-prefix ys zs i (omega arith)

pub length-append : (xs ys : List ℕ) → length (xs ++ ys) ≡ length xs + length ys
length-append [] ys = omega arith
length-append (x ∷ xs) ys = omega (arith, length-append xs ys)

-- The bytes after the first ones are read back.
pub load_bytes-store :
    (xs ys zs : List ℕ) (p : ℕ) (w : World)
    → IsBytes ys
    → (load_bytes (p + length xs) (length ys) (store_bytes p (xs ++ (ys ++ zs)) w).1).0 ≡ ys
load_bytes-store xs ys zs p w h = load_bytes-eq ys (p + length xs) _ (λ i b.
    let small = get_or-IsBytes ys i h in
    let before = get_or-append xs (ys ++ zs) i (omega (arith, length-append ys zs)) in
    let inside : length xs + i < length (xs ++ (ys ++ zs)) =
      omega (arith, length-append xs (ys ++ zs), length-append ys zs) in
    let place : p + length xs + i ≡ p + (length xs + i) = omega arith in
    rw place (
      omega (
        arith,
        store_bytes-at (xs ++ (ys ++ zs)) p (length xs + i) w inside,
        before,
        get_or-prefix ys zs i b,
        small,
      )))
