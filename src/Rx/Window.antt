-- ===== src/Rx/Window.antt =====
-- The part of a ring of 2048 slots that begins at a slot, as a list.
use mathlib.Core.Path.{ap₂}
use mathlib.Core.List.{map, map-append}
use pa6t_eth.Base.{
  ℕ, zero, suc, ◌+◌, ◌%◌, ◌≡◌, ◌≢◌, ◌<◌, ◌∙◌, refl, ap, Bool, List, [], ◌∷◌, ◌++◌, true, ◌&&◌, ltb,
  length, count, count-append, update, ==_refl, ==_ne, arith,
}

-- The `n` entries from slot `h` on.
abbrev pub window : (ℕ → ℕ) → ℕ → ℕ → List ℕ
window a h zero = []
window a h (suc n) = a h ∷ window a ((h + 1) % 2048) n

pub length-window : (a : ℕ → ℕ) (h n : ℕ) → length (window a h n) ≡ n
length-window a h zero = refl
length-window a h (suc n) = ap suc (length-window a ((h + 1) % 2048) n)

-- A store outside the window does not change it.
pub window-outside :
    (a : ℕ → ℕ) (p x h n : ℕ)
    → h < 2048
    → ((k : ℕ) → k < n → p ≢ (h + k) % 2048)
    → window (update a p x) h n ≡ window a h n
window-outside a p x h zero b o = refl
window-outside a p x h (suc n) b o =
    let away : p ≢ h = λ e. o 0 (omega arith) (omega (arith, e)) in
    ap₂ ◌∷◌ (rw (==_ne p h away) refl) (
      window-outside a p x ((h + 1) % 2048) n (omega arith)
        (λ k i e. o (suc k) (omega arith) (omega (arith, e))))

-- A store just past a window makes it longer.
pub window-store :
    (a : ℕ → ℕ) (p x h n : ℕ)
    → h < 2048
    → n < 2048
    → p ≡ (h + n) % 2048
    → window (update a p x) h (suc n) ≡ window a h n ++ (x ∷ [])
window-store a p x h zero b i e = let here : p ≡ h = omega (arith, e) in rw (here, ==_refl) refl
window-store a p x h (suc n) b i e =
    let away : p ≢ h = λ f. omega (arith, e, f) in
    ap₂ ◌∷◌ (rw (==_ne p h away) refl)
      (window-store a p x ((h + 1) % 2048) n (omega arith) (omega arith) (omega (arith, e)))

-- The first of a queue goes to its end; and that `k` times.
abbrev pub turn : List ℕ → List ℕ
turn [] = []
turn (b ∷ q) = q ++ (b ∷ [])

unfoldable pub rotate : ℕ → List ℕ → List ℕ
rotate zero q = q
rotate (suc k) q = turn (rotate k q)

-- Each number of the list is less than 512.
abbrev pub below_512 : List ℕ → Bool
below_512 [] = true
below_512 (b ∷ q) = ltb b 512 && below_512 q

pub below_512-append : (q : List ℕ) (b : ℕ) → below_512 (q ++ (b ∷ [])) ≡ below_512 (b ∷ q)
below_512-append [] b = refl
below_512-append (x ∷ q) b = ground (arith, below_512-append q b)

pub below_512-turn : (q : List ℕ) → below_512 (turn q) ≡ below_512 q
below_512-turn [] = refl
below_512-turn (b ∷ q) = below_512-append q b

pub length-append : (q : List ℕ) (b : ℕ) → length (q ++ (b ∷ [])) ≡ suc (length q)
length-append [] b = refl
length-append (x ∷ q) b = ap suc (length-append q b)

pub length-turn : (q : List ℕ) → length (turn q) ≡ length q
length-turn [] = refl
length-turn (b ∷ q) = length-append q b

count-turn : (x : ℕ) (q : List ℕ) → count x (turn q) ≡ count x q
unfolding count
count-turn x [] = refl
count-turn x (b ∷ q) = omega (arith, count-append x q (b ∷ []))

-- No number is lost and none is there twice.
pub count-rotate : (x k : ℕ) (q : List ℕ) → count x (rotate k q) ≡ count x q
unfolding rotate
count-rotate x zero q = refl
count-rotate x (suc k) q = count-turn x (rotate k q) ∙ count-rotate x k q

pub length-rotate : (k : ℕ) (q : List ℕ) → length (rotate k q) ≡ length q
unfolding rotate
length-rotate zero q = refl
length-rotate (suc k) q = length-turn (rotate k q) ∙ length-rotate k q

pub map-turn : (f : ℕ → ℕ) (b : ℕ) (q : List ℕ) → map f (turn (b ∷ q)) ≡ map f q ++ (f b ∷ [])
map-turn f b q = map-append f q (b ∷ [])
