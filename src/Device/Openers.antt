-- ===== src/Device/Openers.antt =====
-- The list of openers: what Open.c, Close.c and BeginIO.c make of it, and what is found in it.
use mathlib.Core.Option.{some-ne-none}
use pa6t_eth.Base.{
  ℕ, ◌≡◌, ap, refl, List, [], ◌∷◌, ◌++◌, Option, none, some, Bool-cases, inl, inr, ◌==◌, ==_refl,
}
use pa6t_eth.Machine.Structs.{Opener}
use pa6t_eth.Requests.{find_opener}
use pa6t_eth.Device.Close.{take_opener, keep_opener}

unfoldable pub with_hook : ℕ → Option Opener → Option Opener
with_hook hook none = none
with_hook hook (some op) = some (record op { s2hook = hook })

-- The opener that Open adds at the end is the first with its cookie, if there was none.
pub take_opener-add :
    (bm : ℕ) (op : Opener) (ops : List Opener)
    → op.bm_cookie ≡ bm
    → find_opener bm ops ≡ none
    → take_opener bm (ops ++ (op ∷ [])) ≡ some (op, ops)
unfolding find_opener take_opener
take_opener-add bm op [] e h = rw (take_opener, e, ==_refl) refl
take_opener-add bm op (o ∷ ops) e h = elim (Bool-cases (o.bm_cookie == bm)) [
  | inl d ↦ absurd (some-ne-none _ (rw (find_opener, d) at h))
  | inr d ↦
      rw (take_opener, d)
        (ap (keep_opener o) (take_opener-add bm op ops e (rw (find_opener, d) at h)))
]
