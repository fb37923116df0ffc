-- ===== src/Base/Search.antt =====
-- `strings.Contains`, and `strings.Replace` with the count 1.
use mathlib.Core.Path.{◌≡◌, refl, ap}
use mathlib.Core.Bool.{Bool, true, ◌||◌}
use mathlib.Core.List.{[], ◌∷◌, ◌++◌, append-nil}
use native.Mathlib.Omega.{arith}
use ziti_k8s_agent.Base.Tests.{if◌then◌else◌, Bool-cases}
use ziti_k8s_agent.Base.Lists.{length, drop}
use ziti_k8s_agent.Base.Strings.{Text, has_prefix, has_prefix-append, has_prefix_split}
use mathlib.Core.Logic.{inl, inr}

unfoldable pub contains : Text → Text → Bool
contains [] sub = has_prefix [] sub
contains (c ∷ s) sub = has_prefix (c ∷ s) sub || contains s sub

unfoldable pub replace_first : Text → Text → Text → Text
replace_first [] old new = if has_prefix [] old then new else []
replace_first (c ∷ s) old new =
    if has_prefix (c ∷ s) old then new ++ drop (length old) (c ∷ s) else c ∷ replace_first s old new

-- A text occurs wherever it is written.
pub contains-append : (a sub b : Text) → contains (a ++ (sub ++ b)) sub ≡ true
unfolding contains
contains-append [] [] [] = refl
contains-append [] [] (c ∷ b) = refl
contains-append [] (c ∷ sub) b = rw (has_prefix-append (c ∷ sub) b)
contains-append (c ∷ a) sub b = ground (arith, contains-append a sub b)

pub contains_suffix : (a sub : Text) → contains (a ++ sub) sub ≡ true
contains_suffix a sub = rw (append-nil sub) at (contains-append a sub [])

-- `contains` finds an occurrence: the text before it and the text after it.
pub contains_split :
    (s sub : Text) → contains s sub ≡ true → (a : Text) × (b : Text) × (s ≡ a ++ (sub ++ b))
unfolding contains
contains_split [] sub h = ([], drop (length sub) [], has_prefix_split [] sub h)
contains_split (c ∷ s) sub h = elim (Bool-cases (has_prefix (c ∷ s) sub)) [
  | inl here ↦ ([], drop (length sub) (c ∷ s), has_prefix_split (c ∷ s) sub here)
  | inr later ↦
      let (a, b, e) = contains_split s sub (rw later at h) in (c ∷ a, b, ap (λ t. c ∷ t) e)
]

-- A replaced text contains the new text.
pub contains-replace_first :
    (s old new : Text) → contains s old ≡ true → contains (replace_first s old new) new ≡ true
unfolding contains replace_first
contains-replace_first [] old new h = rw h (contains_new (new))
  where
    contains_new : (t : Text) → contains t t ≡ true
    contains_new t = contains_suffix [] t
contains-replace_first (c ∷ s) old new h = elim (Bool-cases (has_prefix (c ∷ s) old)) [
  | inl here ↦ rw here (contains-append [] new (drop (length old) (c ∷ s)))
  | inr later ↦ rw later (ground (arith, contains-replace_first s old new))
]
