-- ===== src/Base/Strings.antt =====
-- Go strings as lists of bytes: equality, and prefixes and suffixes as package strings has them.
use Prim.Native.Nat.{ℕ, ◌-◌}
use Prim.Native.Char.{code}
use Prim.Native.String.{String}
use mathlib.Core.Path.{◌≡◌, refl, sym, ap, ◌∙◌}
use mathlib.Core.Logic.{◌↔◌, ◌≢◌}
use mathlib.Core.Bool.{Bool, true, false, ◌&&◌}
use mathlib.Core.List.{List, [], ◌∷◌, ◌++◌}
use native.Mathlib.Omega.{arith}
use ziti_k8s_agent.Base.Tests.{leb, le→leb, ◌==◌, if◌then◌else◌}
use ziti_k8s_agent.Base.Lists.{length, take, drop, length-append, drop-append, take-append}
use ziti_k8s_agent.Base.Lists.{take-append-drop}

abbrev pub Text : Type 0
Text = List ℕ

-- The bytes of a literal, all of which are ASCII here.
abbrev pub codes : String → Text
codes String.[] = []
codes (String.◌∷◌ c s) = code c ∷ codes s

abbrev pub text_eq : Text → Text → Bool
text_eq [] [] = true
text_eq [] (_ ∷ _) = false
text_eq (_ ∷ _) [] = false
text_eq (a ∷ s) (b ∷ t) = a == b && text_eq s t

pub text_eq→eq : (s t : Text) → text_eq s t ≡ true → s ≡ t
text_eq→eq [] [] h = refl
text_eq→eq [] (b ∷ t) h = ground arith
text_eq→eq (a ∷ s) [] h = ground arith
text_eq→eq (a ∷ s) (b ∷ t) h = ground (arith, text_eq→eq s t)

pub text_eq_refl : (s : Text) → text_eq s s ≡ true
text_eq_refl [] = refl
text_eq_refl (a ∷ s) = ground (arith, text_eq_refl s)

pub text_eq_iff : (s t : Text) → (text_eq s t ≡ true) ↔ (s ≡ t)
text_eq_iff s t = (text_eq→eq s t, λ e. ap (λ u. text_eq s u) (sym e) ∙ text_eq_refl s)

pub text_eq_comm : (s t : Text) → text_eq s t ≡ text_eq t s
text_eq_comm [] [] = refl
text_eq_comm [] (b ∷ t) = refl
text_eq_comm (a ∷ s) [] = refl
text_eq_comm (a ∷ s) (b ∷ t) = ground (arith, text_eq_comm s t)

-- `len(s) == 0`
abbrev pub is_empty : Text → Bool
is_empty [] = true
is_empty (_ ∷ _) = false

pub is_empty-false : (s : Text) → is_empty s ≡ false → s ≢ []
is_empty-false s h = ground arith

-- `strings.HasPrefix`
abbrev pub has_prefix : Text → Text → Bool
has_prefix s [] = true
has_prefix [] (_ ∷ _) = false
has_prefix (c ∷ s) (p ∷ ps) = c == p && has_prefix s ps

pub has_prefix-append : (p s : Text) → has_prefix (p ++ s) p ≡ true
has_prefix-append [] s = refl
has_prefix-append (c ∷ p) s = ground (arith, has_prefix-append p s)

pub has_prefix_split : (s p : Text) → has_prefix s p ≡ true → s ≡ p ++ drop (length p) s
has_prefix_split s [] h = refl
has_prefix_split [] (c ∷ p) h = ground arith
has_prefix_split (d ∷ s) (c ∷ p) h = ground (arith, has_prefix_split s p)

-- `strings.TrimPrefix`
pub trim_prefix : Text → Text → Text
trim_prefix s p = if has_prefix s p then drop (length p) s else s

-- `strings.HasSuffix`
pub has_suffix : Text → Text → Bool
has_suffix s suffix =
    leb (length suffix) (length s) && text_eq (drop (length s - length suffix) s) suffix

-- `strings.TrimSuffix`
pub trim_suffix : Text → Text → Text
trim_suffix s suffix = if has_suffix s suffix then take (length s - length suffix) s else s

pub length_minus : (s suffix : Text) → length (s ++ suffix) - length suffix ≡ length s
length_minus s suffix = omega (arith, length-append {0} s suffix)

pub has_suffix-append : (s suffix : Text) → has_suffix (s ++ suffix) suffix ≡ true
unfolding has_suffix
has_suffix-append s suffix = rw (
  length_minus s suffix,
  drop-append s suffix,
  text_eq_refl suffix,
  le→leb (length suffix) (length (s ++ suffix)) (omega (arith, length-append {0} s suffix)),
)

pub trim_suffix-append : (s suffix : Text) → trim_suffix (s ++ suffix) suffix ≡ s
unfolding trim_suffix
trim_suffix-append s suffix =
    rw (has_suffix-append s suffix, length_minus s suffix) (take-append s suffix)

-- A text with a suffix is what is left without it, and the suffix.
pub trim_suffix_split :
    (s suffix : Text) → has_suffix s suffix ≡ true → s ≡ trim_suffix s suffix ++ suffix
unfolding trim_suffix has_suffix
trim_suffix_split s suffix h = ground (
  arith,
  text_eq→eq (drop (length s - length suffix) s) suffix,
  take-append-drop (length s - length suffix) s,
)
