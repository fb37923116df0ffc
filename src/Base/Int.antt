-- ===== src/Base/Int.antt =====
-- Signed integers, with the tests of zero, and printing in decimal.
use Prim.Native.Nat.{ℕ, zero, suc, ◌+◌, ◌-◌, ◌*◌, ◌/◌, ◌%◌, ◌<◌}
use mathlib.Core.Bool.{Bool, true, false}
use mathlib.Core.Path.{◌≡◌, refl}
use mathlib.Core.Logic.{inl, inr}
use mathlib.Core.List.{List, [], ◌∷◌, ◌++◌}
use native.Mathlib.Omega.{arith}
use ziti_k8s_agent.Base.Tests.{ltb, if◌then◌else◌, Bool-cases}

-- `negsuc n` is -(n + 1).
pub data ℤ : Type 0 where
  pos : ℕ → ℤ
  negsuc : ℕ → ℤ

abbrev pub is_zero : ℤ → Bool
is_zero (pos zero) = true
is_zero (pos (suc n)) = false
is_zero (negsuc n) = false

-- Decimal digits, as many as are left.
decimal : ℕ → ℕ → List ℕ
decimal zero n = []
decimal (suc k) n =
    let more = decimal k (n / 10) ++ (48 + n % 10) ∷ [] in if ltb n 10 then (48 + n) ∷ [] else more

-- `strconv.FormatInt(n, 10)`
unfoldable pub format_int : ℤ → List ℕ
unfolding decimal
format_int (pos n) = decimal (suc n) n
format_int (negsuc n) = 45 ∷ decimal (suc (suc n)) (suc n)

-- The number that a list of decimal digits stands for, after the digits that were read.
abbrev pub read_digits : ℕ → List ℕ → ℕ
read_digits acc [] = acc
read_digits acc (c ∷ cs) = read_digits (acc * 10 + (c - 48)) cs

read_digits_snoc :
    (acc : ℕ) (cs : List ℕ) (c : ℕ)
    → read_digits acc (cs ++ c ∷ []) ≡ read_digits acc cs * 10 + (c - 48)
read_digits_snoc acc [] c = refl
read_digits_snoc acc (d ∷ cs) c = read_digits_snoc (acc * 10 + (d - 48)) cs c

decimal_lem : (k n : ℕ) → n < k → read_digits 0 (decimal k n) ≡ n
unfolding decimal
decimal_lem zero n h = absurd (omega arith)
decimal_lem (suc k) n h = elim (Bool-cases (ltb n 10)) [
  | inl e ↦ rw e (ground arith)
  | inr e ↦
      rw (e, read_digits_snoc 0 (decimal k (n / 10)) (48 + n % 10))
        (rw (decimal_lem k (n / 10) (ground arith)) (omega arith))
]

-- The digits that are printed for a number that is not negative stand for it: as many are printed
-- as it has.
pub format_int-reads : (n : ℕ) → read_digits 0 (format_int (pos n)) ≡ n
unfolding format_int
format_int-reads n = decimal_lem (suc n) n (omega arith)
