-- ===== src/Base/Results.antt =====
-- What a Go call gives: a value, an error with its message, or a panic; and calls that change the
-- world around the agent. `or_return` is the step `x, err := f(); if err != nil { return … }`.
use mathlib.Core.Path.{◌≡◌, refl, ap}
use native.Mathlib.Omega.{arith}
use ziti_k8s_agent.Base.Strings.{Text}

pub data Result {ℓ} (A : Type ℓ) : Type ℓ where
  ok : A → Result A
  err : Text → Result A
  panic : Result A

abbrev pub Action : Type 0 → Type 0 → Type 0
Action W A = W → Result A × W

module _ {W : Type 0} where
  abbrev pub pure : {A : Type 0} → A → Action W A
  pure a w = (ok a, w)

  abbrev pub fail : {A : Type 0} → Text → Action W A
  fail message w = (err message, w)

  abbrev pub lift : {A : Type 0} → Result A → Action W A
  lift r w = (r, w)

  infixl 5 ◌>>=◌ ◌>>◌
  abbrev pub ◌>>=◌ : {A B : Type 0} → Action W A → (A → Action W B) → Action W B
  ◌>>=◌ m f w =
      let (r, w') = m w in elim r [ ok a ↦ f a w' | err e ↦ (err e, w') | panic ↦ (panic, w') ]

  abbrev pub ◌>>◌ : {A B : Type 0} → Action W A → Action W B → Action W B
  m >> k = m >>= λ _. k

  -- The caller maps an error to a value of its own and returns it.
  unfoldable pub or_return :
      {A B : Type 0} → Action W A → (Text → B) → (A → Action W B) → Action W B
  or_return m handle k w =
      let (r, w') = m w in
      elim r [ ok a ↦ k a w' | err e ↦ (ok (handle e), w') | panic ↦ (panic, w') ]

  pair_ok :
      {A B : Type 0} (p : Result A × W) (f : A → Action W B) (w' : W) (b : B)
      → elim p.0 [ ok a ↦ f a p.1 | err e ↦ (err e, p.1) | panic ↦ (panic, p.1) ] ≡ (ok b, w')
      → (a : A) × (w₁ : W) × (p ≡ (ok a, w₁)) × (f a w₁ ≡ (ok b, w'))
  pair_ok (ok a, w₁) f w' b h = (a, w₁, refl, h)
  pair_ok (err e, w₁) f w' b h = absurd (ground arith)
  pair_ok (panic, w₁) f w' b h = absurd (ground arith)

  -- A chain that succeeds: its first call succeeds, and so does the rest from there.
  pub >>=-eq-ok :
      {A B : Type 0} (m : Action W A) (f : A → Action W B) (w w' : W) (b : B)
      → (m >>= f) w ≡ (ok b, w')
      → (a : A) × (w₁ : W) × (m w ≡ (ok a, w₁)) × (f a w₁ ≡ (ok b, w'))
  >>=-eq-ok m f w w' b h = pair_ok (m w) f w' b h

  pub ok_parts :
      {A : Type 0} (a b : A) (w w' : W)
      → ◌≡◌ {A = Result A × W} (ok a, w) (ok b, w')
      → (a ≡ b) × (w ≡ w')
  ok_parts a b w w' h = (ap (λ r. elim r.0 [ ok x ↦ x | err _ ↦ a | panic ↦ a ]) h, ap (λ r. r.1) h)
