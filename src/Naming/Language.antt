-- ===== src/Naming/Language.antt =====
-- The language of the regular expression, piece by piece, and the automaton against it.
use ziti_k8s_agent.Base.{
  ℕ, true, false, ◌⊎◌, ◌≤◌, ==_refl, [], ◌∷◌, ◌++◌, Text, ◌≡◌, refl, ap, ◌↔◌, inl, inr, arith, ◌==◌,
  Bool-cases, All, append_assoc, append-nil,
}
use ziti_k8s_agent.Naming.Pattern.{is_alnum, State, begin, inside, dashed, step, run, match_name}

-- `[a-z0-9]`
abbrev pub IsAlnum : ℕ → Type 0
IsAlnum c = ((b'a' ≤ c) × (c ≤ b'z')) ⊎ ((b'0' ≤ c) × (c ≤ b'9'))

-- `[-a-z0-9]`
abbrev pub IsBody : ℕ → Type 0
IsBody c = (c ≡ b'-') ⊎ IsAlnum c

-- `([-a-z0-9]*[a-z0-9])?`
pub data IsTail (s : Text) : Type 0 where
  no_tail : s ≡ [] → IsTail s
  some_tail :
      (body : Text) (last : ℕ) → All IsBody body → IsAlnum last → s ≡ body ++ last ∷ [] → IsTail s

-- `[a-z0-9]([-a-z0-9]*[a-z0-9])?`
pub data IsLabel (s : Text) : Type 0 where
  label : (c : ℕ) (tail : Text) → IsAlnum c → IsTail tail → s ≡ c ∷ tail → IsLabel s

-- Labels with dots between them, the whole expression.
pub data IsName : Text → Type 0 where
  one : {s : Text} → IsLabel s → IsName s
  more :
      {s : Text} (first rest : Text)
      → IsLabel first
      → IsName rest
      → s ≡ first ++ b'.' ∷ rest
      → IsName s

-- What may follow a label.
data IsRest (s : Text) : Type 0 where
  done : s ≡ [] → IsRest s
  dot : (rest : Text) → IsName rest → s ≡ b'.' ∷ rest → IsRest s

data Inside (s : Text) : Type 0 where
  inside_of : (tail rest : Text) → IsTail tail → IsRest rest → s ≡ tail ++ rest → Inside s

data Dashed (s : Text) : Type 0 where
  dashed_of :
      (body : Text) (last : ℕ) (rest : Text)
      → All IsBody body
      → IsAlnum last
      → IsRest rest
      → s ≡ body ++ last ∷ rest
      → Dashed s

abbrev Accepted : State → Text → Type 0
Accepted begin s = IsName s
Accepted inside s = Inside s
Accepted dashed s = Dashed s

-- The class of the expression and its test.
is_alnum-IsAlnum : (c : ℕ) → is_alnum c ≡ true → IsAlnum c
unfolding is_alnum
is_alnum-IsAlnum c h = ground arith

IsAlnum-is_alnum : (c : ℕ) → IsAlnum c → is_alnum c ≡ true
unfolding is_alnum
IsAlnum-is_alnum c h = ground arith

dash-IsBody : (c : ℕ) → (c == b'-') ≡ true → IsBody c
dash-IsBody c h = inl (ground arith)

IsBody-dash : (c : ℕ) → IsBody c → is_alnum c ≡ false → (c == b'-') ≡ true
IsBody-dash c (inl e) h = rw e (==_refl b'-')
IsBody-dash c (inr a) h = absurd (ground (arith, IsAlnum-is_alnum c a))

begin_alnum : (c : ℕ) (s : Text) → is_alnum c ≡ true → Inside s → IsName (c ∷ s)
begin_alnum c s h (inside_of tail rest t (done e) split) =
    one (label c tail (is_alnum-IsAlnum c h) t (ground (arith, append-nil tail)))
begin_alnum c s h (inside_of tail rest t (dot after name e) split) =
    more (c ∷ tail) after (label c tail (is_alnum-IsAlnum c h) t refl) name (ground arith)

tail_alnum : (c : ℕ) (s : Text) → is_alnum c ≡ true → Inside s → Dashed (c ∷ s)
tail_alnum c s h (inside_of tail rest (no_tail e) r split) =
    dashed_of [] c rest tt (is_alnum-IsAlnum c h) r (ground arith)
tail_alnum c s h (inside_of tail rest (some_tail body last b l e) r split) =
    dashed_of (c ∷ body) last rest (inr (is_alnum-IsAlnum c h), b) l r
      (ground (arith, append_assoc body (last ∷ []) rest))

Dashed-dash : (c : ℕ) (s : Text) → (c == b'-') ≡ true → Dashed s → Dashed (c ∷ s)
Dashed-dash c s h (dashed_of body last rest b l r e) =
    dashed_of (c ∷ body) last rest (dash-IsBody c h, b) l r (ap (λ t. c ∷ t) e)

-- A tail that ends in a letter or digit, and what follows it.
Dashed-Inside : (s : Text) → Dashed s → Inside s
Dashed-Inside s (dashed_of body last rest b l r e) =
    inside_of (body ++ last ∷ []) rest (some_tail body last b l refl) r
      (ground (arith, append_assoc body (last ∷ []) rest))

Inside-dot : (c : ℕ) (s : Text) → (c == b'.') ≡ true → IsName s → Inside (c ∷ s)
Inside-dot c s h name = inside_of [] (c ∷ s) (no_tail refl) (dot s name (ground arith)) refl

run_sound : (s : Text) (q : State) → run q s ≡ true → Accepted q s
unfolding run step
run_sound [] begin h = ground arith
run_sound [] dashed h = ground arith
run_sound [] inside h = inside_of [] [] (no_tail refl) (done refl) refl
run_sound (c ∷ s) begin h = elim (Bool-cases (is_alnum c)) [
  | inl a ↦ begin_alnum c s a (run_sound s inside (rw (a, run) at h))
  | inr b ↦ ground arith
]
run_sound (c ∷ s) inside h = elim (Bool-cases (is_alnum c)) [
  | inl a ↦ Dashed-Inside (c ∷ s) (tail_alnum c s a (run_sound s inside (rw (a, run) at h)))
  | inr b ↦ elim (Bool-cases (c == b'-')) [
    | inl d ↦ Dashed-Inside (c ∷ s) (Dashed-dash c s d (run_sound s dashed (ground arith)))
    | inr e ↦ elim (Bool-cases (c == b'.')) [
      | inl d ↦ Inside-dot c s d (run_sound s begin (ground arith))
      | inr f ↦ ground arith
    ]
  ]
]
run_sound (c ∷ s) dashed h = elim (Bool-cases (is_alnum c)) [
  | inl a ↦ tail_alnum c s a (run_sound s inside (rw (a, run) at h))
  | inr b ↦ elim (Bool-cases (c == b'-')) [
    | inl d ↦ Dashed-dash c s d (run_sound s dashed (ground arith))
    | inr e ↦ ground arith
  ]
]

run_body :
    (body : Text) (last : ℕ) (rest : Text)
    → All IsBody body
    → IsAlnum last
    → run inside rest ≡ true
    → (run inside (body ++ last ∷ rest) ≡ true) × (run dashed (body ++ last ∷ rest) ≡ true)
unfolding run step
run_body [] last rest b l r =
    let alnum = IsAlnum-is_alnum last l in (rw (alnum, run) r, rw (alnum, run) r)
run_body (c ∷ body) last rest (b, bs) l r =
    let (in_, da) = run_body body last rest bs l r in
    elim (Bool-cases (is_alnum c)) [
      | inl a ↦ (rw (a, run) in_, rw (a, run) in_)
      | inr a ↦ let dash = IsBody-dash c b a in (rw (a, dash, run) da, rw (a, dash, run) da)
    ]

run_tail :
    (tail rest : Text) → IsTail tail → run inside rest ≡ true → run inside (tail ++ rest) ≡ true
run_tail tail rest (no_tail e) r = rw e r
run_tail tail rest (some_tail body last b l e) r =
    rw (e, append_assoc body (last ∷ []) rest) ((run_body body last rest b l r).0)

run_label : (s rest : Text) → IsLabel s → run inside rest ≡ true → run begin (s ++ rest) ≡ true
unfolding run step
run_label s rest (label c tail a t e) r = rw (e, IsAlnum-is_alnum c a, run) (run_tail tail rest t r)

run_dot : (rest : Text) → run begin rest ≡ true → run inside (b'.' ∷ rest) ≡ true
unfolding run step is_alnum
run_dot rest h = h

run_complete : {s : Text} → IsName s → run begin s ≡ true
run_complete {s} (one l) = rw (append-nil s) at (run_label s [] l (unfold run in refl))
run_complete (more first rest l name e) =
    rw e (run_label first (b'.' ∷ rest) l (run_dot rest (run_complete name)))

-- The test of the built name accepts exactly the names: one or more labels with dots between them,
-- where a label begins and ends with a letter from a to z or a digit and has only such bytes and
-- dashes between: the texts of the regular expression
-- `^[a-z0-9]([-a-z0-9]*[a-z0-9])?(\.[a-z0-9]([-a-z0-9]*[a-z0-9])?)*$`.
pub match_name_iff : (s : Text) → (match_name s ≡ true) ↔ IsName s
unfolding match_name
match_name_iff s = (run_sound s begin, run_complete)
