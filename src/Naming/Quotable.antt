-- ===== src/Naming/Quotable.antt =====
-- The bytes of a valid name, none of which a quoted filter has to escape.
use ziti_k8s_agent.Base.{
  inl, inr, ℕ, false, [], ◌∷◌, Text, ◌≡◌, ◌≢◌, arith, All, All-append, is_empty,
}
use ziti_k8s_agent.Naming.Language.{
  IsAlnum, IsBody, IsTail, no_tail, some_tail, IsLabel, label, IsName, one, more,
}

-- A byte that is not a quote and not a backslash.
abbrev pub IsPlainByte : ℕ → Type 0
IsPlainByte c = (c ≢ b'"') × (c ≢ b'\\')

alnum_plain : (c : ℕ) → IsAlnum c → IsPlainByte c
alnum_plain c h = ground arith

body_plain : (c : ℕ) → IsBody c → IsPlainByte c
body_plain c (inl e) = ground arith
body_plain c (inr a) = alnum_plain c a

body-IsPlainByte : (body : Text) → All IsBody body → All IsPlainByte body
body-IsPlainByte [] _ = tt
body-IsPlainByte (c ∷ body) (h, hs) = (body_plain c h, body-IsPlainByte body hs)

tail-IsPlainByte : (s : Text) → IsTail s → All IsPlainByte s
tail-IsPlainByte s (no_tail e) = rw e tt
tail-IsPlainByte s (some_tail body last b l e) =
    rw e
      (All-append IsPlainByte body (last ∷ []) (body-IsPlainByte body b) (alnum_plain last l, tt))

label-IsPlainByte : (s : Text) → IsLabel s → All IsPlainByte s
label-IsPlainByte s (label c tail h t e) = rw e (alnum_plain c h, tail-IsPlainByte tail t)

pub IsName-IsPlainByte : {s : Text} → IsName s → All IsPlainByte s
IsName-IsPlainByte {s} (one l) = label-IsPlainByte s l
IsName-IsPlainByte (more first rest l name e) = rw e (
    All-append IsPlainByte first (b'.' ∷ rest) (label-IsPlainByte first l)
      ((omega arith, omega arith), IsName-IsPlainByte name))

pub IsName-full : {s : Text} → IsName s → is_empty s ≡ false
IsName-full (one (label c tail h t e)) = rw e
IsName-full (more first rest (label c tail h t e') name e) = rw (e, e')
