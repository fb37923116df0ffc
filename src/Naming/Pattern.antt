-- ===== src/Naming/Pattern.antt =====
-- The regular expression of `buildZitiIdentityName` as the automaton that it compiles to.
use ziti_k8s_agent.Base.{ℕ, Bool, true, false, ◌&&◌, ◌||◌, [], ◌∷◌, Text, leb, ◌==◌}

-- `[a-z0-9]`
unfoldable pub is_alnum : ℕ → Bool
is_alnum c = leb b'a' c && leb c b'z' || leb b'0' c && leb c b'9'

-- `begin`: a label has to begin. `inside`: the last byte was a letter or a digit. `dashed`: it was
-- a dash, so the label may not end.
pub data State : Type 0 where
  begin inside dashed : State

-- What follows a byte, or `none` where no match is left.
pub data Next : Type 0 where
  stop : Next
  go : State → Next

abbrev pub after_alnum : Bool → Next → Next
after_alnum true other = go inside
after_alnum false other = other

abbrev pub guarded : Bool → Next → Next → Next
guarded true a b = a
guarded false a b = b

unfoldable pub step : State → ℕ → Next
step begin c = after_alnum (is_alnum c) stop
step inside c =
    after_alnum (is_alnum c) (guarded (c == b'-') (go dashed) (guarded (c == b'.') (go begin) stop))
step dashed c = after_alnum (is_alnum c) (guarded (c == b'-') (go dashed) stop)

abbrev pub accepts : State → Bool
accepts inside = true
accepts begin = false
accepts dashed = false

unfoldable pub run : State → Text → Bool
run s [] = accepts s
run s (c ∷ text) = elim (step s c) [ stop ↦ false | go t ↦ run t text ]

-- `^[a-z0-9]([-a-z0-9]*[a-z0-9])?(\.[a-z0-9]([-a-z0-9]*[a-z0-9])?)*$`
unfoldable pub match_name : Text → Bool
unfolding run step is_alnum
match_name text = run begin text
