-- ===== src/Base/Maps.antt =====
-- A `map[string]T` as an association list, with text keys.
use mathlib.Core.Option.{Option, none, some}
use mathlib.Core.List.{List, [], ◌∷◌}
use ziti_k8s_agent.Base.Tests.{if◌then◌else◌}
use ziti_k8s_agent.Base.Strings.{Text, text_eq}

abbrev pub StringMap : Type 0
StringMap = List (Text × Text)

-- `value, ok := m[key]`
abbrev pub lookup : Text → StringMap → Option Text
lookup key [] = none
lookup key ((k, v) ∷ m) = if text_eq k key then some v else lookup key m

-- `m[key]`, the empty string where the key is missing.
abbrev pub get_or : Option Text → Text → Text
get_or none d = d
get_or (some v) d = v

abbrev pub index : StringMap → Text → Text
index m key = get_or (lookup key m) []
