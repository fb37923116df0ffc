-- ===== src/Naming/Finding.antt =====
-- `hasContainer` finds the first container with the prefix.
use ziti_k8s_agent.Base.{
  true, false, List, [], ◌∷◌, ◌++◌, some, Text, ◌≡◌, refl, ap, ◌↔◌, inl, inr, arith, has_prefix,
  Bool-cases, All,
}
use ziti_k8s_agent.Kube.{Container}
use ziti_k8s_agent.Naming.{has_container}

-- No container of the list has the prefix.
abbrev pub LacksPrefix : Text → List Container → Type 0
LacksPrefix prefix = All (λ c. has_prefix c.name prefix ≡ false)

-- The place of the container whose name was found.
pub record IsFirst (containers : List Container) (prefix name : Text) : Type 0 where
  pub before : List Container
  pub found : Container
  pub after : List Container
  pub split : containers ≡ before ++ found ∷ after
  pub skipped : LacksPrefix prefix before
  pub matches : has_prefix found.name prefix ≡ true
  pub named : name ≡ found.name

pub has_container-append :
    (before : List Container) (c : Container) (after : List Container) (prefix : Text)
    → LacksPrefix prefix before
    → has_prefix c.name prefix ≡ true
    → has_container (before ++ c ∷ after) prefix ≡ some c.name
unfolding has_container
has_container-append [] c after prefix _ h = rw h
has_container-append (d ∷ before) c after prefix (skip, s) h =
    rw skip (has_container-append before c after prefix s h)

IsFirst-of_found :
    (containers : List Container) (prefix name : Text)
    → has_container containers prefix ≡ some name
    → IsFirst containers prefix name
unfolding has_container
IsFirst-of_found [] prefix name h = absurd (ground arith)
IsFirst-of_found (c ∷ cs) prefix name h = elim (Bool-cases (has_prefix c.name prefix)) [
  | inl here ↦ record {
    before = [];
    found = c;
    after = cs;
    split = refl;
    skipped = tt;
    matches = here;
    named = ground arith;
  }
  | inr later ↦
      let r = IsFirst-of_found cs prefix name (ground arith) in
      record {
        before = c ∷ r.before;
        found = r.found;
        after = r.after;
        split = ap (λ l. c ∷ l) r.split;
        skipped = (later, r.skipped);
        matches = r.matches;
        named = r.named;
      }
]

found_of_first :
    (containers : List Container) (prefix name : Text)
    → IsFirst containers prefix name
    → has_container containers prefix ≡ some name
found_of_first containers prefix name r =
    rw (r.split, r.named) (has_container-append r.before r.found r.after prefix r.skipped r.matches)

-- `hasContainer` returns a name exactly when it is that of the first container whose name begins
-- with the prefix.
pub has_container_iff :
    (containers : List Container) (prefix name : Text)
    → (has_container containers prefix ≡ some name) ↔ IsFirst containers prefix name
has_container_iff containers prefix name =
    (IsFirst-of_found containers prefix name, found_of_first containers prefix name)
