-- ===== src/Edge/Memory.antt =====
-- An edge API in memory, which is lawful. It refuses a name that is taken.
use ziti_k8s_agent.Base.{
  Bool, true, false, ◌&&◌, List, [], ◌∷◌, ◌++◌, none, some, Text, codes, text_eq, is_empty, ◌==◌,
  ◌≡◌, refl, sym, ap, ◌∙◌, inl, inr, arith, ok, err, panic, Action, Bool-cases, if◌then◌else◌,
}
use ziti_k8s_agent.Edge.{EdgeApi, IdentityDetail, IdentityCreate, EdgeRouterDetail, name_filter}
use ziti_k8s_agent.Edge.Lawful.{
  IsLawful, LacksId, LacksName, named, new_identity, with_id, without_id, set_roles_of_id,
}
use ziti_k8s_agent.Edge.LawfulRouters.{routers_named, new_router, HasRouters}

pub record Memory : Type 0 where
  pub identities : List IdentityDetail
  pub routers : List EdgeRouterDetail

abbrev lacks_id : Text → List IdentityDetail → Bool
lacks_id id [] = true
lacks_id id (i ∷ is) = if text_eq i.id id then false else lacks_id id is

abbrev lacks_name : Text → List IdentityDetail → Bool
lacks_name name [] = true
lacks_name name (i ∷ is) = if text_eq i.name name then false else lacks_name name is

abbrev filtered : Text → List IdentityDetail → List IdentityDetail
filtered filter [] = []
filtered filter (i ∷ is) =
    if text_eq (name_filter i.name) filter then i ∷ filtered filter is else filtered filter is

abbrev filtered_routers : Text → List EdgeRouterDetail → List EdgeRouterDetail
filtered_routers filter [] = []
filtered_routers filter (r ∷ rs) =
    if text_eq (name_filter r.name) filter
    then r ∷ filtered_routers filter rs
    else filtered_routers filter rs

abbrev without_router : Text → List EdgeRouterDetail → List EdgeRouterDetail
without_router id [] = []
without_router id (r ∷ rs) =
    if text_eq r.id id then without_router id rs else r ∷ without_router id rs

-- Identifiers and tokens are spelled after the name.
abbrev id_for : Text → Text
id_for name = b'i' ∷ b':' ∷ name

abbrev jwt_for : Text → Text
jwt_for name = b'j' ∷ b':' ∷ name

unfoldable pub post : IdentityCreate → Action Memory Text
post c m =
    if lacks_id (id_for c.name) m.identities && lacks_name c.name m.identities
    then (
      ok (id_for c.name),
      record m {
        identities = m.identities ++ new_identity c (id_for c.name) (jwt_for c.name) ∷ [];
      },
    )
    else (err (codes "name must be unique"), m)

unfoldable pub detail : Text → Action Memory IdentityDetail
detail id m = elim (with_id id m.identities) [
  | none ↦ (err (codes "not found"), m)
  | some i ↦ (ok i, m)
]

abbrev pub memory_edge : EdgeApi Memory
memory_edge = record {
  post_identity = post;
  patch_identity =
      λ id roles m. (ok tt, record m { identities = set_roles_of_id id roles m.identities });
  list_identities = λ p m. (ok (filtered p.filter m.identities), m);
  detail_identity = detail;
  remove_identity = λ id m. (ok tt, record m { identities = without_id id m.identities });
  post_edge_router = λ c m. (
    ok (id_for c.name),
    record m {
      routers =
          m.routers
          ++ record { id = id_for c.name; name = c.name; enrollment_jwt = some (jwt_for c.name) }
            ∷ [];
    },
  );
  patch_edge_router = λ id roles m. (ok tt, m);
  list_edge_routers = λ p m. (ok (filtered_routers p.filter m.routers), m);
  detail_edge_router = λ id m. (err (codes "not found"), m);
  re_enroll = λ id m. (ok tt, m);
  remove_edge_router = λ id m. (ok tt, record m { routers = without_router id m.routers });
}

text_eq-quote : (s t : Text) → text_eq (s ++ codes "\"") (t ++ codes "\"") ≡ text_eq s t
text_eq-quote [] [] = refl
text_eq-quote [] (c ∷ []) = ground arith
text_eq-quote [] (c ∷ d ∷ t) = ground arith
text_eq-quote (c ∷ []) [] = ground arith
text_eq-quote (c ∷ d ∷ s) [] = ground arith
text_eq-quote (c ∷ s) (d ∷ t) = ap (λ b. c == d && b) (text_eq-quote s t)

filtered-named :
    (name : Text) (is : List IdentityDetail) → filtered (name_filter name) is ≡ named name is
filtered-named name [] = refl
filtered-named name (i ∷ is) =
    ap (λ b. if b then i ∷ filtered (name_filter name) is else filtered (name_filter name) is)
      (text_eq-quote i.name name)
    ∙ ap (λ r. if text_eq i.name name then i ∷ r else r) (filtered-named name is)

lacks_id→LacksId : (id : Text) (is : List IdentityDetail) → lacks_id id is ≡ true → LacksId id is
lacks_id→LacksId id [] h = tt
lacks_id→LacksId id (i ∷ is) h = ground (arith, lacks_id→LacksId id is)

lacks_name→LacksName :
    (name : Text) (is : List IdentityDetail) → lacks_name name is ≡ true → LacksName name is
lacks_name→LacksName name [] h = tt
lacks_name→LacksName name (i ∷ is) h = ground (arith, lacks_name→LacksName name is)

post_created :
    (c : IdentityCreate) (m m' : Memory) (id : Text)
    → post c m ≡ (ok id, m')
    → (is_empty id ≡ false)
      × LacksId id m.identities
      × LacksName c.name m.identities
      × ((jwt : Text) × (is_empty jwt ≡ false)
          × (m'.identities ≡ m.identities ++ new_identity c id jwt ∷ []))
unfolding post
post_created c m m' id h =
    elim (Bool-cases (lacks_id (id_for c.name) m.identities && lacks_name c.name m.identities)) [
      | inl free ↦
          let e : id_for c.name ≡ id = ground arith in
          let stored : m.identities ++ new_identity c (id_for c.name) (jwt_for c.name) ∷ []
              ≡ m'.identities =
            ground arith in
          (
            rw (← e) refl,
            rw (← e) (lacks_id→LacksId (id_for c.name) m.identities (ground arith)),
            lacks_name→LacksName c.name m.identities (ground arith),
            (
              jwt_for c.name,
              refl,
              sym stored ∙ ap (λ i. m.identities ++ new_identity c i (jwt_for c.name) ∷ []) e,
            ),
          )
      | inr taken ↦ absurd (ground arith)
    ]

detail_read :
    (id : Text) (m m' : Memory) (i : IdentityDetail)
    → detail id m ≡ (ok i, m')
    → (with_id id m.identities ≡ some i) × (m'.identities ≡ m.identities)
unfolding detail
detail_read id m m' i h = ground arith

pub memory_edge-IsLawful : IsLawful memory_edge (λ m. m.identities)
unfolding post detail
memory_edge-IsLawful = record {
  listed = λ name m m' items q h. (
    ap (λ r. elim r.0 [ ok l ↦ l | err e ↦ items | panic ↦ items ]) (sym h)
        ∙ filtered-named name m.identities,
    ap (λ r. r.1.identities) (sym h),
  );
  created = post_created;
  detailed = detail_read;
  patched = λ id roles m m' h. ap (λ r. r.1.identities) (sym h);
  removed = λ id m m' h. ap (λ r. r.1.identities) (sym h);
}

filtered-routers_named :
    (name : Text) (rs : List EdgeRouterDetail)
    → filtered_routers (name_filter name) rs ≡ routers_named name rs
filtered-routers_named name [] = refl
filtered-routers_named name (r ∷ rs) =
    ap
      (λ b.
        if b
        then r ∷ filtered_routers (name_filter name) rs
        else filtered_routers (name_filter name) rs)
      (text_eq-quote r.name name)
    ∙ ap (λ l. if text_eq r.name name then r ∷ l else l) (filtered-routers_named name rs)

pub memory_edge-HasRouters : HasRouters memory_edge (λ m. m.routers)
memory_edge-HasRouters = record {
  listed = λ name m m' items q h. (
    ap (λ r. elim r.0 [ ok l ↦ l | err e ↦ items | panic ↦ items ]) (sym h)
        ∙ filtered-routers_named name m.routers,
    ap (λ r. r.1.routers) (sym h),
  );
  created = λ c m m' id h.
      let same : id_for c.name ≡ id = ap (λ r. elim r.0 [ ok i ↦ i | err e ↦ id | panic ↦ id ]) h in
      (
        jwt_for c.name,
        refl,
        ap (λ r. r.1.routers) (sym h)
            ∙ ap (λ i. m.routers ++ new_router c.name i (jwt_for c.name) ∷ []) same,
      );
}
