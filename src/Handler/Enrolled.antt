-- ===== src/Handler/Enrolled.antt =====
-- What an allowed creation of a tunnel pod means at a lawful edge API, and the patch it sends.
use ziti_k8s_agent.Base.{
  Bool, true, false, [], ◌∷◌, ◌++◌, List, some, Text, codes, is_empty, Result, ok, err, panic,
  Action, ◌≡◌, refl, ap, sym, ◌∙◌, arith, or_return, ok_parts,
}
use ziti_k8s_agent.Kube.{ObjectMeta, PodDnsConfig}
use ziti_k8s_agent.Naming.{build_ziti_identity_name}
use ziti_k8s_agent.Edge.{EdgeApi, IdentityDetail}
use ziti_k8s_agent.Edge.Lawful.{IsLawful, LacksName, LacksId}
use ziti_k8s_agent.Edge.Tokens.{enrolled, created_and_read}
use ziti_k8s_agent.Cluster.{KubeApi, get_cluster_service}
use ziti_k8s_agent.Handler.{
  ZitiHandler, ZitiConfig, AdmissionResponse, empty_response, success_response, with_patch,
  new_ziti_handler,
}
use ziti_k8s_agent.Handler.Dns.{get_dns_config, dns_config_keeps, dns_config_resolver}
use ziti_k8s_agent.Handler.Tunnel.{handle_tunnel_create, tunnel_patch}

module _ {W : Type 0} where
  -- A step of a handler that ends in an allowed response: the call succeeded, and so did the rest.
  pub allowed_pair :
      {A : Type 0} (p : Result A × W) (handle : Text → AdmissionResponse)
      (k : A → Action W AdmissionResponse) (r : AdmissionResponse) (w' : W)
      → ((e : Text) → (handle e).allowed ≡ false)
      → r.allowed ≡ true
      → (elim p.0 as (λ _. Result AdmissionResponse × W) [
        | ok a ↦ k a p.1
        | err e ↦ (ok (handle e), p.1)
        | panic ↦ (panic, p.1)
      ])
        ≡ (ok r, w')
      → (a : A) × (w₁ : W) × (p ≡ (ok a, w₁)) × (k a w₁ ≡ (ok r, w'))
  allowed_pair (ok a, w₁) handle k r w' refuses allows h = (a, w₁, refl, h)
  allowed_pair (err e, w₁) handle k r w' refuses allows h =
      absurd (ground (arith, refuses e, (ok_parts (handle e) r w₁ w' h).0))
  allowed_pair (panic, w₁) handle k r w' refuses allows h = absurd (ground arith)

  pub or_return_allowed :
      {A : Type 0} (m : Action W A) (handle : Text → AdmissionResponse)
      (k : A → Action W AdmissionResponse) (w w' : W) (r : AdmissionResponse)
      → ((e : Text) → (handle e).allowed ≡ false)
      → r.allowed ≡ true
      → or_return m handle k w ≡ (ok r, w')
      → (a : A) × (w₁ : W) × (m w ≡ (ok a, w₁)) × (k a w₁ ≡ (ok r, w'))
  unfolding or_return
  or_return_allowed m handle k w w' r refuses allows h =
      allowed_pair (m w) handle k r w' refuses allows h

-- The calls of a creation that was allowed, in their order, each with the world that it left.
pub record TunnelRun {W : Type 0} (zh : ZitiHandler W) (meta : ObjectMeta) (uid : Text) (w w' : W)
    (r : AdmissionResponse) : Type 0 where
  pub name : Text
  pub named : build_ziti_identity_name zh.config.prefix meta uid ≡ ok name
  pub id : Text
  pub after_create : W
  pub created : zh.zc.create_identity name zh.config.role_key meta w ≡ (ok id, after_create)
  pub token : Text
  pub after_token : W
  pub fetched : zh.zc.get_identity_token name id after_create ≡ (ok token, after_token)
  pub config : ZitiConfig
  pub dns : PodDnsConfig
  pub settled : get_dns_config zh meta after_token ≡ (ok (config, dns), w')
  pub patched :
      r
      ≡ success_response (
          with_patch
            (tunnel_patch config zh.verbose dns meta.annotations name token)
            empty_response)

module _ {W : Type 0} (zh : ZitiHandler W) where
  pub run_of_allowed :
      (meta : ObjectMeta) (uid : Text) (w w' : W) (r : AdmissionResponse)
      → handle_tunnel_create zh meta uid empty_response w ≡ (ok r, w')
      → r.allowed ≡ true
      → TunnelRun zh meta uid w w' r
  unfolding handle_tunnel_create
  run_of_allowed meta uid w w' r h allows =
      let (name, w₁, named, h₁) = or_return_allowed _ _ _ w w' r (λ e. refl) allows h in
      let (id, w₂, created, h₂) = or_return_allowed _ _ _ w₁ w' r (λ e. refl) allows h₁ in
      let (token, w₃, fetched, h₃) = or_return_allowed _ _ _ w₂ w' r (λ e. refl) allows h₂ in
      let (settled, w₄, dns, h₄) = or_return_allowed _ _ _ w₃ w' r (λ e. refl) allows h₃ in
      let (r_eq, w_eq) =
        ok_parts
          (success_response (
            with_patch (tunnel_patch settled.0 zh.verbose settled.1 meta.annotations name token)
              empty_response))
          r w₄ w' h₄ in
      record {
        name = name;
        named = ap (λ p. p.0) named;
        id = id;
        after_create = w₂;
        created =
            ap (zh.zc.create_identity name zh.config.role_key meta) (ap (λ p. p.1) named) ∙ created;
        token = token;
        after_token = w₃;
        fetched = fetched;
        config = settled.0;
        dns = settled.1;
        settled = dns ∙ ap (λ v. (ok settled, v)) w_eq;
        patched = sym r_eq;
      }

-- The cluster's operations that a creation calls leave the identities at the edge alone.
pub record KeepsIdentities {W : Type 0} (K : KubeApi W) (identities : W → List IdentityDetail)
    : Type 0 where
  pub service_keeps :
      (namespace name : Text) (w : W) → identities (K.get_service namespace name w).1 ≡ identities w
  pub namespaces_keep :
      (selector : Text) (w : W) → identities (K.list_namespaces selector w).1 ≡ identities w

-- What an allowed creation of a tunnel pod gives.
pub record IsEnrolled {W : Type 0} (identities : W → List IdentityDetail) (config : ZitiConfig)
    (verbose : Bool) (meta : ObjectMeta) (uid : Text) (w w' : W) (r : AdmissionResponse)
    : Type 0 where
  pub name : Text
  pub id : Text
  pub token : Text
  pub dns : PodDnsConfig
  pub resolver_ip : Text
  pub named : build_ziti_identity_name config.prefix meta uid ≡ ok name
  pub some_id : is_empty id ≡ false
  pub some_token : is_empty token ≡ false
  pub new_id : LacksId id (identities w)
  pub new_name : LacksName name (identities w)
  pub added : identities w' ≡ identities w ++ enrolled name config.role_key meta id token ∷ []
  pub patch :
      r.patch
      ≡ some (
          tunnel_patch
            (record config { resolver_ip = resolver_ip })
            verbose
            dns
            meta.annotations
            name
            token)

module _ {W : Type 0} (K : KubeApi W) (E : EdgeApi W) (identities : W → List IdentityDetail)
    (L : IsLawful E identities) (keeps : KeepsIdentities K identities) (config : ZitiConfig)
    (zone : Text) (verbose : Bool) where
  pub dns_keeps :
      (meta : ObjectMeta) (w : W)
      → identities (get_dns_config (new_ziti_handler K E config zone verbose) meta w).1
        ≡ identities w
  unfolding new_ziti_handler get_cluster_service
  dns_keeps meta w =
      dns_config_keeps (new_ziti_handler K E config zone verbose) identities
        (keeps.service_keeps (codes "kube-system") (codes "kube-dns")) meta w

  -- An allowed creation of a tunnel pod adds exactly one identity at a lawful edge API, under the
  -- built name, which no identity had, with the annotated roles or else the `app` label; and the
  -- patch that it returns is `tunnel_patch` with that name and with the one-time token stored for
  -- that identity, which is not empty.
  pub tunnel_create_enrolls :
      (meta : ObjectMeta) (uid : Text) (w w' : W) (r : AdmissionResponse)
      → handle_tunnel_create (new_ziti_handler K E config zone verbose) meta uid empty_response w
        ≡ (ok r, w')
      → r.allowed ≡ true
      → IsEnrolled identities config verbose meta uid w w' r
  unfolding new_ziti_handler
  tunnel_create_enrolls meta uid w w' r h allows =
      let run =
        run_of_allowed (new_ziti_handler K E config zone verbose) meta uid w w' r h allows in
      let (full, filled, ids, names, stored) =
        created_and_read E identities L run.name config.role_key meta w run.after_create
          run.after_token run.id run.token run.created run.fetched in
      let (_, _, same, _) =
        dns_config_resolver (new_ziti_handler K E config zone verbose) meta run.after_token w'
          run.config run.dns run.settled in
      record {
        name = run.name;
        id = run.id;
        token = run.token;
        dns = run.dns;
        resolver_ip = run.config.resolver_ip;
        named = run.named;
        some_id = full;
        some_token = filled;
        new_id = ids;
        new_name = names;
        added =
            ap (λ p. identities p.1) (sym run.settled) ∙ (dns_keeps meta run.after_token ∙ stored);
        patch =
            ap (λ q. q.patch) run.patched
            ∙ ap (λ c. some (tunnel_patch c verbose run.dns meta.annotations run.name run.token))
                same;
      }
