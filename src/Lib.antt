-- ===== src/Lib.antt =====
-- Verification of the Ziti agent for Kubernetes (the Go code under ziti-agent).
--
-- The agent is a mutating admission webhook. For each pod that is created it makes an identity or an
-- edge router at a Ziti controller, and answers with a JSON patch that adds a sidecar with the
-- enrollment token; for deletions and updates of pods it deletes the identity or changes its roles.
-- An operator keeps the administrator's secret of a controller, the objects of the routers that run
-- in the cluster, and the deployment of the agent with its certificate and webhook configuration.
--
-- Strings are lists of bytes, maps are association lists, a nil pointer is `none`. A call that can
-- fail gives a `Result`: a value, an error with its message, or a panic. A call that changes the
-- world gives a result and the next world. Names of functions are those of the code, in snake case.
-- Code outside the repository is a parameter: the generated client of the edge API (`EdgeApi`), the
-- Kubernetes client (`KubeApi`), the operator's client (`OperatorApi`), package net/url (`UrlLib`),
-- crypto/tls and rest_util (`TlsLib`), decoders of JSON and YAML, files, the environment and clocks.
--
-- Base: shared lists, texts, maps and results.
-- Kube: the parts of Kubernetes objects that are read or written.
-- Naming: ziti-agent/cmd/webhook/utilities.go. Names of identities, and the automaton (Pattern) for
--   the regular expression, which Language relates to a grammar.
-- Edge: ziti-agent/pkg/ziti-edge/identity.go and router.go, and the methods of `zitiClient` in
--   ziti-agent/cmd/webhook/pods.go. Lawful and LawfulRouters say what is relied on of the edge
--   API when a call succeeds; Memory is an API that keeps it.
-- Cluster: the methods of `clusterClient` in pods.go, and ziti-agent/pkg/kubernetes/dns.go.
-- Handler: `zitiHandler` in pods.go, from the admission request to the patch. Shared is about the
--   package variable `jsonPatch`, whose accesses by concurrent calls are steps of a schedule;
--   Interleaved says what the calls answer.
-- Url: URLs in ziti-agent/pkg/ziti-edge/client.go and ziti-agent/operator/internal/utils/common.go.
-- Config: ziti-agent/cmd/webhook/config.go, with the defaults of root.go.
-- Serve: ziti-agent/cmd/webhook/webhook.go, and in Clients `Client` of client.go.
-- Operator: the reconciler of ziti-agent/operator/internal/controller/ziticontroller_controller.go,
--   and `MergeSpecs` of ziti-agent/operator/internal/utils/common.go (Merge). What the reconcilers of
--   routers and webhooks share: `reflect.DeepEqual` (Equal), the Kubernetes objects (Objects, Pods,
--   Sets, Hooks), the step that creates or patches one object (Ensure, with its laws in Ensured,
--   Synced and Apart), and the controller that is taken over (Adopt). Memory is a Kubernetes client
--   that keeps the laws.
-- Operator.Router: ziti-agent/operator/internal/controller/zitirouter_controller.go (Desired, Update,
--   Reconcile), with the types of ziti-agent/operator/api/v1alpha1/zitirouter_types.go and their
--   defaults (Defaults, ConfigText). ConfigMaps, Services, StatefulSets, Kept and Realized are about
--   runs over its objects, SetClaims about the claim templates that the server fills in, Wired about
--   how the objects fit together, Reconciled about a whole run.
-- Operator.Webhook: ziti-agent/operator/internal/controller/zitiwebhook_controller.go (Desired,
--   Deployment, Update, Finalize, Reconcile), with the types of
--   ziti-agent/operator/api/v1alpha1/zitiwebhook_types.go and their defaults (Defaults).
--   Finalized is about its deletion, Settled and Hooked about its objects, Deployed about what the
--   agent finds in its deployment, Wired about how the objects fit together, Reconciled about a run.
--
-- All loops of the code are over lists, and are recursions on them: no fuel is used. The merge of
-- specifications goes three structs deep below the top, as the code's nested loops do. The channels
-- of the operator have room for ten messages, as they are made.
--
-- What is relied on of the Kubernetes API is named: `StoreLaws` (an object is read as it was written,
-- but for what the server fills in: of that, the cluster IPs of services and the status of claim
-- templates are covered, and defaults of other fields are not), `Apart` (a write to one kind of object does not touch another), `OwningLaws`,
-- `FinalizerLaws`, and for whole runs `ConfigLaws`, `RouterLaws`,
-- `UpdateLaws` and `AgentLaws`. Of the edge API `IsLawful` says what is relied on for identities, and
-- `HasRouters` for routers. A name is looked up by a quoted filter, and what is relied on of such a
-- lookup is limited to names without a quote and a backslash (`IsQuotable`).
--
-- `DeepEqual` is by cases on the types, and tells a nil map from an empty one; a nil slice is the empty
-- list. A Kubernetes object has the fields that the operator sets or compares. How a specification is
-- read as a tree of fields, which is Go's reflection, is a parameter. The two calls that read a
-- channel, in the reconcilers of routers and of webhooks, are one: they are the same code.
--
-- Not modelled: the start of the processes with its flags, TLS listener and registration of schemes,
-- logging, events, metrics, request timeouts, the fields of a router's configuration that nothing
-- reads, default names that nothing calls, and generated code.
pub mod Base
pub mod Kube
pub mod Naming
pub mod Edge
pub mod Cluster
pub mod Handler
pub mod Url
pub mod Config
pub mod Operator
pub mod Serve
