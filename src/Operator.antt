-- ===== src/Operator.antt =====
-- The operator of ziti-agent/operator: the resource that stands for a Ziti controller, its
-- reconciler, and the merge of specifications.
pub mod Admin
pub mod Renewal
pub mod Channels
pub mod Merge
pub mod Merged
pub mod Plain
pub mod Settles
pub mod Settled
pub mod Equal
pub mod Objects
pub mod Pods
pub mod Sets
pub mod Hooks
pub mod Ensure
pub mod Ensured
pub mod Synced
pub mod Apart
pub mod Memory
pub mod Adopt
pub mod Router
pub mod Webhook
mod Tests
use ziti_k8s_agent.Base.{List, [], Text}

-- `ZitiControllerSpec`
pub record ZitiControllerSpec : Type 0 where
  pub name : Text
  pub admin_jwt : Text
  pub ziti_ctrl_mgmt_api : Text

-- `ZitiController`, of whose metadata the name and the namespace are read.
pub record ZitiController : Type 0 where
  pub name : Text
  pub namespace : Text
  pub spec : ZitiControllerSpec

-- `GetDefaults`
unfoldable pub get_defaults : ZitiController → ZitiControllerSpec
get_defaults z = record { name = z.name; admin_jwt = z.spec.admin_jwt; ziti_ctrl_mgmt_api = [] }
