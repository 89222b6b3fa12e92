-- ===== src/ServerReconciler/Config.antt =====
-- The configuration of the reconcilers, the values that Reconcile returns, and helper.go.
use metal_operator.Base.{ℕ, String, Bool, false, ◌==◌, lookup, none, some}
use metal_operator.Api.Meta.{ObjectMeta, operation_annotation, operation_annotation_ignore}

-- The fields of ServerReconciler that its methods read; the client and the BMC options are part
-- of the environment.
pub record ServerReconciler : Type 0 where
  pub manager_namespace : String
  pub probe_image : String
  pub registry_url : String
  pub probe_os_image : String
  pub enforce_first_boot : Bool
  pub enforce_power_off : Bool
  pub resync_interval : ℕ
  pub discovery_timeout : ℕ

-- ctrl.Result
pub record ReconcileResult : Type 0 where
  pub requeue : Bool
  pub requeue_after : ℕ

-- `ctrl.Result{}`
abbrev pub done : ReconcileResult
done = record { requeue = false; requeue_after = 0 }

abbrev pub server_finalizer : String
server_finalizer = "metal.ironcore.dev/server"

abbrev pub internal_annotation_key : String
internal_annotation_key = "metal.ironcore.dev/type"

abbrev pub internal_annotation_value : String
internal_annotation_value = "Internal"

unfoldable pub should_ignore_reconciliation : ObjectMeta → Bool
should_ignore_reconciliation m = elim (lookup operation_annotation m.annotations) [
  | none ↦ false
  | some val ↦ val == operation_annotation_ignore
]
