-- ===== src/BootConfigurationReconciler/Reconcile.antt =====
-- The methods of ServerBootConfigurationReconciler.
use metal_operator.Base.{String, Bool, true, false, if◌then◌else◌}
use metal_operator.Api.Meta.{is_deleted}
use metal_operator.Api.Claim.{
  ServerBootConfiguration, BootConfigurationState, boot_configuration_state_eq,
}
use metal_operator.Effects.{Result, M, pure, raise, attempt, unless_modified, is_not_found, ◌>>=◌}
use metal_operator.Effects.Env.{Env}
use metal_operator.Client.{get_boot_configuration, patch_boot_configuration_status}
use metal_operator.ServerReconciler.Config.{ReconcileResult, done}

-- `config.Status.State = state`
abbrev pub with_boot_state :
    BootConfigurationState → ServerBootConfiguration → ServerBootConfiguration
with_boot_state state config = record config { state = state }

module _ (env : Env) where
  unfoldable pub patch_state :
      ServerBootConfiguration → BootConfigurationState → M (ServerBootConfiguration × Bool)
  patch_state config state =
      if boot_configuration_state_eq config.state state
      then pure (config, false)
      else patch_boot_configuration_status env config (with_boot_state state config) >>= λ config'.
          pure (config', true)

  unfoldable pub initialize_boot_state :
      ServerBootConfiguration → M (ServerBootConfiguration × Bool)
  unfolding patch_state
  initialize_boot_state config =
      if boot_configuration_state_eq config.state BootConfigurationState.unset
      then patch_state config BootConfigurationState.pending
      else pure (config, false)

  unfoldable pub reconcile : ServerBootConfiguration → M ReconcileResult
  unfolding initialize_boot_state
  reconcile config = unless_modified (initialize_boot_state config) done λ config'. pure done

  unfoldable pub delete : ServerBootConfiguration → M ReconcileResult
  delete config = pure done

  unfoldable pub reconcile_exists : ServerBootConfiguration → M ReconcileResult
  unfolding delete reconcile
  reconcile_exists config = if is_deleted config.metadata then delete config else reconcile config

  -- What Reconcile does with the configuration that it fetched, or with the error.
  unfoldable pub reconcile_fetched : Result ServerBootConfiguration → M ReconcileResult
  unfolding reconcile_exists is_not_found
  reconcile_fetched (Result.ok config) = reconcile_exists config
  reconcile_fetched (Result.err e) = if is_not_found e then pure done else raise e

  unfoldable pub reconcile_request : String → String → M ReconcileResult
  unfolding reconcile_fetched
  reconcile_request namespace name =
      attempt (get_boot_configuration env namespace name) >>= reconcile_fetched
