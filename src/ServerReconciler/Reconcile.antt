-- ===== src/ServerReconciler/Reconcile.antt =====
-- Reconcile, reconcileExists, reconcile and delete.
use metal_operator.Base.{String, Bool, true, false, ◌&&◌, if◌then◌else◌, is_some, is_none}
use metal_operator.Api.Meta.{is_deleted}
use metal_operator.Api.Server.{Server, ServerState, server_state_eq}
use metal_operator.Effects.{
  Err, Result, M, pure, raise, ◌>>=◌, ◌>>◌, wrap, attempt, ignoring, is_not_found, optional,
  unless_modified,
}
use metal_operator.Effects.Env.{Env}
use metal_operator.Client.{
  get_server, ensure_server_finalizer, ensure_no_server_finalizer, delete_boot_configuration,
}
use metal_operator.ServerReconciler.Config.{
  ServerReconciler, ReconcileResult, done, server_finalizer, should_ignore_reconciliation,
}
use metal_operator.ServerReconciler.Boot.{apply_boot_order}
use metal_operator.ServerReconciler.Status.{
  patch_server_state, handle_annotation_operations, update_server_status, apply_bios_settings,
}
use metal_operator.ServerReconciler.States.{ensure_server_state_transition}

module _ (env : Env) (r : ServerReconciler) where
  unfoldable pub delete_boot_config : Server → M (Unit {0})
  unfolding is_not_found
  delete_boot_config s = optional s.spec.boot_configuration_ref (pure tt) λ ref.
      wrap "failed to delete server bootconfiguration"
        (ignoring is_not_found (delete_boot_configuration env ref.namespace ref.name))

  unfoldable pub delete : Server → M ReconcileResult
  unfolding delete_boot_config
  delete s = do
    delete_boot_config s
    _ ← ensure_no_server_finalizer env s server_finalizer
    pure done

  -- Late initialization of the state.
  unfoldable pub initialize_state : Server → M (Server × Bool)
  initialize_state s =
      if server_state_eq s.status.state ServerState.unset
      then patch_server_state env r s ServerState.initial
      else pure (s, false)

  unfoldable pub reserve : Server → M (Server × Bool)
  reserve s =
      if is_some s.spec.server_claim_ref
      then patch_server_state env r s ServerState.reserved
      else pure (s, false)

  unfoldable pub release : Server → M (Server × Bool)
  release s =
      if is_none s.spec.server_claim_ref && server_state_eq s.status.state ServerState.reserved
      then patch_server_state env r s ServerState.available
      else pure (s, false)

  -- What reconcile returns for the outcome of the state transition.
  unfoldable pub conclude : Result Bool → M ReconcileResult
  unfolding is_not_found
  conclude (Result.ok requeue) =
      if requeue
      then pure (record { requeue = true; requeue_after = r.resync_interval })
      else pure done
  conclude (Result.err e) =
      if is_not_found e
      then pure done
      else raise (Err.wrapped "failed to ensure server state transition" e)

  -- From updateServerStatus on.
  unfoldable pub drive : Server → M ReconcileResult
  unfolding conclude
  drive s = do
    s1 ← wrap "failed to update server status" (update_server_status env r s)
    s2 ← wrap "failed to update server bios settings" (apply_bios_settings env r s1)
    s3 ← wrap "failed to update server bios boot order" (apply_boot_order env r s2)
    outcome ← attempt (ensure_server_state_transition env r s3)
    conclude outcome

  unfoldable pub reconcile : Server → M ReconcileResult
  unfolding initialize_state reserve release drive should_ignore_reconciliation
  reconcile s =
      if should_ignore_reconciliation s.metadata
      then pure done
      else unless_modified (initialize_state s) done λ s1.
        unless_modified (handle_annotation_operations env r s1) done λ s2.
          unless_modified (ensure_server_finalizer env s2 server_finalizer) done
            λ s3. unless_modified (reserve s3) done λ s4. unless_modified (release s4) done drive

  unfoldable pub reconcile_exists : Server → M ReconcileResult
  unfolding delete reconcile
  reconcile_exists s = if is_deleted s.metadata then delete s else reconcile s

  -- `client.IgnoreNotFound(err)` for the error of `r.Get`
  unfoldable pub on_get_error : Err → M ReconcileResult
  unfolding is_not_found
  on_get_error e = if is_not_found e then pure done else raise e

  -- What Reconcile does with the server that it fetched, or with the error.
  unfoldable pub reconcile_fetched : Result Server → M ReconcileResult
  unfolding reconcile_exists on_get_error
  reconcile_fetched (Result.ok s) = reconcile_exists s
  reconcile_fetched (Result.err e) = on_get_error e

  unfoldable pub reconcile_request : String → M ReconcileResult
  unfolding reconcile_fetched
  reconcile_request name = attempt (get_server env name) >>= reconcile_fetched
