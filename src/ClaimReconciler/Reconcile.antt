-- ===== src/ClaimReconciler/Reconcile.antt =====
-- Reconcile, reconcileExists, reconcile, delete and cleanupAndShutdownServer of the claim
-- controller, and the map function of its watch on servers.
use metal_operator.Base.{
  String, Bool, true, false, not, ◌&&◌, ◌==◌, ◌!=◌, if◌then◌else◌, none, some, is_some, List, [],
  ◌∷◌,
}
use metal_operator.Api.Meta.{is_deleted}
use metal_operator.Api.Server.{
  Server, Power, with_claim_ref, with_boot_ref, with_power, empty_server,
}
use metal_operator.Api.Claim.{ServerClaim, Phase, phase_eq}
use metal_operator.Effects.{
  M, pure, raise, optional, wrap, attempt, ignoring, unless_modified, is_not_found, ◌>>=◌, ◌>>◌,
  Err, Result,
}
use metal_operator.Effects.Env.{Env}
use metal_operator.Client.{
  get_server, get_claim, patch_server, delete_boot_configuration, ensure_claim_finalizer,
  ensure_no_claim_finalizer,
}
use metal_operator.ServerReconciler.Config.{ReconcileResult, done, should_ignore_reconciliation}
use metal_operator.ClaimReconciler.Claim.{
  patch_server_claim_phase, patch_server_ref, apply_boot_configuration, claim_server,
  ensure_power_state_for_server,
}

abbrev pub server_claim_finalizer : String
server_claim_finalizer = "metal.ironcore.dev/serverclaim"

-- `ctrl.Result{Requeue: true}`
abbrev pub requeue_now : ReconcileResult
requeue_now = record { requeue = true; requeue_after = 0 }

module _ (env : Env) where
  unfoldable pub remove_claim_ref_from_server : Server → M Server
  remove_claim_ref_from_server s = patch_server env s (with_claim_ref none s)

  -- Whether the server keeps its boot configuration: it has none, or it has one that differs in
  -- its name and in its namespace.
  unfoldable pub keeps_boot_ref : String → String → Server → Bool
  keeps_boot_ref name namespace s = elim s.spec.boot_configuration_ref [
    | none ↦ true
    | some ref ↦ ref.name != name && ref.namespace != namespace
  ]

  unfoldable pub forget_server : M Server → M (Unit {0})
  forget_server m = m >>= λ _. pure tt

  unfoldable pub remove_boot_config_ref_from_server_and_power_off :
      String → String → Server → M (Unit {0})
  unfolding keeps_boot_ref is_not_found forget_server
  remove_boot_config_ref_from_server_and_power_off name namespace s =
      if keeps_boot_ref name namespace s
      then pure tt
      else ignoring is_not_found
          (forget_server (patch_server env s (with_power Power.off (with_boot_ref none s))))

  -- `r.Client.Get` of the referenced server: a missing server leaves the empty object.
  unfoldable pub server_or_empty : Result Server → M Server
  unfolding is_not_found
  server_or_empty (Result.ok s) = pure s
  server_or_empty (Result.err e) =
      if is_not_found e then pure empty_server else raise (Err.wrapped "failed to get server" e)

  -- cleanupAndShutdownServer from the removal of the claim reference on.
  unfoldable pub clean_up : ServerClaim → Server → M (Unit {0})
  unfolding remove_claim_ref_from_server remove_boot_config_ref_from_server_and_power_off
  clean_up claim s = do
    s' ←
        if is_some s.spec.server_claim_ref
        then wrap "failed to remove claim ref from server" (remove_claim_ref_from_server s)
        else pure s
    wrap "failed to delete serverbootconfig" (
        ignoring is_not_found
          (delete_boot_configuration env claim.metadata.namespace claim.metadata.name))
    wrap "failed to remove boot config ref from server" (
        remove_boot_config_ref_from_server_and_power_off claim.metadata.name
          claim.metadata.namespace s')

  unfoldable pub cleanup_and_shutdown_server : ServerClaim → M (Unit {0})
  unfolding server_or_empty clean_up
  cleanup_and_shutdown_server claim =
      optional claim.spec.server_ref (pure tt)
        λ ref. attempt (get_server env ref.name) >>= server_or_empty >>= clean_up claim

  -- What delete returns for the outcome of PatchEnsureNoFinalizer.
  unfoldable pub conclude_delete : Result Bool → M ReconcileResult
  unfolding is_not_found
  conclude_delete (Result.ok modified) = pure done
  conclude_delete (Result.err e) = if is_not_found e then pure done else raise e

  unfoldable pub delete : ServerClaim → M ReconcileResult
  unfolding cleanup_and_shutdown_server conclude_delete
  delete claim =
      if not (env.contains_finalizer claim.metadata.finalizers server_claim_finalizer)
      then pure done
      else cleanup_and_shutdown_server claim
        >> (attempt (ensure_no_claim_finalizer env claim server_claim_finalizer)
            >>= conclude_delete)

  -- reconcile once a server is claimed.
  unfoldable pub bind_server : ServerClaim → Server → M ReconcileResult
  unfolding patch_server_ref apply_boot_configuration patch_server_claim_phase
      ensure_power_state_for_server
  bind_server claim s = unless_modified (patch_server_ref env claim s) done λ claim1.
      wrap "failed to apply boot configuration" (apply_boot_configuration env s claim1) >>= λ s'.
      unless_modified (patch_server_claim_phase env claim1 Phase.bound) done
        λ claim2. unless_modified (ensure_power_state_for_server env claim2 s') done λ s2. pure done

  unfoldable pub initialize_phase : ServerClaim → M (ServerClaim × Bool)
  unfolding patch_server_claim_phase
  initialize_phase claim =
      if phase_eq claim.phase Phase.unset
      then patch_server_claim_phase env claim Phase.unbound
      else pure (claim, false)

  unfoldable pub reconcile : ServerClaim → M ReconcileResult
  unfolding claim_server bind_server initialize_phase should_ignore_reconciliation
  reconcile claim =
      if should_ignore_reconciliation claim.metadata
      then pure done
      else unless_modified (initialize_phase claim) done λ claim1.
        unless_modified (ensure_claim_finalizer env claim1 server_claim_finalizer) done λ claim2.
          unless_modified (claim_server env claim2) requeue_now
            λ found. optional found (pure done) (bind_server claim2)

  unfoldable pub reconcile_exists : ServerClaim → M ReconcileResult
  unfolding delete reconcile
  reconcile_exists claim = if is_deleted claim.metadata then delete claim else reconcile claim

  -- What Reconcile does with the claim that it fetched, or with the error.
  unfoldable pub reconcile_fetched : Result ServerClaim → M ReconcileResult
  unfolding reconcile_exists is_not_found
  reconcile_fetched (Result.ok claim) = reconcile_exists claim
  reconcile_fetched (Result.err e) = if is_not_found e then pure done else raise e

  unfoldable pub reconcile_request : String → String → M ReconcileResult
  unfolding reconcile_fetched
  reconcile_request namespace name = attempt (get_claim env namespace name) >>= reconcile_fetched

-- The requests, each a namespace and a name, that a change of the server enqueues: the loop of
-- enqueueServerClaimByRefs over all claims.
unfoldable pub enqueue_server_claim_by_refs : Server → List ServerClaim → List (String × String)
enqueue_server_claim_by_refs host [] = []
enqueue_server_claim_by_refs host (claim ∷ claims) =
    let rest = enqueue_server_claim_by_refs host claims in
    elim claim.spec.server_ref [
      | none ↦ (claim.metadata.namespace, claim.metadata.name) ∷ []
      | some ref ↦
          if ref.name == host.metadata.name
          then (claim.metadata.namespace, claim.metadata.name) ∷ []
          else rest
    ]
