-- ===== src/ClaimReconciler/Claim.antt =====
-- The calls that bind a claim and a server: claimServer, ensureObjectRefForServer,
-- ensurePowerStateForServer, patchServerClaimPhase, patchServerRef, applyBootConfiguration.
use metal_operator.Base.{
  Bool, true, false, ◌==◌, if◌then◌else◌, Option, none, some, is_some, is_none,
}
use metal_operator.Api.Meta.{ObjectReference, LocalObjectReference, group_version}
use metal_operator.Api.Server.{Server, power_eq, with_claim_ref, with_boot_ref, with_power}
use metal_operator.Api.Claim.{ServerClaim, Phase, phase_eq, ServerBootConfiguration}
use metal_operator.Effects.{M, Result, pure, raise, optional, wrap, ◌>>=◌, Err}
use metal_operator.Effects.Env.{Env}
use metal_operator.Client.{
  patch_server, patch_claim, patch_claim_status, create_or_patch_boot_configuration,
}
use metal_operator.ServerReconciler.Boot.{boot_reference, empty_boot_configuration}
use metal_operator.ClaimReconciler.Select.{
  claim_server_by_reference, claim_server_by_selector, claim_first_best_server,
}

-- The reference that the code writes into `server.Spec.ServerClaimRef`.
abbrev pub claim_reference : ServerClaim → ObjectReference
claim_reference c = record {
  api_version = group_version;
  kind = "ServerClaim";
  namespace = c.metadata.namespace;
  name = c.metadata.name;
  uid = c.metadata.uid;
}

abbrev pub with_phase : Phase → ServerClaim → ServerClaim
with_phase p c = record c { phase = p }

abbrev pub with_server_ref : Option LocalObjectReference → ServerClaim → ServerClaim
with_server_ref ref c = record c { spec = record (c.spec) { server_ref = ref } }

module _ (env : Env) where
  unfoldable pub ensure_object_ref_for_server : ServerClaim → Server → M (Server × Bool)
  ensure_object_ref_for_server claim s =
      if is_some s.spec.server_claim_ref
      then pure (s, false)
      else wrap "failed to patch claim ref for server"
          (patch_server env s (with_claim_ref (some (claim_reference claim)) s))
        >>= λ s'. pure (s', true)

  unfoldable pub ensure_power_state_for_server : ServerClaim → Server → M (Server × Bool)
  ensure_power_state_for_server claim s =
      if power_eq s.spec.power claim.spec.power
      then pure (s, false)
      else if is_none s.spec.server_claim_ref
      then pure (s, true)
      else wrap "failed to patch power for server"
          (patch_server env s (with_power claim.spec.power s))
        >>= λ s'. pure (s', true)

  unfoldable pub patch_server_claim_phase : ServerClaim → Phase → M (ServerClaim × Bool)
  patch_server_claim_phase claim p =
      if phase_eq claim.phase p
      then pure (claim, false)
      else wrap "failed to patch server claim phase"
          (patch_claim_status env claim (with_phase p claim))
        >>= λ claim'. pure (claim', true)

  unfoldable pub patch_server_ref : ServerClaim → Server → M (ServerClaim × Bool)
  patch_server_ref claim s =
      optional claim.spec.server_ref
        (patch_claim env claim (with_server_ref (some (record { name = s.metadata.name })) claim)
          >>= λ claim'. pure (claim', true))
        λ ref.
          if ref.name == s.metadata.name
          then pure (claim, false)
          else raise
              (Err.failed "failed to patch server ref for claim: server reference is immutable")

  -- The function that CreateOrPatch applies to the boot configuration of a claim. The reference
  -- to the claim becomes the controller reference.
  unfoldable pub claim_configuration :
      ServerClaim → LocalObjectReference → ServerBootConfiguration → Result ServerBootConfiguration
  claim_configuration claim server_ref c =
      elim (env.set_controller_reference claim.metadata c.metadata) [
        | Result.err e ↦ Result.err e
        | Result.ok metadata ↦ Result.ok (record {
          metadata = metadata;
          spec = record {
            server_ref = server_ref;
            image = claim.spec.image;
            ignition_secret_ref = claim.spec.ignition_secret_ref;
          };
          state = c.state;
        })
      ]

  unfoldable pub apply_boot_configuration : Server → ServerClaim → M Server
  unfolding claim_configuration
  apply_boot_configuration s claim =
      optional claim.spec.server_ref (raise (Err.panic "nil pointer dereference")) λ server_ref.
        wrap "failed to create or patch ServerBootConfiguration" (
          create_or_patch_boot_configuration env
            (empty_boot_configuration claim.metadata.name claim.metadata.namespace)
            (claim_configuration claim server_ref))
        >>= λ config. patch_server env s (with_boot_ref (some (boot_reference config)) s)

  -- The switch at the start of claimServer.
  unfoldable pub select_server : ServerClaim → M (Option Server)
  unfolding claim_server_by_reference claim_server_by_selector claim_first_best_server
  select_server claim =
      if is_some claim.spec.server_ref
      then claim_server_by_reference env claim
      else if is_some claim.spec.server_selector
      then claim_server_by_selector env claim
      else claim_first_best_server env claim

  -- Once a server is selected, or none is.
  unfoldable pub ensure_claimed : ServerClaim → Option Server → M (Option Server × Bool)
  unfolding ensure_object_ref_for_server
  ensure_claimed claim found =
      optional found (pure (none, false))
        λ s. ensure_object_ref_for_server claim s >>= λ (s', modified). pure (some s', modified)

  unfoldable pub claim_server : ServerClaim → M (Option Server × Bool)
  unfolding select_server ensure_claimed
  claim_server claim = select_server claim >>= ensure_claimed claim
