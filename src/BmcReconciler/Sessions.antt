-- ===== src/BmcReconciler/Sessions.antt =====
-- The BMC controller closes each session with a BMC that it opens.
use metal_operator.Base.{ℕ, suc, refl, Bool, true, false, Option, none, some, List, [], ◌∷◌}
use metal_operator.Effects.{Err, Result, is_not_found, pure, raise, perform, attempt}
use metal_operator.Effects.Keeps.{
  Keeps, Anything, Keeps-pure, Keeps-raise, Keeps-wrap, Keeps-if, Keeps-optional, Keeps-then,
  Keeps-ignoring,
}
use metal_operator.Effects.Rules.{Keeps-bind_any, Keeps-attempt_any}
use metal_operator.Effects.Sessions.{SessionCalls, Open, is_ok, Keeps-neutral, Keeps-session}
use metal_operator.Api.Meta.{is_deleted}
use metal_operator.ServerReconciler.Config.{should_ignore_reconciliation}
use metal_operator.BmcUtils.Clients.{BmcOptions, get_bmc_client_from_bmc}
use metal_operator.Redfish.Client.{BmcServer, Manager}
use metal_operator.EndpointReconciler.World.{BmcObject}
use metal_operator.BmcReconciler.World.{BmcCall, BmcHistory, BmcEnv, EndpointAddress}
use metal_operator.BmcReconciler.Reconcile.{
  connect, patch_status, patch_manager, update_from_manager, patch_address, with_endpoint,
  update_bmc_status_details, apply_servers, discover_servers, delete_bmc, discover_if_found,
  reconcile_bmc, reconcile_existing_bmc,
}

module _ (env : BmcEnv) (insecure : Bool) (options : BmcOptions) where
  abbrev opens : BmcCall → BmcHistory → Bool
  opens (BmcCall.connect b) h =
      is_ok (get_bmc_client_from_bmc (env.directory h) insecure options b.spec)
  opens _ h = false

  abbrev closes : BmcCall → Bool
  closes BmcCall.log_out = true
  closes _ = false

  -- A client that GetBMCClientFromBMC hands out is a session, which Logout closes.
  abbrev pub bmc_sessions : SessionCalls BmcCall
  bmc_sessions = record { opens = opens; closes = closes }

  abbrev O : ℕ → BmcHistory → Type 0
  O = Open bmc_sessions

  module _ (n : ℕ) where
    patched :
        (base new : BmcObject) → Keeps (O n) (patch_status env insecure options base new) Anything
    unfolding patch_status
    patched base new =
        Keeps-neutral bmc_sessions n (BmcCall.patch_status base new) _ (λ h. refl) refl

    manager_patched :
        (b : BmcObject) (m : Option Manager)
        → Keeps (O n) (patch_manager env insecure options b m) Anything
    unfolding patch_manager
    manager_patched b none = Keeps-pure b tt
    manager_patched b (some m) = patched b _

    applied :
        (b : BmcObject) (i : ℕ) (systems : List BmcServer)
        → Keeps (O n) (apply_servers env insecure options b i systems) Anything
    unfolding apply_servers
    applied b i [] = Keeps-pure tt tt
    applied b i (system ∷ systems) =
        Keeps-then _ _
          (Keeps-wrap _ _
            (Keeps-neutral bmc_sessions n (BmcCall.create_or_patch_server _ _) _ (λ h. refl) refl))
          (applied b (suc i) systems)

  module _ (n : ℕ) where
    managed : (b : BmcObject) → Keeps (O n) (update_from_manager env insecure options b) Anything
    unfolding update_from_manager connect
    managed b =
        Keeps-session bmc_sessions n (BmcCall.connect b) BmcCall.log_out _ (λ h. refl) refl
          (λ h. refl) refl _ _
          λ client.
            Keeps-bind_any _ _
              (Keeps-wrap "failed to get manager details" _ (
                Keeps-neutral bmc_sessions (suc n) BmcCall.get_manager client.get_manager
                  (λ h. refl) refl))
              (manager_patched (suc n) b)

    discovered : (b : BmcObject) → Keeps (O n) (discover_servers env insecure options b) Anything
    unfolding discover_servers connect
    discovered b =
        Keeps-session bmc_sessions n (BmcCall.connect b) BmcCall.log_out _ (λ h. refl) refl
          (λ h. refl) refl _ _
          λ client.
            Keeps-bind_any _ _
              (Keeps-wrap "failed to get Servers from BMC" _ (
                Keeps-neutral bmc_sessions (suc n) BmcCall.get_systems client.get_systems
                  (λ h. refl) refl))
              (applied (suc n) b 0)

    address_patched :
        (b : BmcObject) (a : EndpointAddress)
        → Keeps (O n) (patch_address env insecure options b a) Anything
    unfolding patch_address
    address_patched b a = Keeps-bind_any _ _ (Keeps-wrap _ _ (patched n b _)) managed

    endpoint_used :
        (b : BmcObject) (r : Result EndpointAddress)
        → Keeps (O n) (with_endpoint env insecure options b r) Anything
    unfolding with_endpoint
    endpoint_used b (Result.ok a) = address_patched b a
    endpoint_used b (Result.err e) =
        Keeps-if (is_not_found e) (pure b) (raise (Err.wrapped "failed to get Endpoints for BMC" e))
          (λ _. Keeps-pure b tt) (λ _. Keeps-raise _)

    updated :
        (b : BmcObject) → Keeps (O n) (update_bmc_status_details env insecure options b) Anything
    unfolding update_bmc_status_details
    updated b = Keeps-optional b.spec.endpoint_ref _ _ (address_patched b _) λ ref e.
        Keeps-bind_any
          (attempt (perform (BmcCall.get_endpoint ref.name) (env.get_endpoint ref.name))) _
          (Keeps-attempt_any _ (Keeps-neutral bmc_sessions n _ _ (λ h. refl) refl))
          (endpoint_used b)

    deleted : (b : BmcObject) → Keeps (O n) (delete_bmc env insecure options b) Anything
    unfolding delete_bmc
    deleted b =
        Keeps-bind_any _ _
          (Keeps-neutral bmc_sessions n (BmcCall.ensure_no_finalizer _ _) _ (λ h. refl) refl)
          (λ m. Keeps-pure tt tt)

    discovered_if_found :
        (b : BmcObject) → Keeps (O n) (discover_if_found env insecure options b) Anything
    unfolding discover_if_found
    discovered_if_found b = Keeps-wrap _ _ (Keeps-ignoring _ _ (discovered b))

    -- A reconciliation of a BMC leaves as many sessions with BMCs open as it found, on every way
    -- out.
    pub reconcile-Open :
        (b : BmcObject)
        → Keeps (Open bmc_sessions n) (reconcile_existing_bmc env insecure options b) Anything
    unfolding reconcile_existing_bmc reconcile_bmc
    reconcile-Open b =
        Keeps-if (is_deleted b.metadata) _ _ (λ d. deleted b)
          λ l.
            Keeps-if (should_ignore_reconciliation b.metadata) _ _ (λ i. Keeps-pure tt tt)
              λ i. Keeps-bind_any _ _ (Keeps-wrap _ _ (updated b)) discovered_if_found
