-- ===== src/ServerReconciler/Lawful.antt =====
-- The changes of state in a whole reconciliation, from the fetch of the server to its last call.
use metal_operator.Base.{String, ◌≡◌, refl, Bool, true, Option, none, is_some, is_none, ◌&&◌, arith}
use metal_operator.Api.Server.{Server, ServerState, server_state_eq}
use metal_operator.Effects.{Result, Err, History}
use metal_operator.Effects.Env.{Env}
use metal_operator.Effects.Keeps.{
  Keeps, Kept-history, Anything, Keeps-pure, Keeps-wrap, Keeps-if, Keeps-bind, Keeps-weaken,
  Keeps-attempt,
}
use metal_operator.ServerReconciler.Config.{ServerReconciler}
use metal_operator.ServerReconciler.Status.{patch_server_state}
use metal_operator.ServerReconciler.States.{ensure_server_state_transition}
use metal_operator.ServerReconciler.Reconcile.{
  delete, initialize_state, reserve, release, conclude, drive, reconcile, reconcile_exists,
  on_get_error, reconcile_fetched, reconcile_request,
}
use metal_operator.ServerReconciler.Diagram.{Edge, IsSingleWriter, server_state_eq-true}
use metal_operator.ServerReconciler.Quiet.{quiet_rules, Keeps-bind_any, Keeps-if_any}
use metal_operator.ServerReconciler.StateSteps.{
  IsLawful, IsLawful-IsStable, patch_server_state-IsLawful,
}
use metal_operator.ServerReconciler.KeepsState.{
  update_server_status-InState, apply_bios_settings-InState, apply_boot_order-InState,
  handle_annotation_operations-IsLawful,
}
use metal_operator.ServerReconciler.Transitions.{transition-IsLawful}

claim_free : {A : Type 0} (o : Option A) → is_none o ≡ true → o ≡ none
claim_free o h = ground arith

module _ (env : Env) (r : ServerReconciler) (w : IsSingleWriter env) where
  -- A patch of the state, whose result is not used further.
  patched :
      (s : Server) (x : ServerState)
      → ((h : History) → Edge env r s h x)
      → Keeps (IsLawful env r) (patch_server_state env r s x) Anything
  patched s x e = Keeps-weaken _ (patch_server_state-IsLawful env r w s x e) (λ y p. tt)

  initialize_state-IsLawful :
      (s : Server) → Keeps (IsLawful env r) (initialize_state env r s) Anything
  unfolding initialize_state
  initialize_state-IsLawful s =
      Keeps-if (server_state_eq s.status.state ServerState.unset) _ _
        (λ q.
          patched s ServerState.initial
            (λ h. Edge.start (server_state_eq-true s.status.state ServerState.unset q)))
        (λ _. Keeps-pure _ tt)

  reserve-IsLawful : (s : Server) → Keeps (IsLawful env r) (reserve env r s) Anything
  unfolding reserve
  reserve-IsLawful s =
      Keeps-if (is_some s.spec.server_claim_ref) _ _
        (λ q. patched s ServerState.reserved (λ h. Edge.reserve q)) (λ _. Keeps-pure _ tt)

  release-IsLawful : (s : Server) → Keeps (IsLawful env r) (release env r s) Anything
  unfolding release
  release-IsLawful s =
      Keeps-if
        (is_none s.spec.server_claim_ref && server_state_eq s.status.state ServerState.reserved) _ _
        (λ q. patched s ServerState.available (λ h.
          Edge.release (claim_free s.spec.server_claim_ref (ground arith))
            (server_state_eq-true s.status.state ServerState.reserved (ground arith))))
        (λ _. Keeps-pure _ tt)

  conclude-IsLawful : (o : Result Bool) → Keeps (IsLawful env r) (conclude env r o) Anything
  unfolding conclude
  conclude-IsLawful (Result.ok b) = search quiet_rules
  conclude-IsLawful (Result.err e) = search quiet_rules

  drive-IsLawful : (s : Server) → Keeps (IsLawful env r) (drive env r s) Anything
  unfolding drive ensure_server_state_transition
  drive-IsLawful s =
      Keeps-bind _ _ (Keeps-wrap _ _ (update_server_status-InState env r w s _ refl)) λ s1 e1.
        Keeps-bind _ _ (Keeps-wrap _ _ (apply_bios_settings-InState env r w s1 _ e1)) λ s2 e2.
          Keeps-bind _ _ (Keeps-wrap _ _ (apply_boot_order-InState env r w s2 _ e2)) λ s3 e3.
            Keeps-bind _ _ (Keeps-attempt _ (transition-IsLawful env r w s3.status.state s3 refl))
              (λ outcome _. conclude-IsLawful outcome)

  reconcile-IsLawful : (s : Server) → Keeps (IsLawful env r) (reconcile env r s) Anything
  unfolding reconcile
  reconcile-IsLawful s =
      search
        (
          quiet_rules,
          IsLawful-IsStable env r,
          initialize_state-IsLawful,
          handle_annotation_operations-IsLawful env r w,
          reserve-IsLawful,
          release-IsLawful,
          drive-IsLawful,
        )
        depth 12

  delete-IsLawful : (s : Server) → Keeps (IsLawful env r) (delete env r s) Anything
  unfolding delete
  delete-IsLawful s = search (quiet_rules, IsLawful-IsStable env r) depth 12

  reconcile_exists-IsLawful :
      (s : Server) → Keeps (IsLawful env r) (reconcile_exists env r s) Anything
  unfolding reconcile_exists
  reconcile_exists-IsLawful s = search (Keeps-if_any, delete-IsLawful, reconcile-IsLawful)

  on_get_error-IsLawful : (e : Err) → Keeps (IsLawful env r) (on_get_error env r e) Anything
  unfolding on_get_error
  on_get_error-IsLawful e = search quiet_rules

  reconcile_fetched-IsLawful :
      (o : Result Server) → Keeps (IsLawful env r) (reconcile_fetched env r o) Anything
  unfolding reconcile_fetched
  reconcile_fetched-IsLawful (Result.ok s) = reconcile_exists-IsLawful s
  reconcile_fetched-IsLawful (Result.err e) = on_get_error-IsLawful e

  reconcile_request-Keeps :
      (name : String) → Keeps (IsLawful env r) (reconcile_request env r name) Anything
  unfolding reconcile_request
  reconcile_request-Keeps name =
      Keeps-bind_any _ _ (search (quiet_rules, IsLawful-IsStable env r)) reconcile_fetched-IsLawful

  -- Under a single writer of the state, whatever the API server, the registry and the BMC answer:
  -- if all status patches before a reconciliation of the named server kept its state or followed
  -- an edge, then so did all status patches after it, on every way out. The edges are: from the
  -- empty state to Initial; from Initial to Discovery, right after the network boot of the server
  -- was set, where it has a boot configuration; from Discovery to Available, right after its
  -- registry entry was deleted; from Discovery to Initial, right after the clock showed that the
  -- discovery timeout is over since the last status update, both of these only where the boot
  -- configuration of a server in Discovery was answered as ready; from any state to Reserved, for a
  -- server with a claim; and from Reserved to Available, for a server without one.
  pub reconcile_request-IsLawful :
      (name : String) (h : History)
      → IsLawful env r h
      → IsLawful env r (reconcile_request env r name h).1
  reconcile_request-IsLawful name h j =
      Kept-history (IsLawful env r) Anything _ ((reconcile_request-Keeps name).at h j)
