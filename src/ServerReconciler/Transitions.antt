-- ===== src/ServerReconciler/Transitions.antt =====
-- Every status patch of the handlers of the states keeps the state or follows an edge.
use metal_operator.ServerReconciler.Diagram.{BootReady}
use metal_operator.ServerReconciler.Boot.{boot_configuration_is_ready}
use metal_operator.Api.Meta.{ObjectReference}
use metal_operator.Client.{get_boot_configuration}
use metal_operator.Api.Claim.{
  ServerBootConfiguration, BootConfigurationState, boot_configuration_state_eq,
}
use metal_operator.Base.{◌≡◌, refl, Option, none, some, ◌∷◌, arith, true, false}
use metal_operator.Effects.{Result, Call, History, proceed, pure, perform, optional, ◌>>=◌}
use metal_operator.Api.Server.{Server, ServerState}
use metal_operator.Effects.Env.{Env, HttpResponse}
use metal_operator.Effects.Keeps.{
  Keeps, Kept, Anything, Keeps-pure, Keeps-raise, Keeps-wrap, Keeps-if, Keeps-optional, Keeps-bind,
  Keeps-then, Keeps-unless_modified,
}
use metal_operator.ServerReconciler.Config.{ServerReconciler}
use metal_operator.ServerReconciler.Status.{
  extract_server_details_from_registry, store_registry_details, is_not_found_status,
}
use metal_operator.ServerReconciler.States.{
  handle_initial_state, power_on_and_read_storages, read_registry, discover, handle_discovery_state,
  handle_available_state, handle_reserved_state, transition,
}
use metal_operator.ServerReconciler.Diagram.{IsSingleWriter}
use metal_operator.ServerReconciler.Quiet.{quiet_rules, Keeps-bind_any}
use metal_operator.ServerReconciler.QuietParts.{
  ensure_server_power_state-Keeps, boot_configuration_is_ready-Keeps, pxe_boot_server-Keeps,
  ensure_initial_boot_configuration_is_deleted-Keeps,
}
use metal_operator.ServerReconciler.StateSteps.{
  IsLawful, IsLawful-IsStable, InState, patch_server-InState, patch_status-InState,
}
use metal_operator.ServerReconciler.KeepsState.{ensure_initial_conditions-InState}
use metal_operator.ServerReconciler.Guards.{
  finish_discovery-IsLawful, boot_for_discovery-IsLawful, give_up_discovery-InState,
}

ready_state :
    (x : BootConfigurationState)
    → boot_configuration_state_eq x BootConfigurationState.ready ≡ true
    → x ≡ BootConfigurationState.ready
unfolding boot_configuration_state_eq
ready_state x t = ground arith

module _ (env : Env) (r : ServerReconciler) (w : IsSingleWriter env) where
  handle_initial_state-IsLawful :
      (s : Server)
      → InState ServerState.initial s
      → Keeps (IsLawful env r) (handle_initial_state env r s) Anything
  unfolding handle_initial_state
  handle_initial_state-IsLawful s e =
      Keeps-bind _ _ (ensure_initial_conditions-InState env r w s _ e) λ y p.
        Keeps-if y.1 _ _ (λ _. Keeps-pure true tt) (λ _. boot_for_discovery-IsLawful env r w y.0 p)

  power_on_and_read_storages-InState :
      (s : Server)
      → InState ServerState.discovery s
      → Keeps (IsLawful env r) (power_on_and_read_storages env r s) (InState ServerState.discovery)
  unfolding power_on_and_read_storages
  power_on_and_read_storages-InState s e =
      Keeps-bind _ _ (Keeps-wrap _ _ (patch_server-InState env r w s _ _ e)) λ s1 e1.
        Keeps-then _ _
          (search (Keeps-wrap, ensure_server_power_state-Keeps, IsLawful-IsStable env r))
          (Keeps-bind_any _ _ (search (quiet_rules, IsLawful-IsStable env r)) λ bmc.
            Keeps-bind_any _ _ (search (quiet_rules, IsLawful-IsStable env r))
              λ storages. Keeps-wrap _ _ (patch_status-InState env r w s _ _ e e1))

  store_registry_details-InState :
      (s : Server) (resp : HttpResponse) (x : ServerState)
      → InState x s
      → Keeps (IsLawful env r) (store_registry_details env r s resp) (λ y. InState x y.0)
  unfolding store_registry_details
  store_registry_details-InState s resp x e = Keeps-bind_any _ _ (search quiet_rules) λ details.
      Keeps-bind_any _ _ (search quiet_rules) λ nics.
        Keeps-bind _ _ (Keeps-wrap _ _ (patch_status-InState env r w s _ x e e))
          λ s' e'. Keeps-pure _ e'

  extract_server_details_from_registry-InState :
      (s : Server) (x : ServerState)
      → InState x s
      → Keeps (IsLawful env r) (extract_server_details_from_registry env r s) (λ y. InState x y.0)
  unfolding extract_server_details_from_registry
  extract_server_details_from_registry-InState s x e =
      Keeps-bind_any _ _ (search (quiet_rules, IsLawful-IsStable env r)) λ reply.
        Keeps-optional reply.response _ _ (Keeps-raise _) λ resp _.
          Keeps-if (is_not_found_status resp.status_code) _ _ (λ _. Keeps-pure _ e)
            (λ _.
              Keeps-optional reply.error _ _ (store_registry_details-InState s resp x e)
                (λ f _. Keeps-raise _))

  read_registry-IsLawful :
      (s : Server)
      → BootReady env
      → InState ServerState.discovery s
      → Keeps (IsLawful env r) (read_registry env r s) Anything
  unfolding read_registry
  read_registry-IsLawful s ready e =
      Keeps-bind _ _ (extract_server_details_from_registry-InState s _ e) λ y p.
        Keeps-if y.1 _ _ (λ _. finish_discovery-IsLawful env r w y.0 ready p)
          (λ _. Keeps-pure true tt)

  discover-IsLawful :
      (s : Server)
      → BootReady env
      → InState ServerState.discovery s
      → Keeps (IsLawful env r) (discover env r s) Anything
  unfolding discover
  discover-IsLawful s ready e = Keeps-bind _ _ (power_on_and_read_storages-InState s e) λ s1 e1.
      Keeps-unless_modified _ _ _ (give_up_discovery-InState env r w s1 ready e1) tt
        (λ s2 e2. read_registry-IsLawful s2 ready e2)

  -- A boot configuration that is found ready was answered to be.
  boot_configuration_is_ready-BootReady :
      (s : Server)
      → InState ServerState.discovery s
      → Keeps (IsLawful env r) (boot_configuration_is_ready env r s) (λ b. b ≡ true → BootReady env)
  unfolding boot_configuration_is_ready optional perform pure ◌>>=◌
  boot_configuration_is_ready-BootReady s e = record {
    at = λ h j. go s.spec.boot_configuration_ref refl h j;
  }
    where
      read :
          (ref : ObjectReference) (h : History) (x : Result ServerBootConfiguration)
          → s.spec.boot_configuration_ref ≡ some ref
          → env.get_boot_configuration ref.namespace ref.name h ≡ x
          → IsLawful env r h
          → Kept
              (IsLawful env r)
              (λ b. b ≡ true → BootReady env)
              (proceed
                (x, Call.get_boot_configuration ref.namespace ref.name ∷ h)
                (λ config.
                  pure (boot_configuration_state_eq config.state BootConfigurationState.ready)))
      read ref h (Result.ok config) l a j = (
        (tt, j),
        λ t. record {
          server = s;
          ref = ref;
          read_at = h;
          config = config;
          discovered = e;
          referenced = l;
          answered = a;
          is_ready = ready_state config.state t;
        },
      )
      read ref h (Result.err f) l a j = (tt, j)

      go :
          (o : Option ObjectReference)
          → s.spec.boot_configuration_ref ≡ o
          → (h : History) → IsLawful env r h
          → Kept
              (IsLawful env r)
              (λ b. b ≡ true → BootReady env)
              (optional o
                (pure false)
                (λ ref. get_boot_configuration env ref.namespace ref.name >>= λ config.
                  pure (boot_configuration_state_eq config.state BootConfigurationState.ready))
                h)
      go none q h j = (j, λ t. absurd (ground arith))
      go (some ref) q h j =
          read ref h (env.get_boot_configuration ref.namespace ref.name h) q refl j

  handle_discovery_state-IsLawful :
      (s : Server)
      → InState ServerState.discovery s
      → Keeps (IsLawful env r) (handle_discovery_state env r s) Anything
  unfolding handle_discovery_state
  handle_discovery_state-IsLawful s e =
      Keeps-bind _ _ (boot_configuration_is_ready-BootReady s e)
        λ ready k. Keeps-if ready _ _ (λ t. discover-IsLawful s (k t) e) (λ _. Keeps-pure true tt)

  handle_available_state-IsLawful :
      (s : Server) → Keeps (IsLawful env r) (handle_available_state env r s) Anything
  unfolding handle_available_state
  handle_available_state-IsLawful s =
      search
        (
          quiet_rules,
          IsLawful-IsStable env r,
          ensure_server_power_state-Keeps,
          ensure_initial_boot_configuration_is_deleted-Keeps,
        )
        depth 12

  handle_reserved_state-IsLawful :
      (s : Server) → Keeps (IsLawful env r) (handle_reserved_state env r s) Anything
  unfolding handle_reserved_state
  handle_reserved_state-IsLawful s =
      search
        (
          quiet_rules,
          IsLawful-IsStable env r,
          ensure_server_power_state-Keeps,
          boot_configuration_is_ready-Keeps,
          pxe_boot_server-Keeps,
        )
        depth 12

  pub transition-IsLawful :
      (x : ServerState) (s : Server)
      → InState x s
      → Keeps (IsLawful env r) (transition env r x s) Anything
  unfolding transition
  transition-IsLawful ServerState.initial s e = handle_initial_state-IsLawful s e
  transition-IsLawful ServerState.discovery s e = handle_discovery_state-IsLawful s e
  transition-IsLawful ServerState.available s e = handle_available_state-IsLawful s
  transition-IsLawful ServerState.reserved s e = handle_reserved_state-IsLawful s
  transition-IsLawful _ s e = Keeps-pure false tt
