-- ===== src/ServerReconciler/KeepsState.antt =====
-- The parts of a reconciliation that leave the state of the server as it is.
use metal_operator.Base.{String, ◌∙◌, Bool, List, [], ◌∷◌}
use metal_operator.Api.Server.{Server, ServerState, BiosSettings}
use metal_operator.Effects.Env.{Env, Bmc}
use metal_operator.Effects.Keeps.{
  Keeps, Anything, Keeps-pure, Keeps-perform, Keeps-wrap, Keeps-if, Keeps-bind, Keeps-then,
}
use metal_operator.ServerReconciler.Config.{ServerReconciler}
use metal_operator.ServerReconciler.Power.{
  set_power_off, adopt_power_off, enforce_first_power_off, ensure_initial_conditions,
}
use metal_operator.ServerReconciler.Boot.{apply_boot_configuration_for_discovery, apply_boot_order}
use metal_operator.ServerReconciler.Status.{
  read_bios, update_server_status, note_reset, apply_matching_bios, apply_bios_settings,
  handle_annotation_operations, update_server_status_from, read_bios_settings,
}
use metal_operator.ServerReconciler.StateSteps.{
  IsLawful, IsLawful-IsStable, InState, patch_server-InState, patch_status-InState,
}
use metal_operator.ServerReconciler.Diagram.{IsSingleWriter}
use metal_operator.ServerReconciler.Quiet.{quiet_rules, Keeps-bind_any}
use metal_operator.ServerReconciler.QuietParts.{apply_default_ignition-Keeps}

module _ (env : Env) (r : ServerReconciler) (w : IsSingleWriter env) where
  pub read_bios_settings-InState :
      (bmc : Bmc) (v : String) (b : BiosSettings) (s : Server) (x : ServerState)
      → InState x s
      → Keeps (IsLawful env r) (read_bios_settings env r bmc v b s) (InState x)
  unfolding read_bios_settings
  read_bios_settings-InState bmc v b s x e =
      search (quiet_rules, IsLawful-IsStable env r, Keeps-pure, Keeps-if)

  pub read_bios-InState :
      (bmc : Bmc) (v : String) (bs : List BiosSettings) (s : Server) (x : ServerState)
      → InState x s
      → Keeps (IsLawful env r) (read_bios env r bmc v bs s) (InState x)
  unfolding read_bios
  read_bios-InState bmc v [] s x e = Keeps-pure s e
  read_bios-InState bmc v (b ∷ bs) s x e =
      Keeps-bind _ _ (read_bios_settings-InState bmc v b s x e)
        (λ s' e'. read_bios-InState bmc v bs s' x e')

  pub update_server_status_from-InState :
      (bmc : Bmc) (s : Server) (x : ServerState)
      → InState x s
      → Keeps (IsLawful env r) (update_server_status_from env r bmc s) (InState x)
  unfolding update_server_status_from
  update_server_status_from-InState bmc s x e =
      Keeps-bind_any _ _ (search (quiet_rules, IsLawful-IsStable env r)) λ info.
        Keeps-bind_any _ _ (search (quiet_rules, IsLawful-IsStable env r)) λ v.
          Keeps-bind _ _ (read_bios-InState bmc v s.spec.bios _ x e)
            λ s' e'. Keeps-wrap _ _ (patch_status-InState env r w s s' x e e')

  pub update_server_status-InState :
      (s : Server) (x : ServerState)
      → InState x s
      → Keeps (IsLawful env r) (update_server_status env r s) (InState x)
  unfolding update_server_status
  update_server_status-InState s x e =
      search
        (
          quiet_rules,
          IsLawful-IsStable env r,
          Keeps-pure,
          Keeps-if,
          update_server_status_from-InState,
        )
        depth 8

  pub note_reset-InState :
      (s : Server) (b : Bool) (x : ServerState)
      → InState x s
      → Keeps (IsLawful env r) (note_reset env r s b) (InState x)
  unfolding note_reset
  note_reset-InState s b x e =
      search (Keeps-pure, Keeps-if, Keeps-wrap, patch_status-InState env r w s)

  pub apply_matching_bios-InState :
      (bmc : Bmc) (v : String) (bs : List BiosSettings) (s : Server) (x : ServerState)
      → InState x s
      → Keeps (IsLawful env r) (apply_matching_bios env r bmc s v bs) (InState x)
  unfolding apply_matching_bios
  apply_matching_bios-InState bmc v [] s x e = Keeps-pure s e
  apply_matching_bios-InState bmc v (b ∷ bs) s x e =
      search
        (
          quiet_rules,
          IsLawful-IsStable env r,
          Keeps-if,
          note_reset-InState,
          apply_matching_bios-InState bmc v bs s x e,
        )
        depth 8

  pub apply_bios_settings-InState :
      (s : Server) (x : ServerState)
      → InState x s
      → Keeps (IsLawful env r) (apply_bios_settings env r s) (InState x)
  unfolding apply_bios_settings
  apply_bios_settings-InState s x e =
      search
        (quiet_rules, IsLawful-IsStable env r, Keeps-pure, Keeps-if, apply_matching_bios-InState)
        depth 8

  pub apply_boot_order-InState :
      (s : Server) (x : ServerState)
      → InState x s
      → Keeps (IsLawful env r) (apply_boot_order env r s) (InState x)
  unfolding apply_boot_order
  apply_boot_order-InState s x e =
      search (quiet_rules, IsLawful-IsStable env r, Keeps-pure, Keeps-if, Keeps-then) depth 12

  pub handle_annotation_operations-IsLawful :
      (s : Server) → Keeps (IsLawful env r) (handle_annotation_operations env r s) Anything
  unfolding handle_annotation_operations
  handle_annotation_operations-IsLawful s = search (quiet_rules, IsLawful-IsStable env r) depth 12

  pub set_power_off-InState :
      (s : Server) (x : ServerState)
      → InState x s
      → Keeps (IsLawful env r) (set_power_off env r s) (λ y. InState x y.0)
  unfolding set_power_off
  set_power_off-InState s x e = Keeps-wrap _ _ (
      Keeps-bind _ _
        (Keeps-wrap _ _ (
          Keeps-perform {P = λ y. InState x y.0} _ _ (λ h j. (tt, j))
            λ h y a. w.create_or_patch s y.0 _ y.1 h a ∙ e))
        (λ y p. Keeps-pure _ p))

  pub adopt_power_off-InState :
      (s : Server) (x : ServerState)
      → InState x s
      → Keeps (IsLawful env r) (adopt_power_off env r s) (λ y. InState x y.0)
  unfolding adopt_power_off
  adopt_power_off-InState s x e = search (Keeps-if, Keeps-pure, set_power_off-InState)

  pub enforce_first_power_off-InState :
      (s : Server) (x : ServerState)
      → InState x s
      → Keeps (IsLawful env r) (enforce_first_power_off env r s) (λ y. InState x y.0)
  unfolding enforce_first_power_off
  enforce_first_power_off-InState s x e = search (Keeps-if, Keeps-pure, set_power_off-InState)

  pub ensure_initial_conditions-InState :
      (s : Server) (x : ServerState)
      → InState x s
      → Keeps (IsLawful env r) (ensure_initial_conditions env r s) (λ y. InState x y.0)
  unfolding ensure_initial_conditions
  ensure_initial_conditions-InState s x e =
      Keeps-bind _ _ (adopt_power_off-InState s x e)
        λ y p. search (Keeps-if, Keeps-pure, enforce_first_power_off-InState)

  pub apply_boot_configuration_for_discovery-InState :
      (s : Server) (x : ServerState)
      → InState x s
      → Keeps (IsLawful env r) (apply_boot_configuration_for_discovery env r s) (InState x)
  unfolding apply_boot_configuration_for_discovery
  apply_boot_configuration_for_discovery-InState s x e =
      Keeps-bind_any _ _ (search (quiet_rules, IsLawful-IsStable env r)) λ config.
        Keeps-bind _ _ (patch_server-InState env r w s _ x e) λ s' e'.
          Keeps-then _ _ (search (apply_default_ignition-Keeps, IsLawful-IsStable env r))
            (Keeps-pure s' e')
