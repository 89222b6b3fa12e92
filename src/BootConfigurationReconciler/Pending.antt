-- ===== src/BootConfigurationReconciler/Pending.antt =====
-- The one change that the controller makes to a boot configuration.
use metal_operator.Base.{String, ◌≡◌, refl, true, arith}
use metal_operator.Api.Meta.{is_deleted}
use metal_operator.Api.Claim.{
  ServerBootConfiguration, BootConfigurationState, boot_configuration_state_eq,
}
use metal_operator.Effects.{Result, Call, History}
use metal_operator.Effects.Env.{Env}
use metal_operator.Effects.Keeps.{
  Steps, Keeps, Kept-history, Anything, Keeps-pure, Keeps-raise, Keeps-perform, Keeps-if,
}
use metal_operator.ServerReconciler.Quiet.{
  Keeps-if_any, Keeps-bind_any, Keeps-unless_modified_any, Keeps-attempt_any,
}
use metal_operator.BootConfigurationReconciler.Reconcile.{
  with_boot_state, patch_state, initialize_boot_state, reconcile, delete, reconcile_exists,
  reconcile_fetched, reconcile_request,
}

-- A status patch makes a configuration without a state pending; the only other call is the read.
abbrev pub OnlyPends : Call → History → Type 0
OnlyPends (Call.patch_boot_configuration_status base new) h =
    (base.state ≡ BootConfigurationState.unset)
    × (new ≡ with_boot_state BootConfigurationState.pending base)
OnlyPends (Call.get_boot_configuration namespace name) h = Unit
OnlyPends _ h = ⊥

without_state :
    (s : BootConfigurationState)
    → boot_configuration_state_eq s BootConfigurationState.unset ≡ true
    → s ≡ BootConfigurationState.unset
unfolding boot_configuration_state_eq
without_state s h = ground arith

module _ (env : Env) where
  initialize_boot_state-Keeps :
      (config : ServerBootConfiguration)
      → Keeps (Steps OnlyPends) (initialize_boot_state env config) Anything
  unfolding initialize_boot_state patch_state
  initialize_boot_state-Keeps config =
      Keeps-if (boot_configuration_state_eq config.state BootConfigurationState.unset) _ _
        (λ q.
          Keeps-if_any (boot_configuration_state_eq config.state BootConfigurationState.pending) _ _
            (Keeps-pure _ tt)
            (Keeps-bind_any _ _
              (Keeps-perform _ _ (λ h j. ((without_state config.state q, refl), j)) (λ _ _ _. tt))
              (λ c. Keeps-pure _ tt)))
        (λ _. Keeps-pure _ tt)

  reconcile_fetched-Keeps :
      (x : Result ServerBootConfiguration)
      → Keeps (Steps OnlyPends) (reconcile_fetched env x) Anything
  unfolding reconcile_fetched reconcile_exists reconcile delete
  reconcile_fetched-Keeps (Result.ok config) =
      Keeps-if_any (is_deleted config.metadata) _ _ (Keeps-pure _ tt) (
        Keeps-unless_modified_any _ _ _ (initialize_boot_state-Keeps config) (λ _. Keeps-pure _ tt))
  reconcile_fetched-Keeps (Result.err e) = search (Keeps-if_any, Keeps-pure, Keeps-raise)

  reconcile_request-Keeps :
      (namespace name : String)
      → Keeps (Steps OnlyPends) (reconcile_request env namespace name) Anything
  unfolding reconcile_request
  reconcile_request-Keeps namespace name =
      Keeps-bind_any _ _ (Keeps-attempt_any _ (Keeps-perform _ _ (λ h j. (tt, j)) (λ _ _ _. tt)))
        reconcile_fetched-Keeps

-- Whatever the API server answers, a reconciliation of a boot configuration adds no calls but the
-- read of it and status patches of a configuration that was read without a state, which set the
-- state to Pending and change nothing else.
pub reconcile_request-OnlyPends :
    (env : Env) (namespace name : String) (h : History)
    → Steps OnlyPends h
    → Steps OnlyPends (reconcile_request env namespace name h).1
reconcile_request-OnlyPends env namespace name h j =
    Kept-history (Steps OnlyPends) Anything _ ((reconcile_request-Keeps env namespace name).at h j)
