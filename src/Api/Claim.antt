-- ===== src/Api/Claim.antt =====
-- api/v1alpha1/serverclaim_types.go and serverbootconfiguration_types.go.
use metal_operator.Base.{String, Bool, true, false, ◌==◌, Option}
use metal_operator.Api.Meta.{ObjectMeta, LocalObjectReference}
use metal_operator.Api.Server.{Power}

pub data Phase : Type 0 where
  unset bound unbound : Phase
  other : String → Phase

unfoldable pub phase_eq : Phase → Phase → Bool
phase_eq Phase.unset Phase.unset = true
phase_eq Phase.bound Phase.bound = true
phase_eq Phase.unbound Phase.unbound = true
phase_eq (Phase.other s) (Phase.other t) = s == t
phase_eq _ _ = false

-- metav1.LabelSelector: its content goes to the library that turns it into a selector.
pub record LabelSelector : Type 0 where
  pub text : String

-- labels.Selector
pub record Selector : Type 0 where
  pub text : String

pub record ServerClaimSpec : Type 0 where
  pub power : Power
  pub server_ref : Option LocalObjectReference
  pub server_selector : Option LabelSelector
  pub ignition_secret_ref : Option LocalObjectReference
  pub image : String

pub record ServerClaim : Type 0 where
  pub metadata : ObjectMeta
  pub spec : ServerClaimSpec
  pub phase : Phase  -- Status.Phase, the one field of the status

pub data BootConfigurationState : Type 0 where
  unset pending ready error : BootConfigurationState
  other : String → BootConfigurationState

unfoldable pub boot_configuration_state_eq : BootConfigurationState → BootConfigurationState → Bool
boot_configuration_state_eq BootConfigurationState.unset BootConfigurationState.unset = true
boot_configuration_state_eq BootConfigurationState.pending BootConfigurationState.pending = true
boot_configuration_state_eq BootConfigurationState.ready BootConfigurationState.ready = true
boot_configuration_state_eq BootConfigurationState.error BootConfigurationState.error = true
boot_configuration_state_eq (BootConfigurationState.other s) (BootConfigurationState.other t) =
    s == t
boot_configuration_state_eq _ _ = false

pub record BootConfigurationSpec : Type 0 where
  pub server_ref : LocalObjectReference
  pub image : String
  pub ignition_secret_ref : Option LocalObjectReference

pub record ServerBootConfiguration : Type 0 where
  pub metadata : ObjectMeta
  pub spec : BootConfigurationSpec
  pub state : BootConfigurationState  -- Status.State, the one field of the status
