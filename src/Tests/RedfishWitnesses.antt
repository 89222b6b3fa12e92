-- ===== src/Tests/RedfishWitnesses.antt =====
-- The theorems on the Redfish clients, at a service with two systems and one BIOS registry.
use metal_operator.Base.{
  ◌≡◌, refl, ◌↔◌, String, true, false, ◌&&◌, none, some, is_some, [], ◌∷◌, All, Dict, lookup,
  if◌then◌else◌,
}
use metal_operator.Api.Server.{ServerPowerState, power_state_eq}
use metal_operator.Effects.{Result, Err}
use metal_operator.Effects.Keeps.{Keeps, Steps}
use metal_operator.Effects.Polling.{Poller}
use metal_operator.Redfish.Service.{ComputerSystem, RegistryEntryAttributes, RedfishCall, Service}
use metal_operator.Redfish.Client.{
  RedfishOptions, get_system_by_uuid, wait_for_server_power_state, power_on, client_config,
  new_redfish_bmc_client,
}
use metal_operator.Redfish.Text.{atoi_reads}
use metal_operator.Redfish.Bios.{Verdict, check_all, attribute_values, set_bios_attributes}
use metal_operator.Redfish.SystemLaws.{
  IsReported, IsSeen, get_system_by_uuid-IsReported, wait_for_server_power_state-IsSeen,
}
use metal_operator.Redfish.WriteLaws.{Operation, Reads, Since, run, run-Since}
use metal_operator.Redfish.BiosLaws.{IsAcceptable, includes, check_all_iff, lookup-attribute_values}
use metal_operator.Redfish.BiosSafety.{WritesVetted, IsVetted, set_bios_attributes-IsVetted}
use metal_operator.Redfish.Times.{AreTimesSet, new_redfish_bmc_client-AreTimesSet}
use metal_operator.Tests.Pollers.{three_more}

abbrev pub system : String → ServerPowerState → ComputerSystem
system uuid p = record {
  id = uuid;
  uuid = uuid;
  model = "m";
  manufacturer = "x";
  serial_number = "1";
  sku = "k";
  status = "OK";
  indicator_led = "Off";
  bios_version = "1";
  power_state = p;
  memory = "4";
  boot = record {
    override_enabled = "";
    override_mode = "";
    override_target = "";
    boot_order = [];
  };
}

abbrev entry : RegistryEntryAttributes
entry = record {
  attribute_name = "cores";
  hidden = false;
  immutable = false;
  read_only = false;
  reset_required = true;
  type = "integer";
}

-- The first listing fails; from then on there are two systems, of which the second is off.
abbrev service : Service
service = record {
  connect = λ c h. Result.ok tt;
  systems = λ h. elim h [
    | [] ↦ Result.err (Err.failed "not ready")
    | c ∷ h' ↦ Result.ok (system "a" ServerPowerState.on ∷ system "b" ServerPowerState.off ∷ [])
  ];
  managers = λ h. Result.ok [];
  reset = λ s k h. Result.ok tt;
  set_boot = λ s b h. Result.ok tt;
  bios = λ s h. Result.ok (λ name. "8");
  update_bios = λ s a h. Result.ok tt;
  registries =
      λ h. (record { id = "BiosAttributeRegistry.1"; locations = "/bios" ∷ [] } ∷ [], none);
  get_registry = λ uri before h. Result.ok (record { attributes = entry ∷ [] });
  storage = λ s h. Result.ok [];
  volumes = λ s h. Result.ok [];
  drives = λ s h. Result.ok [];
  simple_storages = λ s h. Result.ok [];
  patch = λ uri s h. Result.ok tt;
  list_jobs = λ n l h. Result.ok [];
  create_job = λ j h. Result.ok tt;
  to_lower = λ s. s;
  parse_quantity = λ s. Result.ok 4;
}

abbrev options : RedfishOptions
options = record {
  endpoint = "https://10.0.0.1:443";
  username = "u";
  password = "p";
  basic_auth = true;
  resource_polling_interval = 1;
  resource_polling_timeout = 3;
  power_polling_interval = 1;
  power_polling_timeout = 3;
}

abbrev poller : Poller RedfishCall
poller = three_more

-- The second listing finds the system, which is off, so it is reset.
power_on_run : power_on service poller options "b" [] ≡ (
  Result.ok tt,
  RedfishCall.reset "b" "On" ∷ RedfishCall.get_systems ∷ RedfishCall.get_systems ∷ [],
)
unfolding power_on power_state_eq
power_on_run = refl

get_system_by_uuid-IsReported_example :
    Keeps
      (Reads [])
      (get_system_by_uuid service poller options "b")
      (IsReported service (Reads []) "b")
get_system_by_uuid-IsReported_example =
    get_system_by_uuid-IsReported service (λ h j. Reads.read j) poller options "b"

wait_for_server_power_state-IsSeen_example :
    Keeps
      (Reads [])
      (wait_for_server_power_state service poller options "b" ServerPowerState.off)
      (λ a. IsSeen service (Reads []) "b" ServerPowerState.off)
wait_for_server_power_state-IsSeen_example =
    wait_for_server_power_state-IsSeen service (λ h j. Reads.read j) poller options "b"
      ServerPowerState.off

run-Since_example :
    Since service "b" Operation.turn_on [] (run service poller options "b" Operation.turn_on []).1
run-Since_example = run-Since service poller options "b" Operation.turn_on []

abbrev filtered : Dict RegistryEntryAttributes
filtered = ("cores", entry) ∷ []

abbrev start : Verdict
start = record { reset = false; error = none }

check_all_iff_example :
    ((check_all (λ s. s) filtered (("cores", "8") ∷ []) start).error ≡ none)
    ↔ All (IsAcceptable (λ s. s) filtered) (("cores", "8") ∷ []) × (start.error ≡ none)
check_all_iff_example = check_all_iff (λ s. s) filtered (("cores", "8") ∷ []) start

lookup-attribute_values_example :
    lookup "cores" (attribute_values filtered (λ name. "8") ("cores" ∷ "other" ∷ []) []) ≡ (
      if includes "cores" ("cores" ∷ "other" ∷ []) && is_some (lookup "cores" filtered)
      then some "8"
      else lookup "cores" [])
lookup-attribute_values_example =
    lookup-attribute_values filtered (λ name. "8") "cores" ("cores" ∷ "other" ∷ []) []

set_bios_attributes-IsVetted_example :
    Keeps
      (Steps (WritesVetted service "b" (("cores", "8") ∷ [])))
      (set_bios_attributes service poller options "b" (("cores", "8") ∷ []))
      (λ reset. IsVetted service (("cores", "8") ∷ []))
set_bios_attributes-IsVetted_example =
    set_bios_attributes-IsVetted service poller options "b" (("cores", "8") ∷ [])

-- A value that is no number is refused, and nothing is written.
wrong_value :
    (set_bios_attributes service poller options "b" (("cores", "eight") ∷ []) []).1
    ≡ RedfishCall.get_registry "/bios"
      ∷ RedfishCall.get_registries
      ∷ RedfishCall.get_bios "b"
      ∷ RedfishCall.get_systems
      ∷ RedfishCall.get_systems
      ∷ []
unfolding set_bios_attributes atoi_reads
wrong_value = refl

new_redfish_bmc_client-AreTimesSet_example :
    Keeps
      (λ h. Unit)
      (new_redfish_bmc_client service options)
      (λ o. AreTimesSet options o × (client_config o ≡ client_config options))
new_redfish_bmc_client-AreTimesSet_example = new_redfish_bmc_client-AreTimesSet service options
