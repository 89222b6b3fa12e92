-- ===== src/Redfish/Client.antt =====
-- bmc/redfish.go: the connection, power, boot and the reading of systems.
use metal_operator.Base.{
  ℕ, zero, suc, String, ◌<>◌, Bool, true, false, ◌==◌, Option, none, some, List, [], ◌∷◌, map,
  if◌then◌else◌,
}
use metal_operator.Api.Server.{ServerPowerState, power_state_eq}
use metal_operator.Effects.{
  Err, Result, pure, raise, ◌>>=◌, ◌>>◌, perform, wrap, attempt, lift, optional, wrap_result,
}
use metal_operator.Effects.Env.{SystemInfo}
use metal_operator.Effects.Polling.{Poller}
use metal_operator.Redfish.Service.{
  Boot, ComputerSystem, RedfishManager, ClientConfig, RedfishCall, RedfishProgram, Service,
}

-- bmc.BMCOptions, times in seconds
pub record RedfishOptions : Type 0 where
  pub endpoint : String
  pub username : String
  pub password : String
  pub basic_auth : Bool
  pub resource_polling_interval : ℕ
  pub resource_polling_timeout : ℕ
  pub power_polling_interval : ℕ
  pub power_polling_timeout : ℕ

abbrev pub default_polling_interval : ℕ
default_polling_interval = 30

abbrev pub default_polling_timeout : ℕ
default_polling_timeout = 300

-- `if t == 0 { t = d }`
unfoldable pub or_default : ℕ → ℕ → ℕ
or_default d zero = d
or_default d (suc t) = suc t

unfoldable pub with_defaults : RedfishOptions → RedfishOptions
unfolding or_default
with_defaults o = record o {
  resource_polling_interval = or_default default_polling_interval o.resource_polling_interval;
  resource_polling_timeout = or_default default_polling_timeout o.resource_polling_timeout;
  power_polling_interval = or_default default_polling_interval o.power_polling_interval;
  power_polling_timeout = or_default default_polling_timeout o.power_polling_timeout;
}

unfoldable pub client_config : RedfishOptions → ClientConfig
client_config o = record {
  endpoint = o.endpoint;
  username = o.username;
  password = o.password;
  insecure = true;
  basic_auth = o.basic_auth;
}

-- bmc.Server
pub record BmcServer : Type 0 where
  pub uuid : String
  pub model : String
  pub manufacturer : String
  pub power_state : ServerPowerState
  pub serial_number : String

-- bmc.Manager, less the MAC address, which no code fills
pub record Manager : Type 0 where
  pub uuid : String
  pub manufacturer : String
  pub state : String
  pub power_state : String
  pub serial_number : String
  pub firmware_version : String
  pub sku : String
  pub model : String

abbrev pub pxe_boot_with_setting_uefi_boot_mode : Boot
pxe_boot_with_setting_uefi_boot_mode = record {
  override_enabled = "Once";
  override_mode = "UEFI";
  override_target = "Pxe";
  boot_order = [];
}

abbrev pub pxe_boot_without_setting_uefi_boot_mode : Boot
pxe_boot_without_setting_uefi_boot_mode = record pxe_boot_with_setting_uefi_boot_mode {
  override_mode = "";
}

unfoldable pub pxe_boot : ComputerSystem → Boot
pxe_boot s =
    if s.boot.override_mode == "UEFI"
    then pxe_boot_without_setting_uefi_boot_mode
    else pxe_boot_with_setting_uefi_boot_mode

-- The condition of a poll that assigns the answer and goes on polling on an error.
unfoldable pub when_ok : {A : Type 0} → RedfishProgram A → RedfishProgram (Option A)
unfolding attempt ◌>>=◌ pure
when_ok m = attempt m >>= λ r. pure (elim r [ Result.ok a ↦ some a | Result.err e ↦ none ])

-- `for _, system := range systems { if strings.ToLower(system.UUID) == systemUUID { return system } }`
unfoldable pub find_system :
    (String → String) → String → List ComputerSystem → Option ComputerSystem
find_system lower uuid [] = none
find_system lower uuid (s ∷ systems) =
    if lower s.uuid == uuid then some s else find_system lower uuid systems

unfoldable pub server_of_system : ComputerSystem → BmcServer
server_of_system s = record {
  uuid = s.uuid;
  model = s.model;
  manufacturer = s.manufacturer;
  power_state = s.power_state;
  serial_number = s.serial_number;
}

unfoldable pub first_manager : List RedfishManager → Option Manager
first_manager [] = none
first_manager (m ∷ managers) = some (record {
  uuid = m.uuid;
  manufacturer = m.manufacturer;
  state = m.state;
  power_state = m.power_state;
  serial_number = m.serial_number;
  firmware_version = m.firmware_version;
  sku = m.part_number;
  model = m.model;
})

unfoldable pub system_info : ComputerSystem → ℕ → SystemInfo
system_info s quantity = record {
  system_uuid = s.uuid;
  manufacturer = s.manufacturer;
  model = s.model;
  status = s.status;
  power_state = s.power_state;
  serial_number = s.serial_number;
  sku = s.sku;
  indicator_led = s.indicator_led;
  total_system_memory = quantity;
}

module _ (service : Service) where
  -- The options of the client, once connected.
  unfoldable pub new_redfish_bmc_client : RedfishOptions → RedfishProgram RedfishOptions
  unfolding ◌>>◌ ◌>>=◌ pure perform wrap client_config with_defaults
  new_redfish_bmc_client options = do
    wrap "failed to connect to redfish endpoint" (
        perform (RedfishCall.connect (client_config options))
          (service.connect (client_config options)))
    pure (with_defaults options)

  -- Whether the client is not nil.
  unfoldable pub logout : Bool → RedfishProgram (Unit {0})
  unfolding perform pure
  logout true = perform RedfishCall.log_out (λ h. Result.ok tt)
  logout false = pure tt

  unfoldable pub list_systems : RedfishProgram (List ComputerSystem)
  unfolding perform
  list_systems = perform RedfishCall.get_systems service.systems

  unfoldable pub reset_system : ComputerSystem → String → RedfishProgram (Unit {0})
  unfolding perform
  reset_system s kind = perform (RedfishCall.reset s.id kind) (service.reset s kind)

  unfoldable pub set_boot : ComputerSystem → Boot → RedfishProgram (Unit {0})
  unfolding perform
  set_boot s boot = perform (RedfishCall.set_boot s.id boot) (service.set_boot s boot)

  unfoldable pub get_systems : RedfishProgram (List BmcServer)
  unfolding wrap list_systems server_of_system pure ◌>>=◌
  get_systems = do
    systems ← wrap "failed to get systems" list_systems
    pure (map server_of_system systems)

  unfoldable pub get_manager : Bool → RedfishProgram (Option Manager)
  unfolding raise wrap perform first_manager pure ◌>>=◌
  get_manager false = raise (Err.failed "no client found")
  get_manager true = do
    managers ← wrap "failed to get managers" (perform RedfishCall.get_managers service.managers)
    pure (first_manager managers)

  module _ (poller : Poller RedfishCall) (o : RedfishOptions) where
    unfoldable pub get_system_by_uuid : String → RedfishProgram ComputerSystem
    unfolding wrap when_ok list_systems find_system optional raise pure ◌>>=◌
    get_system_by_uuid uuid = do
      systems ← wrap "failed to wait for for server systems to be ready" (
          poller.poll o.resource_polling_interval o.resource_polling_timeout (when_ok list_systems))
      optional (find_system service.to_lower uuid systems) (raise (Err.failed "no system found"))
          pure

    -- `system, err := r.getSystemByUUID(...)`, the error wrapped as the methods do.
    unfoldable pub get_system : String → RedfishProgram ComputerSystem
    unfolding wrap get_system_by_uuid
    get_system uuid = wrap "failed to get systems" (get_system_by_uuid uuid)

    unfoldable pub power_on : String → RedfishProgram (Unit {0})
    unfolding get_system wrap reset_system pure ◌>>=◌
    power_on uuid = do
      s ← get_system uuid
      if power_state_eq s.power_state ServerPowerState.on
          then pure tt
          else (wrap "failed to reset system to power on state" (reset_system s "On"))

    unfoldable pub power_off : String → RedfishProgram (Unit {0})
    unfolding get_system wrap reset_system ◌>>=◌
    power_off uuid = do
      s ← get_system uuid
      wrap "failed to reset system to power on state" (reset_system s "GracefulShutdown")

    unfoldable pub force_power_off : String → RedfishProgram (Unit {0})
    unfolding get_system wrap reset_system ◌>>=◌
    force_power_off uuid = do
      s ← get_system uuid
      wrap "failed to reset system to power on state" (reset_system s "ForceOff")

    unfoldable pub reset : String → String → RedfishProgram (Unit {0})
    unfolding get_system wrap reset_system ◌>>=◌
    reset uuid kind = do s ← get_system uuid; wrap "failed to reset system" (reset_system s kind)

    unfoldable pub set_pxe_boot_once : String → RedfishProgram (Unit {0})
    unfolding get_system wrap set_boot pxe_boot ◌>>=◌
    set_pxe_boot_once uuid = do
      s ← get_system uuid
      wrap "failed to set the boot order" (set_boot s (pxe_boot s))

    unfoldable pub set_boot_order : String → List String → RedfishProgram (Unit {0})
    unfolding get_system_by_uuid set_boot ◌>>=◌
    set_boot_order uuid order = do
      s ← get_system_by_uuid uuid
      set_boot s (record {
        override_enabled = "Continuous";
        override_mode = "";
        override_target = "None";
        boot_order = order;
      })

    unfoldable pub get_system_info : String → RedfishProgram SystemInfo
    unfolding get_system lift system_info pure ◌>>=◌
    get_system_info uuid = do
      s ← get_system uuid
      quantity ← lift (
          wrap_result "failed to parse memory quantity" (service.parse_quantity (s.memory <> "Gi")))
      pure (system_info s quantity)

    unfoldable pub get_boot_order : String → RedfishProgram (List String)
    unfolding get_system_by_uuid pure ◌>>=◌
    get_boot_order uuid = do s ← get_system_by_uuid uuid; pure s.boot.boot_order

    unfoldable pub get_bios_version : String → RedfishProgram String
    unfolding get_system_by_uuid pure ◌>>=◌
    get_bios_version uuid = do s ← get_system_by_uuid uuid; pure s.bios_version

    -- The condition of WaitForServerPowerState.
    unfoldable pub reports_power_state :
        String → ServerPowerState → RedfishProgram (Option (Unit {0}))
    unfolding wrap get_system_by_uuid pure ◌>>=◌
    reports_power_state uuid p = do
      s ← wrap "failed to get system info" (get_system_by_uuid uuid)
      pure (if power_state_eq s.power_state p then some tt else none)

    unfoldable pub wait_for_server_power_state :
        String → ServerPowerState → RedfishProgram (Unit {0})
    unfolding wrap reports_power_state
    wait_for_server_power_state uuid p =
        wrap "failed to wait for for server power state" (
          poller.poll o.power_polling_interval o.power_polling_timeout (reports_power_state uuid p))
