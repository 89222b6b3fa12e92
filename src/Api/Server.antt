-- ===== src/Api/Server.antt =====
-- api/v1alpha1/server_types.go. A string type with constants is a data type with one constructor
-- for the empty string, one for each constant and one for all other strings. A quantity is a
-- number of bytes, and an IP address its text.
use metal_operator.Base.{ℕ, ℤ, String, Bool, true, false, ◌==◌, Option, none, List, [], Dict}
use metal_operator.Api.Meta.{ObjectMeta, ObjectReference, LocalObjectReference}

pub data Power : Type 0 where
  unset on off : Power
  other : String → Power

pub data ServerPowerState : Type 0 where
  unset on off paused powering_on powering_off : ServerPowerState
  other : String → ServerPowerState

pub data ServerState : Type 0 where
  unset initial discovery available reserved error : ServerState
  other : String → ServerState

-- Go's `==` on `Power`, and so on.
unfoldable pub power_eq : Power → Power → Bool
power_eq Power.unset Power.unset = true
power_eq Power.on Power.on = true
power_eq Power.off Power.off = true
power_eq (Power.other s) (Power.other t) = s == t
power_eq _ _ = false

unfoldable pub power_state_eq : ServerPowerState → ServerPowerState → Bool
power_state_eq ServerPowerState.unset ServerPowerState.unset = true
power_state_eq ServerPowerState.on ServerPowerState.on = true
power_state_eq ServerPowerState.off ServerPowerState.off = true
power_state_eq ServerPowerState.paused ServerPowerState.paused = true
power_state_eq ServerPowerState.powering_on ServerPowerState.powering_on = true
power_state_eq ServerPowerState.powering_off ServerPowerState.powering_off = true
power_state_eq (ServerPowerState.other s) (ServerPowerState.other t) = s == t
power_state_eq _ _ = false

unfoldable pub server_state_eq : ServerState → ServerState → Bool
server_state_eq ServerState.unset ServerState.unset = true
server_state_eq ServerState.initial ServerState.initial = true
server_state_eq ServerState.discovery ServerState.discovery = true
server_state_eq ServerState.available ServerState.available = true
server_state_eq ServerState.reserved ServerState.reserved = true
server_state_eq ServerState.error ServerState.error = true
server_state_eq (ServerState.other s) (ServerState.other t) = s == t
server_state_eq _ _ = false

pub record Protocol : Type 0 where
  pub name : String
  pub port : ℕ

pub record BmcAccess : Type 0 where
  pub protocol : Protocol
  pub address : String
  pub bmc_secret_ref : LocalObjectReference

pub record BootOrder : Type 0 where
  pub name : String
  pub priority : ℤ
  pub device : String

pub record BiosSettings : Type 0 where
  pub version : String
  pub settings : Dict String

pub record ServerSpec : Type 0 where
  pub uuid : String
  pub system_uuid : String
  pub power : Power
  pub indicator_led : String
  pub server_claim_ref : Option ObjectReference
  pub bmc_ref : Option LocalObjectReference
  pub bmc : Option BmcAccess
  pub boot_configuration_ref : Option ObjectReference
  pub boot_order : List BootOrder
  pub bios : List BiosSettings

pub record NetworkInterface : Type 0 where
  pub name : String
  pub ip : String
  pub mac_address : String

pub record StorageDrive : Type 0 where
  pub name : String
  pub media_type : String
  pub drive_type : String
  pub capacity : ℤ
  pub vendor : String
  pub model : String
  pub state : String

pub record StorageVolume : Type 0 where
  pub name : String
  pub capacity : ℤ
  pub state : String
  pub raid_type : String
  pub volume_usage : String

pub record Storage : Type 0 where
  pub name : String
  pub state : String
  pub volumes : List StorageVolume
  pub drives : List StorageDrive

pub record ServerStatus : Type 0 where
  pub manufacturer : String
  pub model : String
  pub sku : String
  pub serial_number : String
  pub power_state : ServerPowerState
  pub indicator_led : String
  pub state : ServerState
  pub network_interfaces : List NetworkInterface
  pub total_system_memory : Option ℕ
  pub storages : List Storage
  pub bios : BiosSettings
  pub conditions : List String  -- the types of the conditions

pub record Server : Type 0 where
  pub metadata : ObjectMeta
  pub spec : ServerSpec
  pub status : ServerStatus

-- `&metalv1alpha1.Server{}`
abbrev pub empty_server : Server
empty_server = record {
  metadata = record {
    name = "";
    namespace = "";
    uid = "";
    labels = [];
    annotations = [];
    finalizers = [];
    owner_references = [];
    deletion_timestamp = none;
    managed_fields = [];
  };
  spec = record {
    uuid = "";
    system_uuid = "";
    power = Power.unset;
    indicator_led = "";
    server_claim_ref = none;
    bmc_ref = none;
    bmc = none;
    boot_configuration_ref = none;
    boot_order = [];
    bios = [];
  };
  status = record {
    manufacturer = "";
    model = "";
    sku = "";
    serial_number = "";
    power_state = ServerPowerState.unset;
    indicator_led = "";
    state = ServerState.unset;
    network_interfaces = [];
    total_system_memory = none;
    storages = [];
    bios = record { version = ""; settings = [] };
    conditions = [];
  };
}

-- Assignments through the pointer, `server.Spec.Power = p` and so on.
abbrev pub with_power : Power → Server → Server
with_power p s = record s { spec = record (s.spec) { power = p } }

abbrev pub with_claim_ref : Option ObjectReference → Server → Server
with_claim_ref r s = record s { spec = record (s.spec) { server_claim_ref = r } }

abbrev pub with_boot_ref : Option ObjectReference → Server → Server
with_boot_ref r s = record s { spec = record (s.spec) { boot_configuration_ref = r } }

abbrev pub with_state : ServerState → Server → Server
with_state x s = record s { status = record (s.status) { state = x } }
