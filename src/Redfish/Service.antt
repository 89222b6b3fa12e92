-- ===== src/Redfish/Service.antt =====
-- What gofish answers for a connected client, and the resources it answers with. Each call leaves
-- a mark in the history. The calls of the Kubernetes client that bmc/redfish_kube.go makes are
-- here too.
use metal_operator.Base.{ℕ, ℤ, String, Bool, Option, List, Dict}
use metal_operator.Api.Server.{ServerPowerState}
use metal_operator.Effects.{Err, Result, Program}

-- redfish.Boot, as far as the code fills or reads it
pub record Boot : Type 0 where
  pub override_enabled : String
  pub override_mode : String
  pub override_target : String
  pub boot_order : List String

-- redfish.ComputerSystem; `memory` is the text of its memory size in Gi, as `%.f` prints it.
pub record ComputerSystem : Type 0 where
  pub id : String
  pub uuid : String
  pub model : String
  pub manufacturer : String
  pub serial_number : String
  pub sku : String
  pub status : String
  pub indicator_led : String
  pub bios_version : String
  pub power_state : ServerPowerState
  pub memory : String
  pub boot : Boot

-- bmc.RegistryEntryAttributes, as far as the code reads it
pub record RegistryEntryAttributes : Type 0 where
  pub attribute_name : String
  pub hidden : Bool
  pub immutable : Bool
  pub read_only : Bool
  pub reset_required : Bool
  pub type : String

-- bmc.BiosRegistry
pub record BiosRegistry : Type 0 where
  pub attributes : List RegistryEntryAttributes

-- redfish.MessageRegistryFile: its ID and the URIs of its locations
pub record RegistryFile : Type 0 where
  pub id : String
  pub locations : List String

pub record RedfishVolume : Type 0 where
  pub id : String
  pub name : String
  pub capacity_bytes : ℤ
  pub raid_type : String
  pub state : String

pub record RedfishDrive : Type 0 where
  pub id : String
  pub name : String
  pub media_type : String
  pub form_factor : String
  pub capacity_bytes : ℤ
  pub manufacturer : String
  pub model : String
  pub state : String

pub record RedfishStorage : Type 0 where
  pub id : String
  pub name : String

-- A device of a SimpleStorage is read as far as a drive is.
pub record SimpleStorage : Type 0 where
  pub id : String
  pub name : String
  pub devices : List RedfishDrive

pub record RedfishManager : Type 0 where
  pub uuid : String
  pub manufacturer : String
  pub state : String
  pub power_state : String
  pub serial_number : String
  pub firmware_version : String
  pub part_number : String
  pub model : String

-- batchv1.Job, as far as createJob fills it
pub record Job : Type 0 where
  pub generate_name : String
  pub namespace : String
  pub labels : Dict String
  pub container_name : String
  pub image : String
  pub command : List String
  pub restart_policy : String
  pub ttl_seconds_after_finished : ℕ

-- gofish.ClientConfig
pub record ClientConfig : Type 0 where
  pub endpoint : String
  pub username : String
  pub password : String
  pub insecure : Bool
  pub basic_auth : Bool

-- The system of a call is named by its ID.
pub data RedfishCall : Type 0 where
  connect : ClientConfig → RedfishCall
  log_out : RedfishCall
  get_systems : RedfishCall
  get_managers : RedfishCall
  reset : String → String → RedfishCall
  set_boot : String → Boot → RedfishCall
  get_bios : String → RedfishCall
  update_bios : String → Dict String → RedfishCall
  get_registries : RedfishCall
  get_registry : String → RedfishCall
  get_storage : String → RedfishCall
  get_volumes : String → RedfishCall
  get_drives : String → RedfishCall
  get_simple_storages : String → RedfishCall
  patch : String → ComputerSystem → RedfishCall
  list_jobs : String → Dict String → RedfishCall
  create_job : Job → RedfishCall

abbrev pub RedfishHistory : Type 0
RedfishHistory = List RedfishCall

abbrev pub RedfishProgram : Type 0 → Type 0
RedfishProgram A = Program RedfishCall A

pub record Service : Type 0 where
  pub connect : ClientConfig → RedfishHistory → Result (Unit {0})
  pub systems : RedfishHistory → Result (List ComputerSystem)
  pub managers : RedfishHistory → Result (List RedfishManager)
  pub reset : ComputerSystem → String → RedfishHistory → Result (Unit {0})
  pub set_boot : ComputerSystem → Boot → RedfishHistory → Result (Unit {0})
  -- The attributes, each as `Attributes.String` prints it.
  pub bios : ComputerSystem → RedfishHistory → Result (String → String)
  pub update_bios : ComputerSystem → Dict String → RedfishHistory → Result (Unit {0})
  -- A list of registries may come with an error.
  pub registries : RedfishHistory → List RegistryFile × Option Err
  -- Reads the document at a URI over a registry.
  pub get_registry : String → BiosRegistry → RedfishHistory → Result BiosRegistry
  pub storage : ComputerSystem → RedfishHistory → Result (List RedfishStorage)
  pub volumes : RedfishStorage → RedfishHistory → Result (List RedfishVolume)
  pub drives : RedfishStorage → RedfishHistory → Result (List RedfishDrive)
  pub simple_storages : ComputerSystem → RedfishHistory → Result (List SimpleStorage)
  pub patch : String → ComputerSystem → RedfishHistory → Result (Unit {0})
  pub list_jobs : String → Dict String → RedfishHistory → Result (List Job)
  pub create_job : Job → RedfishHistory → Result (Unit {0})
  pub to_lower : String → String  -- strings.ToLower
  pub parse_quantity : String → Result ℕ  -- resource.ParseQuantity, in bytes
