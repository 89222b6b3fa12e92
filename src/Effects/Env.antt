-- ===== src/Effects/Env.antt =====
-- What the program does not implement: the API server behind controller-runtime's client, the
-- helpers of controller-runtime and controller-utils, the HTTP transport, the clock, cryptography,
-- and the BMC interface of bmc/bmc.go as its callers see it. Each field answers one call from the
-- history before it. A patch answers with the object as the API server returns it, which
-- controller-runtime writes over the caller's object.
use metal_operator.Base.{ℕ, ℤ, String, Bool, Option, List, Dict}
use metal_operator.Api.Meta.{ObjectMeta}
use metal_operator.Api.Server.{Server, ServerPowerState}
use metal_operator.Api.Claim.{ServerClaim, ServerBootConfiguration, LabelSelector, Selector}
use metal_operator.Effects.Core.{Result, Err, History, Secret}

-- internal/api/registry/registry.go
pub record RegistryInterface : Type 0 where
  pub name : String
  pub ip_address : String
  pub mac_address : String

pub record RegistryServer : Type 0 where
  pub network_interfaces : List RegistryInterface

pub record HttpResponse : Type 0 where
  pub status_code : ℕ
  pub body : String

-- `http.Get` may return a response beside an error, or neither.
pub record HttpReply : Type 0 where
  pub response : Option HttpResponse
  pub error : Option Err

-- bmc.SystemInfo, less the lists of interfaces and processors, which no code fills
pub record SystemInfo : Type 0 where
  pub system_uuid : String
  pub status : String
  pub manufacturer : String
  pub model : String
  pub power_state : ServerPowerState
  pub total_system_memory : ℕ
  pub serial_number : String
  pub sku : String
  pub indicator_led : String

-- The field `id` is the one of the embedded Entity.
pub record Volume : Type 0 where
  pub id : String
  pub name : String
  pub size_bytes : ℤ
  pub state : String
  pub raid_type : String
  pub volume_usage : String

pub record Drive : Type 0 where
  pub id : String
  pub name : String
  pub media_type : String
  pub drive_type : String
  pub size_bytes : ℤ
  pub vendor : String
  pub model : String
  pub state : String

-- bmc.Storage
pub record BmcStorage : Type 0 where
  pub id : String
  pub name : String
  pub state : String
  pub drives : List Drive
  pub volumes : List Volume

-- The interface BMC of bmc/bmc.go
pub record Bmc : Type 0 where
  pub power_on : String → History → Result (Unit {0})
  pub power_off : String → History → Result (Unit {0})
  pub force_power_off : String → History → Result (Unit {0})
  pub reset : String → String → History → Result (Unit {0})
  pub set_pxe_boot_once : String → History → Result (Unit {0})
  pub get_system_info : String → History → Result SystemInfo
  pub get_boot_order : String → History → Result (List String)
  pub set_boot_order : String → List String → History → Result (Unit {0})
  pub get_bios_version : String → History → Result String
  pub get_bios_attribute_values : String → List String → History → Result (Dict String)
  pub set_bios_attributes : String → Dict String → History → Result Bool
  pub get_storages : String → History → Result (List BmcStorage)
  pub wait_for_server_power_state : String → ServerPowerState → History → Result (Unit {0})

-- controllerutil.OperationResult
pub data OperationResult : Type 0 where
  unchanged created updated updated_status updated_status_only : OperationResult

pub record KeyPair : Type 0 where
  pub private_key : String
  pub public_key : String
  pub password : String

pub record Env : Type 0 where
  pub get_server : String → History → Result Server
  pub list_servers : Option Selector → History → Result (List Server)
  pub patch_server : Server → Server → History → Result Server
  pub patch_server_status : Server → Server → History → Result Server
  pub create_or_patch_server :
      Server → (Server → Server) → History → Result (Server × OperationResult)
  pub ensure_server_finalizer : Server → String → History → Result (Server × Bool)
  pub ensure_no_server_finalizer : Server → String → History → Result Bool
  pub get_claim : String → String → History → Result ServerClaim
  pub list_claims : History → Result (List ServerClaim)
  pub patch_claim : ServerClaim → ServerClaim → History → Result ServerClaim
  pub patch_claim_status : ServerClaim → ServerClaim → History → Result ServerClaim
  pub ensure_claim_finalizer : ServerClaim → String → History → Result (ServerClaim × Bool)
  pub ensure_no_claim_finalizer : ServerClaim → String → History → Result Bool
  pub get_boot_configuration : String → String → History → Result ServerBootConfiguration
  pub patch_boot_configuration_status :
      ServerBootConfiguration → ServerBootConfiguration → History → Result ServerBootConfiguration
  pub create_or_patch_boot_configuration :
      ServerBootConfiguration
      → (ServerBootConfiguration → Result ServerBootConfiguration)
      → History
      → Result ServerBootConfiguration
  pub delete_boot_configuration : String → String → History → Result (Unit {0})
  pub apply_secret : Secret → History → Result (Unit {0})
  pub http_get : String → History → HttpReply
  pub http_delete : String → History → Result (Unit {0})
  pub decode_registry_server : String → Result RegistryServer  -- encoding/json
  pub parse_addr : String → Option String  -- net/netip, to the canonical text
  pub now : History → ℕ
  pub generate_key_pair : History → Result KeyPair  -- crypto/rsa, x/crypto/ssh, crypto/rand
  pub hash_password : String → History → Result String  -- bcrypt
  pub ignition_data : String → String → String → String → Result String  -- text/template
  pub set_status_condition : List String → String → List String × Bool  -- meta.SetStatusCondition
  pub label_selector_as_selector : LabelSelector → Result Selector  -- metav1
  pub selector_matches : Selector → Dict String → Bool  -- labels
  pub contains_finalizer : List String → String → Bool  -- controllerutil.ContainsFinalizer
  pub set_controller_reference : ObjectMeta → ObjectMeta → Result ObjectMeta  -- controllerutil
  pub bmc_client : Server → History → Result Bmc  -- bmcutils.GetBMCClientForServer
