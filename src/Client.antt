-- ===== src/Client.antt =====
-- The calls that the reconcilers make, logged and answered by the environment.
use metal_operator.Base.{ℕ, String, Bool, Option, List, Dict}
use metal_operator.Api.Server.{Server, ServerPowerState}
use metal_operator.Api.Claim.{ServerClaim, ServerBootConfiguration, Selector}
use metal_operator.Effects.{Result, Call, M, Secret, perform}
use metal_operator.Effects.Env.{
  Env, Bmc, SystemInfo, BmcStorage, HttpReply, KeyPair, OperationResult,
}

module _ (env : Env) where
  abbrev pub get_server : String → M Server
  get_server n = perform (Call.get_server n) (env.get_server n)

  abbrev pub list_servers : Option Selector → M (List Server)
  list_servers l = perform (Call.list_servers l) (env.list_servers l)

  abbrev pub patch_server : Server → Server → M Server
  patch_server base new = perform (Call.patch_server base new) (env.patch_server base new)

  abbrev pub patch_server_status : Server → Server → M Server
  patch_server_status base new =
      perform (Call.patch_server_status base new) (env.patch_server_status base new)

  abbrev pub create_or_patch_server : Server → (Server → Server) → M (Server × OperationResult)
  create_or_patch_server s f =
      perform (Call.create_or_patch_server s f) (env.create_or_patch_server s f)

  abbrev pub ensure_server_finalizer : Server → String → M (Server × Bool)
  ensure_server_finalizer s f =
      perform (Call.ensure_server_finalizer s f) (env.ensure_server_finalizer s f)

  abbrev pub ensure_no_server_finalizer : Server → String → M Bool
  ensure_no_server_finalizer s f =
      perform (Call.ensure_no_server_finalizer s f) (env.ensure_no_server_finalizer s f)

  abbrev pub get_claim : String → String → M ServerClaim
  get_claim ns n = perform (Call.get_claim ns n) (env.get_claim ns n)

  abbrev pub list_claims : M (List ServerClaim)
  list_claims = perform Call.list_claims env.list_claims

  abbrev pub patch_claim : ServerClaim → ServerClaim → M ServerClaim
  patch_claim base new = perform (Call.patch_claim base new) (env.patch_claim base new)

  abbrev pub patch_claim_status : ServerClaim → ServerClaim → M ServerClaim
  patch_claim_status base new =
      perform (Call.patch_claim_status base new) (env.patch_claim_status base new)

  abbrev pub ensure_claim_finalizer : ServerClaim → String → M (ServerClaim × Bool)
  ensure_claim_finalizer c f =
      perform (Call.ensure_claim_finalizer c f) (env.ensure_claim_finalizer c f)

  abbrev pub ensure_no_claim_finalizer : ServerClaim → String → M Bool
  ensure_no_claim_finalizer c f =
      perform (Call.ensure_no_claim_finalizer c f) (env.ensure_no_claim_finalizer c f)

  abbrev pub get_boot_configuration : String → String → M ServerBootConfiguration
  get_boot_configuration ns n =
      perform (Call.get_boot_configuration ns n) (env.get_boot_configuration ns n)

  abbrev pub patch_boot_configuration_status :
      ServerBootConfiguration → ServerBootConfiguration → M ServerBootConfiguration
  patch_boot_configuration_status base new =
      perform (Call.patch_boot_configuration_status base new)
        (env.patch_boot_configuration_status base new)

  abbrev pub create_or_patch_boot_configuration :
      ServerBootConfiguration
      → (ServerBootConfiguration → Result ServerBootConfiguration)
      → M ServerBootConfiguration
  create_or_patch_boot_configuration c f =
      perform (Call.create_or_patch_boot_configuration c f)
        (env.create_or_patch_boot_configuration c f)

  abbrev pub delete_boot_configuration : String → String → M (Unit {0})
  delete_boot_configuration ns n =
      perform (Call.delete_boot_configuration ns n) (env.delete_boot_configuration ns n)

  abbrev pub apply_secret : Secret → M (Unit {0})
  apply_secret s = perform (Call.apply_secret s) (env.apply_secret s)

  abbrev pub http_get : String → M HttpReply
  http_get url = perform (Call.http_get url) (λ h. Result.ok (env.http_get url h))

  abbrev pub http_delete : String → M (Unit {0})
  http_delete url = perform (Call.http_delete url) (env.http_delete url)

  abbrev pub now : M ℕ
  now = perform Call.now (λ h. Result.ok (env.now h))

  abbrev pub generate_key_pair : M KeyPair
  generate_key_pair = perform Call.generate_key_pair env.generate_key_pair

  abbrev pub hash_password : String → M String
  hash_password p = perform (Call.hash_password p) (env.hash_password p)

  abbrev pub bmc_client : Server → M Bmc
  bmc_client s = perform (Call.bmc_client s) (env.bmc_client s)

module _ (bmc : Bmc) (uuid : String) where
  abbrev pub power_on : M (Unit {0})
  power_on = perform (Call.power_on uuid) (bmc.power_on uuid)

  abbrev pub power_off : M (Unit {0})
  power_off = perform (Call.power_off uuid) (bmc.power_off uuid)

  abbrev pub force_power_off : M (Unit {0})
  force_power_off = perform (Call.force_power_off uuid) (bmc.force_power_off uuid)

  abbrev pub reset : String → M (Unit {0})
  reset t = perform (Call.reset uuid t) (bmc.reset uuid t)

  abbrev pub set_pxe_boot_once : M (Unit {0})
  set_pxe_boot_once = perform (Call.set_pxe_boot_once uuid) (bmc.set_pxe_boot_once uuid)

  abbrev pub get_system_info : M SystemInfo
  get_system_info = perform (Call.get_system_info uuid) (bmc.get_system_info uuid)

  abbrev pub get_boot_order : M (List String)
  get_boot_order = perform (Call.get_boot_order uuid) (bmc.get_boot_order uuid)

  abbrev pub set_boot_order : List String → M (Unit {0})
  set_boot_order order = perform (Call.set_boot_order uuid order) (bmc.set_boot_order uuid order)

  abbrev pub get_bios_version : M String
  get_bios_version = perform (Call.get_bios_version uuid) (bmc.get_bios_version uuid)

  abbrev pub get_bios_attribute_values : List String → M (Dict String)
  get_bios_attribute_values keys =
      perform (Call.get_bios_attribute_values uuid keys) (bmc.get_bios_attribute_values uuid keys)

  abbrev pub set_bios_attributes : Dict String → M Bool
  set_bios_attributes attributes =
      perform (Call.set_bios_attributes uuid attributes) (bmc.set_bios_attributes uuid attributes)

  abbrev pub get_storages : M (List BmcStorage)
  get_storages = perform (Call.get_storages uuid) (bmc.get_storages uuid)

  abbrev pub wait_for_server_power_state : ServerPowerState → M (Unit {0})
  wait_for_server_power_state p =
      perform (Call.wait_for_server_power_state uuid p) (bmc.wait_for_server_power_state uuid p)
