-- ===== src/BmcReconciler/Reconcile.antt =====
-- The BMC controller.
use metal_operator.Base.{
  ℕ, suc, String, ◌<>◌, Bool, Option, none, some, List, [], ◌∷◌, if◌then◌else◌,
}
use metal_operator.Api.Meta.{is_deleted}
use metal_operator.Api.Server.{Server}
use metal_operator.Effects.{
  Err, Result, pure, raise, ◌>>=◌, ◌>>◌, perform, wrap, attempt, ignoring, deferring, optional,
  is_not_found,
}
use metal_operator.ServerReconciler.Config.{should_ignore_reconciliation}
use metal_operator.BmcUtils.Clients.{BmcOptions, InlineEndpoint, get_bmc_client_from_bmc, next}
use metal_operator.Redfish.Client.{BmcServer, Manager}
use metal_operator.EndpointReconciler.World.{BmcObject}
use metal_operator.BmcReconciler.World.{BmcCall, BmcProgram, BmcClient, BmcEnv, EndpointAddress}

abbrev pub bmc_finalizer : String
bmc_finalizer = "metal.ironcore.dev/bmc"

-- The IP and MAC address of an inline endpoint, which win over those of the referenced one.
unfoldable pub address_of : Option InlineEndpoint → EndpointAddress → EndpointAddress
address_of none address = address
address_of (some e) address = record { ip = e.ip; mac_address = e.mac_address }

unfoldable pub with_address : EndpointAddress → BmcObject → BmcObject
with_address a b = record b { status = record b.status { ip = a.ip; mac_address = a.mac_address } }

unfoldable pub with_manager : Manager → BmcObject → BmcObject
with_manager m b = record b {
  status = record b.status {
    manufacturer = m.manufacturer;
    state = m.state;
    power_state = m.power_state;
    firmware_version = m.firmware_version;
    serial_number = m.serial_number;
    sku = m.sku;
    model = m.model;
  };
}

module _ (env : BmcEnv) (insecure : Bool) (options : BmcOptions) where
  -- bmcutils.GetServerNameFromBMCandIndex
  unfoldable pub get_server_name_from_bmc_and_index : ℕ → BmcObject → String
  get_server_name_from_bmc_and_index i b = b.metadata.name <> ("-system-" <> env.decimal i)

  unfoldable pub patch_status : BmcObject → BmcObject → BmcProgram BmcObject
  unfolding perform
  patch_status base new = perform (BmcCall.patch_status base new) (env.patch_status base new)

  unfoldable pub connect : BmcObject → BmcProgram BmcClient
  unfolding wrap perform get_bmc_client_from_bmc
  connect b = wrap "failed to create BMC client" (
      perform (BmcCall.connect b)
        (λ h. get_bmc_client_from_bmc (env.directory h) insecure options b.spec))

  -- These return the object as the code leaves it, which is what the API server answered last.
  unfoldable pub patch_manager : BmcObject → Option Manager → BmcProgram BmcObject
  unfolding pure patch_status with_manager
  patch_manager b none = pure b
  patch_manager b (some m) = patch_status b (with_manager m b)

  -- The manager, between the connection and the logout.
  unfoldable pub update_from_manager : BmcObject → BmcProgram BmcObject
  unfolding connect deferring wrap perform patch_manager ◌>>=◌
  update_from_manager b = do
    client ← connect b
    deferring BmcCall.log_out (
        wrap "failed to get manager details" (perform BmcCall.get_manager client.get_manager)
        >>= patch_manager b)

  unfoldable pub patch_address : BmcObject → EndpointAddress → BmcProgram BmcObject
  unfolding wrap patch_status with_address address_of update_from_manager ◌>>=◌
  patch_address b address = do
    b' ←
        wrap "failed to patch IP and MAC address status"
          (patch_status b (with_address (address_of b.spec.endpoint address) b))
    update_from_manager b'

  -- The referenced endpoint; where it is missing, nothing is updated.
  unfoldable pub with_endpoint : BmcObject → Result EndpointAddress → BmcProgram BmcObject
  unfolding is_not_found patch_address pure raise
  with_endpoint b (Result.ok address) = patch_address b address
  with_endpoint b (Result.err e) =
      if is_not_found e then pure b else raise (Err.wrapped "failed to get Endpoints for BMC" e)

  unfoldable pub update_bmc_status_details : BmcObject → BmcProgram BmcObject
  unfolding optional attempt perform patch_address with_endpoint ◌>>=◌
  update_bmc_status_details b =
      optional b.spec.endpoint_ref (patch_address b (record { ip = ""; mac_address = "" })) λ ref.
        attempt (perform (BmcCall.get_endpoint ref.name) (env.get_endpoint ref.name))
        >>= with_endpoint b

  unfoldable pub set_server : BmcObject → BmcServer → Server → Result Server
  unfolding next
  set_server b system s =
      next (env.set_controller_reference b.metadata (env.set_labels b.metadata.labels s.metadata))
        λ metadata. Result.ok (record s {
          metadata = metadata;
          spec = record s.spec {
            uuid = env.to_lower system.uuid;
            system_uuid = env.to_lower system.uuid;
            bmc_ref = some (record { name = b.metadata.name });
          };
        })

  -- The loop over the systems, from an index.
  unfoldable pub apply_servers : BmcObject → ℕ → List BmcServer → BmcProgram (Unit {0})
  unfolding pure wrap perform get_server_name_from_bmc_and_index set_server ◌>>◌ ◌>>=◌
  apply_servers b i [] = pure tt
  apply_servers b i (system ∷ systems) = do
    wrap "failed to create or patch Server" (
        perform
          (BmcCall.create_or_patch_server (get_server_name_from_bmc_and_index i b)
            (set_server b system))
          (env.create_or_patch_server (get_server_name_from_bmc_and_index i b)
            (set_server b system)))
    apply_servers b (suc i) systems

  unfoldable pub discover_servers : BmcObject → BmcProgram (Unit {0})
  unfolding connect deferring wrap perform apply_servers ◌>>=◌
  discover_servers b = do
    client ← connect b
    deferring BmcCall.log_out (
        wrap "failed to get Servers from BMC" (perform BmcCall.get_systems client.get_systems)
        >>= apply_servers b 0)

  unfoldable pub delete_bmc : BmcObject → BmcProgram (Unit {0})
  unfolding perform pure ◌>>=◌
  delete_bmc b =
      perform (BmcCall.ensure_no_finalizer b.metadata.name bmc_finalizer)
        (env.ensure_no_finalizer b bmc_finalizer)
      >>= λ modified. pure tt

  -- `err != nil && !errors.IsNotFound(err)`
  unfoldable pub discover_if_found : BmcObject → BmcProgram (Unit {0})
  unfolding wrap ignoring is_not_found discover_servers
  discover_if_found b =
      wrap "failed to discover servers" (ignoring is_not_found (discover_servers b))

  unfoldable pub reconcile_bmc : BmcObject → BmcProgram (Unit {0})
  unfolding should_ignore_reconciliation pure wrap update_bmc_status_details discover_if_found ◌>>=◌
  reconcile_bmc b =
      if should_ignore_reconciliation b.metadata
      then pure tt
      else (wrap "failed to get BMC details" (update_bmc_status_details b) >>= discover_if_found)

  unfoldable pub reconcile_existing_bmc : BmcObject → BmcProgram (Unit {0})
  unfolding delete_bmc reconcile_bmc
  reconcile_existing_bmc b = if is_deleted b.metadata then delete_bmc b else reconcile_bmc b

  -- Reconcile, for the BMC of a name; `client.IgnoreNotFound` on the error of the read.
  unfoldable pub bmc_found : Result BmcObject → BmcProgram (Unit {0})
  unfolding reconcile_existing_bmc is_not_found pure raise
  bmc_found (Result.ok b) = reconcile_existing_bmc b
  bmc_found (Result.err e) = if is_not_found e then pure tt else raise e

  unfoldable pub reconcile : String → BmcProgram (Unit {0})
  unfolding attempt perform bmc_found ◌>>=◌
  reconcile name = attempt (perform (BmcCall.get_bmc name) (env.get_bmc name)) >>= bmc_found
