-- ===== src/ServerReconciler/States.antt =====
-- The handlers of the server states, and the dispatch on the state.
use metal_operator.Base.{Bool, true, false, if◌then◌else◌, List, map}
use metal_operator.Api.Server.{
  Server, Power, ServerPowerState, ServerState, Storage, StorageDrive, StorageVolume,
  power_state_eq, with_power,
}
use metal_operator.Effects.{M, pure, ◌>>=◌, ◌>>◌, wrap, unless_modified}
use metal_operator.Effects.Env.{Env, BmcStorage, Drive, Volume}
use metal_operator.Client.{bmc_client, get_storages, patch_server, patch_server_status}
use metal_operator.ServerReconciler.Config.{ServerReconciler}
use metal_operator.ServerReconciler.Power.{ensure_server_power_state, ensure_initial_conditions}
use metal_operator.ServerReconciler.Boot.{
  boot_configuration_is_ready, pxe_boot_server, apply_boot_configuration_for_discovery,
  ensure_initial_boot_configuration_is_deleted,
}
use metal_operator.ServerReconciler.Status.{
  patch_server_state, check_last_status_update_after, extract_server_details_from_registry,
  invalidate_registry_entry,
}

abbrev pub metal_drive : Drive → StorageDrive
metal_drive d = record {
  name = d.name;
  media_type = d.media_type;
  drive_type = d.drive_type;
  capacity = d.size_bytes;
  vendor = d.vendor;
  model = d.model;
  state = d.state;
}

abbrev pub metal_volume : Volume → StorageVolume
metal_volume v = record {
  name = v.name;
  capacity = v.size_bytes;
  state = v.state;
  raid_type = v.raid_type;
  volume_usage = v.volume_usage;
}

abbrev pub metal_storage : BmcStorage → Storage
metal_storage s = record {
  name = s.name;
  state = s.state;
  volumes = map metal_volume s.volumes;
  drives = map metal_drive s.drives;
}

abbrev pub with_storages : List Storage → Server → Server
with_storages ss s = record s { status = record (s.status) { storages = ss } }

module _ (env : Env) (r : ServerReconciler) where
  unfoldable pub boot_for_discovery : Server → M Bool
  boot_for_discovery s = do
    wrap "failed to ensure server power state" (ensure_server_power_state env r s)
    s1 ←
        wrap "failed to apply server boot configuration"
          (apply_boot_configuration_for_discovery env r s)
    wrap "failed to set PXE boot for server" (pxe_boot_server env r s1)
    unless_modified (patch_server_state env r s1 ServerState.discovery) false (λ _. pure false)

  -- The result is `requeue`, here and below.
  unfoldable pub handle_initial_state : Server → M Bool
  unfolding boot_for_discovery
  handle_initial_state s = do
    (s', requeue) ← ensure_initial_conditions env r s
    if requeue then pure true else boot_for_discovery s'

  -- The storages of a server; the BMC client is not logged out.
  unfoldable pub read_storages : Server → Server → M Server
  read_storages base s = do
    bmc ← wrap "failed to create BMC client" (bmc_client env s)
    storages ← wrap "failed to get storages for Server" (get_storages bmc s.spec.system_uuid)
    wrap "failed to patch Server status"
        (patch_server_status env base (with_storages (map metal_storage storages) s))

  -- handleDiscoveryState up to the patch of the storages.
  unfoldable pub power_on_and_read_storages : Server → M Server
  unfolding read_storages
  power_on_and_read_storages base = do
    s ←
        wrap "failed to update server power state"
          (patch_server env base (with_power Power.on base))
    wrap "failed to ensure server power state" (ensure_server_power_state env r s)
    read_storages base s

  -- Back to the initial state, if the server did not register in time.
  unfoldable pub give_up_discovery : Server → M (Server × Bool)
  give_up_discovery s = do
    late ← check_last_status_update_after env r s
    if late then patch_server_state env r s ServerState.initial else pure (s, false)

  -- Once the registry had the server's details.
  unfoldable pub finish_discovery : Server → M Bool
  finish_discovery s = do
    wrap "failed to invalidate registry entry for server" (invalidate_registry_entry env r s)
    unless_modified (patch_server_state env r s ServerState.available) false (λ _. pure false)

  unfoldable pub read_registry : Server → M Bool
  unfolding finish_discovery
  read_registry s = do
    (s', ready) ← extract_server_details_from_registry env r s
    if ready then finish_discovery s' else pure true

  unfoldable pub discover : Server → M Bool
  unfolding power_on_and_read_storages give_up_discovery read_registry
  discover base = do
    s ← power_on_and_read_storages base
    unless_modified (give_up_discovery s) false read_registry

  unfoldable pub handle_discovery_state : Server → M Bool
  unfolding discover
  handle_discovery_state s = do
    ready ← boot_configuration_is_ready env r s
    if ready then discover s else pure true

  -- A server that is not off is told to be, and is switched off.
  unfoldable pub settle_power : Server → M Server
  settle_power s = do
    s' ← wrap "failed to update server power state" (patch_server env s (with_power Power.off s))
    wrap "failed to ensure server power state" (ensure_server_power_state env r s')
    pure s'

  -- ensureIndicatorLED is not implemented in the source and does nothing.
  unfoldable pub ensure_indicator_led : Server → M (Unit {0})
  ensure_indicator_led s = pure tt

  unfoldable pub handle_available_state : Server → M Bool
  unfolding settle_power ensure_indicator_led
  handle_available_state s = do
    s1 ← if power_state_eq s.status.power_state ServerPowerState.off then pure s else settle_power s
    s2 ←
        wrap "failed to ensure server initial boot configuration is deleted"
          (ensure_initial_boot_configuration_is_deleted env r s1)
    wrap "failed to ensure server indicator led" (ensure_indicator_led s2)
    pure true

  unfoldable pub boot_reserved : Server → M Bool
  unfolding ensure_indicator_led
  boot_reserved s = do
    if power_state_eq s.status.power_state ServerPowerState.off
        then wrap "failed to boot server" (pxe_boot_server env r s)
        else pure tt
    wrap "failed to ensure server power state" (ensure_server_power_state env r s)
    wrap "failed to ensure server indicator led" (ensure_indicator_led s)
    pure true

  unfoldable pub handle_reserved_state : Server → M Bool
  unfolding boot_reserved
  handle_reserved_state s = do
    ready ← boot_configuration_is_ready env r s
    if ready then boot_reserved s else pure true

  -- The `switch` on the state.
  unfoldable pub transition : ServerState → Server → M Bool
  unfolding handle_initial_state handle_discovery_state handle_available_state handle_reserved_state
  transition ServerState.initial s = handle_initial_state s
  transition ServerState.discovery s = handle_discovery_state s
  transition ServerState.available s = handle_available_state s
  transition ServerState.reserved s = handle_reserved_state s
  transition _ s = pure false

  unfoldable pub ensure_server_state_transition : Server → M Bool
  unfolding transition
  ensure_server_state_transition s = transition s.status.state s
