-- ===== src/Redfish/Storage.antt =====
-- bmc/redfish.go: GetStorages, which falls back to the older storage API.
use metal_operator.Base.{String, List, [], ◌∷◌, map}
use metal_operator.Effects.{pure, ◌>>=◌, perform, wrap}
use metal_operator.Effects.Env.{Volume, Drive, BmcStorage}
use metal_operator.Effects.Polling.{Poller}
use metal_operator.Redfish.Service.{
  ComputerSystem, RedfishVolume, RedfishDrive, RedfishStorage, SimpleStorage, RedfishCall,
  RedfishProgram, Service,
}
use metal_operator.Redfish.Client.{RedfishOptions, when_ok, get_system_by_uuid}

unfoldable pub volume_of : RedfishVolume → Volume
volume_of v = record {
  id = v.id;
  name = v.name;
  size_bytes = v.capacity_bytes;
  state = v.state;
  raid_type = v.raid_type;
  volume_usage = "";
}

unfoldable pub drive_of : RedfishDrive → Drive
drive_of d = record {
  id = d.id;
  name = d.name;
  media_type = d.media_type;
  drive_type = d.form_factor;
  size_bytes = d.capacity_bytes;
  vendor = d.manufacturer;
  model = d.model;
  state = d.state;
}

-- A device has no ID, media type or form factor.
unfoldable pub drive_of_device : RedfishDrive → Drive
drive_of_device d = record {
  id = "";
  name = d.name;
  media_type = "";
  drive_type = "";
  size_bytes = d.capacity_bytes;
  vendor = d.manufacturer;
  model = d.model;
  state = d.state;
}

unfoldable pub storage_of_simple : SimpleStorage → BmcStorage
unfolding drive_of_device
storage_of_simple s = record {
  id = s.id;
  name = s.name;
  state = "";
  volumes = [];
  drives = map drive_of_device s.devices;
}

module _ (service : Service) where
  unfoldable pub read_storage : RedfishStorage → RedfishProgram BmcStorage
  unfolding perform volume_of drive_of pure ◌>>=◌
  read_storage s = do
    volumes ← perform (RedfishCall.get_volumes s.id) (service.volumes s)
    drives ← perform (RedfishCall.get_drives s.id) (service.drives s)
    pure (record {
      id = s.id;
      name = s.name;
      state = "";
      volumes = map volume_of volumes;
      drives = map drive_of drives;
    })

  unfoldable pub read_storages : List RedfishStorage → RedfishProgram (List BmcStorage)
  unfolding read_storage pure ◌>>=◌
  read_storages [] = pure []
  read_storages (s ∷ storages) = do
    storage ← read_storage s
    rest ← read_storages storages
    pure (storage ∷ rest)

  unfoldable pub read_simple_storages : ComputerSystem → RedfishProgram (List BmcStorage)
  unfolding perform storage_of_simple pure ◌>>=◌
  read_simple_storages s = do
    simple ← perform (RedfishCall.get_simple_storages s.id) (service.simple_storages s)
    pure (map storage_of_simple simple)

  -- `if len(result) == 0`
  unfoldable pub or_simple_storages :
      ComputerSystem → List BmcStorage → RedfishProgram (List BmcStorage)
  unfolding read_simple_storages pure
  or_simple_storages s [] = read_simple_storages s
  or_simple_storages s (storage ∷ storages) = pure (storage ∷ storages)

  unfoldable pub list_storage : ComputerSystem → RedfishProgram (List RedfishStorage)
  unfolding perform
  list_storage s = perform (RedfishCall.get_storage s.id) (service.storage s)

  unfoldable pub get_storages :
      Poller RedfishCall → RedfishOptions → String → RedfishProgram (List BmcStorage)
  unfolding get_system_by_uuid wrap when_ok list_storage read_storages or_simple_storages ◌>>=◌
  get_storages poller o uuid = do
    s ← get_system_by_uuid service poller o uuid
    found ← wrap "failed to wait for for server storages to be ready" (
        poller.poll o.resource_polling_interval o.resource_polling_timeout
          (when_ok (list_storage s)))
    storages ← read_storages found
    or_simple_storages s storages
