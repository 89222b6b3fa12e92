-- ===== src/ServerReconciler/Status.antt =====
-- patchServerState, updateServerStatus, applyBiosSettings, handleAnnotionOperations and the
-- exchange with the registry.
use metal_operator.Base.{
  ℕ, String, ◌<>◌, ◌==◌, ◌!=◌, Bool, true, false, not, ◌&&◌, ◌||◌, if◌then◌else◌, Option, none,
  some, is_some, List, [], ◌∷◌, map, Dict, lookup, erase, get_last?, ltb, ◌+◌,
}
use metal_operator.Api.Meta.{ManagedFieldsEntry, operation_annotation}
use metal_operator.Api.Server.{
  Server, ServerState, BiosSettings, NetworkInterface, server_state_eq, with_state,
}
use metal_operator.Effects.{
  Err, Result, M, pure, raise, lift, optional, ◌>>=◌, ◌>>◌, wrap, with_logout,
}
use metal_operator.Effects.Env.{Env, Bmc, SystemInfo, HttpReply, HttpResponse, RegistryInterface}
use metal_operator.Client.{
  bmc_client, reset, get_system_info, get_bios_version, get_bios_attribute_values,
  set_bios_attributes, patch_server, patch_server_status, http_get, http_delete, now,
}
use metal_operator.ServerReconciler.Config.{ServerReconciler}
use metal_operator.ServerReconciler.Boot.{has_bmc}

-- The fields that updateServerStatus copies from the BMC.
abbrev pub with_system_info : SystemInfo → Server → Server
with_system_info i s = record s {
  status = record (s.status) {
    power_state = i.power_state;
    serial_number = i.serial_number;
    sku = i.sku;
    manufacturer = i.manufacturer;
    model = i.model;
    indicator_led = i.indicator_led;
    total_system_memory = some i.total_system_memory;
  };
}

abbrev pub with_bios : String → Dict String → Server → Server
with_bios version settings s = record s {
  status = record (s.status) { bios = record { version = version; settings = settings } };
}

abbrev pub with_conditions : List String → Server → Server
with_conditions cs s = record s { status = record (s.status) { conditions = cs } }

abbrev pub with_network_interfaces : List NetworkInterface → Server → Server
with_network_interfaces nics s = record s {
  status = record (s.status) { network_interfaces = nics };
}

abbrev pub with_annotations : Dict String → Server → Server
with_annotations a s = record s { metadata = record (s.metadata) { annotations = a } }

-- `res` of `res, ok := m[k]`: the empty string where the key is missing.
abbrev pub lookup_or_empty : String → Dict String → String
lookup_or_empty k m = elim (lookup k m) [ none ↦ "" | some v ↦ v ]

-- The map `diff` of applyBiosSettings, with the tests nested as in the source.
unfoldable pub bios_diff : Dict String → Dict String → Dict String
bios_diff [] current = []
bios_diff ((key, value) ∷ settings) current =
    let rest = bios_diff settings current in
    let found = is_some (lookup key current) in
    if not found
    then (if not found || lookup_or_empty key current != value then (key, value) ∷ rest else rest)
    else rest

abbrev pub keys : Dict String → List String
keys = map (λ (k, _). k)

-- `resp.StatusCode == http.StatusNotFound`
abbrev pub is_not_found_status : ℕ → Bool
is_not_found_status c = not (ltb c 404) && not (ltb 404 c)

-- `MustParseIP` panics on a text that is no address.
unfoldable pub network_interfaces : Env → List RegistryInterface → Result (List NetworkInterface)
network_interfaces env [] = Result.ok []
network_interfaces env (i ∷ is) =
    let rest = network_interfaces env is in
    elim (env.parse_addr i.ip_address) [
      | none ↦ Result.err (Err.panic "unable to parse IP")
      | some ip ↦ elim rest [
        | Result.err e ↦ Result.err e
        | Result.ok nics ↦
            Result.ok (record { name = i.name; ip = ip; mac_address = i.mac_address } ∷ nics)
      ]
    ]

module _ (env : Env) (r : ServerReconciler) where
  unfoldable pub patch_server_state : Server → ServerState → M (Server × Bool)
  unfolding server_state_eq
  patch_server_state s x =
      if server_state_eq s.status.state x
      then pure (s, false)
      else wrap "failed to patch server state" (patch_server_status env s (with_state x s))
        >>= λ s'. pure (s', true)

  -- One round of the loop over `server.Spec.BIOS`.
  unfoldable pub read_bios_settings : Bmc → String → BiosSettings → Server → M Server
  read_bios_settings bmc version b s =
      if b.version == version
      then wrap "failed load bios settings"
          (get_bios_attribute_values bmc s.spec.system_uuid (keys b.settings))
        >>= (λ attributes. pure (with_bios version attributes s))
      else pure s

  unfoldable pub read_bios : Bmc → String → List BiosSettings → Server → M Server
  unfolding read_bios_settings
  read_bios bmc version [] s = pure s
  read_bios bmc version (b ∷ bs) s = read_bios_settings bmc version b s >>= read_bios bmc version bs

  unfoldable pub update_server_status_from : Bmc → Server → M Server
  unfolding read_bios
  update_server_status_from bmc s = do
    info ← wrap "failed to get system info for Server" (get_system_info bmc s.spec.system_uuid)
    version ← wrap "failed to load bios version" (get_bios_version bmc s.spec.system_uuid)
    s' ← read_bios bmc version s.spec.bios (with_system_info info s)
    wrap "failed to patch Server status" (patch_server_status env s s')

  unfoldable pub update_server_status : Server → M Server
  unfolding update_server_status_from has_bmc
  update_server_status s =
      if not (has_bmc s)
      then pure s
      else wrap "failed to create BMC client" (bmc_client env s) >>= λ bmc.
          with_logout (update_server_status_from bmc s)

  -- A required reset is noted as a condition, and patched if that changed the conditions.
  unfoldable pub note_reset : Server → Bool → M Server
  note_reset s reset =
      let (conditions, changed) = env.set_status_condition s.status.conditions "Reboot needed" in
      if reset
      then (if changed
          then wrap "failed to patch Server status"
              (patch_server_status env s (with_conditions conditions s))
          else pure (with_conditions conditions s))
      else pure s

  -- The loop over `server.Spec.BIOS`, left at the first version that matches.
  unfoldable pub apply_matching_bios : Bmc → Server → String → List BiosSettings → M Server
  unfolding note_reset bios_diff
  apply_matching_bios bmc s version [] = pure s
  apply_matching_bios bmc s version (b ∷ bs) =
      let rest = apply_matching_bios bmc s version bs in
      if b.version == version
      then set_bios_attributes bmc s.spec.system_uuid (bios_diff b.settings s.status.bios.settings)
        >>= note_reset s
      else rest

  unfoldable pub apply_bios_settings : Server → M Server
  unfolding apply_matching_bios has_bmc
  apply_bios_settings s =
      if not (has_bmc s)
      then pure s
      else wrap "failed to create BMC client" (bmc_client env s) >>= λ bmc. with_logout (
          wrap "failed to create BMC client" (get_bios_version bmc s.spec.system_uuid)
          >>= λ version. apply_matching_bios bmc s version s.spec.bios)

  unfoldable pub run_annotation_operation : Bmc → Server → String → M (Server × Bool)
  run_annotation_operation bmc s operation = do
    wrap "failed to reset server" (reset bmc s.spec.system_uuid operation)
    s' ← wrap "failed to patch server annotations" (
        patch_server env s (with_annotations (erase operation_annotation s.metadata.annotations) s))
    pure (s', true)

  unfoldable pub handle_annotation_operations : Server → M (Server × Bool)
  unfolding run_annotation_operation
  handle_annotation_operations s =
      optional (lookup operation_annotation s.metadata.annotations) (pure (s, false)) λ operation.
        wrap "failed to create BMC client" (bmc_client env s) >>= λ bmc.
        with_logout (run_annotation_operation bmc s operation)

  -- Whether the last writer of the server updated its status longer ago than the timeout.
  unfoldable pub last_update_after : ManagedFieldsEntry → M Bool
  last_update_after m =
      if m.operation == "Update" && m.subresource == "status"
      then optional m.time (raise (Err.panic "nil pointer dereference"))
          (λ time. now env >>= λ t. pure (ltb (time + r.discovery_timeout) t))
      else pure false

  -- `server.ManagedFields[len(server.ManagedFields) - 1]` panics on an empty list.
  unfoldable pub check_last_status_update_after : Server → M Bool
  unfolding last_update_after
  check_last_status_update_after s =
      optional (get_last? s.metadata.managed_fields) (raise (Err.panic "index out of range"))
        last_update_after

  unfoldable pub store_registry_details : Server → HttpResponse → M (Server × Bool)
  unfolding network_interfaces
  store_registry_details s resp = do
    details ← wrap "failed to decode server details" (lift (env.decode_registry_server resp.body))
    nics ← lift (network_interfaces env details.network_interfaces)
    s' ←
        wrap "failed to patch server status"
          (patch_server_status env s (with_network_interfaces nics s))
    pure (s', true)

  -- The tests on what `http.Get` returned, in the order of the source.
  unfoldable pub use_registry_response : Server → Option Err → HttpResponse → M (Server × Bool)
  unfolding store_registry_details
  use_registry_response s error resp =
      if is_not_found_status resp.status_code
      then pure (s, false)
      else optional error (store_registry_details s resp)
          (λ e. raise (Err.wrapped "failed to fetch server details" e))

  unfoldable pub use_registry_reply : Server → HttpReply → M (Server × Bool)
  unfolding use_registry_response
  use_registry_reply s reply =
      optional reply.response (raise (Err.failed "failed to find server information in registry"))
        (use_registry_response s reply.error)

  unfoldable pub extract_server_details_from_registry : Server → M (Server × Bool)
  unfolding use_registry_reply
  extract_server_details_from_registry s =
      http_get env (r.registry_url <> ("/systems/" <> s.spec.system_uuid)) >>= use_registry_reply s

  unfoldable pub invalidate_registry_entry : Server → M (Unit {0})
  invalidate_registry_entry s =
      http_delete env (r.registry_url <> ("/delete/" <> s.spec.system_uuid))
