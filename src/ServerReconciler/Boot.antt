-- ===== src/ServerReconciler/Boot.antt =====
-- The boot configuration of a server, its ignition secrets, PXE boot and boot order.
use metal_operator.Base.{
  String, ◌<>◌, ◌==◌, ◌!=◌, Bool, false, not, ◌&&◌, ◌||◌, if◌then◌else◌, none, some, is_none, List,
  [], ◌∷◌, map, insert, lookup, int_ltb,
}
use metal_operator.Api.Meta.{ObjectMeta, ObjectReference, group_version}
use metal_operator.Api.Server.{Server, BootOrder, with_boot_ref}
use metal_operator.Api.Claim.{
  ServerBootConfiguration, BootConfigurationState, boot_configuration_state_eq,
}
use metal_operator.Effects.{
  Err, Result, M, Secret, pure, raise, lift, optional, ◌>>=◌, ◌>>◌, wrap, with_logout,
}
use metal_operator.Effects.Env.{Env, Bmc, KeyPair}
use metal_operator.Client.{
  bmc_client, set_pxe_boot_once, get_boot_order, set_boot_order, patch_server,
  get_boot_configuration, delete_boot_configuration, create_or_patch_boot_configuration,
  apply_secret, generate_key_pair, hash_password,
}
use metal_operator.ServerReconciler.Config.{
  ServerReconciler, internal_annotation_key, internal_annotation_value,
}

unfoldable pub has_bmc : Server → Bool
has_bmc s = not (is_none s.spec.bmc_ref && is_none s.spec.bmc)

-- The reference that the code writes into `server.Spec.BootConfigurationRef`.
abbrev pub boot_reference : ServerBootConfiguration → ObjectReference
boot_reference c = record {
  api_version = group_version;
  kind = "ServerBootConfiguration";
  namespace = c.metadata.namespace;
  name = c.metadata.name;
  uid = c.metadata.uid;
}

-- An object with a name and a namespace, and nothing else.
abbrev pub named : String → String → ObjectMeta
named name namespace = record {
  name = name;
  namespace = namespace;
  uid = "";
  labels = [];
  annotations = [];
  finalizers = [];
  owner_references = [];
  deletion_timestamp = none;
  managed_fields = [];
}

abbrev pub empty_boot_configuration : String → String → ServerBootConfiguration
empty_boot_configuration name namespace = record {
  metadata = named name namespace;
  spec = record { server_ref = record { name = "" }; image = ""; ignition_secret_ref = none };
  state = BootConfigurationState.unset;
}

-- `config.Annotations[InternalAnnotationTypeKeyName]` is the mark of a discovery configuration.
unfoldable pub is_internal : ServerBootConfiguration → Bool
is_internal c = elim (lookup internal_annotation_key c.metadata.annotations) [
  | none ↦ false
  | some val ↦ val == internal_annotation_value
]

-- sort.Slice by priority: up to twelve elements Go sorts by insertion, as here.
unfoldable pub insert_by_priority : BootOrder → List BootOrder → List BootOrder
insert_by_priority b [] = b ∷ []
insert_by_priority b (c ∷ cs) =
    if int_ltb c.priority b.priority || not (int_ltb b.priority c.priority)
    then c ∷ insert_by_priority b cs
    else b ∷ c ∷ cs

unfoldable pub sort_from : List BootOrder → List BootOrder → List BootOrder
unfolding insert_by_priority
sort_from sorted [] = sorted
sort_from sorted (b ∷ bs) = sort_from (insert_by_priority b sorted) bs

unfoldable pub sort_by_priority : List BootOrder → List BootOrder
unfolding sort_from
sort_by_priority bs = sort_from [] bs

-- The loop of applyBootOrder; `order[i]` panics where the BMC reports fewer entries.
unfoldable pub boot_order_change : List BootOrder → List String → Bool → Result Bool
boot_order_change [] order change = Result.ok change
boot_order_change (b ∷ bs) [] change = Result.err (Err.panic "index out of range")
boot_order_change (b ∷ bs) (o ∷ os) change = boot_order_change bs os (change || o != b.device)

abbrev pub devices : List BootOrder → List String
devices = map (λ b. b.device)

module _ (env : Env) (r : ServerReconciler) where
  unfoldable pub boot_configuration_is_ready : Server → M Bool
  boot_configuration_is_ready s = optional s.spec.boot_configuration_ref (pure false) λ ref.
      get_boot_configuration env ref.namespace ref.name >>= λ config.
      pure (boot_configuration_state_eq config.state BootConfigurationState.ready)

  unfoldable pub pxe_boot_server : Server → M (Unit {0})
  unfolding has_bmc
  pxe_boot_server s =
      if is_none s.spec.boot_configuration_ref
      then pure tt
      else if not (has_bmc s)
      then raise
          (Err.failed "can only PXE boot server with valid BMC ref or inline BMC configuration")
      else wrap "failed to get BMC client" (bmc_client env s) >>= λ bmc.
          with_logout (
            wrap "failed to set PXE boot one for server" (set_pxe_boot_once bmc s.spec.system_uuid))

  unfoldable pub ensure_server_boot_config_ref : Server → ServerBootConfiguration → M Server
  ensure_server_boot_config_ref s config =
      patch_server env s (with_boot_ref (some (boot_reference config)) s)

  -- The function that CreateOrPatch applies to the discovery configuration.
  abbrev pub discovery_configuration : Server → ServerBootConfiguration → ServerBootConfiguration
  discovery_configuration s c = record c {
    metadata = record (c.metadata) {
      annotations = insert internal_annotation_key internal_annotation_value c.metadata.annotations;
    };
    spec = record {
      server_ref = record { name = s.metadata.name };
      image = r.probe_os_image;
      ignition_secret_ref = some (record { name = s.metadata.name });
    };
  }

  unfoldable pub generate_default_ignition_data : String → KeyPair → M String
  generate_default_ignition_data flags keys = do
    hash ← wrap "failed to generate password hash" (hash_password env keys.password)
    wrap "failed to generate default ignition data"
        (lift (env.ignition_data r.probe_image flags keys.public_key hash))

  -- SetControllerReference on a new secret, and the server-side apply of it.
  unfoldable pub own_and_apply : String → ServerBootConfiguration → Secret → M (Unit {0})
  own_and_apply message config secret =
      wrap "failed to set controller reference"
        (lift (env.set_controller_reference config.metadata secret.metadata))
      >>= λ metadata.
          wrap message (apply_secret env (record { metadata = metadata; content = secret.content }))

  abbrev ssh_secret : ServerBootConfiguration → KeyPair → Secret
  ssh_secret config keys = record {
    metadata = named (config.metadata.name <> "-ssh") r.manager_namespace;
    content =
        ("pub", keys.public_key) ∷ ("pem", keys.private_key) ∷ ("password", keys.password) ∷ [];
  }

  abbrev ignition_secret : ServerBootConfiguration → String → Secret
  ignition_secret config ignition = record {
    metadata = named config.metadata.name r.manager_namespace;
    content = ("format", "fcos") ∷ ("ignition", ignition) ∷ [];
  }

  unfoldable pub apply_default_ignition : Server → ServerBootConfiguration → M (Unit {0})
  unfolding generate_default_ignition_data own_and_apply
  apply_default_ignition s config = do
    keys ← wrap "failed to generate SSH keypair" (generate_key_pair env)
    own_and_apply "failed to apply default SSH keypair" config (ssh_secret config keys)
    let flags = "--registry-url=" <> (r.registry_url <> (" --server-uuid=" <> s.spec.system_uuid))
    ignition ←
        wrap "failed to generate default ignitionSecret data"
          (generate_default_ignition_data flags keys)
    own_and_apply "failed to apply default ignition secret" config (ignition_secret config ignition)

  unfoldable pub apply_boot_configuration_for_discovery : Server → M Server
  unfolding ensure_server_boot_config_ref apply_default_ignition
  apply_boot_configuration_for_discovery s = do
    config ← wrap "failed to create or patch ServerBootConfiguration" (
        create_or_patch_boot_configuration env
          (empty_boot_configuration s.metadata.name r.manager_namespace)
          (λ c. Result.ok (discovery_configuration s c)))
    s' ← ensure_server_boot_config_ref s config
    apply_default_ignition s' config
    pure s'

  -- Once the configuration is fetched.
  unfoldable pub delete_if_internal : Server → ServerBootConfiguration → M Server
  unfolding is_internal
  delete_if_internal s config =
      if is_internal config
      then delete_boot_configuration env config.metadata.namespace config.metadata.name
        >> patch_server env s (with_boot_ref none s)
      else pure s

  unfoldable pub ensure_initial_boot_configuration_is_deleted : Server → M Server
  unfolding delete_if_internal
  ensure_initial_boot_configuration_is_deleted s =
      optional s.spec.boot_configuration_ref (pure s)
        λ ref. get_boot_configuration env ref.namespace ref.name >>= delete_if_internal s

  -- `server.Spec.BootOrder` is sorted in place.
  abbrev pub with_sorted_boot_order : Server → Server
  with_sorted_boot_order s = record s {
    spec = record (s.spec) { boot_order = sort_by_priority s.spec.boot_order };
  }

  -- Once the BMC has reported its boot order.
  unfoldable pub apply_order : Bmc → Server → List String → M Server
  unfolding boot_order_change sort_by_priority
  apply_order bmc s order = do
    let sorted = sort_by_priority s.spec.boot_order
    change ← lift (boot_order_change sorted order false)
    if change then set_boot_order bmc s.spec.system_uuid (devices sorted) else pure tt
    pure (with_sorted_boot_order s)

  unfoldable pub apply_boot_order : Server → M Server
  unfolding apply_order has_bmc
  apply_boot_order s =
      if not (has_bmc s)
      then pure s
      else wrap "failed to create BMC client" (bmc_client env s) >>= λ bmc. with_logout (
          wrap "failed to create BMC client" (get_boot_order bmc s.spec.system_uuid)
          >>= apply_order bmc s)
