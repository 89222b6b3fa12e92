-- ===== src/Redfish/Bios.antt =====
-- bmc/redfish.go: BIOS attributes and the registry that describes them. A Go map is an association
-- list here, and its order is the order of iteration.
use metal_operator.Base.{
  String, ◌<>◌, Bool, false, not, ◌&&◌, ◌||◌, ◌==◌, Option, none, some, List, [], ◌∷◌, Dict, lookup,
  insert, if◌then◌else◌,
}
use metal_operator.Effects.{Err, Result, pure, ◌>>=◌, ◌>>◌, perform, raise, optional, join_error}
use metal_operator.Effects.Polling.{Poller}
use metal_operator.Redfish.Text.{contains, atoi_reads}
use metal_operator.Redfish.Service.{
  ComputerSystem, RegistryEntryAttributes, BiosRegistry, RegistryFile, RedfishCall, RedfishProgram,
  Service,
}
use metal_operator.Redfish.Client.{RedfishOptions, get_system_by_uuid}

abbrev pub empty_registry : BiosRegistry
empty_registry = record { attributes = [] }

unfoldable pub bool_eq : Bool → Bool → Bool
bool_eq a b = if a then b else not b

-- Whether an entry stays in the filtered registry.
unfoldable pub is_kept : Bool → Bool → RegistryEntryAttributes → Bool
unfolding bool_eq
is_kept read_only immutable e =
    bool_eq e.immutable immutable && bool_eq e.read_only read_only && not e.hidden

unfoldable pub filter_from :
    Bool
    → Bool
    → List RegistryEntryAttributes
    → Dict RegistryEntryAttributes
    → Dict RegistryEntryAttributes
unfolding is_kept
filter_from read_only immutable [] filtered = filtered
filter_from read_only immutable (e ∷ entries) filtered =
    filter_from read_only immutable entries
      (if is_kept read_only immutable e then insert e.attribute_name e filtered else filtered)

-- The result of checkBiosAttributes: the flag, and what errors.Join has gathered.
pub record Verdict : Type 0 where
  pub reset : Bool
  pub error : Option Err

unfoldable pub reject : String → Verdict → Verdict
unfolding join_error
reject message v = record v { error = some (join_error v.error (Err.failed message)) }

-- The switch on the type of an attribute.
unfoldable pub check_value :
    (String → String) → RegistryEntryAttributes → String → String → Verdict → Verdict
unfolding reject atoi_reads
check_value lower e name value v =
    if lower e.type == "integer"
    then (if atoi_reads value
        then v
        else reject ("attribute " <> (name <> " value has wrong type")) v)
    else if lower e.type == "string"
    then v
    else reject ("attribute " <> (name <> " value has wrong type")) v

-- One turn of the loop of checkBiosAttributes.
unfoldable pub check_entry :
    (String → String) → Option RegistryEntryAttributes → String → String → Verdict → Verdict
unfolding reject check_value
check_entry lower none name value v =
    reject ("attribute " <> (name <> " not found or immutable/hidden")) v
check_entry lower (some e) name value v =
    check_value lower e name value (record v { reset = v.reset || e.reset_required })

unfoldable pub check_attribute :
    (String → String) → Dict RegistryEntryAttributes → String → String → Verdict → Verdict
unfolding check_entry
check_attribute lower filtered name value v = check_entry lower (lookup name filtered) name value v

unfoldable pub check_all :
    (String → String) → Dict RegistryEntryAttributes → Dict String → Verdict → Verdict
unfolding check_attribute
check_all lower filtered [] v = v
check_all lower filtered ((name, value) ∷ attrs) v =
    check_all lower filtered attrs (check_attribute lower filtered name value v)

-- The loop of GetBiosAttributeValues.
unfoldable pub attribute_values :
    Dict RegistryEntryAttributes → (String → String) → List String → Dict String → Dict String
attribute_values filtered value [] result = result
attribute_values filtered value (name ∷ names) result =
    attribute_values filtered value names
      (elim (lookup name filtered) [ none ↦ result | some e ↦ insert name (value name) result ])

module _ (service : Service) where
  -- registry.Get(r.client, registry.Location[0].URI, biosRegistry)
  unfoldable pub read_registry : RegistryFile → BiosRegistry → RedfishProgram BiosRegistry
  unfolding raise perform
  read_registry f registry = elim f.locations [
    | [] ↦ raise (Err.panic "index out of range")
    | uri ∷ more ↦ perform (RedfishCall.get_registry uri) (service.get_registry uri registry)
  ]

  -- The loop over the registries. It carries the error of the listing, which the answer of a
  -- registry overwrites.
  unfoldable pub read_registries :
      List RegistryFile → BiosRegistry → Option Err → RedfishProgram (BiosRegistry × Option Err)
  unfolding pure read_registry ◌>>=◌
  read_registries [] registry error = pure (registry, error)
  read_registries (f ∷ files) registry error =
      if contains f.id "BiosAttributeRegistry"
      then (read_registry f registry >>= λ r. read_registries files r none)
      else read_registries files registry error

  -- `registries, err := r.client.Service.Registries()`
  unfoldable pub list_registries : RedfishProgram (List RegistryFile × Option Err)
  unfolding perform
  list_registries = perform RedfishCall.get_registries (λ h. Result.ok (service.registries h))

  unfoldable pub get_filtered_bios_registry_attributes :
      Bool → Bool → RedfishProgram (Dict RegistryEntryAttributes)
  unfolding list_registries read_registries filter_from pure optional raise ◌>>=◌
  get_filtered_bios_registry_attributes read_only immutable = do
    (files, error) ← list_registries
    (registry, error') ← read_registries files empty_registry error
    optional error' (pure (filter_from read_only immutable registry.attributes [])) raise

  unfoldable pub check_bios_attributes : Dict String → RedfishProgram Bool
  unfolding get_filtered_bios_registry_attributes check_all optional raise pure ◌>>=◌
  check_bios_attributes attrs = do
    filtered ← get_filtered_bios_registry_attributes false false
    let v = check_all service.to_lower filtered attrs (record { reset = false; error = none })
    optional v.error (pure v.reset) raise

  unfoldable pub get_bios : ComputerSystem → RedfishProgram (String → String)
  unfolding perform
  get_bios s = perform (RedfishCall.get_bios s.id) (service.bios s)

  unfoldable pub update_bios : ComputerSystem → Dict String → RedfishProgram (Unit {0})
  unfolding perform
  update_bios s attrs = perform (RedfishCall.update_bios s.id attrs) (service.update_bios s attrs)

  module _ (poller : Poller RedfishCall) (o : RedfishOptions) where
    unfoldable pub read_attribute_values : String → List String → RedfishProgram (Dict String)
    unfolding get_system_by_uuid get_bios get_filtered_bios_registry_attributes attribute_values
        pure ◌>>=◌
    read_attribute_values uuid attributes = do
      s ← get_system_by_uuid service poller o uuid
      value ← get_bios s
      filtered ← get_filtered_bios_registry_attributes false false
      pure (attribute_values filtered value attributes [])

    unfoldable pub get_bios_attribute_values : String → List String → RedfishProgram (Dict String)
    unfolding pure read_attribute_values
    get_bios_attribute_values uuid [] = pure []
    get_bios_attribute_values uuid (a ∷ attributes) = read_attribute_values uuid (a ∷ attributes)

    unfoldable pub set_bios_attributes : String → Dict String → RedfishProgram Bool
    unfolding get_system_by_uuid get_bios check_bios_attributes update_bios pure ◌>>=◌ ◌>>◌
    set_bios_attributes uuid attrs = do
      s ← get_system_by_uuid service poller o uuid
      value ← get_bios s
      reset ← check_bios_attributes attrs
      update_bios s attrs
      pure reset
