-- ===== src/Redfish/BiosSafety.antt =====
-- What SetBiosAttributes writes, and what GetBiosAttributeValues returns.
use mathlib.Core.Path.{subst}
use metal_operator.Base.{
  ◌≡◌, refl, ◌⊎◌, inl, inr, String, false, Option, none, List, [], ◌∷◌, All, Any, Dict, arith,
}
use metal_operator.Effects.{Err, Result, raise, perform}
use metal_operator.Effects.Keeps.{
  Keeps, Steps, Anything, Keeps-pure, Keeps-perform, Keeps-raise, Keeps-bind, Keeps-if,
  Keeps-optional, Keeps-optional_cases, Keeps-then,
}
use metal_operator.Effects.Rules.{Keeps-bind_any}
use metal_operator.Effects.Polling.{Poller}
use metal_operator.Redfish.Service.{
  RegistryEntryAttributes, BiosRegistry, RegistryFile, RedfishCall, RedfishHistory, ComputerSystem,
  Service,
}
use metal_operator.Redfish.Client.{RedfishOptions}
use metal_operator.Redfish.Bios.{
  empty_registry, read_registry, read_registries, list_registries, filter_from,
  get_filtered_bios_registry_attributes, check_bios_attributes, get_bios, update_bios,
  set_bios_attributes,
}
use metal_operator.Redfish.BiosLaws.{
  FitsType, IsAcceptable, IsWritable, check_all_iff, filter_from-Any,
}
use metal_operator.Redfish.SystemLaws.{IsReported, get_system_by_uuid-IsReported}

-- The registry is empty, or the service answered with it.
abbrev pub IsRead : Service → BiosRegistry → Type 0
IsRead service r =
    (r ≡ empty_registry)
    ⊎ (uri : String) × (before : BiosRegistry) × (h : RedfishHistory) × (service.get_registry uri
          before h
        ≡ Result.ok r)

-- The registry has a visible entry of the name that can be written and whose type allows the value.
abbrev pub IsAllowed : Service → BiosRegistry → String × String → Type 0
IsAllowed service r (name, value) =
    (e : RegistryEntryAttributes) × Any (λ x. (x ≡ e) × IsWritable name x) r.attributes
    × FitsType service.to_lower e value

-- Some registry that the service answered with allows all the attributes.
abbrev pub IsVetted : Service → Dict String → Type 0
IsVetted service attrs = (r : BiosRegistry) × IsRead service r × All (IsAllowed service r) attrs

-- BIOS attributes are written to a reported system only, and only the vetted ones.
abbrev pub WritesVetted : Service → String → Dict String → RedfishCall → RedfishHistory → Type 0
WritesVetted service uuid attrs (RedfishCall.update_bios id written) h =
    (written ≡ attrs)
    × IsVetted service attrs
    × ((s : ComputerSystem) × (s.id ≡ id) × IsReported service Anything uuid s)
WritesVetted service uuid attrs (RedfishCall.reset id kind) h = ⊥
WritesVetted service uuid attrs (RedfishCall.set_boot id boot) h = ⊥
WritesVetted service uuid attrs (RedfishCall.patch uri s) h = ⊥
WritesVetted service uuid attrs _ h = Unit

allowed :
    (service : Service) (r : BiosRegistry) (attrs : Dict String)
    → All (IsAcceptable service.to_lower (filter_from false false r.attributes [])) attrs
    → All (IsAllowed service r) attrs
allowed service r [] a = tt
allowed service r ((name, value) ∷ attrs) ((e, l, f), a) = (
  elim (filter_from-Any name e r.attributes [] l) [
    | inl w ↦ (e, w, f)
    | inr n ↦ absurd (ground arith)
  ],
  allowed service r attrs a,
)

module _ (service : Service) {J : RedfishHistory → Type 0}
    (lists : (h : RedfishHistory) → J h → J (RedfishCall.get_registries ∷ h))
    (reads : (uri : String) (h : RedfishHistory) → J h → J (RedfishCall.get_registry uri ∷ h)) where
  read_registry-IsRead :
      (f : RegistryFile) (r : BiosRegistry) → Keeps J (read_registry service f r) (IsRead service)
  unfolding read_registry
  read_registry-IsRead f r = go f.locations
    where
      go :
          (l : List String)
          → Keeps J
              (elim l [
                | [] ↦ raise (Err.panic "index out of range")
                | uri ∷ more ↦ perform (RedfishCall.get_registry uri) (service.get_registry uri r)
              ])
              (IsRead service)
      go [] = Keeps-raise _
      go (uri ∷ more) = Keeps-perform _ _ (reads uri) (λ h a e. inr (uri, r, h, e))

  read_registries-IsRead :
      (files : List RegistryFile) (r : BiosRegistry) (error : Option Err)
      → IsRead service r
      → Keeps J (read_registries service files r error) (λ x. IsRead service x.0)
  unfolding read_registries
  read_registries-IsRead [] r error i = Keeps-pure (r, error) i
  read_registries-IsRead (f ∷ files) r error i =
      Keeps-if _ _ _
        (λ t.
          Keeps-bind (read_registry service f r) _ (read_registry-IsRead f r)
            (λ r' i'. read_registries-IsRead files r' none i'))
        (λ n. read_registries-IsRead files r error i)

  -- The filtered registry is one that the service answered with, filtered.
  abbrev IsFiltered : Dict RegistryEntryAttributes → Type 0
  IsFiltered d =
      (r : BiosRegistry) × IsRead service r × (d ≡ filter_from false false r.attributes [])

  listed : Keeps J (list_registries service) Anything
  unfolding list_registries
  listed = Keeps-perform RedfishCall.get_registries _ lists (λ h a e. tt)

  filtered : Keeps J (get_filtered_bios_registry_attributes service false false) IsFiltered
  unfolding get_filtered_bios_registry_attributes
  filtered = Keeps-bind_any (list_registries service) _ listed λ (files, error).
      Keeps-bind _ _ (read_registries-IsRead files empty_registry error (inl refl)) λ (r, error') i.
        Keeps-optional error' _ _ (Keeps-pure _ (r, i, refl)) (λ e _. Keeps-raise e)

  vetted :
      (attrs : Dict String)
      → Keeps J (check_bios_attributes service attrs) (λ reset. IsVetted service attrs)
  unfolding check_bios_attributes
  vetted attrs = Keeps-bind _ _ filtered λ d (r, i, e).
      Keeps-optional_cases _ _ _
        (λ n. Keeps-pure _ (
          r,
          i,
          allowed service r attrs (
              subst (λ x. All (IsAcceptable service.to_lower x) attrs) e
                ((check_all_iff service.to_lower d attrs (record { reset = false; error = none })).0
                  n).0),
        ))
        (λ x _. Keeps-raise x)

module _ (service : Service) (uuid : String) (attrs : Dict String) (s : ComputerSystem) where
  abbrev J : RedfishHistory → Type 0
  J = Steps (WritesVetted service uuid attrs)

  bios_read : Keeps J (get_bios service s) Anything
  unfolding get_bios
  bios_read = Keeps-perform _ _ (λ h j. (tt, j)) (λ h a e. tt)

  bios_written :
      IsReported service Anything uuid s
      → IsVetted service attrs
      → Keeps J (update_bios service s attrs) Anything
  unfolding update_bios
  bios_written r v = Keeps-perform _ _ (λ h j. ((refl, v, (s, refl, r)), j)) (λ h a e. tt)

anywhere :
    {service : Service} {J : RedfishHistory → Type 0} {uuid : String} {s : ComputerSystem}
    → IsReported service J uuid s
    → IsReported service Anything uuid s
anywhere r = record {
  at = r.at;
  holds = tt;
  systems = r.systems;
  answered = r.answered;
  first = r.first;
}

-- SetBiosAttributes writes attributes only to a system that was reported as the first with the
-- UUID, and only where a registry that the service answered with has, for each of them, a visible
-- entry that is neither immutable nor read-only and whose type allows the value; and it writes
-- just the attributes that it was given, and changes nothing else on a machine.
pub set_bios_attributes-IsVetted :
    (service : Service) (poller : Poller RedfishCall) (o : RedfishOptions) (uuid : String)
    (attrs : Dict String)
    → Keeps
        (Steps (WritesVetted service uuid attrs))
        (set_bios_attributes service poller o uuid attrs)
        (λ reset. IsVetted service attrs)
unfolding set_bios_attributes
set_bios_attributes-IsVetted service poller o uuid attrs =
    Keeps-bind _ _ (get_system_by_uuid-IsReported service (λ h j. (tt, j)) poller o uuid) λ s r.
      Keeps-bind_any (get_bios service s) _ (bios_read service uuid attrs s) λ value.
        Keeps-bind _ _ (vetted service (λ h j. (tt, j)) (λ uri h j. (tt, j)) attrs) λ reset v.
          Keeps-then _ _ (bios_written service uuid attrs s (anywhere r) v) (Keeps-pure reset v)
