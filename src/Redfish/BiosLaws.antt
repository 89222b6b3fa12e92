-- ===== src/Redfish/BiosLaws.antt =====
-- Which BIOS attributes the client reads, and which it accepts to write.
use mathlib.Core.Path.{subst}
use metal_operator.Base.{
  ◌≡◌, refl, sym, ◌<>◌, ◌⊎◌, inl, inr, ◌↔◌, String, Bool, true, false, ◌&&◌, ◌||◌, ◌==◌, Bool-cases,
  Option, none, some, is_some, Option-cases, List, [], ◌∷◌, All, Any, Dict, lookup, insert,
  lookup-insert, eq_iff, arith, if◌then◌else◌,
}
use metal_operator.Effects.{join_error}
use metal_operator.Redfish.Text.{atoi_reads}
use metal_operator.Redfish.Service.{RegistryEntryAttributes}
use metal_operator.Redfish.Bios.{
  Verdict, bool_eq, is_kept, filter_from, reject, check_value, check_entry, check_attribute,
  check_all, attribute_values,
}

-- The value is one that the type of the entry allows.
abbrev pub FitsType : (String → String) → RegistryEntryAttributes → String → Type 0
FitsType lower e value =
    (lower e.type ≡ "integer") × (atoi_reads value ≡ true) ⊎ (lower e.type ≡ "string")

-- The dictionary has an entry of the name, whose type allows the value.
abbrev pub IsAcceptable :
    (String → String) → Dict RegistryEntryAttributes → String × String → Type 0
IsAcceptable lower filtered (name, value) =
    (e : RegistryEntryAttributes) × (lookup name filtered ≡ some e) × FitsType lower e value

-- A visible entry of the name, which can be written.
abbrev pub IsWritable : String → RegistryEntryAttributes → Type 0
IsWritable name e =
    (e.attribute_name ≡ name) × (e.hidden ≡ false) × (e.immutable ≡ false) × (e.read_only ≡ false)

some_injective : {A : Type 0} {a b : A} → some a ≡ some b → a ≡ b
some_injective e = cc

module _ (integer reads text : Bool) (both : integer ≡ true → text ≡ true → ⊥) (message : String)
    (v : Verdict) where
  verdict : Verdict
  verdict =
      if integer
      then (if reads then v else reject message v)
      else (if text then v else reject message v)

  verdict_iff :
      (verdict.error ≡ none)
      ↔ ((integer ≡ true) × (reads ≡ true) ⊎ (text ≡ true)) × (v.error ≡ none)
  unfolding reject join_error verdict
  verdict_iff = (λ e. ground arith, λ (f, e). ground arith)

-- "integer" and "string" are different.
exclusive : (t : String) → (t == "integer") ≡ true → (t == "string") ≡ true → ⊥
exclusive t i x = ground (arith, eq_iff t "integer", eq_iff t "string", eq_iff "integer" "string")

check_value_iff :
    (lower : String → String) (e : RegistryEntryAttributes) (name value : String) (v : Verdict)
    → ((check_value lower e name value v).error ≡ none) ↔ FitsType lower e value × (v.error ≡ none)
unfolding check_value verdict
check_value_iff lower e name value v =
    let known =
      verdict_iff (lower e.type == "integer") (atoi_reads value) (lower e.type == "string")
        (exclusive (lower e.type)) ("attribute " <> (name <> " value has wrong type")) v in
    (
      λ h.
          ground
            (arith, known.0 h, eq_iff (lower e.type) "integer", eq_iff (lower e.type) "string"),
      λ (f, h). known.1 (
        elim f [
          | inl (i, r) ↦ inl ((eq_iff (lower e.type) "integer").1 i, r)
          | inr t ↦ inr ((eq_iff (lower e.type) "string").1 t)
        ],
        h,
      ),
    )

module _ (lower : String → String) (filtered : Dict RegistryEntryAttributes) where
  check_attribute_iff :
      (name value : String) (v : Verdict)
      → ((check_attribute lower filtered name value v).error ≡ none)
        ↔ IsAcceptable lower filtered (name, value) × (v.error ≡ none)
  unfolding check_attribute check_entry reject
  check_attribute_iff name value v = go (lookup name filtered)
    where
      go :
          (o : Option RegistryEntryAttributes)
          → ((check_entry lower o name value v).error ≡ none)
            ↔ ((e : RegistryEntryAttributes) × (o ≡ some e) × FitsType lower e value)
              × (v.error ≡ none)
      go none = (λ e. ground arith, λ ((e, o, f), h). ground arith)
      go (some e) =
          let known =
            check_value_iff lower e name value (record v { reset = v.reset || e.reset_required }) in
          (
            λ h. let (f, h') = known.0 h in ((e, refl, f), h'),
            λ ((e', o, f), h).
                known.1 (subst (λ x. FitsType lower x value) (some_injective (sym o)) f, h),
          )

  -- The loop of checkBiosAttributes gathers no error just where the filtered registry has an entry
  -- for every attribute, whose type allows the value.
  pub check_all_iff :
      (attrs : Dict String) (v : Verdict)
      → ((check_all lower filtered attrs v).error ≡ none)
        ↔ All (IsAcceptable lower filtered) attrs × (v.error ≡ none)
  unfolding check_all
  check_all_iff [] v = (λ h. (tt, h), λ (a, h). h)
  check_all_iff ((name, value) ∷ attrs) v =
      let step = check_attribute_iff name value v in
      let rest = check_all_iff attrs (check_attribute lower filtered name value v) in
      (
        λ h. let (a, h') = rest.0 h in let (b, h'') = step.0 h' in ((b, a), h''),
        λ ((b, a), h). rest.1 (a, step.1 (b, h)),
      )

inserted :
    (name : String) (e x : RegistryEntryAttributes) (filtered : Dict RegistryEntryAttributes)
    {entries : List RegistryEntryAttributes}
    → is_kept false false x ≡ true
    → lookup name (insert x.attribute_name x filtered) ≡ some e
    → Any (λ y. (y ≡ e) × IsWritable name y) (x ∷ entries) ⊎ (lookup name filtered ≡ some e)
unfolding is_kept bool_eq
inserted name e x filtered k l = elim (Bool-cases (x.attribute_name == name)) [
  | inl t ↦ inl (
      Any.head {x = x} (
        ground (arith, lookup-insert x.attribute_name name x filtered),
        ((eq_iff x.attribute_name name).0 t, ground arith, ground arith, ground arith),
      ))
  | inr f ↦ inr (ground (arith, lookup-insert x.attribute_name name x filtered))
]

-- What the filter for writable attributes keeps was in the registry, and can be written.
pub filter_from-Any :
    (name : String) (e : RegistryEntryAttributes) (entries : List RegistryEntryAttributes)
    (filtered : Dict RegistryEntryAttributes)
    → lookup name (filter_from false false entries filtered) ≡ some e
    → Any (λ x. (x ≡ e) × IsWritable name x) entries ⊎ (lookup name filtered ≡ some e)
unfolding filter_from
filter_from-Any name e [] filtered h = inr h
filter_from-Any name e (x ∷ entries) filtered h = elim (Bool-cases (is_kept false false x)) [
  | inr f ↦ elim (filter_from-Any name e entries filtered (ground arith)) [
    | inl a ↦ inl (Any.tail a)
    | inr l ↦ inr l
  ]
  | inl k ↦
      elim (filter_from-Any name e entries (insert x.attribute_name x filtered) (ground arith)) [
        | inl a ↦ inl (Any.tail a)
        | inr l ↦ inserted name e x filtered k l
      ]
]

abbrev pub includes : String → List String → Bool
includes j [] = false
includes j (name ∷ names) = (name == j) || includes j names

-- The loop of GetBiosAttributeValues gives just the requested names that the filtered registry
-- has, each with its value.
pub lookup-attribute_values :
    (filtered : Dict RegistryEntryAttributes) (value : String → String) (j : String)
    (names : List String) (result : Dict String)
    → lookup j (attribute_values filtered value names result) ≡ (
        if includes j names && is_some (lookup j filtered) then some (value j) else lookup j result)
unfolding attribute_values
lookup-attribute_values filtered value j [] result = refl
lookup-attribute_values filtered value j (name ∷ names) result =
    elim (Option-cases (lookup name filtered)) [
      | inl n ↦ ground (arith, eq_iff name j, lookup-attribute_values filtered value j names result)
      | inr (e, f) ↦ ground (
        arith,
        eq_iff name j,
        lookup-insert name j (value name) result,
        lookup-attribute_values filtered value j names (insert name (value name) result),
      )
    ]
