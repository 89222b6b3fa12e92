-- ===== src/ServerReconciler/BiosLaws.antt =====
-- Which BIOS settings applyBiosSettings sends.
use metal_operator.Base.{
  String, ◌≡◌, eq_iff, none, is_some, [], ◌∷◌, Dict, lookup, arith, if◌then◌else◌,
}
use metal_operator.ServerReconciler.Status.{bios_diff}

-- A setting is sent exactly if the status has no value at all for its name; a setting that the
-- status has with another value is not sent.
pub lookup-bios_diff :
    (k : String) (settings current : Dict String)
    → lookup k (bios_diff settings current)
      ≡ (if is_some (lookup k current) then none else lookup k settings)
unfolding bios_diff
lookup-bios_diff k [] current = ground arith
lookup-bios_diff k ((j, v) ∷ settings) current =
    ground (arith, eq_iff j k, lookup-bios_diff k settings current)
