-- ===== src/Tests/ClaimWitnesses.antt =====
-- The theorems on the controllers of claims and of boot configurations, at the test data.
use metal_operator.Base.{◌≡◌, ◌≢◌, refl, ◌↔◌, ◌⊎◌, none, some, [], ◌∷◌}
use metal_operator.Api.Server.{Server, Power, with_claim_ref, with_power, with_boot_ref}
use metal_operator.Effects.{Result, Call}
use metal_operator.Effects.Keeps.{Steps}
use metal_operator.ClaimReconciler.Select.{first_matching, first_best, claim_server_by_reference}
use metal_operator.ClaimReconciler.SelectLaws.{
  IsFirst, IsClaimable, IsOwn, IsFree, first_matching_lem, first_best_lem,
}
use metal_operator.ClaimReconciler.ReferenceLaws.{IsSelected, claim_server_by_reference_lem}
use metal_operator.ClaimReconciler.Claim.{claim_reference}
use metal_operator.ClaimReconciler.Reconcile.{
  reconcile_exists, reconcile_request, cleanup_and_shutdown_server,
  remove_boot_config_ref_from_server_and_power_off,
}
use metal_operator.ClaimReconciler.Respects.{Respects}
use metal_operator.ClaimReconciler.Safety.{reconcile-Respects}
use metal_operator.ClaimReconciler.Cleanup.{
  IsAfter, cleanup_and_shutdown_server-clears, remove_boot_config_ref_lem,
}
use metal_operator.BootConfigurationReconciler.Reconcile.{
  reconcile_request as reconcile_boot_configuration,
}
use metal_operator.BootConfigurationReconciler.Pending.{OnlyPends, reconcile_request-OnlyPends}
use metal_operator.Tests.Data.{node, taken, claim, boot_reference_b}
use metal_operator.Tests.Answers.{world, world-IsSoleBinder}

first_matching_lem_example :
    IsFirst (IsClaimable claim) (taken ∷ node ∷ []) (first_matching claim (taken ∷ node ∷ []))
first_matching_lem_example = first_matching_lem claim (taken ∷ node ∷ [])

first_best_lem_example :
    ((s : Server) × IsFirst (IsOwn claim) (taken ∷ node ∷ []) (some s)
      × (first_best claim (taken ∷ node ∷ []) ≡ some s))
    ⊎ IsFirst (IsOwn claim) (taken ∷ node ∷ []) none
      × IsFirst IsFree (taken ∷ node ∷ []) (first_best claim (taken ∷ node ∷ []))
first_best_lem_example = first_best_lem claim (taken ∷ node ∷ [])

claim_server_by_reference_lem_example :
    ((claim_server_by_reference (world node) claim []).0 ≡ Result.ok (some node))
    ↔ IsClaimable claim node × IsSelected (world node) node none
claim_server_by_reference_lem_example =
    claim_server_by_reference_lem (world node) claim (record { name = "node" }) node [] refl refl

reconcile-Respects_example :
    Steps (Respects (claim_reference claim)) (reconcile_exists (world node) claim []).1
reconcile-Respects_example =
    reconcile-Respects (world node) claim [] (world-IsSoleBinder node) refl tt

cleanup_and_shutdown_server-clears_example :
    IsAfter
      (Call.patch_server taken (with_claim_ref none taken) ∷ Call.get_server "node" ∷ [])
      (cleanup_and_shutdown_server (world taken) claim []).1
cleanup_and_shutdown_server-clears_example =
    cleanup_and_shutdown_server-clears (world taken) claim (record { name = "node" }) taken [] refl
      refl refl

remove_boot_config_ref_lem_example :
    ((boot_reference_b.name ≡ claim.metadata.name)
        ⊎ (boot_reference_b.namespace ≡ claim.metadata.namespace))
      × ((remove_boot_config_ref_from_server_and_power_off (world taken) "a" "apps" taken []).1
          ≡ Call.patch_server taken (with_power Power.off (with_boot_ref none taken)) ∷ [])
    ⊎ (boot_reference_b.name ≢ claim.metadata.name)
      × (boot_reference_b.namespace ≢ claim.metadata.namespace)
      × (remove_boot_config_ref_from_server_and_power_off (world taken) "a" "apps" taken []
          ≡ (Result.ok tt, []))
remove_boot_config_ref_lem_example =
    remove_boot_config_ref_lem (world taken) "a" "apps" taken boot_reference_b [] refl

reconcile_request-OnlyPends_example :
    Steps OnlyPends (reconcile_boot_configuration (world node) "apps" "a" []).1
reconcile_request-OnlyPends_example = reconcile_request-OnlyPends (world node) "apps" "a" [] tt
