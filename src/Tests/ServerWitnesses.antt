-- ===== src/Tests/ServerWitnesses.antt =====
-- The theorems on the server controller, at the test data.
use metal_operator.Base.{◌≡◌, refl, ◌⊎◌, none, lookup, length, [], ◌∷◌, ◌<◌, suc}
use mathlib.Core.List.{Perm}
use metal_operator.Api.Server.{
  Server, Power, ServerPowerState, power_eq, power_state_eq, with_power,
}
use metal_operator.Effects.{
  Result, Err, Call, History, ◌>>=◌, ◌>>◌, pure, wrap, perform, with_logout, attempt, raise,
}
use metal_operator.Effects.Keeps.{Steps}
use metal_operator.ServerReconciler.Power.{
  PowerOp, power_op, run_power_op, ensure_server_power_state, switch_power_op,
}
use metal_operator.ServerReconciler.Boot.{
  sort_by_priority, apply_order, devices, pxe_boot_server, apply_boot_order, with_sorted_boot_order,
}
use metal_operator.ServerReconciler.Status.{
  bios_diff, update_server_status, apply_bios_settings, handle_annotation_operations,
}
use metal_operator.ServerReconciler.States.{
  with_storages, read_storages, power_on_and_read_storages,
}
use metal_operator.ServerReconciler.Reconcile.{reconcile_request}
use metal_operator.ServerReconciler.StateSteps.{IsLawful}
use metal_operator.ServerReconciler.Lawful.{reconcile_request-IsLawful}
use metal_operator.ServerReconciler.PowerLaws.{
  IsSettled, Reached, Forced, ensure_server_power_state-Reached, switch_power_op-Forced,
}
use metal_operator.ServerReconciler.Sessions.{
  IsBalanced, open_sessions, sessions-IsBalanced, power_on_and_read_storages_leaks,
}
use metal_operator.ServerReconciler.BiosLaws.{lookup-bios_diff}
use metal_operator.ServerReconciler.BootLaws.{
  IsSorted, IsPrefix, sort_by_priority_lem, apply_order_lem,
}
use metal_operator.Tests.Data.{config, node, taken}
use metal_operator.Tests.Answers.{bmc, world, world-IsSingleWriter}

reconcile_request-IsLawful_example :
    IsLawful (world taken) config (reconcile_request (world taken) config "node" []).1
reconcile_request-IsLawful_example =
    reconcile_request-IsLawful (world taken) config (world-IsSingleWriter taken) "node" [] tt

abbrev powered : History
powered =
    Call.logout
    ∷ Call.wait_for_server_power_state "sys" ServerPowerState.on
    ∷ Call.power_on "sys"
    ∷ Call.bmc_client node
    ∷ []

run_powered : ensure_server_power_state (world node) config node [] ≡ (Result.ok tt, powered)
unfolding ensure_server_power_state run_power_op switch_power_op power_op power_eq power_state_eq
    ◌>>=◌ ◌>>◌ pure wrap perform with_logout attempt raise
run_powered = refl

ensure_server_power_state-Reached_example :
    (IsSettled Power.on ServerPowerState.off × (powered ≡ []))
    ⊎ ((Power.on ≡ Power.on) × Reached (world node) node [] ServerPowerState.on powered)
    ⊎ ((Power.on ≡ Power.off) × Reached (world node) node [] ServerPowerState.off powered)
ensure_server_power_state-Reached_example =
    ensure_server_power_state-Reached (world node) config node [] powered run_powered

switch_power_op-Forced_example :
    Steps
      (Forced (world node) config bmc)
      (switch_power_op (world node) config bmc node PowerOp.op_off []).1
switch_power_op-Forced_example =
    switch_power_op-Forced (world node) config bmc node PowerOp.op_off [] tt

sessions-IsBalanced_example :
    IsBalanced (world node) (ensure_server_power_state (world node) config node)
    × IsBalanced (world node) (pxe_boot_server (world node) config node)
    × IsBalanced (world node) (apply_boot_order (world node) config node)
    × IsBalanced (world node) (update_server_status (world node) config node)
    × IsBalanced (world node) (apply_bios_settings (world node) config node)
    × IsBalanced (world node) (handle_annotation_operations (world node) config node)
sessions-IsBalanced_example = sessions-IsBalanced (world node) config node

lookup-bios_diff_example :
    lookup "boot" (bios_diff (("boot", "uefi") ∷ ("ht", "on") ∷ []) (("boot", "bios") ∷ [])) ≡ none
lookup-bios_diff_example =
    lookup-bios_diff "boot" (("boot", "uefi") ∷ ("ht", "on") ∷ []) (("boot", "bios") ∷ [])

sort_by_priority_lem_example :
    Perm (sort_by_priority node.spec.boot_order) node.spec.boot_order
    × IsSorted (sort_by_priority node.spec.boot_order)
sort_by_priority_lem_example = sort_by_priority_lem node.spec.boot_order

apply_order_lem_example :
    (1 < length (sort_by_priority node.spec.boot_order))
      × (apply_order (world node) config bmc node ("Boot0002" ∷ []) []
          ≡ (Result.err (Err.panic "index out of range"), []))
    ⊎ (IsPrefix (sort_by_priority node.spec.boot_order) ("Boot0002" ∷ [])
          × (apply_order (world node) config bmc node ("Boot0002" ∷ []) []
              ≡ (Result.ok (with_sorted_boot_order (world node) config node), []))
        ⊎ (¬ IsPrefix (sort_by_priority node.spec.boot_order) ("Boot0002" ∷ []))
          × ((apply_order (world node) config bmc node ("Boot0002" ∷ []) []).1
              ≡ Call.set_boot_order "sys" (devices (sort_by_priority node.spec.boot_order)) ∷ []))
apply_order_lem_example = apply_order_lem (world node) config bmc node ("Boot0002" ∷ []) []

-- The server wanted on, and the calls of a discovery step that reads its storages.
abbrev wanted_on : Server
wanted_on = with_power Power.on node

abbrev discovered : History
discovered =
    Call.patch_server_status node (with_storages [] wanted_on)
    ∷ Call.get_storages "sys"
    ∷ Call.bmc_client wanted_on
    ∷ Call.logout
    ∷ Call.wait_for_server_power_state "sys" ServerPowerState.on
    ∷ Call.power_on "sys"
    ∷ Call.bmc_client wanted_on
    ∷ Call.patch_server node wanted_on
    ∷ []

run_discovered :
    power_on_and_read_storages (world node) config node []
    ≡ (Result.ok (with_storages [] node), discovered)
unfolding power_on_and_read_storages read_storages ensure_server_power_state run_power_op
    switch_power_op power_op power_eq power_state_eq ◌>>=◌ ◌>>◌ pure wrap perform with_logout
    attempt raise
run_discovered = refl

power_on_and_read_storages_leaks_example :
    open_sessions (world node) discovered ≡ suc (open_sessions (world node) [])
power_on_and_read_storages_leaks_example =
    power_on_and_read_storages_leaks (world node) config node (with_storages [] node) [] discovered
      run_discovered
