-- ===== src/ServerReconciler/QuietParts.antt =====
-- The parts of a reconciliation that patch no server status.
use metal_operator.Api.Server.{Server}
use metal_operator.Api.Claim.{ServerBootConfiguration}
use metal_operator.Effects.{Result, History}
use metal_operator.Effects.Env.{Env, Bmc}
use metal_operator.Effects.Keeps.{Keeps, Anything}
use metal_operator.ServerReconciler.Config.{ServerReconciler}
use metal_operator.ServerReconciler.Quiet.{IsStable, quiet_rules}
use metal_operator.ServerReconciler.Power.{
  PowerOp, after_power_off_wait, switch_power_op, run_power_op, ensure_server_power_state,
}
use metal_operator.ServerReconciler.Boot.{
  boot_configuration_is_ready, pxe_boot_server, apply_default_ignition, delete_if_internal,
  ensure_initial_boot_configuration_is_deleted,
}

module _ {J : History → Type 0} (st : IsStable J) (env : Env) (r : ServerReconciler) where
  after_power_off_wait-Keeps :
      (bmc : Bmc) (s : Server) (w : Result (Unit {0}))
      → Keeps J (after_power_off_wait env r bmc s w) Anything
  unfolding after_power_off_wait
  after_power_off_wait-Keeps bmc s (Result.ok a) = search quiet_rules
  after_power_off_wait-Keeps bmc s (Result.err e) = search quiet_rules

  switch_power_op-Keeps :
      (bmc : Bmc) (s : Server) (op : PowerOp) → Keeps J (switch_power_op env r bmc s op) Anything
  unfolding switch_power_op
  switch_power_op-Keeps bmc s PowerOp.op_on = search quiet_rules
  switch_power_op-Keeps bmc s PowerOp.op_off = search (quiet_rules, after_power_off_wait-Keeps)
  switch_power_op-Keeps bmc s PowerOp.no_op = search quiet_rules

  run_power_op-Keeps : (s : Server) (op : PowerOp) → Keeps J (run_power_op env r s op) Anything
  unfolding run_power_op
  run_power_op-Keeps s PowerOp.op_on = search (quiet_rules, switch_power_op-Keeps)
  run_power_op-Keeps s PowerOp.op_off = search (quiet_rules, switch_power_op-Keeps)
  run_power_op-Keeps s PowerOp.no_op = search quiet_rules

  pub ensure_server_power_state-Keeps :
      (s : Server) → Keeps J (ensure_server_power_state env r s) Anything
  unfolding ensure_server_power_state
  ensure_server_power_state-Keeps s = search (quiet_rules, run_power_op-Keeps)

  pub boot_configuration_is_ready-Keeps :
      (s : Server) → Keeps J (boot_configuration_is_ready env r s) Anything
  unfolding boot_configuration_is_ready
  boot_configuration_is_ready-Keeps s = search quiet_rules

  pub pxe_boot_server-Keeps : (s : Server) → Keeps J (pxe_boot_server env r s) Anything
  unfolding pxe_boot_server
  pxe_boot_server-Keeps s = search quiet_rules depth 10

  pub apply_default_ignition-Keeps :
      (s : Server) (c : ServerBootConfiguration)
      → Keeps J (apply_default_ignition env r s c) Anything
  unfolding apply_default_ignition
  apply_default_ignition-Keeps s c = search quiet_rules depth 12

  delete_if_internal-Keeps :
      (s : Server) (c : ServerBootConfiguration) → Keeps J (delete_if_internal env r s c) Anything
  unfolding delete_if_internal
  delete_if_internal-Keeps s c = search quiet_rules

  pub ensure_initial_boot_configuration_is_deleted-Keeps :
      (s : Server) → Keeps J (ensure_initial_boot_configuration_is_deleted env r s) Anything
  unfolding ensure_initial_boot_configuration_is_deleted
  ensure_initial_boot_configuration_is_deleted-Keeps s =
      search (quiet_rules, delete_if_internal-Keeps)
