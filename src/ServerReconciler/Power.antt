-- ===== src/ServerReconciler/Power.antt =====
-- ensureServerPowerState, setAndPatchServerPowerState and ensureInitialConditions.
use metal_operator.Base.{Bool, true, false, not, ◌&&◌, if◌then◌else◌}
use metal_operator.Api.Server.{
  Server, Power, ServerPowerState, ServerState, power_eq, power_state_eq, server_state_eq,
  with_power,
}
use metal_operator.Effects.{Err, Result, M, pure, raise, ◌>>=◌, ◌>>◌, wrap, attempt, with_logout}
use metal_operator.Effects.Env.{Env, Bmc, OperationResult}
use metal_operator.Client.{
  bmc_client, power_on, power_off, force_power_off, wait_for_server_power_state,
  create_or_patch_server,
}
use metal_operator.ServerReconciler.Config.{ServerReconciler}

-- powerOpOn, powerOpOff, powerOpNoOP
pub data PowerOp : Type 0 where
  op_on op_off no_op : PowerOp

-- The two tests in the order of the source: the second assigns over the first.
unfoldable pub power_op : Power → ServerPowerState → PowerOp
unfolding power_eq power_state_eq
power_op want have =
    let first : PowerOp =
      if not (power_state_eq have ServerPowerState.on)
        && (not (power_state_eq have ServerPowerState.powering_on) && power_eq want Power.on)
      then PowerOp.op_on
      else PowerOp.no_op in
    if not (power_state_eq have ServerPowerState.off)
      && (not (power_state_eq have ServerPowerState.powering_off) && power_eq want Power.off)
    then PowerOp.op_off
    else first

module _ (env : Env) (r : ServerReconciler) where
  unfoldable pub force_off : Bmc → Server → M (Unit {0})
  force_off bmc s = do
    wrap "failed to power off server" (force_power_off bmc s.spec.system_uuid)
    wrap "failed to wait for server force power off"
        (wait_for_server_power_state bmc s.spec.system_uuid ServerPowerState.off)

  -- After the wait for a graceful shutdown: a failed wait is retried by force, if that is on.
  unfoldable pub after_power_off_wait : Bmc → Server → Result (Unit {0}) → M (Unit {0})
  unfolding force_off
  after_power_off_wait bmc s (Result.ok _) = pure tt
  after_power_off_wait bmc s (Result.err e) =
      if r.enforce_power_off
      then force_off bmc s
      else raise (Err.wrapped "failed to wait for server power off" e)

  unfoldable pub switch_power_op : Bmc → Server → PowerOp → M (Unit {0})
  unfolding after_power_off_wait
  switch_power_op bmc s PowerOp.op_on = do
    wrap "failed to power on server" (power_on bmc s.spec.system_uuid)
    wrap "failed to wait for server power on server"
        (wait_for_server_power_state bmc s.spec.system_uuid ServerPowerState.on)
  switch_power_op bmc s PowerOp.op_off = do
    wrap "failed to power off server" (power_off bmc s.spec.system_uuid)
    waited ← attempt (wait_for_server_power_state bmc s.spec.system_uuid ServerPowerState.off)
    after_power_off_wait bmc s waited
  switch_power_op bmc s PowerOp.no_op = pure tt

  unfoldable pub run_power_op : Server → PowerOp → M (Unit {0})
  unfolding switch_power_op
  run_power_op s PowerOp.no_op = pure tt
  run_power_op s op = do
    bmc ← wrap "failed to get BMC client" (bmc_client env s)
    with_logout (switch_power_op bmc s op)

  unfoldable pub ensure_server_power_state : Server → M (Unit {0})
  unfolding run_power_op power_op
  ensure_server_power_state s =
      if power_eq s.spec.power Power.unset
      then pure tt
      else run_power_op s (power_op s.spec.power s.status.power_state)

  abbrev is_updated : OperationResult → Bool
  is_updated OperationResult.updated = true
  is_updated _ = false

  unfoldable pub set_and_patch_server_power_state : Server → Power → M (Server × Bool)
  set_and_patch_server_power_state s p = do
    (s', op) ← wrap "failed to patch Server" (create_or_patch_server env s (with_power p))
    pure (s', is_updated op)

  unfoldable pub set_power_off : Server → M (Server × Bool)
  unfolding set_and_patch_server_power_state
  set_power_off s =
      wrap "failed to set server power state" (set_and_patch_server_power_state s Power.off)

  -- The first test of ensureInitialConditions.
  unfoldable pub adopt_power_off : Server → M (Server × Bool)
  unfolding set_power_off
  adopt_power_off s =
      if power_eq s.spec.power Power.unset
        && power_state_eq s.status.power_state ServerPowerState.off
      then set_power_off s
      else pure (s, false)

  -- The second test of ensureInitialConditions.
  unfoldable pub enforce_first_power_off : Server → M (Server × Bool)
  unfolding set_power_off
  enforce_first_power_off s =
      if server_state_eq s.status.state ServerState.initial
        && (power_state_eq s.status.power_state ServerPowerState.on && r.enforce_first_boot)
      then set_power_off s
      else pure (s, false)

  unfoldable pub ensure_initial_conditions : Server → M (Server × Bool)
  unfolding adopt_power_off enforce_first_power_off
  ensure_initial_conditions s = do
    (s', requeue) ← adopt_power_off s
    if requeue then pure (s', true) else enforce_first_power_off s'
