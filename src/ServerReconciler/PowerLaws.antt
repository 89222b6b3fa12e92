-- ===== src/ServerReconciler/PowerLaws.antt =====
-- What ensureServerPowerState does: when it leaves the BMC alone, what a success means, and when
-- it uses force.
use metal_operator.Base.{
  ◌≡◌, refl, sym, ap, ◌⊎◌, inl, inr, Bool, true, false, Bool-cases, [], ◌∷◌, arith, if◌then◌else◌,
}
use metal_operator.Api.Server.{Server, Power, ServerPowerState, power_eq}
use metal_operator.Effects.{
  Err, Result, Call, History, proceed, wrap_result, pure, raise, ◌>>=◌, ◌>>◌, perform, wrap,
  attempt, with_logout,
}
use metal_operator.Client.{wait_for_server_power_state}
use metal_operator.Effects.Env.{Env, Bmc}
use metal_operator.Effects.Keeps.{Steps}
use metal_operator.ServerReconciler.Config.{ServerReconciler}
use metal_operator.ServerReconciler.Power.{
  PowerOp, power_op, force_off, after_power_off_wait, switch_power_op, run_power_op,
  ensure_server_power_state,
}

-- The machine has the wanted state or is on the way there, or no state is wanted.
pub record IsSettled (want : Power) (have : ServerPowerState) : Type 0 where
  pub when_on :
      want ≡ Power.on → (have ≡ ServerPowerState.on) ⊎ (have ≡ ServerPowerState.powering_on)
  pub when_off :
      want ≡ Power.off → (have ≡ ServerPowerState.off) ⊎ (have ≡ ServerPowerState.powering_off)

-- The calls from the opening of the client to the wait for the power state: the operation that asks
-- for the state, which the BMC accepted, and, for a power-off that was forced, the graceful one
-- whose wait failed.
pub data Asked (s : Server) (client : Bmc) (start : History)
    : ServerPowerState → History → Type 0 where
  by_power_on :
      client.power_on s.spec.system_uuid (Call.bmc_client s ∷ start) ≡ Result.ok tt
      → Asked s client start ServerPowerState.on
          (Call.power_on s.spec.system_uuid ∷ Call.bmc_client s ∷ start)
  by_power_off :
      client.power_off s.spec.system_uuid (Call.bmc_client s ∷ start) ≡ Result.ok tt
      → Asked s client start ServerPowerState.off
          (Call.power_off s.spec.system_uuid ∷ Call.bmc_client s ∷ start)
  by_force :
      (e : Err)
      → client.power_off s.spec.system_uuid (Call.bmc_client s ∷ start) ≡ Result.ok tt
      → client.wait_for_server_power_state s.spec.system_uuid ServerPowerState.off
          (Call.power_off s.spec.system_uuid ∷ Call.bmc_client s ∷ start)
        ≡ Result.err e
      → client.force_power_off s.spec.system_uuid (
          Call.wait_for_server_power_state s.spec.system_uuid ServerPowerState.off
          ∷ Call.power_off s.spec.system_uuid
          ∷ Call.bmc_client s
          ∷ start)
        ≡ Result.ok tt
      → Asked s client start ServerPowerState.off (
          Call.force_power_off s.spec.system_uuid
          ∷ Call.wait_for_server_power_state s.spec.system_uuid ServerPowerState.off
          ∷ Call.power_off s.spec.system_uuid
          ∷ Call.bmc_client s
          ∷ start)

-- The last call was a wait for the power state, by the client that the environment gave for the
-- server at the start, and the BMC reported the state; after it only the session was closed.
pub record Reached (env : Env) (s : Server) (start : History) (x : ServerPowerState) (h : History)
    : Type 0 where
  pub client : Bmc
  pub before : History
  pub given : env.bmc_client s start ≡ Result.ok client
  pub asked : Asked s client start x before
  pub reported : client.wait_for_server_power_state s.spec.system_uuid x before ≡ Result.ok tt
  pub calls : h ≡ Call.logout ∷ Call.wait_for_server_power_state s.spec.system_uuid x ∷ before

power_op-IsSettled :
    (want : Power) (have : ServerPowerState)
    → power_op want have ≡ PowerOp.no_op
    → IsSettled want have
unfolding power_op
power_op-IsSettled want have h = record {
  when_on = λ e. ground arith;
  when_off = λ e. ground arith;
}

unset-IsSettled :
    (want : Power) (have : ServerPowerState)
    → power_eq want Power.unset ≡ true
    → IsSettled want have
unfolding power_eq
unset-IsSettled want have h = record { when_on = λ e. ground arith; when_off = λ e. ground arith }

power_op-on :
    (want : Power) (have : ServerPowerState) → power_op want have ≡ PowerOp.op_on → want ≡ Power.on
unfolding power_op
power_op-on want have h = ground arith

power_op-off :
    (want : Power) (have : ServerPowerState)
    → power_op want have ≡ PowerOp.op_off
    → want ≡ Power.off
unfolding power_op
power_op-off want have h = ground arith

pub Result-cases :
    {A : Type 0} (x : Result A) → ((a : A) × (x ≡ Result.ok a)) ⊎ ((e : Err) × (x ≡ Result.err e))
Result-cases (Result.ok a) = inl (a, refl)
Result-cases (Result.err e) = inr (e, refl)

module _ (env : Env) (r : ServerReconciler) where
  on_Reached :
      (bmc : Bmc) (s : Server) (h h' : History)
      → env.bmc_client s h ≡ Result.ok bmc
      → with_logout (switch_power_op env r bmc s PowerOp.op_on) (Call.bmc_client s ∷ h)
        ≡ (Result.ok tt, h')
      → Reached env s h ServerPowerState.on h'
  unfolding switch_power_op with_logout ◌>>◌ ◌>>=◌ wrap perform
  on_Reached bmc s h h' g e = record {
    client = bmc;
    before = Call.power_on s.spec.system_uuid ∷ Call.bmc_client s ∷ h;
    given = g;
    asked = by_power_on (ground arith);
    reported = ground arith;
    calls = ground arith;
  }

  off-Reached :
      (bmc : Bmc) (s : Server) (h h' : History)
      → env.bmc_client s h ≡ Result.ok bmc
      → with_logout (switch_power_op env r bmc s PowerOp.op_off) (Call.bmc_client s ∷ h)
        ≡ (Result.ok tt, h')
      → Reached env s h ServerPowerState.off h'
  unfolding switch_power_op with_logout ◌>>◌ ◌>>=◌ wrap perform attempt pure raise
  off-Reached bmc s h h' g e =
      let uuid = s.spec.system_uuid in
      let sent = Call.power_off uuid ∷ Call.bmc_client s ∷ h in
      elim (Result-cases (bmc.wait_for_server_power_state uuid ServerPowerState.off sent)) [
        | inl (a, q) ↦ record {
          client = bmc;
          before = sent;
          given = g;
          asked = by_power_off (ground arith);
          reported = ground arith;
          calls = ground arith;
        }
        | inr (f, q) ↦ record {
          client = bmc;
          before =
              Call.force_power_off uuid
              ∷ Call.wait_for_server_power_state uuid ServerPowerState.off
              ∷ sent;
          given = g;
          asked = by_force f (ground arith) q (ground arith);
          reported = ground arith;
          calls = ground arith;
        }
      ]

  run-Reached :
      (s : Server) (op : PowerOp) (h h' : History)
      → run_power_op env r s op h ≡ (Result.ok tt, h')
      → ((op ≡ PowerOp.no_op) × (h' ≡ h))
        ⊎ ((op ≡ PowerOp.op_on) × Reached env s h ServerPowerState.on h')
        ⊎ ((op ≡ PowerOp.op_off) × Reached env s h ServerPowerState.off h')
  unfolding run_power_op ◌>>=◌ wrap perform pure
  run-Reached s PowerOp.no_op h h' e = inl (refl, ground arith)
  run-Reached s PowerOp.op_on h h' e = elim (Result-cases (env.bmc_client s h)) [
    | inl (bmc, q) ↦ inr (inl (refl, on_Reached bmc s h h' q (ground arith)))
    | inr (f, q) ↦ absurd (ground arith)
  ]
  run-Reached s PowerOp.op_off h h' e = elim (Result-cases (env.bmc_client s h)) [
    | inl (bmc, q) ↦ inr (inr (refl, off-Reached bmc s h h' q (ground arith)))
    | inr (f, q) ↦ absurd (ground arith)
  ]

  -- When ensureServerPowerState succeeds, either it made no call and the server was settled, or
  -- the server is wanted on or off, the client that it got for the server accepted the operation
  -- that asks for this state, and the last answer of this client was that the server has it; after
  -- it only the session was closed.
  pub ensure_server_power_state-Reached :
      (s : Server) (h h' : History)
      → ensure_server_power_state env r s h ≡ (Result.ok tt, h')
      → (IsSettled s.spec.power s.status.power_state × (h' ≡ h))
        ⊎ ((s.spec.power ≡ Power.on) × Reached env s h ServerPowerState.on h')
        ⊎ ((s.spec.power ≡ Power.off) × Reached env s h ServerPowerState.off h')
  unfolding ensure_server_power_state pure
  ensure_server_power_state-Reached s h h' e =
      elim (Bool-cases (power_eq s.spec.power Power.unset)) [
        | inl unset ↦ inl (
          unset-IsSettled s.spec.power s.status.power_state unset,
          sym (ap (λ x. x.1) (rw unset at e)),
        )
        | inr wanted ↦
            elim (run-Reached s (power_op s.spec.power s.status.power_state) h h'
              (rw wanted at e)) [
                | inl (op, same) ↦
                    inl (power_op-IsSettled s.spec.power s.status.power_state op, same)
                | inr (inl (op, reached)) ↦
                    inr (inl (power_op-on s.spec.power s.status.power_state op, reached))
                | inr (inr (op, reached)) ↦
                    inr (inr (power_op-off s.spec.power s.status.power_state op, reached))
              ]
      ]

  -- Calls of ForcePowerOff: only with EnforcePowerOff, and right after a wait for the graceful
  -- shutdown of the same system that failed.
  abbrev pub Forced : Bmc → Call → History → Type 0
  Forced bmc (Call.force_power_off uuid) [] = ⊥
  Forced bmc (Call.force_power_off uuid) (c ∷ h) =
      (r.enforce_power_off ≡ true)
      × (c ≡ Call.wait_for_server_power_state uuid ServerPowerState.off)
      × ((e : Err) × (bmc.wait_for_server_power_state uuid ServerPowerState.off h ≡ Result.err e))
  Forced bmc _ h = Unit

  forced :
      (bmc : Bmc) (s : Server) (h : History) (w : Result (Unit {0}))
      → bmc.wait_for_server_power_state s.spec.system_uuid ServerPowerState.off h ≡ w
      → Steps (Forced bmc) h
      → Steps
          (Forced bmc)
          (after_power_off_wait env r bmc s w
            (Call.wait_for_server_power_state s.spec.system_uuid ServerPowerState.off ∷ h)).1
  unfolding after_power_off_wait ◌>>◌ ◌>>=◌ wrap perform raise pure
  forced bmc s h (Result.ok a) p j = (tt, j)
  forced bmc s h (Result.err f) p j = decide r.enforce_power_off refl
    where
      waited : History
      waited = Call.wait_for_server_power_state s.spec.system_uuid ServerPowerState.off ∷ h

      after_force :
          (x : Result (Unit {0}))
          → r.enforce_power_off ≡ true
          → Steps
              (Forced bmc)
              (proceed
                (
                  wrap_result "failed to power off server" x,
                  Call.force_power_off s.spec.system_uuid ∷ waited,
                )
                (λ _.
                  wrap "failed to wait for server force power off"
                    (wait_for_server_power_state bmc s.spec.system_uuid ServerPowerState.off))).1
      after_force (Result.ok a) e = (tt, ((e, refl, (f, p)), (tt, j)))
      after_force (Result.err g) e = ((e, refl, (f, p)), (tt, j))

      decide :
          (b : Bool)
          → r.enforce_power_off ≡ b
          → Steps
              (Forced bmc)
              ((if b
                  then force_off env r bmc s
                  else raise (Err.wrapped "failed to wait for server power off" f))
                waited).1
      decide true e = after_force (bmc.force_power_off s.spec.system_uuid waited) e
      decide false e = (tt, j)

  -- Whatever the BMC answers to a power operation, ForcePowerOff is called only if EnforcePowerOff
  -- is set and the call just before was a wait of the same BMC for the graceful power-off of the
  -- same system, which failed.
  pub switch_power_op-Forced :
      (bmc : Bmc) (s : Server) (op : PowerOp) (h : History)
      → Steps (Forced bmc) h
      → Steps (Forced bmc) (switch_power_op env r bmc s op h).1
  unfolding switch_power_op ◌>>◌ ◌>>=◌ wrap perform attempt pure
  switch_power_op-Forced bmc s PowerOp.no_op h j = j
  switch_power_op-Forced bmc s PowerOp.op_on h j = on_steps (bmc.power_on s.spec.system_uuid h)
    where
      on_steps :
          (x : Result (Unit {0}))
          → Steps
              (Forced bmc)
              (proceed
                (wrap_result "failed to power on server" x, Call.power_on s.spec.system_uuid ∷ h)
                (λ _.
                  wrap "failed to wait for server power on server"
                    (wait_for_server_power_state bmc s.spec.system_uuid ServerPowerState.on))).1
      on_steps (Result.ok a) = (tt, (tt, j))
      on_steps (Result.err e) = (tt, j)
  switch_power_op-Forced bmc s PowerOp.op_off h j = off_steps (bmc.power_off s.spec.system_uuid h)
    where
      off_steps :
          (x : Result (Unit {0}))
          → Steps
              (Forced bmc)
              (proceed
                (wrap_result "failed to power off server" x, Call.power_off s.spec.system_uuid ∷ h)
                (λ _.
                  attempt (wait_for_server_power_state bmc s.spec.system_uuid ServerPowerState.off)
                  >>= after_power_off_wait env r bmc s)).1
      off_steps (Result.ok a) = forced bmc s (Call.power_off s.spec.system_uuid ∷ h) _ refl (tt, j)
      off_steps (Result.err e) = (tt, j)
