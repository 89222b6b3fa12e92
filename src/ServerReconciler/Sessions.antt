-- ===== src/ServerReconciler/Sessions.antt =====
-- The sessions with BMCs that are open: each client that was handed out and not logged out since.
use Prim.Native.Nat.{pred}
use metal_operator.Base.{
  String, ℕ, suc, ◌≡◌, ◌==◌, refl, ap, ◌∙◌, Bool, true, false, [], ◌∷◌, List, arith,
}
use metal_operator.Api.Server.{Server, BiosSettings, Power, with_power}
use metal_operator.Effects.{
  Result, Call, History, M, proceed, wrap_result, ◌>>=◌, ◌>>◌, perform, wrap, with_logout,
}
use metal_operator.Effects.Env.{Env, Bmc}
use metal_operator.Effects.Keeps.{
  Keeps, Kept, Kept-history, Anything, Keeps-perform, Keeps-raise, Keeps-then, Keeps-wrap,
}
use metal_operator.Client.{bmc_client}
use metal_operator.ServerReconciler.Config.{ServerReconciler}
use metal_operator.ServerReconciler.Quiet.{
  Keeps-pure_any, Keeps-lift_any, Keeps-if_any, Keeps-bind_any, Keeps-attempt_any,
  Keeps-optional_any,
}
use metal_operator.ServerReconciler.Power.{
  PowerOp, after_power_off_wait, switch_power_op, run_power_op, ensure_server_power_state,
}
use metal_operator.ServerReconciler.Boot.{pxe_boot_server, apply_boot_order}
use metal_operator.ServerReconciler.Status.{
  note_reset, read_bios, update_server_status, apply_matching_bios, apply_bios_settings,
  handle_annotation_operations,
}
use metal_operator.ServerReconciler.States.{read_storages, power_on_and_read_storages}

-- One more for a client that was obtained.
abbrev opened : Result Bmc → ℕ → ℕ
opened (Result.ok bmc) n = suc n
opened (Result.err e) n = n

unfoldable pub open_sessions : Env → History → ℕ
open_sessions env [] = 0
open_sessions env (Call.bmc_client s ∷ h) = opened (env.bmc_client s h) (open_sessions env h)
open_sessions env (Call.logout ∷ h) = pred (open_sessions env h)
open_sessions env (_ ∷ h) = open_sessions env h

abbrev is_neutral : Call → Bool
is_neutral (Call.bmc_client s) = false
is_neutral Call.logout = false
is_neutral _ = true

abbrev Open : Env → ℕ → History → Type 0
Open env n h = open_sessions env h ≡ n

neutral :
    (env : Env) (c : Call) (h : History)
    → is_neutral c ≡ true
    → open_sessions env (c ∷ h) ≡ open_sessions env h
unfolding open_sessions
neutral env (Call.bmc_client s) h q = cc
neutral env Call.logout h q = cc
neutral env _ h q = refl

module _ (env : Env) (n : ℕ) {A : Type 0} where
  Keeps-neutral :
      (c : Call) (answer : History → Result A)
      → is_neutral c ≡ true
      → Keeps (Open env n) (perform c answer) Anything
  Keeps-neutral c answer q = Keeps-perform c answer (λ h j. neutral env c h q ∙ j) (λ h a e. tt)

  -- A client that is logged out on every way out.
  Keeps-session :
      (message : String) (s : Server) (k : Bmc → M A)
      → ((bmc : Bmc) → Keeps (Open env (suc n)) (k bmc) Anything)
      → Keeps (Open env n) (wrap message (bmc_client env s) >>= λ bmc. with_logout (k bmc)) Anything
  unfolding ◌>>=◌ wrap perform with_logout open_sessions
  Keeps-session message s k kk = record { at = λ h j. go h j (env.bmc_client s h) refl }
    where
      closed :
          (x : Result A × History)
          → Kept (Open env (suc n)) Anything x
          → Kept (Open env n) Anything (x.0, Call.logout ∷ x.1)
      closed (Result.ok a, h) x = (ap pred x.0, tt)
      closed (Result.err e, h) x = ap pred x

      go :
          (h : History)
          → Open env n h
          → (b : Result Bmc) → env.bmc_client s h ≡ b
          → Kept
              (Open env n)
              Anything
              (proceed (wrap_result message b, Call.bmc_client s ∷ h) (λ bmc. with_logout (k bmc)))
      go h j (Result.ok bmc) e =
          closed (k bmc (Call.bmc_client s ∷ h))
            ((kk bmc).at (Call.bmc_client s ∷ h) (ground arith))
      go h j (Result.err f) e = ground arith

ruleset session_rules = (
  Keeps-neutral, Keeps-session, Keeps-pure_any, Keeps-lift_any, Keeps-if_any, Keeps-bind_any,
  Keeps-attempt_any, Keeps-optional_any, Keeps-then, Keeps-raise, Keeps-wrap, refl,
)

-- On every way out of `m` as many sessions are open as before.
abbrev pub IsBalanced : Env → {A : Type 0} → M A → Type 0
IsBalanced env m = (h : History) → open_sessions env (m h).1 ≡ open_sessions env h

balanced :
    {A : Type 0} (env : Env) (m : M A)
    → ((n : ℕ) → Keeps (Open env n) m Anything)
    → IsBalanced env m
balanced env m k h = Kept-history (Open env (open_sessions env h)) Anything (m h) ((k _).at h refl)

module _ {n : ℕ} (env : Env) (r : ServerReconciler) where
  after_power_off_wait-Open :
      (bmc : Bmc) (s : Server) (w : Result (Unit {0}))
      → Keeps (Open env n) (after_power_off_wait env r bmc s w) Anything
  unfolding after_power_off_wait
  after_power_off_wait-Open bmc s (Result.ok a) = search session_rules
  after_power_off_wait-Open bmc s (Result.err e) = search session_rules

  switch_power_op-Open :
      (bmc : Bmc) (s : Server) (op : PowerOp)
      → Keeps (Open env n) (switch_power_op env r bmc s op) Anything
  unfolding switch_power_op
  switch_power_op-Open bmc s PowerOp.op_on = search session_rules
  switch_power_op-Open bmc s PowerOp.op_off = search (session_rules, after_power_off_wait-Open)
  switch_power_op-Open bmc s PowerOp.no_op = search session_rules

  read_bios-Open :
      (bmc : Bmc) (v : String) (bs : List BiosSettings) (s : Server)
      → Keeps (Open env n) (read_bios env r bmc v bs s) Anything
  unfolding read_bios
  read_bios-Open bmc v [] s = search session_rules
  read_bios-Open bmc v (b ∷ bs) s = search (session_rules, read_bios-Open bmc v bs)

  note_reset-Open :
      (s : Server) (reset : Bool) → Keeps (Open env n) (note_reset env r s reset) Anything
  unfolding note_reset
  note_reset-Open s reset = search session_rules

  apply_matching_bios-Open :
      (bmc : Bmc) (s : Server) (v : String) (bs : List BiosSettings)
      → Keeps (Open env n) (apply_matching_bios env r bmc s v bs) Anything
  unfolding apply_matching_bios
  apply_matching_bios-Open bmc s v [] = search session_rules
  apply_matching_bios-Open bmc s v (b ∷ bs) =
      Keeps-if_any (b.version == v) _ _
        (Keeps-bind_any _ _ (search session_rules) (note_reset-Open s))
        (apply_matching_bios-Open bmc s v bs)

module _ {n : ℕ} (env : Env) (r : ServerReconciler) where
  run_power_op-Open :
      (s : Server) (op : PowerOp) → Keeps (Open env n) (run_power_op env r s op) Anything
  unfolding run_power_op
  run_power_op-Open s PowerOp.op_on = search (session_rules, switch_power_op-Open)
  run_power_op-Open s PowerOp.op_off = search (session_rules, switch_power_op-Open)
  run_power_op-Open s PowerOp.no_op = search session_rules

  ensure_power-Open : (s : Server) → Keeps (Open env n) (ensure_server_power_state env r s) Anything
  unfolding ensure_server_power_state
  ensure_power-Open s = search (session_rules, run_power_op-Open)

  pxe_boot-Open : (s : Server) → Keeps (Open env n) (pxe_boot_server env r s) Anything
  unfolding pxe_boot_server
  pxe_boot-Open s = search session_rules depth 9

  boot_order-Open : (s : Server) → Keeps (Open env n) (apply_boot_order env r s) Anything
  unfolding apply_boot_order
  boot_order-Open s = search session_rules depth 12

  update_status-Open : (s : Server) → Keeps (Open env n) (update_server_status env r s) Anything
  unfolding update_server_status
  update_status-Open s = search (session_rules, read_bios-Open) depth 12

  apply_bios-Open : (s : Server) → Keeps (Open env n) (apply_bios_settings env r s) Anything
  unfolding apply_bios_settings
  apply_bios-Open s = search (session_rules, apply_matching_bios-Open) depth 12

  annotation-Open :
      (s : Server) → Keeps (Open env n) (handle_annotation_operations env r s) Anything
  unfolding handle_annotation_operations
  annotation-Open s = search session_rules depth 12

module _ (env : Env) (r : ServerReconciler) where
  -- The power, PXE boot, boot order, status, BIOS and annotation steps leave as many BMC sessions
  -- open as they found, on success and on every error.
  pub sessions-IsBalanced :
      (s : Server)
      → IsBalanced env (ensure_server_power_state env r s)
        × IsBalanced env (pxe_boot_server env r s)
        × IsBalanced env (apply_boot_order env r s)
        × IsBalanced env (update_server_status env r s)
        × IsBalanced env (apply_bios_settings env r s)
        × IsBalanced env (handle_annotation_operations env r s)
  sessions-IsBalanced s = (
    balanced env _ (λ n. ensure_power-Open env r s),
    balanced env _ (λ n. pxe_boot-Open env r s),
    balanced env _ (λ n. boot_order-Open env r s),
    balanced env _ (λ n. update_status-Open env r s),
    balanced env _ (λ n. apply_bios-Open env r s),
    balanced env _ (λ n. annotation-Open env r s),
  )

  -- The rest of the step, once the power state is ensured.
  read_storages_leaks :
      (base s s' : Server) (n : ℕ) (x : Result (Unit {0}) × History) (h' : History)
      → open_sessions env x.1 ≡ n
      → proceed x (λ _. read_storages env r base s) ≡ (Result.ok s', h')
      → open_sessions env h' ≡ suc n
  unfolding open_sessions read_storages ◌>>=◌ wrap perform
  read_storages_leaks base s s' n (Result.ok a, h) h' e p = ground arith
  read_storages_leaks base s s' n (Result.err a, h) h' e p = cc

  -- When the discovery step has read the storages of a server, one more BMC session is open than
  -- before: the client of this step is never logged out.
  pub power_on_and_read_storages_leaks :
      (base s : Server) (h h' : History)
      → power_on_and_read_storages env r base h ≡ (Result.ok s, h')
      → open_sessions env h' ≡ suc (open_sessions env h)
  unfolding power_on_and_read_storages ◌>>◌ ◌>>=◌ wrap perform open_sessions
  power_on_and_read_storages_leaks base s h h' = go (env.patch_server base new h)
    where
      new : Server
      new = with_power Power.on base

      go :
          (x : Result Server)
          → proceed
              (wrap_result "failed to update server power state" x, Call.patch_server base new ∷ h)
              (λ s1.
                wrap "failed to ensure server power state" (ensure_server_power_state env r s1)
                >> read_storages env r base s1)
            ≡ (Result.ok s, h')
          → open_sessions env h' ≡ suc (open_sessions env h)
      go (Result.err f) e = cc
      go (Result.ok s1) e =
          read_storages_leaks base s1 s (open_sessions env h) _ h'
            ((sessions-IsBalanced s1).0 (Call.patch_server base new ∷ h)) e
