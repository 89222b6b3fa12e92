-- ===== src/ClaimReconciler/Safety.antt =====
-- A claim that is not being deleted leaves the servers of other claims alone.
use mathlib.Core.Path.{subst}
use metal_operator.Base.{
  ◌==◌, ◌≡◌, refl, sym, inl, inr, false, Option, none, some, is_some, is_none,
}
use metal_operator.Api.Meta.{ObjectReference, is_deleted}
use metal_operator.Api.Server.{Server, power_eq}
use metal_operator.Api.Claim.{ServerClaim, Phase, phase_eq}
use metal_operator.Effects.{M, History, pure, optional, unless_modified}
use metal_operator.Effects.Env.{Env}
use metal_operator.Effects.Keeps.{
  Steps, Keeps, Kept-history, Anything, Keeps-pure, Keeps-raise, Keeps-perform, Keeps-wrap,
  Keeps-if, Keeps-optional, Keeps-bind, Keeps-unless_modified, Keeps-weaken,
}
use metal_operator.Client.{ensure_claim_finalizer}
use metal_operator.ServerReconciler.Config.{done, should_ignore_reconciliation}
use metal_operator.ServerReconciler.Quiet.{Keeps-if_any, Keeps-bind_any, Keeps-unless_modified_any}
use metal_operator.ClaimReconciler.SelectLaws.{IsOpenTo}
use metal_operator.ClaimReconciler.Claim.{
  claim_reference, ensure_object_ref_for_server, ensure_power_state_for_server,
  patch_server_claim_phase, patch_server_ref, apply_boot_configuration, ensure_claimed,
  claim_server,
}
use metal_operator.ClaimReconciler.Reconcile.{
  server_claim_finalizer, requeue_now, bind_server, initialize_phase, reconcile, reconcile_exists,
}
use metal_operator.ClaimReconciler.Respects.{
  IsOpen, Respects, IsSoleBinder, Chosen, unclaimed, patch_server-Keeps, select_server-Keeps,
}

module _ (env : Env) (w : IsSoleBinder env) (claim : ServerClaim) where
  abbrev J : History → Type 0
  J = Steps (Respects (claim_reference claim))

  ensure_object_ref_for_server-Keeps :
      (s : Server)
      → IsOpen claim s
      → Keeps J (ensure_object_ref_for_server env claim s) (λ x. IsOpen claim x.0)
  unfolding ensure_object_ref_for_server
  ensure_object_ref_for_server-Keeps s o =
      Keeps-if (is_some s.spec.server_claim_ref) _ _ (λ _. Keeps-pure _ o)
        λ n.
          Keeps-bind _ _
            (Keeps-wrap _ _
              (patch_server-Keeps env w claim s _ o (IsOpenTo.held refl) (inr (unclaimed n, refl))))
            (λ s' o'. Keeps-pure _ o')

  ensure_claimed-Keeps :
      (o : Option Server)
      → Chosen claim o
      → Keeps J (ensure_claimed env claim o) (λ x. Chosen claim x.0)
  unfolding ensure_claimed pure optional
  ensure_claimed-Keeps none c = Keeps-pure (none, false) tt
  ensure_claimed-Keeps (some s) o =
      Keeps-bind _ _ (ensure_object_ref_for_server-Keeps s o) (λ x p. Keeps-pure _ p)

  claim_server-Keeps : Keeps J (claim_server env claim) (λ x. Chosen claim x.0)
  unfolding claim_server
  claim_server-Keeps = Keeps-bind _ _ (select_server-Keeps env w claim) ensure_claimed-Keeps

  apply_boot_configuration-Keeps :
      (s : Server) → IsOpen claim s → Keeps J (apply_boot_configuration env s claim) (IsOpen claim)
  unfolding apply_boot_configuration
  apply_boot_configuration-Keeps s o =
      Keeps-optional claim.spec.server_ref _ _ (Keeps-raise _) λ ref _.
        Keeps-bind_any _ _ (Keeps-wrap _ _ (Keeps-perform _ _ (λ h j. (tt, j)) (λ _ _ _. tt)))
          (λ config. patch_server-Keeps env w claim s _ o o (inl refl))

  ensure_power_state_for_server-Keeps :
      (s : Server) → IsOpen claim s → Keeps J (ensure_power_state_for_server env claim s) Anything
  unfolding ensure_power_state_for_server
  ensure_power_state_for_server-Keeps s o =
      Keeps-if_any (power_eq s.spec.power claim.spec.power) _ _ (Keeps-pure _ tt) (
        Keeps-if_any (is_none s.spec.server_claim_ref) _ _ (Keeps-pure _ tt) (
          Keeps-bind _ _ (Keeps-wrap _ _ (patch_server-Keeps env w claim s _ o o (inl refl)))
            (λ s' _. Keeps-pure _ tt)))

  -- Patches of the claim itself return the same claim.
  abbrev IsSame : ServerClaim → Type 0
  IsSame c = claim_reference c ≡ claim_reference claim

  patch_server_claim_phase-Keeps :
      (p : Phase) → Keeps J (patch_server_claim_phase env claim p) (λ x. IsSame x.0)
  unfolding patch_server_claim_phase
  patch_server_claim_phase-Keeps p =
      Keeps-if (phase_eq claim.phase p) _ _ (λ _. Keeps-pure _ refl)
        λ _.
          Keeps-bind _ _
            (Keeps-wrap {P = IsSame} _ _
              (Keeps-perform _ _ (λ h j. (tt, j)) (λ h c a. w.claim_status claim _ h c a)))
            (λ c e. Keeps-pure _ e)

  patch_server_ref-Keeps : (s : Server) → Keeps J (patch_server_ref env claim s) (λ x. IsSame x.0)
  unfolding patch_server_ref
  patch_server_ref-Keeps s =
      Keeps-optional claim.spec.server_ref _ _
        (Keeps-bind {P = IsSame} _ _
          (Keeps-perform _ _ (λ h j. (tt, j)) (λ h c a. w.claim claim _ h c a))
          (λ c e. Keeps-pure _ e))
        λ ref _.
          Keeps-if (ref.name == s.metadata.name) _ _ (λ _. Keeps-pure _ refl) (λ _. Keeps-raise _)

  initialize_phase-Keeps : Keeps J (initialize_phase env claim) (λ x. IsSame x.0)
  unfolding initialize_phase
  initialize_phase-Keeps =
      Keeps-if (phase_eq claim.phase Phase.unset) _ _
        (λ _. patch_server_claim_phase-Keeps Phase.unbound) (λ _. Keeps-pure _ refl)

module _ (env : Env) (w : IsSoleBinder env) (claim : ServerClaim) where
  -- The same claim after a patch of it.
  moved :
      {A : Type 0} {m : M A} (P : ObjectReference → A → Type 0) (c : ServerClaim)
      → claim_reference c ≡ claim_reference claim
      → Keeps (Steps (Respects (claim_reference c))) m (P (claim_reference c))
      → Keeps (Steps (Respects (claim_reference claim))) m (P (claim_reference claim))
  moved {A} {m} P c e k = subst (λ r. Keeps (Steps (Respects r)) m (P r)) e k

  abbrev HasUid : ObjectReference → Server → Type 0
  HasUid ref s = IsOpenTo ref.uid s.spec.server_claim_ref

  still-IsOpen :
      (c : ServerClaim) (s : Server)
      → claim_reference c ≡ claim_reference claim
      → IsOpen claim s
      → IsOpen c s
  still-IsOpen c s e o = subst (λ r. HasUid r s) (sym e) o

  bind_server-Keeps :
      (s : Server)
      → IsOpen claim s
      → Keeps (Steps (Respects (claim_reference claim))) (bind_server env claim s) Anything
  unfolding bind_server
  bind_server-Keeps s o =
      Keeps-unless_modified {P = IsSame env w claim} _ _ _
        (Keeps-weaken _ (patch_server_ref-Keeps env w claim s) (λ x e _. e)) tt
        λ c1 e1.
          Keeps-bind {P = IsOpen claim} _ _
            (Keeps-wrap _ _ (
              moved HasUid c1 e1
                (apply_boot_configuration-Keeps env w c1 s (still-IsOpen c1 s e1 o))))
            λ s' o'.
              Keeps-unless_modified {P = IsSame env w claim} _ _ _
                (Keeps-weaken _
                  (moved (λ ref x. claim_reference x.0 ≡ ref) c1 e1
                    (patch_server_claim_phase-Keeps env w c1 Phase.bound))
                  (λ x e _. e))
                tt
                λ c2 e2.
                  Keeps-unless_modified_any _ _ _
                    (moved (λ _ _. Unit) c2 e2
                      (ensure_power_state_for_server-Keeps env w c2 s' (still-IsOpen c2 s' e2 o')))
                    (λ _. Keeps-pure _ tt)

  bind_found-Keeps :
      (found : Option Server)
      → Chosen claim found
      → Keeps
          (Steps (Respects (claim_reference claim)))
          (optional found (pure done) (bind_server env claim))
          Anything
  unfolding optional
  bind_found-Keeps none c = Keeps-pure done tt
  bind_found-Keeps (some s) o = bind_server-Keeps s o

module _ (env : Env) (w : IsSoleBinder env) (claim : ServerClaim) where
  claim_and_bind-Keeps :
      Keeps
        (Steps (Respects (claim_reference claim)))
        (unless_modified
          (claim_server env claim)
          requeue_now
          λ found. optional found (pure done) (bind_server env claim))
        Anything
  claim_and_bind-Keeps =
      Keeps-unless_modified {P = Chosen claim} _ _ _
        (Keeps-weaken _ (claim_server-Keeps env w claim) (λ x c _. c)) tt
        (bind_found-Keeps env w claim)

  ensure_claim_finalizer-Keeps :
      Keeps
        (Steps (Respects (claim_reference claim)))
        (ensure_claim_finalizer env claim server_claim_finalizer)
        (λ x. IsSame env w claim x.0)
  ensure_claim_finalizer-Keeps =
      Keeps-perform _ _ (λ h j. (tt, j))
        (λ h x a. w.finalizer claim server_claim_finalizer h x.0 x.1 a)

module _ (env : Env) (w : IsSoleBinder env) (claim : ServerClaim) where
  reconcile-Keeps : Keeps (Steps (Respects (claim_reference claim))) (reconcile env claim) Anything
  unfolding reconcile
  reconcile-Keeps =
      Keeps-if_any (should_ignore_reconciliation claim.metadata) _ _ (Keeps-pure _ tt) (
        Keeps-unless_modified {P = IsSame env w claim} _ _ _
          (Keeps-weaken _ (initialize_phase-Keeps env w claim) (λ x e _. e)) tt
          λ c1 e1.
            Keeps-unless_modified {P = IsSame env w claim} _ _ _
              (Keeps-weaken _
                (moved env w claim (λ ref x. claim_reference x.0 ≡ ref) c1 e1
                  (ensure_claim_finalizer-Keeps env w c1))
                (λ x e _. e))
              tt λ c2 e2. moved env w claim (λ _ _. Unit) c2 e2 (claim_and_bind-Keeps env w c2))

-- Where the API server keeps the identity of claims and this controller alone writes the claim
-- references of servers: a reconciliation of a claim that is not being deleted patches only
-- servers that are free or carry the UID of the claim, changes a claim reference only from none
-- to a reference to the claim, and writes no server status, on every way out.
pub reconcile-Respects :
    (env : Env) (claim : ServerClaim) (h : History)
    → IsSoleBinder env
    → is_deleted claim.metadata ≡ false
    → Steps (Respects (claim_reference claim)) h
    → Steps (Respects (claim_reference claim)) (reconcile_exists env claim h).1
unfolding reconcile_exists
reconcile-Respects env claim h w live j = rw live (
    Kept-history (Steps (Respects (claim_reference claim))) Anything _
      ((reconcile-Keeps env w claim).at h j))
