-- ===== src/ServerReconciler/StateSteps.antt =====
-- Single patches along an edge.
use metal_operator.Base.{◌≡◌, refl, sym, ◌∙◌, inl, inr, Bool, true, false, Bool-cases, ◌∷◌}
use metal_operator.Api.Server.{Server, ServerState, server_state_eq, with_state}
use metal_operator.Effects.{Result, Call, History, proceed, wrap_result, pure, ◌>>=◌, perform, wrap}
use metal_operator.Effects.Env.{Env}
use metal_operator.Effects.Keeps.{Keeps, Kept, Steps, Keeps-perform}
use metal_operator.Client.{patch_server, patch_server_status}
use metal_operator.ServerReconciler.Config.{ServerReconciler}
use metal_operator.ServerReconciler.Status.{patch_server_state}
use metal_operator.ServerReconciler.Diagram.{Edge, Legal, IsSingleWriter, server_state_eq-true}
use metal_operator.ServerReconciler.Quiet.{IsStable, is_quiet}

-- All status patches so far keep the state or follow an edge.
abbrev pub IsLawful : Env → ServerReconciler → History → Type 0
IsLawful env r = Steps (Legal env r)

pub IsLawful-IsStable : (env : Env) (r : ServerReconciler) → IsStable (IsLawful env r)
IsLawful-IsStable env r = record { quiet = go }
  where
    go : (c : Call) (h : History) → is_quiet c ≡ true → IsLawful env r h → IsLawful env r (c ∷ h)
    go (Call.patch_server_status base new) h q j = cc
    go _ h q j = (tt, j)

abbrev pub InState : ServerState → Server → Type 0
InState x s = s.status.state ≡ x

module _ (env : Env) (r : ServerReconciler) (w : IsSingleWriter env) where
  pub patch_server-InState :
      (base new : Server) (x : ServerState)
      → InState x base
      → Keeps (IsLawful env r) (patch_server env base new) (InState x)
  patch_server-InState base new x e =
      Keeps-perform _ _ (λ h j. (tt, j)) (λ h s a. w.spec_patch base new s h a ∙ e)

  -- A status patch that leaves the state alone.
  pub patch_status-InState :
      (base new : Server) (x : ServerState)
      → InState x base
      → InState x new
      → Keeps (IsLawful env r) (patch_server_status env base new) (InState x)
  patch_status-InState base new x e f =
      Keeps-perform _ _ (λ h j. (inl (f ∙ sym e), j)) (λ h s a. w.status_patch base new s h a ∙ f)

  -- A change of the state along an edge.
  pub patch_server_state_at :
      (s : Server) (x : ServerState) (h : History)
      → IsLawful env r h
      → Edge env r s h x
      → Kept
          (IsLawful env r)
          (λ y. InState x y.0 × (y.1 ≡ false → y.0 ≡ s))
          (patch_server_state env r s x h)
  unfolding patch_server_state wrap perform pure ◌>>=◌
  patch_server_state_at s x h j e = elim (Bool-cases (server_state_eq s.status.state x)) [
    | inl same ↦ rw same (j, (server_state_eq-true s.status.state x same, λ q. refl))
    | inr differ ↦ rw differ (go (env.patch_server_status s (with_state x s) h) refl)
  ]
    where
      go :
          (a : Result Server)
          → env.patch_server_status s (with_state x s) h ≡ a
          → Kept
              (IsLawful env r)
              (λ (y : Server × Bool). InState x y.0 × (y.1 ≡ false → y.0 ≡ s))
              (proceed
                (
                  wrap_result "failed to patch server state" a,
                  Call.patch_server_status s (with_state x s) ∷ h,
                )
                (λ s'. pure (s', true)))
      go (Result.ok s') q = ((inr e, j), (w.status_patch s (with_state x s) s' h q, λ p. cc))
      go (Result.err f) q = (inr e, j)

  pub patch_server_state-IsLawful :
      (s : Server) (x : ServerState)
      → ((h : History) → Edge env r s h x)
      → Keeps
          (IsLawful env r)
          (patch_server_state env r s x)
          (λ y. InState x y.0 × (y.1 ≡ false → y.0 ≡ s))
  patch_server_state-IsLawful s x e = record { at = λ h j. patch_server_state_at s x h j (e h) }
