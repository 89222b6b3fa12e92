-- ===== src/ClaimReconciler/Binding.antt =====
-- The patches that bind a claim to a server are in order.
use mathlib.Core.Path.{subst}
use metal_operator.Base.{
  ◌≡◌, refl, sym, eq_iff, arith, Bool, true, false, ◌==◌, Option, none, some, ◌∷◌,
}
use metal_operator.Api.Meta.{ObjectMeta, LocalObjectReference}
use metal_operator.Api.Server.{Server, with_boot_ref}
use metal_operator.Api.Claim.{ServerClaim, ServerBootConfiguration, Phase}
use metal_operator.Effects.{
  M, History, Result, Err, Call, proceed, wrap_result, pure, raise, optional, perform, wrap,
  unless_modified, ◌>>=◌,
}
use metal_operator.Effects.Env.{Env}
use metal_operator.Effects.Keeps.{
  Steps, Keeps, Kept, Anything, Keeps-pure, Keeps-perform, Keeps-raise, Keeps-if,
  Keeps-unless_modified,
}
use metal_operator.ServerReconciler.Config.{ReconcileResult, done}
use metal_operator.ServerReconciler.Boot.{boot_reference, empty_boot_configuration}
use metal_operator.ServerReconciler.Quiet.{Keeps-bind_any, Keeps-unless_modified_any, quiet_rules}
use metal_operator.ClaimReconciler.Claim.{
  claim_configuration, patch_server_claim_phase, patch_server_ref, apply_boot_configuration,
  ensure_power_state_for_server,
}
use metal_operator.ClaimReconciler.Reconcile.{bind_server}
use metal_operator.ClaimReconciler.Phases.{
  configured, BootApplied, PhaseEdge, RefEdge, InOrder, Keeps-call, patch_server_claim_phase-Kept,
}

module _ (env : Env) where
  abbrev J : History → Type 0
  J = Steps (InOrder env)

  abbrev Names : ServerClaim → Server → Type 0
  Names claim s = claim.spec.server_ref ≡ some (record { name = s.metadata.name })

  optional_ref :
      {A B : Type 0} {P : A → Type 0} (o : Option B) (m : M A) (f : B → M A)
      → (o ≡ none → Keeps J m P)
      → ((b : B) → o ≡ some b → Keeps J (f b) P)
      → Keeps J (optional o m f) P
  unfolding optional
  optional_ref none m f km kf = km refl
  optional_ref (some b) m f km kf = kf b refl

  -- A claim whose reference need not be patched names the server.
  patch_server_ref-Keeps :
      (claim : ServerClaim) (s : Server)
      → Keeps J (patch_server_ref env claim s) (λ x. x.1 ≡ false → Names x.0 s)
  unfolding patch_server_ref
  patch_server_ref-Keeps claim s =
      optional_ref claim.spec.server_ref _ _
        (λ e.
          Keeps-bind_any _ _ (Keeps-perform _ _ (λ h j. (RefEdge.set e, j)) (λ _ _ _. tt))
            (λ c. Keeps-pure _ (λ q. absurd (ground arith))))
        (λ ref e.
          Keeps-if (ref.name == s.metadata.name) _ _ (λ t. Keeps-pure _ (λ q. names ref e t))
            (λ f. Keeps-raise _))
    where
      names :
          (ref : LocalObjectReference)
          → claim.spec.server_ref ≡ some ref
          → (ref.name == s.metadata.name) ≡ true
          → Names claim s
      names ref e t = ground (arith, eq_iff ref.name s.metadata.name)

  -- What follows applyBootConfiguration finds the boot configuration applied.
  module _ {B : Type 0} (s : Server) (claim : ServerClaim) (f : Server → M B)
      (n : Names claim s) where
    abbrev start : ServerBootConfiguration
    start = empty_boot_configuration claim.metadata.name claim.metadata.namespace

    change : ServerBootConfiguration → Result ServerBootConfiguration
    change = claim_configuration env claim (record { name = s.metadata.name })

    change-configured :
        (c : ServerBootConfiguration)
        → change c
          ≡ configured claim
              (record { name = s.metadata.name })
              c
              (env.set_controller_reference claim.metadata c.metadata)
    unfolding claim_configuration change
    change-configured c = go (env.set_controller_reference claim.metadata c.metadata)
      where
        go :
            (x : Result ObjectMeta)
            → elim x [
              | Result.err e ↦ Result.err e
              | Result.ok metadata ↦ Result.ok (record {
                metadata = metadata;
                spec = record {
                  server_ref = record { name = s.metadata.name };
                  image = claim.spec.image;
                  ignition_secret_ref = claim.spec.ignition_secret_ref;
                };
                state = c.state;
              })
            ]
              ≡ configured claim (record { name = s.metadata.name }) c x
        go (Result.ok m) = refl
        go (Result.err e) = refl

    boot_patched :
        (config : ServerBootConfiguration) (h : History) (x : Result Server)
        → env.create_or_patch_boot_configuration start change h ≡ Result.ok config
        → env.patch_server s
            (with_boot_ref (some (boot_reference config)) s)
            (Call.create_or_patch_boot_configuration start change ∷ h)
          ≡ x
        → ((s' : Server) (h' : History)
            → BootApplied env claim h'
            → J h'
            → Kept J Anything (f s' h'))
        → J h
        → Kept J Anything (
            proceed
              (
                wrap_result "failed to apply boot configuration" x,
                Call.patch_server s (with_boot_ref (some (boot_reference config)) s)
                    ∷ Call.create_or_patch_boot_configuration start change
                    ∷ h,
              )
              f)
    boot_patched config h (Result.ok s') e p k j =
        k s' _
          (record {
            start = start;
            named = n;
            own_name = refl;
            own_namespace = refl;
            content = change-configured;
            change = change;
            config = config;
            server = s;
            patch = with_boot_ref (some (boot_reference config)) s;
            patch_spec = refl;
            patched = s';
            before = h;
            config_written = e;
            server_written = p;
            calls = refl;
          })
          (tt, (tt, j))
    boot_patched config h (Result.err g) e p k j = (tt, (tt, j))

    config_written :
        (h : History) (x : Result ServerBootConfiguration)
        → env.create_or_patch_boot_configuration start change h ≡ x
        → ((s' : Server) (h' : History)
            → BootApplied env claim h'
            → J h'
            → Kept J Anything (f s' h'))
        → J h
        → Kept J Anything (
            proceed
              (wrap "failed to apply boot configuration"
                (λ _.
                  proceed
                    (
                      wrap_result "failed to create or patch ServerBootConfiguration" x,
                      Call.create_or_patch_boot_configuration start change ∷ h,
                    )
                    (λ config.
                      perform
                        (Call.patch_server s (with_boot_ref (some (boot_reference config)) s))
                        (env.patch_server s (with_boot_ref (some (boot_reference config)) s))))
                h)
              f)
    unfolding wrap perform
    config_written h (Result.ok config) e k j = boot_patched config h _ e refl k j
    config_written h (Result.err g) e k j = (tt, j)

    abbrev bound_boot : Option LocalObjectReference → M B
    unfolding optional ◌>>=◌ wrap perform raise
    bound_boot o =
        wrap "failed to apply boot configuration" (
          optional o (raise (Err.panic "nil pointer dereference")) λ server_ref.
            wrap "failed to create or patch ServerBootConfiguration" (
              perform
                (Call.create_or_patch_boot_configuration
                  (empty_boot_configuration claim.metadata.name claim.metadata.namespace)
                  (claim_configuration env claim server_ref))
                (env.create_or_patch_boot_configuration
                  (empty_boot_configuration claim.metadata.name claim.metadata.namespace)
                  (claim_configuration env claim server_ref)))
            >>= λ config.
                perform (Call.patch_server s (with_boot_ref (some (boot_reference config)) s))
                  (env.patch_server s (with_boot_ref (some (boot_reference config)) s)))
        >>= f

    after_boot :
        ((s' : Server) (h' : History) → BootApplied env claim h' → J h' → Kept J Anything (f s' h'))
        → Keeps J
            (wrap "failed to apply boot configuration" (apply_boot_configuration env s claim) >>= f)
            Anything
    unfolding apply_boot_configuration optional ◌>>=◌ wrap perform raise change
    after_boot k = record { at = λ h j. go claim.spec.server_ref n h j }
      where
        go :
            (o : Option LocalObjectReference)
            → o ≡ some (record { name = s.metadata.name })
            → (h : History) → J h
            → Kept J Anything (bound_boot o h)
        go none q h j = j
        go (some ref) q h j =
            subst (λ o. Kept J Anything (bound_boot o h)) (sym q)
              (config_written h (env.create_or_patch_boot_configuration start change h) refl k j)

  power_then_done :
      (c : ServerClaim) (s : Server) → Keeps J (ensure_power_state_for_server env c s) Anything
  unfolding ensure_power_state_for_server
  power_then_done c s = search (quiet_rules, Keeps-call env) depth 12

  unmodified :
      {A : Type 0} (x : Result (A × Bool) × History) (k : A → M ReconcileResult)
      → Kept J Anything x
      → ((a : A) → Keeps J (k a) Anything)
      → Kept J Anything
          (proceed x (λ (a, modified). elim modified [ true ↦ pure done | false ↦ k a ]))
  unfolding pure
  unmodified (Result.ok (a, true), h) k j f = j
  unmodified (Result.ok (a, false), h) k j f = (f a).at h j.0
  unmodified (Result.err e, h) k j f = j

  bound_at :
      (claim : ServerClaim) (s : Server) (h : History)
      → BootApplied env claim h
      → J h
      → Kept J Anything (
          unless_modified
            (patch_server_claim_phase env claim Phase.bound)
            done
            (λ c. unless_modified (ensure_power_state_for_server env c s) done (λ s2. pure done))
            h)
  unfolding unless_modified ◌>>=◌
  bound_at claim s h b j =
      unmodified (patch_server_claim_phase env claim Phase.bound h) _
        (patch_server_claim_phase-Kept env claim Phase.bound h (λ e. PhaseEdge.bound e b) j)
        (λ c. Keeps-unless_modified_any _ _ _ (power_then_done c s) (λ _. Keeps-pure _ tt))

  pub bind_server-Keeps :
      (claim : ServerClaim) (s : Server) → Keeps J (bind_server env claim s) Anything
  unfolding bind_server
  bind_server-Keeps claim s =
      Keeps-unless_modified _ _ _ (patch_server_ref-Keeps claim s) tt
        λ c n. after_boot s c _ n (λ s' h b j. bound_at c s' h b j)
