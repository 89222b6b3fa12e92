-- ===== src/ClaimReconciler/Phases.antt =====
-- The order in which a claim is bound.
use metal_operator.Base.{
  String, ◌≡◌, refl, Bool, true, false, if◌then◌else◌, none, some, ◌∷◌, arith,
}
use metal_operator.Api.Meta.{ObjectMeta, LocalObjectReference}
use metal_operator.Api.Server.{Server}
use metal_operator.Api.Claim.{ServerClaim, ServerBootConfiguration, Phase, phase_eq}
use metal_operator.Effects.{History, Result, Call, proceed, wrap_result, pure, perform, wrap, ◌>>=◌}
use metal_operator.Effects.Env.{Env}
use metal_operator.Effects.Keeps.{Steps, Keeps, Kept, Anything, Keeps-pure, Keeps-perform, Keeps-if}
use metal_operator.ClaimReconciler.Claim.{with_phase, with_server_ref, patch_server_claim_phase}
use metal_operator.ClaimReconciler.Reconcile.{initialize_phase}

-- The configuration with the server, the image and the ignition of a claim, and with the metadata
-- that a controller reference leaves.
abbrev pub configured :
    ServerClaim
    → LocalObjectReference
    → ServerBootConfiguration
    → Result ObjectMeta
    → Result ServerBootConfiguration
configured claim server c (Result.err e) = Result.err e
configured claim server c (Result.ok metadata) = Result.ok (record {
  metadata = metadata;
  spec = record {
    server_ref = server;
    image = claim.spec.image;
    ignition_secret_ref = claim.spec.ignition_secret_ref;
  };
  state = c.state;
})

-- The last two calls wrote the boot configuration of the claim, which has its name and namespace,
-- its image and ignition, and its server, and then a reference to it into the server that the
-- claim names; both succeeded.
pub record BootApplied (env : Env) (claim : ServerClaim) (h : History) : Type 0 where
  pub start : ServerBootConfiguration
  pub change : ServerBootConfiguration → Result ServerBootConfiguration
  pub config : ServerBootConfiguration
  pub server : Server
  pub named : claim.spec.server_ref ≡ some (record { name = server.metadata.name })
  pub own_name : start.metadata.name ≡ claim.metadata.name
  pub own_namespace : start.metadata.namespace ≡ claim.metadata.namespace
  pub content :
      (c : ServerBootConfiguration)
      → change c
        ≡ configured claim
            (record { name = server.metadata.name })
            c
            (env.set_controller_reference claim.metadata c.metadata)
  pub patched : Server
  pub before : History
  pub config_written : env.create_or_patch_boot_configuration start change before ≡ Result.ok config
  pub patch : Server
  pub patch_spec : patch.spec ≡ record server.spec {
    boot_configuration_ref = some (record {
      api_version = "metal.ironcore.dev/v1alpha1";
      kind = "ServerBootConfiguration";
      namespace = config.metadata.namespace;
      name = config.metadata.name;
      uid = config.metadata.uid;
    });
  }
  pub server_written :
      env.patch_server server patch (Call.create_or_patch_boot_configuration start change ∷ before)
      ≡ Result.ok patched
  pub calls :
      h
      ≡ Call.patch_server server patch
        ∷ Call.create_or_patch_boot_configuration start change
        ∷ before

-- The changes of a claim's phase.
pub data PhaseEdge (env : Env) (base : ServerClaim) (h : History) : ServerClaim → Type 0 where
  unbound : base.phase ≡ Phase.unset → PhaseEdge env base h (with_phase Phase.unbound base)
  bound :
      phase_eq base.phase Phase.bound ≡ false
      → BootApplied env base h
      → PhaseEdge env base h (with_phase Phase.bound base)

-- The changes of a claim's server reference.
pub data RefEdge (base : ServerClaim) : ServerClaim → Type 0 where
  set :
      {ref : LocalObjectReference}
      → base.spec.server_ref ≡ none
      → RefEdge base (with_server_ref (some ref) base)

abbrev pub InOrder : Env → Call → History → Type 0
InOrder env (Call.patch_claim_status base new) h = PhaseEdge env base h new
InOrder env (Call.patch_claim base new) h = RefEdge base new
InOrder env _ h = Unit

abbrev pub leaves_claims : Call → Bool
leaves_claims (Call.patch_claim_status base new) = false
leaves_claims (Call.patch_claim base new) = false
leaves_claims _ = true

phase_unset : (p : Phase) → phase_eq p Phase.unset ≡ true → p ≡ Phase.unset
unfolding phase_eq
phase_unset p h = ground arith

module _ (env : Env) where
  abbrev J : History → Type 0
  J = Steps (InOrder env)

  quiet : (c : Call) (h : History) → leaves_claims c ≡ true → J h → J (c ∷ h)
  quiet (Call.patch_claim_status base new) h q j = ground arith
  quiet (Call.patch_claim base new) h q j = ground arith
  quiet _ h q j = (tt, j)

  pub Keeps-call :
      {A : Type 0} (c : Call) (answer : History → Result A)
      → leaves_claims c ≡ true
      → Keeps J (perform c answer) Anything
  Keeps-call c answer q = Keeps-perform c answer (λ h. quiet c h q) (λ _ _ _. tt)

  pub modified :
      {A : Type 0} (m : String) (c : Call) (x : Result A) (h : History)
      → J (c ∷ h)
      → Kept {A = A × Bool} J Anything (proceed (wrap_result m x, c ∷ h) (λ a. pure (a, true)))
  unfolding pure
  modified m c (Result.ok a) h j = (j, tt)
  modified m c (Result.err e) h j = j

  pub patch_server_claim_phase-Kept :
      (claim : ServerClaim) (p : Phase) (h : History)
      → (phase_eq claim.phase p ≡ false → PhaseEdge env claim h (with_phase p claim))
      → J h
      → Kept J Anything (patch_server_claim_phase env claim p h)
  unfolding patch_server_claim_phase ◌>>=◌ wrap perform pure
  patch_server_claim_phase-Kept claim p h e j = go (phase_eq claim.phase p) e
    where
      go :
          (b : Bool)
          → (b ≡ false → PhaseEdge env claim h (with_phase p claim))
          → Kept {A = ServerClaim × Bool} J Anything (
              (if b
                  then pure (claim, false)
                  else wrap "failed to patch server claim phase" (
                      perform
                        (Call.patch_claim_status claim (with_phase p claim))
                        (env.patch_claim_status claim (with_phase p claim)))
                    >>= λ claim'. pure (claim', true))
                h)
      go true e = (j, tt)
      go false e =
          modified "failed to patch server claim phase"
            (Call.patch_claim_status claim (with_phase p claim))
            (env.patch_claim_status claim (with_phase p claim) h) h (e refl, j)

  pub initialize_phase-Keeps : (claim : ServerClaim) → Keeps J (initialize_phase env claim) Anything
  unfolding initialize_phase
  initialize_phase-Keeps claim =
      Keeps-if (phase_eq claim.phase Phase.unset) _ _
        (λ q. record {
          at = λ h.
              patch_server_claim_phase-Kept claim Phase.unbound h
                (λ _. PhaseEdge.unbound (phase_unset claim.phase q));
        })
        (λ _. Keeps-pure _ tt)
