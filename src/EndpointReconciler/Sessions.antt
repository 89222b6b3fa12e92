-- ===== src/EndpointReconciler/Sessions.antt =====
-- The endpoint controller closes each session with a BMC that it opens, the last one first.
use metal_operator.Base.{ℕ, suc, refl, Bool, true, false, List, [], ◌∷◌}
use metal_operator.Effects.Keeps.{
  Keeps, Anything, Keeps-pure, Keeps-raise, Keeps-wrap, Keeps-if, Keeps-optional,
}
use metal_operator.Effects.Rules.{Keeps-bind_any}
use metal_operator.Effects.Sessions.{SessionCalls, Open, is_ok, Keeps-neutral, Keeps-session}
use metal_operator.Api.Meta.{is_deleted}
use metal_operator.ServerReconciler.Config.{should_ignore_reconciliation}
use metal_operator.BmcUtils.Clients.{ClientKind}
use metal_operator.EndpointReconciler.World.{
  EndpointObject, BmcSecret, MacPrefix, Credential, EndpointCall, EndpointHistory, EndpointProgram,
  EndpointEnv,
}
use metal_operator.EndpointReconciler.Reconcile.{
  matches, protocol_client, apply_bmc_secret, apply_bmc, apply_bmc_and, apply_both, connect, adopt,
  adopt_with_first, adopt_all, delete_endpoint, reconcile_endpoint, reconcile_existing_endpoint,
}

module _ (env : EndpointEnv) (insecure : Bool) where
  abbrev opens : EndpointCall → EndpointHistory → Bool
  opens (EndpointCall.connect kind options) h = is_ok (env.connect kind options h)
  opens _ h = false

  abbrev closes : EndpointCall → Bool
  closes EndpointCall.log_out = true
  closes _ = false

  -- A client that was connected is a session, which Logout closes.
  abbrev pub endpoint_sessions : SessionCalls EndpointCall
  endpoint_sessions = record { opens = opens; closes = closes }

  abbrev O : ℕ → EndpointHistory → Type 0
  O = Open endpoint_sessions

  module _ (endpoint : EndpointObject) where
    secret_applied :
        (n : ℕ) (credential : Credential)
        → Keeps (O n) (apply_bmc_secret env insecure endpoint credential) Anything
    unfolding apply_bmc_secret
    secret_applied n credential = Keeps-wrap _ _ (
        Keeps-neutral endpoint_sessions n (EndpointCall.create_or_patch_secret _ _) _ (λ h. refl)
          refl)

    bmc_applied :
        (n : ℕ) (secret : BmcSecret) (m : MacPrefix)
        → Keeps (O n) (apply_bmc env insecure endpoint secret m) Anything
    unfolding apply_bmc
    bmc_applied n secret m = Keeps-wrap _ _ (
        Keeps-neutral endpoint_sessions n (EndpointCall.create_or_patch_bmc _ _) _ (λ h. refl) refl)

    both_applied :
        (n : ℕ) (m : MacPrefix) (credential : Credential) (go_on : EndpointProgram (Unit {0}))
        → Keeps (O n) go_on Anything
        → Keeps (O n) (apply_both env insecure endpoint m credential go_on) Anything
    unfolding apply_both apply_bmc_and
    both_applied n m credential go_on k =
        Keeps-bind_any _ _ (Keeps-wrap _ _ (secret_applied n credential))
          λ secret. Keeps-bind_any _ _ (Keeps-wrap _ _ (bmc_applied n secret m)) (λ b. k)

    adopted :
        (n : ℕ) (m : MacPrefix) (credential : Credential) (go_on : EndpointProgram (Unit {0}))
        (kind : ClientKind)
        → ((n : ℕ) → Keeps (O n) go_on Anything)
        → Keeps (O n) (adopt env insecure endpoint m credential go_on kind) Anything
    unfolding adopt connect
    adopted n m credential go_on kind k =
        Keeps-session endpoint_sessions n (EndpointCall.connect kind _) EndpointCall.log_out _
          (λ h. refl) refl (λ h. refl) refl "failed to create BMC client"
          (λ a. apply_both env insecure endpoint m credential go_on)
          (λ a. both_applied (suc n) m credential go_on (k (suc n)))

    chosen_adopted :
        (n : ℕ) (m : MacPrefix) (credentials : List Credential) (go_on : EndpointProgram (Unit {0}))
        → ((n : ℕ) → Keeps (O n) go_on Anything)
        → Keeps (O n) (adopt_with_first env insecure endpoint m go_on credentials) Anything
    unfolding adopt_with_first
    chosen_adopted n m [] go_on k = Keeps-raise _
    chosen_adopted n m (credential ∷ others) go_on k =
        Keeps-optional (protocol_client m.protocol) go_on
          (adopt env insecure endpoint m credential go_on) (k n)
          (λ kind p. adopted n m credential go_on kind k)

    all_adopted :
        (ps : List MacPrefix) (n : ℕ) → Keeps (O n) (adopt_all env insecure endpoint ps) Anything
    unfolding adopt_all
    all_adopted [] n = Keeps-pure tt tt
    all_adopted (m ∷ ps) n =
        Keeps-if (matches env insecure endpoint m) _ _
          (λ t. chosen_adopted n m m.default_credentials _ (λ k. all_adopted ps k))
          (λ f. all_adopted ps n)

    deleted : (n : ℕ) → Keeps (O n) (delete_endpoint env insecure endpoint) Anything
    unfolding delete_endpoint
    deleted n =
        Keeps-bind_any _ _
          (Keeps-neutral endpoint_sessions n (EndpointCall.ensure_no_finalizer _ _) _ (λ h. refl)
            refl)
          (λ m. Keeps-pure tt tt)

    -- A reconciliation of an endpoint leaves as many sessions with BMCs open as it found, on every
    -- way out, however many prefixes match.
    pub reconcile_endpoint-Open :
        (prefixes : List MacPrefix) (n : ℕ)
        → Keeps
            (Open endpoint_sessions n)
            (reconcile_existing_endpoint env insecure prefixes endpoint)
            Anything
    unfolding reconcile_existing_endpoint reconcile_endpoint
    reconcile_endpoint-Open prefixes n =
        Keeps-if (is_deleted endpoint.metadata) _ _ (λ d. deleted n)
          λ l.
            Keeps-if (should_ignore_reconciliation endpoint.metadata) _ _ (λ i. Keeps-pure tt tt)
              (λ i. all_adopted prefixes n)
