-- ===== src/EndpointReconciler/Justified.antt =====
-- What the endpoint controller writes, and after which calls.
use metal_operator.Base.{◌≡◌, refl, Bool, true, List, [], ◌∷◌, All, Any}
use metal_operator.Effects.{Result, deferring, wrap_result, proceed, wrap, perform, ◌>>=◌, ◌>>◌}
use metal_operator.Effects.Keeps.{
  Kept, Keeps, Steps, Anything, Keeps-pure, Keeps-raise, Keeps-if, Keeps-optional, Keeps-perform,
}
use metal_operator.Effects.Rules.{Keeps-bind_any}
use metal_operator.Api.Meta.{is_deleted}
use metal_operator.ServerReconciler.Config.{should_ignore_reconciliation}
use metal_operator.BmcUtils.Clients.{ClientKind}
use metal_operator.EndpointReconciler.World.{
  EndpointObject, BmcSecret, BmcObject, MacPrefix, Credential, EndpointCall, EndpointHistory,
  EndpointProgram, EndpointEnv,
}
use metal_operator.EndpointReconciler.Reconcile.{
  get_protocol, matches, protocol_client, client_options, set_secret, set_bmc, apply_bmc_secret,
  apply_bmc, apply_bmc_and, apply_both, connect, adopt, adopt_with_first, adopt_all,
  delete_endpoint, reconcile_endpoint, reconcile_existing_endpoint,
}
use metal_operator.EndpointReconciler.Writes.{
  IsChosen, IsConnected, IsJustified, set_secret-secured, set_bmc-accessed, protocol_client-Speaks,
  matches-prefix,
}

module _ (env : EndpointEnv) (insecure : Bool) (prefixes : List MacPrefix)
    (endpoint : EndpointObject) where
  abbrev J : EndpointHistory → Type 0
  J = Steps (IsJustified env insecure prefixes endpoint)

  module _ (m : MacPrefix) (credential : Credential) (kind : ClientKind)
      (chosen : IsChosen env insecure prefixes endpoint m credential kind)
      (go_on : EndpointProgram (Unit {0})) (k : Keeps J go_on Anything) where
    bmc_applied :
        (secret : BmcSecret) (before : EndpointHistory)
        → J (
            EndpointCall.create_or_patch_secret endpoint.metadata.name
              (set_secret env insecure endpoint credential)
            ∷ before)
        → env.create_or_patch_secret endpoint.metadata.name
            (set_secret env insecure endpoint credential)
            before
          ≡ Result.ok secret
        → Kept J Anything (
            apply_bmc_and env insecure endpoint m go_on secret (
              EndpointCall.create_or_patch_secret endpoint.metadata.name
                (set_secret env insecure endpoint credential)
              ∷ before))
    unfolding apply_bmc_and apply_bmc wrap perform ◌>>=◌
    bmc_applied secret before j e =
        go (
          env.create_or_patch_bmc endpoint.metadata.name (set_bmc env insecure endpoint secret m) _)
      where
        h : EndpointHistory
        h =
            EndpointCall.create_or_patch_bmc endpoint.metadata.name
              (set_bmc env insecure endpoint secret m)
            ∷ EndpointCall.create_or_patch_secret endpoint.metadata.name
                (set_secret env insecure endpoint credential)
            ∷ before

        jh : J h
        jh = (
          (
            m,
            credential,
            kind,
            secret,
            before,
            _,
            chosen,
            refl,
            set_bmc-accessed env insecure prefixes endpoint secret m,
            set_secret-secured env insecure prefixes endpoint credential,
            refl,
            e,
          ),
          j,
        )

        go :
            (r : Result BmcObject)
            → Kept J Anything (
                proceed
                  (
                    wrap_result "failed to apply BMC object"
                        (wrap_result "failed to create or patch BMC" r),
                    h,
                  )
                  (λ b. go_on))
        go (Result.ok b) = k.at h jh
        go (Result.err x) = jh

    both_applied :
        (before h : EndpointHistory)
        → IsConnected env insecure prefixes endpoint m credential kind before h
        → J h
        → Kept J Anything (apply_both env insecure endpoint m credential go_on h)
    unfolding apply_both apply_bmc_secret wrap perform ◌>>=◌
    both_applied before h c j =
        go
          (env.create_or_patch_secret endpoint.metadata.name
            (set_secret env insecure endpoint credential) h)
          refl
      where
        h' : EndpointHistory
        h' =
            EndpointCall.create_or_patch_secret endpoint.metadata.name
              (set_secret env insecure endpoint credential)
            ∷ h

        jh : J h'
        jh = (
          (
            m,
            credential,
            kind,
            chosen,
            refl,
            set_secret-secured env insecure prefixes endpoint credential,
            (before, c),
          ),
          j,
        )

        go :
            (r : Result BmcSecret)
            → env.create_or_patch_secret endpoint.metadata.name
                (set_secret env insecure endpoint credential)
                h
              ≡ r
            → Kept J Anything (
                proceed
                  (
                    wrap_result "failed to apply BMCSecret"
                        (wrap_result "failed to create or patch BMCSecret" r),
                    h',
                  )
                  (apply_bmc_and env insecure endpoint m go_on))
        go (Result.ok s) e = bmc_applied s h jh e
        go (Result.err x) e = jh

    logged_out :
        (x : Result (Unit {0}) × EndpointHistory)
        → Kept J Anything x
        → Kept J Anything (x.0, EndpointCall.log_out ∷ x.1)
    logged_out (Result.ok a, h) (j, p) = ((tt, j), p)
    logged_out (Result.err e, h) j = (tt, j)

    adopted : Keeps J (adopt env insecure endpoint m credential go_on kind) Anything
    unfolding adopt connect client_options get_protocol deferring wrap perform ◌>>=◌ ◌>>◌
    adopted = record {
      at = λ h j.
          go h j (env.connect kind (client_options env insecure endpoint m credential) h) refl;
    }
      where
        go :
            (h : EndpointHistory)
            → J h
            → (r : Result (Unit {0}))
            → env.connect kind (client_options env insecure endpoint m credential) h ≡ r
            → Kept J Anything (
                proceed
                  (
                    wrap_result "failed to create BMC client" r,
                    EndpointCall.connect kind (client_options env insecure endpoint m credential)
                        ∷ h,
                  )
                  (λ a.
                    deferring EndpointCall.log_out
                      (apply_both env insecure endpoint m credential go_on)))
        go h j (Result.ok a) e = logged_out _ (both_applied h _ (refl, e) (tt, j))
        go h j (Result.err x) e = (tt, j)

  -- The prefixes of the database among which the loop still is.
  abbrev AllKnown : List MacPrefix → Type 0
  AllKnown ps = All (λ m. Any (λ x. x ≡ m) prefixes) ps

  chosen_adopted :
      (m : MacPrefix) (credentials : List Credential) (go_on : EndpointProgram (Unit {0}))
      → Any (λ x. x ≡ m) prefixes
      → matches env insecure endpoint m ≡ true
      → m.default_credentials ≡ credentials
      → Keeps J go_on Anything
      → Keeps J (adopt_with_first env insecure endpoint m go_on credentials) Anything
  unfolding adopt_with_first
  chosen_adopted m [] go_on known t e k = Keeps-raise _
  chosen_adopted m (credential ∷ others) go_on known t e k =
      Keeps-optional (protocol_client m.protocol) go_on
        (adopt env insecure endpoint m credential go_on) k
        λ kind p.
          adopted m credential kind
            (record {
              known = known;
              prefix = (matches-prefix env insecure prefixes endpoint m t).0;
              of_bmc = (matches-prefix env insecure prefixes endpoint m t).1;
              others = others;
              first = e;
              protocol = protocol_client-Speaks env insecure prefixes endpoint kind m.protocol p;
            })
            go_on k

  all_adopted :
      (ps : List MacPrefix) → AllKnown ps → Keeps J (adopt_all env insecure endpoint ps) Anything
  unfolding adopt_all
  all_adopted [] known = Keeps-pure tt tt
  all_adopted (m ∷ ps) (known, rest) =
      Keeps-if (matches env insecure endpoint m) _ _
        (λ t. chosen_adopted m m.default_credentials _ known t refl (all_adopted ps rest))
        (λ f. all_adopted ps rest)

  deleted : Keeps J (delete_endpoint env insecure endpoint) Anything
  unfolding delete_endpoint
  deleted =
      Keeps-bind_any _ _ (Keeps-perform _ _ (λ h j. (tt, j)) (λ h a e. tt))
        (λ modified. Keeps-pure tt tt)

All-weaken :
    (P Q : MacPrefix → Type 0) (l : List MacPrefix)
    → ((m : MacPrefix) → P m → Q m)
    → All P l
    → All Q l
All-weaken P Q [] f p = tt
All-weaken P Q (m ∷ l) f (p, ps) = (f m p, All-weaken P Q l f ps)

members : (l : List MacPrefix) → All (λ m. Any (λ x. x ≡ m) l) l
members [] = tt
members (m ∷ l) = (
  Any.head refl,
  All-weaken (λ x. Any (λ y. y ≡ x) l) (λ x. Any (λ y. y ≡ x) (m ∷ l)) l (λ x a. Any.tail a)
      (members l),
)

-- For an endpoint, the controller writes only under the name of the endpoint and for a prefix of
-- the database that starts its MAC address without colons and is of type bmc, with the first
-- credential of that prefix. It writes the secret, with the user name and the password of that
-- credential, right after a client of the prefix's protocol was connected with that credential to
-- the address of the endpoint and the port of the prefix; and it writes the BMC, with the endpoint,
-- the protocol and the console of the prefix and the name of the secret as the API server answered
-- it, right after the secret was written. Both get the controller reference to the endpoint.
pub reconcile-IsJustified :
    (env : EndpointEnv) (insecure : Bool) (prefixes : List MacPrefix) (endpoint : EndpointObject)
    → Keeps
        (Steps (IsJustified env insecure prefixes endpoint))
        (reconcile_existing_endpoint env insecure prefixes endpoint)
        Anything
unfolding reconcile_existing_endpoint reconcile_endpoint
reconcile-IsJustified env insecure prefixes endpoint =
    Keeps-if (is_deleted endpoint.metadata) _ _ (λ d. deleted env insecure prefixes endpoint)
      λ n.
        Keeps-if (should_ignore_reconciliation endpoint.metadata) _ _ (λ i. Keeps-pure tt tt)
          (λ i. all_adopted env insecure prefixes endpoint prefixes (members prefixes))
