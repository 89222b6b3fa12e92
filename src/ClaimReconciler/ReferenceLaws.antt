-- ===== src/ClaimReconciler/ReferenceLaws.antt =====
-- When claimServerByReference accepts the server that the claim names.
use metal_operator.Base.{
  ◌≡◌, refl, ◌↔◌, Bool, true, false, if◌then◌else◌, Option, none, some, ◌∷◌, arith,
}
use metal_operator.Api.Meta.{LocalObjectReference}
use metal_operator.Api.Server.{Server}
use metal_operator.Api.Claim.{ServerClaim, Selector, LabelSelector}
use metal_operator.Effects.{M, History, Result, Call, pure, lift, optional, perform, proceed, ◌>>=◌}
use metal_operator.Effects.Env.{Env}
use metal_operator.ClaimReconciler.Select.{
  is_foreign, is_unclaimable, is_not_off, match_selector, check_referenced,
  claim_server_by_reference,
}
use metal_operator.ClaimReconciler.SelectLaws.{IsClaimable, IsClaimable-iff}

-- The claim has no selector, or a valid one that matches the labels of the server.
abbrev pub IsSelected : Env → Server → Option LabelSelector → Type 0
IsSelected env s none = Unit
IsSelected env s (some l) =
    (sel : Selector) × (env.label_selector_as_selector l ≡ Result.ok sel)
    × (env.selector_matches sel s.metadata.labels ≡ true)

module _ (env : Env) (claim : ServerClaim) (s : Server) (h : History) where
  picked_iff :
      (b : Bool) → ((Result.ok (if b then some s else none)) ≡ Result.ok (some s)) ↔ (b ≡ true)
  picked_iff true = (λ _. refl, λ _. refl)
  picked_iff false = (λ e. ground arith, λ e. ground arith)

  matches :
      (l : LabelSelector) (x : Result Selector)
      → env.label_selector_as_selector l ≡ x
      → ((proceed
            (x, h)
            (λ sel. pure (if env.selector_matches sel s.metadata.labels then some s else none))).0
          ≡ Result.ok (some s))
        ↔ IsSelected env s (some l)
  unfolding pure
  matches l (Result.ok sel) e = (
    λ q. (sel, e, (picked_iff (env.selector_matches sel s.metadata.labels)).0 q),
    λ (sel', e', m). (picked_iff (env.selector_matches sel s.metadata.labels)).1 cc,
  )
  matches l (Result.err f) e = (λ q. ground arith, λ (sel', e', m). ground (arith, e))

  selected :
      (o : Option LabelSelector)
      → ((optional o
            (pure (some s))
            (λ l. lift (env.label_selector_as_selector l) >>= λ sel.
              pure (if env.selector_matches sel s.metadata.labels then some s else none))
            h).0
          ≡ Result.ok (some s))
        ↔ IsSelected env s o
  unfolding optional pure lift ◌>>=◌
  selected none = (λ _. tt, λ _. refl)
  selected (some l) = matches l (env.label_selector_as_selector l) refl

  -- What the guards leave, in either direction.
  guarded :
      (f u d : Bool) (m : M (Option Server)) {P Q : Type 0}
      → (f ≡ false) × (u ≡ false) × (d ≡ false) ↔ P
      → ((m h).0 ≡ Result.ok (some s)) ↔ Q
      → (((if f then pure none else if u then pure none else if d then pure none else m) h).0
          ≡ Result.ok (some s))
        ↔ P × Q
  unfolding pure
  guarded true u d m e g = (λ q. ground arith, λ p. ground (arith, e.1 p.0))
  guarded false true d m e g = (λ q. ground arith, λ p. ground (arith, e.1 p.0))
  guarded false false true m e g = (λ q. ground arith, λ p. ground (arith, e.1 p.0))
  guarded false false false m e g = (λ q. (e.0 (refl, refl, refl), g.0 q), λ p. g.1 p.1)

  check_referenced_iff :
      ((check_referenced env claim s h).0 ≡ Result.ok (some s))
      ↔ IsClaimable claim s × IsSelected env s claim.spec.server_selector
  unfolding check_referenced match_selector
  check_referenced_iff =
      guarded (is_foreign claim s) (is_unclaimable s) (is_not_off s) (match_selector env claim s)
        (IsClaimable-iff claim s) (selected claim.spec.server_selector)

-- For a claim that names a server which the API server returns, claimServerByReference returns
-- that server exactly where it is claimable (no claim reference or the claim's UID in it, state
-- Available or Reserved, powered off) and the claim's selector, if any, is valid and matches the
-- labels of the server. A Reserved server without a claim reference is accepted, too.
pub claim_server_by_reference_lem :
    (env : Env) (claim : ServerClaim) (ref : LocalObjectReference) (s : Server) (h : History)
    → claim.spec.server_ref ≡ some ref
    → env.get_server ref.name h ≡ Result.ok s
    → ((claim_server_by_reference env claim h).0 ≡ Result.ok (some s))
      ↔ IsClaimable claim s × IsSelected env s claim.spec.server_selector
unfolding claim_server_by_reference optional ◌>>=◌ perform
claim_server_by_reference_lem env claim ref s h e g =
    simp (e, g) (check_referenced_iff env claim s (Call.get_server ref.name ∷ h))
