-- ===== src/ClaimReconciler/Respects.antt =====
-- What the claim controller may do to servers, and that the server it selects is open to it.
use mathlib.Core.Path.{subst}
use metal_operator.Base.{
  String, ◌≡◌, refl, sym, ◌⊎◌, inl, inr, Bool, true, false, if◌then◌else◌, Option, none, some,
  is_some, List, arith,
}
use metal_operator.Api.Meta.{ObjectReference}
use metal_operator.Api.Server.{Server}
use metal_operator.Api.Claim.{ServerClaim}
use metal_operator.Effects.{History, Result, Call}
use metal_operator.Effects.Env.{Env}
use metal_operator.Effects.Keeps.{
  Steps, Keeps, Keeps-pure, Keeps-raise, Keeps-lift, Keeps-perform, Keeps-if, Keeps-optional,
}
use metal_operator.Client.{patch_server}
use metal_operator.ServerReconciler.Quiet.{Keeps-bind_any}
use metal_operator.ClaimReconciler.Select.{
  is_foreign, is_unclaimable, is_not_off, first_best, match_selector, check_referenced,
  claim_server_by_reference, claim_server_by_selector, claim_first_best_server,
}
use metal_operator.ClaimReconciler.SelectLaws.{
  IsFirst, IsOpenTo, IsHeldBy, open_to, first_matching_lem, first_best_lem,
}
use metal_operator.ClaimReconciler.Claim.{claim_reference, select_server}

-- The server is free or carries the UID of the claim.
abbrev pub IsOpen : ServerClaim → Server → Type 0
IsOpen claim s = IsOpenTo claim.metadata.uid s.spec.server_claim_ref

-- What a call may do to servers on behalf of the claim with this reference.
abbrev pub Respects : ObjectReference → Call → History → Type 0
Respects ref (Call.patch_server base new) h =
    IsOpenTo ref.uid base.spec.server_claim_ref
    × ((new.spec.server_claim_ref ≡ base.spec.server_claim_ref)
        ⊎ (base.spec.server_claim_ref ≡ none) × (new.spec.server_claim_ref ≡ some ref))
Respects ref (Call.patch_server_status base new) h = ⊥
Respects ref (Call.create_or_patch_server s f) h = ⊥
Respects ref _ h = Unit

-- The API server keeps the identity of a claim, and no one else writes the claim reference of a
-- server between the read and the patch.
pub record IsSoleBinder (env : Env) : Type 0 where
  pub server :
      (base new : Server) (h : History) (s : Server)
      → env.patch_server base new h ≡ Result.ok s
      → s.spec.server_claim_ref ≡ new.spec.server_claim_ref
  pub claim :
      (base new : ServerClaim) (h : History) (c : ServerClaim)
      → env.patch_claim base new h ≡ Result.ok c
      → claim_reference c ≡ claim_reference new
  pub claim_status :
      (base new : ServerClaim) (h : History) (c : ServerClaim)
      → env.patch_claim_status base new h ≡ Result.ok c
      → claim_reference c ≡ claim_reference new
  pub finalizer :
      (base : ServerClaim) (f : String) (h : History) (c : ServerClaim) (modified : Bool)
      → env.ensure_claim_finalizer base f h ≡ Result.ok (c, modified)
      → claim_reference c ≡ claim_reference base

some_injective : {s t : Server} → some s ≡ some t → s ≡ t
some_injective e = cc

pub IsFirst-holds :
    {P : Server → Type 0} {l : List Server} {o : Option Server} (s : Server)
    → IsFirst P l o
    → o ≡ some s
    → P s
IsFirst-holds s IsFirst.empty e = ground arith
IsFirst-holds {P} s (IsFirst.here p) e = subst P (some_injective e) p
IsFirst-holds s (IsFirst.later n f) e = IsFirst-holds s f e

abbrev pub Chosen : ServerClaim → Option Server → Type 0
Chosen claim none = Unit
Chosen claim (some s) = IsOpen claim s

module _ (claim : ServerClaim) where
  open_own : (o : Option ObjectReference) → IsHeldBy claim o → IsOpenTo claim.metadata.uid o
  open_own o (IsHeldBy.held u n ns) = IsOpenTo.held u

  open_free : (o : Option ObjectReference) → o ≡ none → IsOpenTo claim.metadata.uid o
  open_free none e = IsOpenTo.free
  open_free (some ref) e = ground arith

  Chosen-first :
      {P : Server → Type 0} (l : List Server) (o : Option Server)
      → IsFirst P l o
      → ((s : Server) → P s → IsOpen claim s)
      → Chosen claim o
  Chosen-first l none f k = tt
  Chosen-first l (some s) f k = k s (IsFirst-holds s f refl)

  Chosen-if : (b : Bool) (s : Server) → IsOpen claim s → Chosen claim (if b then some s else none)
  Chosen-if true s o = o
  Chosen-if false s o = tt

  Chosen-best : (ss : List Server) → Chosen claim (first_best claim ss)
  Chosen-best ss = elim (first_best_lem claim ss) [
    | inl (s, own, e) ↦ rw e (open_own s.spec.server_claim_ref (IsFirst-holds s own refl))
    | inr (other, free) ↦
        Chosen-first ss (first_best claim ss) free
          (λ s f. open_free s.spec.server_claim_ref f.unclaimed)
  ]

pub unclaimed : {o : Option ObjectReference} → is_some o ≡ false → o ≡ none
unclaimed {o} h = ground arith

module _ (env : Env) (w : IsSoleBinder env) (claim : ServerClaim) where
  abbrev J : History → Type 0
  J = Steps (Respects (claim_reference claim))

  check_referenced-Keeps : (s : Server) → Keeps J (check_referenced env claim s) (Chosen claim)
  unfolding check_referenced match_selector is_foreign
  check_referenced-Keeps s =
      Keeps-if (is_foreign claim s) _ _ (λ _. Keeps-pure none tt)
        λ own.
          Keeps-if (is_unclaimable s) _ _ (λ _. Keeps-pure none tt)
            λ _.
              Keeps-if (is_not_off s) _ _ (λ _. Keeps-pure none tt)
                λ _.
                  Keeps-optional claim.spec.server_selector _ _
                    (Keeps-pure (some s) ((open_to claim _).0 own))
                    λ l _. Keeps-bind_any _ _ (Keeps-lift _ (λ _ _. tt)) λ sel. Keeps-pure _ (
                      Chosen-if claim (env.selector_matches sel s.metadata.labels) s
                        ((open_to claim _).0 own))

  pub select_server-Keeps : Keeps J (select_server env claim) (Chosen claim)
  unfolding select_server claim_server_by_reference claim_server_by_selector claim_first_best_server
  select_server-Keeps =
      Keeps-if (is_some claim.spec.server_ref) _ _
        (λ _. Keeps-optional _ _ _ (Keeps-raise _) λ ref _.
          Keeps-bind_any _ _ (Keeps-perform _ _ (λ h j. (tt, j)) (λ _ _ _. tt))
            check_referenced-Keeps)
        (λ _.
          Keeps-if (is_some claim.spec.server_selector) _ _
            (λ _. Keeps-optional _ _ _ (Keeps-raise _) λ l _.
              Keeps-bind_any _ _ (Keeps-lift _ (λ _ _. tt)) λ sel.
                Keeps-bind_any _ _ (Keeps-perform _ _ (λ h j. (tt, j)) (λ _ _ _. tt)) λ ss.
                  Keeps-pure _
                    (Chosen-first claim ss _ (first_matching_lem claim ss) (λ s c. c.open_to)))
            (λ _.
              Keeps-bind_any _ _ (Keeps-perform _ _ (λ h j. (tt, j)) (λ _ _ _. tt))
                λ ss. Keeps-pure _ (Chosen-best claim ss)))

  pub patch_server-Keeps :
      (base new : Server)
      → IsOpen claim base
      → IsOpenTo claim.metadata.uid new.spec.server_claim_ref
      → (new.spec.server_claim_ref ≡ base.spec.server_claim_ref)
        ⊎ (base.spec.server_claim_ref ≡ none)
          × (new.spec.server_claim_ref ≡ some (claim_reference claim))
      → Keeps J (patch_server env base new) (IsOpen claim)
  patch_server-Keeps base new o o' c =
      Keeps-perform _ _ (λ h j. ((o, c), j))
        (λ h s a. subst (IsOpenTo claim.metadata.uid) (sym (w.server base new h s a)) o')
