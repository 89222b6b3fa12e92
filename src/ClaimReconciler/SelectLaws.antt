-- ===== src/ClaimReconciler/SelectLaws.antt =====
-- Which server the claim controller selects.
use metal_operator.Base.{
  String, ◌≡◌, refl, ◌↔◌, ◌⊎◌, inl, inr, Bool, true, false, not, ◌&&◌, ◌==◌, ◌!=◌, eq_iff,
  if◌then◌else◌, Option, none, some, is_some, List, [], ◌∷◌, arith,
}
use metal_operator.Api.Meta.{ObjectReference}
use metal_operator.Api.Server.{
  Server, ServerState, ServerPowerState, server_state_eq, power_state_eq,
}
use metal_operator.Api.Claim.{ServerClaim}
use metal_operator.ClaimReconciler.Select.{
  is_foreign, is_unclaimable, is_not_off, first_matching, is_own, check_for_prev_used_server,
  first_free, first_best,
}

-- The answer is the first element of the list with the property, or none where it has none.
pub data IsFirst {A : Type 0} (P : A → Type 0) : List A → Option A → Type 0 where
  empty : IsFirst P [] none
  here : {a : A} {l : List A} → P a → IsFirst P (a ∷ l) (some a)
  later : {a : A} {l : List A} {o : Option A} → ¬ P a → IsFirst P l o → IsFirst P (a ∷ l) o

-- No reference, or a reference with this UID.
pub data IsOpenTo (uid : String) : Option ObjectReference → Type 0 where
  free : IsOpenTo uid none
  held : {ref : ObjectReference} → ref.uid ≡ uid → IsOpenTo uid (some ref)

pub record IsClaimable (claim : ServerClaim) (s : Server) : Type 0 where
  pub open_to : IsOpenTo claim.metadata.uid s.spec.server_claim_ref
  pub state : (s.status.state ≡ ServerState.available) ⊎ (s.status.state ≡ ServerState.reserved)
  pub off : s.status.power_state ≡ ServerPowerState.off

claimable_state :
    (x : ServerState)
    → ((not (server_state_eq x ServerState.available)
          && not (server_state_eq x ServerState.reserved))
        ≡ false)
      ↔ (x ≡ ServerState.available) ⊎ (x ≡ ServerState.reserved)
unfolding server_state_eq
claimable_state x = ground arith

state_is :
    (x : ServerState)
    → (not (server_state_eq x ServerState.available) ≡ false) ↔ (x ≡ ServerState.available)
unfolding server_state_eq
state_is x = ground arith

power_state_is :
    (x : ServerPowerState)
    → (not (power_state_eq x ServerPowerState.off) ≡ false) ↔ (x ≡ ServerPowerState.off)
unfolding power_state_eq
power_state_is x = ground arith

pub open_to :
    (claim : ServerClaim) (o : Option ObjectReference)
    → ((elim o [ none ↦ false | some ref ↦ ref.uid != claim.metadata.uid ]) ≡ false)
      ↔ IsOpenTo claim.metadata.uid o
open_to claim none = (λ _. IsOpenTo.free, λ _. refl)
open_to claim (some ref) = (
  λ h. IsOpenTo.held (ground (arith, eq_iff ref.uid claim.metadata.uid)),
  λ h. held_uid claim ref h,
)
  where
    held_uid :
        (claim : ServerClaim) (ref : ObjectReference)
        → IsOpenTo claim.metadata.uid (some ref)
        → (ref.uid != claim.metadata.uid) ≡ false
    held_uid claim ref (IsOpenTo.held e) = ground (arith, eq_iff ref.uid claim.metadata.uid)

module _ (claim : ServerClaim) where
  pub IsClaimable-iff :
      (s : Server)
      → (is_foreign claim s ≡ false) × (is_unclaimable s ≡ false) × (is_not_off s ≡ false)
        ↔ IsClaimable claim s
  unfolding is_foreign is_unclaimable is_not_off
  IsClaimable-iff s = (
    λ (f, u, o). record {
      open_to = (open_to claim s.spec.server_claim_ref).0 f;
      state = (claimable_state s.status.state).0 u;
      off = (power_state_is s.status.power_state).0 o;
    },
    λ h. (
      (open_to claim s.spec.server_claim_ref).1 h.open_to,
      (claimable_state s.status.state).1 h.state,
      (power_state_is s.status.power_state).1 h.off,
    ),
  )

  -- What the three guards of a loop leave.
  guarded :
      (s : Server) (ss : List Server) (o : Option Server) (f u d : Bool)
      → (f ≡ false) × (u ≡ false) × (d ≡ false) ↔ IsClaimable claim s
      → IsFirst (IsClaimable claim) ss o
      → IsFirst
          (IsClaimable claim)
          (s ∷ ss)
          (if f then o else if u then o else if d then o else some s)
  guarded s ss o true u d e h = IsFirst.later (λ c. ground (arith, e.1 c)) h
  guarded s ss o false true d e h = IsFirst.later (λ c. ground (arith, e.1 c)) h
  guarded s ss o false false true e h = IsFirst.later (λ c. ground (arith, e.1 c)) h
  guarded s ss o false false false e h = IsFirst.here (e.0 (refl, refl, refl))

  -- The loop of claimServerBySelector returns the first server of the list that is claimable:
  -- without a reference to a claim or with the UID of this claim in it, in the state Available or
  -- Reserved, and powered off; a Reserved server without a reference is claimable, too. It returns none
  -- exactly where no server of the list is.
  pub first_matching_lem :
      (ss : List Server) → IsFirst (IsClaimable claim) ss (first_matching claim ss)
  unfolding first_matching
  first_matching_lem [] = IsFirst.empty
  first_matching_lem (s ∷ ss) =
      guarded s ss (first_matching claim ss) (is_foreign claim s) (is_unclaimable s) (is_not_off s)
        (IsClaimable-iff s) (first_matching_lem ss)

-- The server carries a reference to this very claim: its UID, its name and its namespace.
pub data IsHeldBy (claim : ServerClaim) : Option ObjectReference → Type 0 where
  held :
      {ref : ObjectReference}
      → ref.uid ≡ claim.metadata.uid
      → ref.name ≡ claim.metadata.name
      → ref.namespace ≡ claim.metadata.namespace
      → IsHeldBy claim (some ref)

abbrev pub IsOwn : ServerClaim → Server → Type 0
IsOwn claim s = IsHeldBy claim s.spec.server_claim_ref

pub record IsFree (s : Server) : Type 0 where
  pub unclaimed : s.spec.server_claim_ref ≡ none
  pub available : s.status.state ≡ ServerState.available

module _ (claim : ServerClaim) where
  held_by :
      (o : Option ObjectReference)
      → ((elim o [
        | none ↦ false
        | some ref ↦
            ref.uid == claim.metadata.uid
            && ref.name == claim.metadata.name
            && ref.namespace == claim.metadata.namespace
      ])
          ≡ true)
        ↔ IsHeldBy claim o
  held_by none = (λ h. ground arith, λ h. not_held h)
    where
      not_held : IsHeldBy claim none → false ≡ true
      not_held h = elim h [ ]
  held_by (some ref) = (
    λ h.
        IsHeldBy.held (ground (arith, eq_iff ref.uid claim.metadata.uid))
          (ground (arith, eq_iff ref.name claim.metadata.name))
          (ground (arith, eq_iff ref.namespace claim.metadata.namespace)),
    λ h. back h,
  )
    where
      back :
          IsHeldBy claim (some ref)
          → (ref.uid == claim.metadata.uid
              && ref.name == claim.metadata.name
              && ref.namespace == claim.metadata.namespace)
            ≡ true
      back (IsHeldBy.held u n ns) = ground (
        arith,
        eq_iff ref.uid claim.metadata.uid,
        eq_iff ref.name claim.metadata.name,
        eq_iff ref.namespace claim.metadata.namespace,
      )

  IsOwn-iff : (s : Server) → (is_own claim s ≡ true) ↔ IsOwn claim s
  unfolding is_own
  IsOwn-iff s = held_by s.spec.server_claim_ref

  chosen :
      {P : Server → Type 0} (s : Server) (ss : List Server) (o : Option Server) (b : Bool)
      → (b ≡ true) ↔ P s
      → IsFirst P ss o
      → IsFirst P (s ∷ ss) (if b then some s else o)
  chosen s ss o true e h = IsFirst.here (e.0 refl)
  chosen s ss o false e h = IsFirst.later (λ p. ground (arith, e.1 p)) h

  pub check_for_prev_used_server_lem :
      (ss : List Server) → IsFirst (IsOwn claim) ss (check_for_prev_used_server ss claim)
  unfolding check_for_prev_used_server
  check_for_prev_used_server_lem [] = IsFirst.empty
  check_for_prev_used_server_lem (s ∷ ss) =
      chosen s ss (check_for_prev_used_server ss claim) (is_own claim s) (IsOwn-iff s)
        (check_for_prev_used_server_lem ss)

unclaimed_iff : (o : Option ObjectReference) → (is_some o ≡ false) ↔ (o ≡ none)
unclaimed_iff o = ground arith

open_server :
    (s : Server) (ss : List Server) (o : Option Server) (c d : Bool)
    → (c ≡ false) ↔ (s.spec.server_claim_ref ≡ none)
    → (d ≡ false) ↔ (s.status.state ≡ ServerState.available)
    → IsFirst IsFree ss o
    → IsFirst IsFree (s ∷ ss) (if c then o else if d then o else some s)
open_server s ss o true d e g h = IsFirst.later (λ f. ground (arith, e.1 f.unclaimed)) h
open_server s ss o false true e g h = IsFirst.later (λ f. ground (arith, g.1 f.available)) h
open_server s ss o false false e g h =
    IsFirst.here (record { unclaimed = e.0 refl; available = g.0 refl })

first_free_lem : (ss : List Server) → IsFirst IsFree ss (first_free ss)
unfolding first_free
first_free_lem [] = IsFirst.empty
first_free_lem (s ∷ ss) =
    open_server s ss (first_free ss) (is_some s.spec.server_claim_ref)
      (not (server_state_eq s.status.state ServerState.available))
      (unclaimed_iff s.spec.server_claim_ref) (state_is s.status.state) (first_free_lem ss)

-- From the list of all servers, claimFirstBestServer picks the first one that carries a reference
-- to this very claim; where none does, the first one without a reference to a claim and in the
-- state Available; where there is none either, it picks none.
pub first_best_lem :
    (claim : ServerClaim) (ss : List Server)
    → ((s : Server) × IsFirst (IsOwn claim) ss (some s) × (first_best claim ss ≡ some s))
      ⊎ IsFirst (IsOwn claim) ss none × IsFirst IsFree ss (first_best claim ss)
unfolding first_best
first_best_lem claim ss =
    go (check_for_prev_used_server ss claim) (check_for_prev_used_server_lem claim ss)
  where
    go :
        (o : Option Server)
        → IsFirst (IsOwn claim) ss o
        → ((s : Server) × IsFirst (IsOwn claim) ss (some s)
            × ((elim o [ none ↦ first_free ss | some s ↦ some s ]) ≡ some s))
          ⊎ IsFirst (IsOwn claim) ss none
            × IsFirst IsFree ss (elim o [ none ↦ first_free ss | some s ↦ some s ])
    go none h = inr (h, first_free_lem ss)
    go (some s) h = inl (s, h, refl)
