-- ===== src/ClaimReconciler/Select.antt =====
-- Which server a claim gets: claimServerByReference, claimServerBySelector,
-- checkForPrevUsedServer and claimFirstBestServer of
-- internal/controller/serverclaim_controller.go.
use metal_operator.Base.{
  Bool, false, not, ◌&&◌, ◌==◌, ◌!=◌, if◌then◌else◌, Option, none, some, is_some, List, [], ◌∷◌,
}
use metal_operator.Api.Server.{
  Server, ServerState, ServerPowerState, server_state_eq, power_state_eq,
}
use metal_operator.Api.Claim.{ServerClaim}
use metal_operator.Effects.{M, pure, raise, lift, optional, ◌>>=◌, Err}
use metal_operator.Effects.Env.{Env}
use metal_operator.Client.{get_server, list_servers}

-- `claimRef := server.Spec.ServerClaimRef; claimRef != nil && claimRef.UID != claim.UID`
unfoldable pub is_foreign : ServerClaim → Server → Bool
is_foreign claim s = elim s.spec.server_claim_ref [
  | none ↦ false
  | some ref ↦ ref.uid != claim.metadata.uid
]

-- `server.Status.State != Available && server.Status.State != Reserved`
unfoldable pub is_unclaimable : Server → Bool
is_unclaimable s =
    not (server_state_eq s.status.state ServerState.available)
    && not (server_state_eq s.status.state ServerState.reserved)

unfoldable pub is_not_off : Server → Bool
is_not_off s = not (power_state_eq s.status.power_state ServerPowerState.off)

-- The loop of claimServerBySelector.
unfoldable pub first_matching : ServerClaim → List Server → Option Server
unfolding is_foreign is_unclaimable is_not_off
first_matching claim [] = none
first_matching claim (s ∷ ss) =
    let rest = first_matching claim ss in
    if is_foreign claim s
    then rest
    else if is_unclaimable s
    then rest
    else if is_not_off s
    then rest
    else some s

-- Whether a server carries a reference to this very claim.
unfoldable pub is_own : ServerClaim → Server → Bool
is_own claim s = elim s.spec.server_claim_ref [
  | none ↦ false
  | some ref ↦
      ref.uid == claim.metadata.uid
      && ref.name == claim.metadata.name
      && ref.namespace == claim.metadata.namespace
]

unfoldable pub check_for_prev_used_server : List Server → ServerClaim → Option Server
unfolding is_own
check_for_prev_used_server [] claim = none
check_for_prev_used_server (s ∷ ss) claim =
    let rest = check_for_prev_used_server ss claim in if is_own claim s then some s else rest

-- The loop of claimFirstBestServer.
unfoldable pub first_free : List Server → Option Server
first_free [] = none
first_free (s ∷ ss) =
    let rest = first_free ss in
    if is_some s.spec.server_claim_ref
    then rest
    else if not (server_state_eq s.status.state ServerState.available)
    then rest
    else some s

-- What claimFirstBestServer picks from the list of all servers.
unfoldable pub first_best : ServerClaim → List Server → Option Server
unfolding check_for_prev_used_server first_free
first_best claim ss = elim (check_for_prev_used_server ss claim) [
  | none ↦ first_free ss
  | some s ↦ some s
]

module _ (env : Env) where
  -- The end of claimServerByReference.
  unfoldable pub match_selector : ServerClaim → Server → M (Option Server)
  match_selector claim s = optional claim.spec.server_selector (pure (some s)) λ selector.
      lift (env.label_selector_as_selector selector) >>= λ sel.
      pure (if env.selector_matches sel s.metadata.labels then some s else none)

  -- Once the server of the reference is fetched.
  unfoldable pub check_referenced : ServerClaim → Server → M (Option Server)
  unfolding is_foreign is_unclaimable is_not_off match_selector
  check_referenced claim s =
      if is_foreign claim s
      then pure none
      else if is_unclaimable s
      then pure none
      else if is_not_off s
      then pure none
      else match_selector claim s

  unfoldable pub claim_server_by_reference : ServerClaim → M (Option Server)
  unfolding check_referenced
  claim_server_by_reference claim =
      optional claim.spec.server_ref (raise (Err.panic "nil pointer dereference"))
        λ ref. get_server env ref.name >>= check_referenced claim

  unfoldable pub claim_server_by_selector : ServerClaim → M (Option Server)
  unfolding first_matching
  claim_server_by_selector claim =
      optional claim.spec.server_selector (raise (Err.panic "nil pointer dereference")) λ selector.
        lift (env.label_selector_as_selector selector) >>= λ sel.
        list_servers env (some sel) >>= λ servers. pure (first_matching claim servers)

  unfoldable pub claim_first_best_server : ServerClaim → M (Option Server)
  unfolding first_best
  claim_first_best_server claim =
      list_servers env none >>= λ servers. pure (first_best claim servers)
