-- ===== src/Move/Safety.antt =====
-- What Move writes to the target cluster.
use mathlib.Core.Path.{subst}
use metal_operator.Base.{
  ◌≡◌, refl, String, Bool, true, false, Option, none, some, List, [], ◌∷◌, ◌++◌, All, arith,
  if◌then◌else◌,
}
use metal_operator.Effects.{
  Err, Result, is_not_found, pure, raise, lift, attempt, join_error, ◌>>=◌, ◌>>◌,
}
use metal_operator.Effects.Keeps.{
  Keeps, Steps, Anything, IfOk, Keeps-pure, Keeps-raise, Keeps-lift, Keeps-perform, Keeps-bind,
  Keeps-then, Keeps-attempt, Keeps-if, Keeps-optional,
}
use metal_operator.Effects.Rules.{Keeps-bind_any, Keeps-attempt_any}
use metal_operator.Effects.Polling.{Poller, Keeps-poll}
use metal_operator.Move.Cluster.{Cr, MoveCall, MoveHistory, MoveProgram, Clusters}
use metal_operator.Move.Trees.{Node, Nodes, crs_owner_reference_trees}
use metal_operator.Move.TreeLaws.{AllNodes, crs_owner_reference_trees-All}
use metal_operator.Move.LinkLaws.{Under, Placed, crs_owner_reference_trees-Under}
use metal_operator.Move.Mover.{
  new_owners, to_create, get_target, create_target, update_status, delete_target, copy_status,
  create_level, move_below, with_children, unless_failed, move_children, move_crs, cleanup,
  clean_up_after, move, poll_interval, poll_timeout,
}
use metal_operator.Move.Copies.{
  IsMissing, IsCreated, IsMoved, IsTargetUid, CopiedOwners, IsSafe, ran, IsAnswer, lists, asks,
  finds,
}

All-append : (P : Cr → Type 0) (a b : List Cr) → All P a → All P b → All P (a ++ b)
All-append P [] b p q = q
All-append P (x ∷ a) b (p, ps) q = (p, All-append P a b ps q)

some_injective : {A : Type 0} {a b : A} → some a ≡ some b → a ≡ b
some_injective e = cc

module _ (c : Clusters) (kinds : List String) (namespace : String) (crs : List Cr)
    (chosen : IsMoved c kinds namespace crs) where
  abbrev K : MoveHistory → Type 0
  K = Steps (IsSafe c kinds namespace false)

  -- The owner that a level is created with, below a parent.
  abbrev IsGiven : Option Cr → Option String → Type 0
  IsGiven none none = Unit
  IsGiven (some parent) (some uid) = IsMissing c parent × IsTargetUid c parent uid
  IsGiven _ _ = ⊥

  copied :
      (parent : Option Cr) (owner : Option String) (source : Cr)
      → IsGiven parent owner
      → Placed crs parent source
      → CopiedOwners c crs source (to_create owner source).owner_uids
  unfolding to_create new_owners
  copied none none source g p =
      subst (CopiedOwners c crs source) (unchanged source.owner_uids) (CopiedOwners.of_root p)
    where
      unchanged : (l : List String) → l ≡ new_owners l none
      unchanged [] = refl
      unchanged (x ∷ []) = refl
      unchanged (x ∷ y ∷ l) = refl
  copied (some parent) (some uid) source (m, t) p = go source.owner_uids refl
    where
      go :
          (l : List String)
          → source.owner_uids ≡ l
          → CopiedOwners c crs source (new_owners l (some uid))
      go [] e =
          subst (CopiedOwners c crs source) e
            (CopiedOwners.of_several parent p (λ old q. ground arith))
      go (old ∷ []) e = CopiedOwners.replaced parent old uid p e m t
      go (x ∷ y ∷ l) e =
          subst (CopiedOwners c crs source) e
            (CopiedOwners.of_several parent p (λ old q. ground arith))
  copied none (some uid) source g p = absurd g
  copied (some parent) none source g p = absurd g

  abbrev AllCreated : List Cr × Option Err → Type 0
  AllCreated x = All (IsCreated c) x.0

  creates_one :
      (parent : Option Cr) (owner : Option String) (cr : Cr)
      → IsGiven parent owner
      → Placed crs parent cr
      → IsMissing c cr
      → Keeps K (attempt (create_target c (to_create owner cr))) (IfOk (IsCreated c))
  unfolding create_target to_create
  creates_one parent owner cr g p m = Keeps-attempt _ (
      Keeps-perform _ _
        (λ h j. ((refl, (cr, crs, _, m, chosen, copied parent owner cr g p, refl)), j))
        (λ h a e. (_, h, e)))

  creates :
      (trees : Nodes) (parent : Option Cr) (owner : Option String) (moved : List Cr)
      → IsGiven parent owner
      → Under (Placed crs) parent trees
      → AllNodes (IsMissing c) trees
      → All (IsCreated c) moved
      → Keeps K (create_level c trees owner moved) AllCreated
  unfolding create_level
  creates Nodes.nil parent owner moved g u m p = Keeps-pure (moved, none) p
  creates (Nodes.cons (Node.node cr children) trees) parent owner moved g ((u, v), us)
        ((m, below), ms) p =
      Keeps-bind _ _ (creates_one parent owner cr g u m) λ r k. go r k (λ x i.
        creates trees parent owner (moved ++ x ∷ []) g us ms
          (All-append (IsCreated c) moved (x ∷ []) p (i, tt)))
    where
      go :
          (r : Result Cr)
          → IfOk (IsCreated c) r
          → ((x : Cr)
              → IsCreated c x
              → Keeps K (create_level c trees owner (moved ++ x ∷ [])) AllCreated)
          → Keeps K
              (elim r [
                | Result.err e ↦
                    pure
                      (moved, some (Err.wrapped "CR couldn't be created in the target cluster" e))
                | Result.ok created ↦ create_level c trees owner (moved ++ created ∷ [])
              ])
              AllCreated
      go (Result.ok x) i next = next x i
      go (Result.err e) i next = Keeps-pure _ p

  asks_again : (cr : Cr) → Keeps K (attempt (get_target c cr)) (IsAnswer c kinds namespace false cr)
  asks_again cr = asks c kinds namespace false cr

  copies : (source target : Cr) → Keeps K (copy_status c source target) Anything
  unfolding copy_status update_status
  copies source target = Keeps-bind_any (lift source.status) _ (Keeps-lift _ (λ a e. tt)) λ found.
      Keeps-optional found _ _ (Keeps-pure tt tt)
        (λ status _. Keeps-perform _ _ (λ h j. (refl, j)) (λ h a e. tt))

  moves_below :
      (cr : Cr) (m : String → MoveProgram (List Cr × Option Err))
      → ((uid : String) → IsTargetUid c cr uid → Keeps K (m uid) AllCreated)
      → Keeps K (move_below c cr m) (λ o. (a : List Cr × Option Err) → o ≡ some a → AllCreated a)
  unfolding move_below
  moves_below cr m k = Keeps-bind _ _ (asks_again cr) go
    where
      go :
          (r : Result Cr)
          → IsAnswer c kinds namespace false cr r
          → Keeps K
              (elim r [
                | Result.err e ↦ if is_not_found e then pure none else raise e
                | Result.ok target ↦
                    copy_status c cr target >> (m target.uid >>= λ moved. pure (some moved))
              ])
              (λ o. (a : List Cr × Option Err) → o ≡ some a → AllCreated a)
      go (Result.ok target) (h, a) = Keeps-then _ _ (copies cr target) (
          Keeps-bind _ _ (k target.uid (target, h, a, refl))
            (λ x p. Keeps-pure (some x) (λ a e. subst AllCreated (some_injective e) p)))
      go (Result.err e) a =
          Keeps-if _ _ _ (λ _. Keeps-pure none (λ a n. absurd (ground arith))) (λ _. Keeps-raise e)

  with_children-AllCreated :
      (moved : List Cr) (r : Result (List Cr × Option Err))
      → All (IsCreated c) moved
      → IfOk AllCreated r
      → AllCreated (with_children moved r)
  unfolding with_children
  with_children-AllCreated moved (Result.ok (x, e)) p i = All-append (IsCreated c) moved x p i
  with_children-AllCreated moved (Result.err e) p i = p

  deletes : (cr : Cr) → IsCreated c cr → Keeps K (attempt (delete_target c cr)) Anything
  unfolding delete_target
  deletes cr p = Keeps-attempt_any _ (
      Keeps-perform (MoveCall.delete_target cr) (c.delete_target cr) (λ h j. ((refl, p), j))
        (λ h a e. tt))

  cleans :
      (crs : List Cr) (errors : Option Err)
      → All (IsCreated c) crs
      → Keeps K (cleanup c crs errors) Anything
  unfolding cleanup
  cleans [] errors p = Keeps-pure errors tt
  cleans (cr ∷ crs) errors (p, ps) =
      Keeps-bind_any (attempt (delete_target c cr)) _ (deletes cr p) (λ r.
        cleans crs (elim r [ Result.ok a ↦ errors | Result.err e ↦ some (join_error errors e) ]) ps)

  cleans_up :
      (moved : List Cr) (e : Err)
      → All (IsCreated c) moved
      → Keeps K (clean_up_after c moved e) Anything
  unfolding clean_up_after
  cleans_up moved e p = Keeps-bind_any _ _ (cleans moved none p) (λ r. Keeps-raise _)

  unless_failed-AllCreated :
      (x : List Cr × Option Err) (k : List Cr → MoveProgram (List Cr × Option Err))
      → AllCreated x
      → ((moved : List Cr) → All (IsCreated c) moved → Keeps K (k moved) AllCreated)
      → Keeps K (unless_failed x k) AllCreated
  unfolding unless_failed
  unless_failed-AllCreated (moved, error) k p next =
      Keeps-optional error _ _ (next moved p) (λ e _. Keeps-pure _ p)

  module _ (poller : Poller MoveCall) where
    moves :
        (trees : Nodes) (parent : Option Cr) (moved : List Cr)
        → Under (Placed crs) parent trees
        → AllNodes (IsMissing c) trees
        → All (IsCreated c) moved
        → Keeps K (move_children c poller trees moved) AllCreated
    unfolding move_children
    moves Nodes.nil parent moved u m p = Keeps-pure (moved, none) p
    moves (Nodes.cons (Node.node cr children) trees) parent moved ((u, v), us) ((m, below), ms) p =
        Keeps-bind _ _
          (Keeps-attempt _ (
            Keeps-poll _
              (moves_below cr _ λ uid t.
                Keeps-bind (create_level c children (some uid) []) _
                  (creates children (some cr) (some uid) [] (m, t) v below tt)
                  λ x i.
                    unless_failed-AllCreated x (move_children c poller children) i
                      (λ created k. moves children (some cr) created v below k))
              poller poll_interval poll_timeout))
          λ r i.
            unless_failed-AllCreated (with_children moved r) (move_children c poller trees)
              (with_children-AllCreated moved r p i) (λ moved' k. moves trees parent moved' us ms k)

    moves_all :
        (trees : Nodes)
        → Under (Placed crs) none trees
        → AllNodes (IsMissing c) trees
        → Keeps K (move_crs c poller trees none) AllCreated
    unfolding move_crs
    moves_all trees u m =
        Keeps-bind (create_level c trees none []) _ (creates trees none none [] tt u m tt) λ x i.
          unless_failed-AllCreated x (move_children c poller trees) i
            (λ created k. moves trees none created u m k)

-- Move creates nothing in the target cluster but copies of resources that the cluster answered it
-- does not have, each with no resource version. A copy has the owners of its source, except where
-- the only owner of the source is a moved resource itself: then it has as owner the UID that the
-- target cluster answered for that resource. Move deletes nothing there but what the cluster
-- answered to a creation, and a dry run writes nothing at all.
pub move-IsSafe :
    (c : Clusters) (poller : Poller MoveCall) (kinds : List String) (namespace : String)
    (dry_run : Bool)
    → Keeps
        (Steps (IsSafe c kinds namespace dry_run))
        (move c poller kinds namespace dry_run)
        Anything
unfolding move
move-IsSafe c poller kinds namespace true =
    Keeps-bind_any _ _ (lists c kinds namespace true kinds namespace) λ sources.
      Keeps-bind _ _ (finds c kinds namespace true sources) (λ to_move m. Keeps-pure tt tt)
move-IsSafe c poller kinds namespace false =
    Keeps-bind _ _ (ran _ (lists c kinds namespace false kinds namespace)) λ sources (_, listed).
      Keeps-bind _ _ (ran _ (finds c kinds namespace false sources)) λ to_move (m, found).
        Keeps-bind _ _
          (moves_all c kinds namespace to_move (sources, listed, found) poller
            (crs_owner_reference_trees to_move) (crs_owner_reference_trees-Under to_move)
            (crs_owner_reference_trees-All (IsMissing c) to_move m))
          λ (moved, error) p.
            Keeps-optional error _ _ (Keeps-pure tt tt)
              (λ e _. cleans_up c kinds namespace to_move (sources, listed, found) moved e p)
