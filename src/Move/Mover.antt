-- ===== src/Move/Mover.antt =====
-- cmdutils/move.go: what is moved, the creation of a forest level by level, and the clean-up.
use metal_operator.Base.{
  ℕ, String, ◌<>◌, Bool, true, false, Option, none, some, List, [], ◌∷◌, ◌++◌, if◌then◌else◌,
}
use metal_operator.Effects.{
  Err, Result, pure, raise, ◌>>=◌, ◌>>◌, perform, wrap, attempt, lift, optional, join_error,
  is_not_found,
}
use metal_operator.Effects.Polling.{Poller}
use metal_operator.Move.Cluster.{Cr, MoveCall, MoveProgram, Clusters}
use metal_operator.Move.Trees.{Node, Nodes, crs_owner_reference_trees}

-- In milliseconds.
abbrev pub poll_interval : ℕ
poll_interval = 100

abbrev pub poll_timeout : ℕ
poll_timeout = 30000

-- `len(ownerReferences) == 1 && len(ownerUid) == 1`
unfoldable pub new_owners : List String → Option String → List String
new_owners (old ∷ []) (some uid) = uid ∷ []
new_owners owners uid = owners

-- The copy that is created.
unfoldable pub to_create : Option String → Cr → Cr
unfolding new_owners
to_create owner cr = record cr {
  owner_uids = new_owners cr.owner_uids owner;
  resource_version = "";
}

-- `movedCrs = slices.Concat(movedCrs, movedChildrenCrs)`, on what polling returned
unfoldable pub with_children : List Cr → Result (List Cr × Option Err) → List Cr × Option Err
with_children moved (Result.ok (children, error)) = (moved ++ children, error)
with_children moved (Result.err e) = (moved, some e)

-- `if err != nil { return movedCrs, err }`
unfoldable pub unless_failed :
    List Cr × Option Err
    → (List Cr → MoveProgram (List Cr × Option Err))
    → MoveProgram (List Cr × Option Err)
unfolding pure optional
unless_failed (moved, error) k = optional error (k moved) (λ e. pure (moved, some e))

module _ (c : Clusters) where
  unfoldable pub get_crs : List String → String → MoveProgram (List Cr)
  unfolding pure wrap perform ◌>>=◌
  get_crs [] namespace = pure []
  get_crs (kind ∷ kinds) namespace = do
    crs ←
        wrap "couldn't list CRs"
          (perform (MoveCall.list_source kind namespace) (c.list_source kind namespace))
    rest ← get_crs kinds namespace
    pure (crs ++ rest)

  unfoldable pub get_target : Cr → MoveProgram Cr
  unfolding perform
  get_target cr = perform (MoveCall.get_target cr) (c.get_target cr)

  -- What becomes of a resource, from the answer of the target cluster: whether it is moved.
  unfoldable pub compare_with_target : Cr → Result Cr → Result Bool
  unfolding is_not_found
  compare_with_target cr (Result.ok target) =
      if c.same_cleared cr target
      then Result.ok false
      else Result.err (
          Err.failed (
            "a CR "
            <> (cr.namespace
                <> ("/"
                    <> (cr.name
                        <> " already exists in the target cluster and is different then in the source cluster")))))
  compare_with_target cr (Result.err e) =
      if is_not_found e
      then Result.ok true
      else Result.err (Err.wrapped "failed to check CR existence in the target cluster" e)

  unfoldable pub get_crs_to_be_moved : List Cr → MoveProgram (List Cr)
  unfolding pure attempt get_target lift compare_with_target ◌>>=◌
  get_crs_to_be_moved [] = pure []
  get_crs_to_be_moved (cr ∷ crs) = do
    answer ← attempt (get_target cr)
    moved ← lift (compare_with_target cr answer)
    rest ← get_crs_to_be_moved crs
    pure (if moved then cr ∷ rest else rest)

  unfoldable pub create_target : Cr → MoveProgram Cr
  unfolding perform
  create_target cr = perform (MoveCall.create_target cr) (c.create_target cr)

  unfoldable pub update_status : Cr → MoveProgram (Unit {0})
  unfolding perform
  update_status cr = perform (MoveCall.update_status_target cr) (c.update_status_target cr)

  unfoldable pub delete_target : Cr → MoveProgram (Unit {0})
  unfolding perform
  delete_target cr = perform (MoveCall.delete_target cr) (c.delete_target cr)

  unfoldable pub copy_status : Cr → Cr → MoveProgram (Unit {0})
  unfolding lift optional pure update_status ◌>>=◌
  copy_status source target = do
    found ← lift source.status
    optional found (pure tt)
        (λ status. update_status (record target { status = Result.ok (some status) }))

  -- The first loop of moveCrs. It returns what was created, and the error that ended it.
  unfoldable pub create_level : Nodes → Option String → List Cr → MoveProgram (List Cr × Option Err)
  unfolding pure attempt create_target to_create ◌>>=◌
  create_level Nodes.nil owner moved = pure (moved, none)
  create_level (Nodes.cons (Node.node cr children) trees) owner moved = do
    answer ← attempt (create_target (to_create owner cr))
    elim answer [
      | Result.err e ↦
          pure (moved, some (Err.wrapped "CR couldn't be created in the target cluster" e))
      | Result.ok created ↦ create_level trees owner (moved ++ created ∷ [])
    ]

  -- The condition of the poll in the second loop. `move` moves the children, and what it returned
  -- goes on, with its error, as the code's `return true, err` does.
  unfoldable pub move_below :
      Cr
      → (String → MoveProgram (List Cr × Option Err))
      → MoveProgram (Option (List Cr × Option Err))
  unfolding attempt get_target is_not_found copy_status raise pure ◌>>=◌ ◌>>◌
  move_below cr move = do
    answer ← attempt (get_target cr)
    elim answer [
      | Result.err e ↦ if is_not_found e then pure none else raise e
      | Result.ok target ↦ copy_status cr target >> (move target.uid >>= λ moved. pure (some moved))
    ]

  -- The errors joined, none for nil.
  unfoldable pub cleanup : List Cr → Option Err → MoveProgram (Option Err)
  unfolding pure attempt delete_target join_error ◌>>=◌
  cleanup [] errors = pure errors
  cleanup (cr ∷ crs) errors = do
    answer ← attempt (delete_target cr)
    cleanup crs (elim answer [ Result.ok a ↦ errors | Result.err e ↦ some (join_error errors e) ])

  -- What Move does after a failure: the clean-up, whose result the error names.
  unfoldable pub clean_up_after : List Cr → Err → MoveProgram (Unit {0})
  unfolding cleanup raise join_error ◌>>=◌
  clean_up_after moved e = do
    result ← cleanup moved none
    raise (
        Err.joined e (elim result [
          | none ↦
              Err.failed
                "clean up of CRs was performed to restore a target cluster's state with error result"
          | some x ↦
              Err.wrapped
                "clean up of CRs was performed to restore a target cluster's state with error result"
                x
        ]))

  module _ (poller : Poller MoveCall) where
    -- The second loop of moveCrs; for the children of a node, moveCrs again: both loops.
    unfoldable pub move_children : Nodes → List Cr → MoveProgram (List Cr × Option Err)
    unfolding pure attempt create_level move_below with_children unless_failed ◌>>=◌
    move_children Nodes.nil moved = pure (moved, none)
    move_children (Nodes.cons (Node.node cr children) trees) moved = do
      answer ← attempt (
          poller.poll poll_interval poll_timeout (
            move_below cr λ uid. create_level children (some uid) [] >>= λ created.
            unless_failed created (move_children children)))
      unless_failed (with_children moved answer) (move_children trees)

    -- moveCrs, from the roots.
    unfoldable pub move_crs : Nodes → Option String → MoveProgram (List Cr × Option Err)
    unfolding create_level move_children unless_failed ◌>>=◌
    move_crs trees owner = do
      created ← create_level trees owner []
      unless_failed created (move_children trees)

    unfoldable pub move : List String → String → Bool → MoveProgram (Unit {0})
    unfolding get_crs get_crs_to_be_moved crs_owner_reference_trees move_crs clean_up_after optional
        pure ◌>>=◌
    move kinds namespace dry_run = do
      sources ← get_crs kinds namespace
      to_move ← get_crs_to_be_moved sources
      if dry_run
          then pure tt
          else (move_crs (crs_owner_reference_trees to_move) none >>= λ (moved, error).
              optional error (pure tt) (clean_up_after moved))
