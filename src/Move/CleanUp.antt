-- ===== src/Move/CleanUp.antt =====
-- The clean-up after a failed move.
use metal_operator.Base.{◌≡◌, refl, ◌↔◌, Option, none, some, List, [], ◌∷◌, arith}
use metal_operator.Effects.{Err, Result, pure, attempt, perform, join_error, ◌>>=◌}
use metal_operator.Move.Cluster.{Cr, MoveCall, MoveHistory, Clusters}
use metal_operator.Move.Mover.{cleanup, delete_target}

-- The history after each resource was asked to be deleted, in order.
abbrev pub deletions : List Cr → MoveHistory → MoveHistory
deletions [] h = h
deletions (cr ∷ crs) h = deletions crs (MoveCall.delete_target cr ∷ h)

-- Each of these deletions succeeds.
abbrev pub AllDeleted : Clusters → List Cr → MoveHistory → Type 0
AllDeleted c [] h = Unit
AllDeleted c (cr ∷ crs) h =
    (c.delete_target cr h ≡ Result.ok tt) × AllDeleted c crs (MoveCall.delete_target cr ∷ h)

-- The errors after one deletion.
abbrev gathered : Option Err → Result (Unit {0}) → Option Err
gathered errors (Result.ok a) = errors
gathered errors (Result.err e) = some (join_error errors e)

gathered-none :
    (errors : Option Err) (r : Result (Unit {0}))
    → (gathered errors r ≡ none) ↔ (r ≡ Result.ok tt) × (errors ≡ none)
gathered-none errors (Result.ok a) = (λ e. (refl, e), λ (o, e). e)
gathered-none errors (Result.err x) = (λ e. absurd (ground arith), λ (o, e). absurd (ground arith))

-- The clean-up asks for the deletion of every resource it is given, in order, whichever deletions
-- fail, and always returns; it reports no error just where it began with none and every deletion
-- succeeded.
pub cleanup-deletions :
    (c : Clusters) (crs : List Cr) (errors : Option Err) (h : MoveHistory)
    → ((cleanup c crs errors h).1 ≡ deletions crs h)
      × (((cleanup c crs errors h).0 ≡ Result.ok none) ↔ AllDeleted c crs h × (errors ≡ none))
unfolding cleanup delete_target attempt perform pure ◌>>=◌ join_error
cleanup-deletions c [] errors h = (refl, (λ e. (tt, ground arith), λ (a, e). ground arith))
cleanup-deletions c (cr ∷ crs) errors h =
    let (history, known) =
      cleanup-deletions c crs (gathered errors (c.delete_target cr h))
        (MoveCall.delete_target cr ∷ h) in
    let (there, back) = gathered-none errors (c.delete_target cr h) in
    (
      history,
      (
        λ e. let (all, n) = known.0 e in let (ok, n') = there n in ((ok, all), n'),
        λ ((ok, all), n). known.1 (all, back (ok, n)),
      ),
    )
