-- ===== src/Move/Copies.antt =====
-- What Move may write, and the selection of what is moved.
use metal_operator.Base.{
  ◌≡◌, ◌≢◌, refl, String, Bool, true, false, none, some, List, [], ◌∷◌, All, arith, if◌then◌else◌,
}
use metal_operator.Effects.{Err, Result, is_not_found, pure, attempt, perform}
use metal_operator.Effects.Keeps.{
  Keeps, Kept, Steps, Anything, Keeps-pure, Keeps-lift, Keeps-perform, Keeps-wrap, Keeps-bind,
}
use metal_operator.Effects.Rules.{Keeps-bind_any}
use metal_operator.Move.Cluster.{Cr, MoveCall, MoveHistory, MoveProgram, Clusters}
use metal_operator.Move.LinkLaws.{Placed}
use metal_operator.Move.Mover.{get_crs, get_target, compare_with_target, get_crs_to_be_moved}

-- The target cluster answered that the resource is not there.
abbrev pub IsMissing : Clusters → Cr → Type 0
IsMissing c cr =
    (h : MoveHistory) × (e : Err) × (c.get_target cr h ≡ Result.err e) × (is_not_found e ≡ true)

-- The resource is what the target cluster answered to a creation.
abbrev pub IsCreated : Clusters → Cr → Type 0
IsCreated c cr = (x : Cr) × (h : MoveHistory) × (c.create_target x h ≡ Result.ok cr)

-- The resources that are moved: those that the selection returned for what the source cluster
-- listed.
abbrev pub IsMoved : Clusters → List String → String → List Cr → Type 0
IsMoved c kinds namespace crs =
    (sources : List Cr) × ((h : MoveHistory) × (h' : MoveHistory) × (get_crs c kinds namespace h
        ≡ (Result.ok sources, h')))
    × ((h : MoveHistory) × (h' : MoveHistory) × (get_crs_to_be_moved c sources h
          ≡ (Result.ok crs, h')))

-- The UID is the one that the target cluster answered for this resource.
abbrev pub IsTargetUid : Clusters → Cr → String → Type 0
IsTargetUid c cr uid =
    (target : Cr) × (h : MoveHistory) × (c.get_target cr h ≡ Result.ok target) × (uid ≡ target.uid)

-- The owners of a copy. Where no moved resource is the first owner, they are those of the source.
-- Where one is, and is the only owner, it is replaced by its copy in the target cluster, and several
-- owners are kept.
pub data CopiedOwners (c : Clusters) (crs : List Cr) (source : Cr) : List String → Type 0 where
  of_root : Placed crs none source → CopiedOwners c crs source source.owner_uids
  replaced :
      (parent : Cr) (old uid : String)
      → Placed crs (some parent) source
      → source.owner_uids ≡ old ∷ []
      → IsMissing c parent
      → IsTargetUid c parent uid
      → CopiedOwners c crs source (uid ∷ [])
  of_several :
      (parent : Cr)
      → Placed crs (some parent) source
      → ((old : String) → source.owner_uids ≢ old ∷ [])
      → CopiedOwners c crs source source.owner_uids

-- What a call may write: nothing in a dry run, otherwise only copies of resources that the target
-- cluster did not have; and it deletes only what the target cluster answered to a creation.
abbrev pub IsSafe : Clusters → List String → String → Bool → MoveCall → MoveHistory → Type 0
IsSafe c kinds namespace dry_run (MoveCall.create_target x) h =
    (dry_run ≡ false)
    × ((source : Cr) × (crs : List Cr) × (owners : List String) × IsMissing c source
        × IsMoved c kinds namespace crs
        × CopiedOwners c crs source owners
        × (x ≡ record source { owner_uids = owners; resource_version = "" }))
IsSafe c kinds namespace dry_run (MoveCall.update_status_target x) h = dry_run ≡ false
IsSafe c kinds namespace dry_run (MoveCall.delete_target x) h = (dry_run ≡ false) × IsCreated c x
IsSafe c kinds namespace dry_run _ h = Unit

-- What a program returns is what it returned at some history.
pub ran :
    {J : MoveHistory → Type 0} {A : Type 0} {P : A → Type 0} (m : MoveProgram A)
    → Keeps J m P
    → Keeps J m (λ a. P a × ((h : MoveHistory) × (h' : MoveHistory) × (m h ≡ (Result.ok a, h'))))
ran {J} {A} {P} m k = record { at = λ h j. go h (m h) refl (k.at h j) }
  where
    go :
        (h : MoveHistory) (x : Result A × MoveHistory)
        → m h ≡ x
        → Kept J P x
        → Kept J
            (λ a. P a × ((h0 : MoveHistory) × (h' : MoveHistory) × (m h0 ≡ (Result.ok a, h'))))
            x
    go h (Result.ok a, h') e (j, p) = (j, (p, (h, h', e)))
    go h (Result.err f, h') e j = j

module _ (c : Clusters) (kinds0 : List String) (namespace0 : String) (dry_run : Bool) where
  abbrev pub J : MoveHistory → Type 0
  J = Steps (IsSafe c kinds0 namespace0 dry_run)

  pub lists :
      (kinds : List String) (namespace : String) → Keeps J (get_crs c kinds namespace) Anything
  unfolding get_crs
  lists [] namespace = Keeps-pure [] tt
  lists (kind ∷ kinds) namespace =
      Keeps-bind_any _ _
        (Keeps-wrap _ _ (
          Keeps-perform (MoveCall.list_source kind namespace) (c.list_source kind namespace)
            (λ h j. (tt, j)) (λ h a e. tt)))
        λ crs. Keeps-bind_any _ _ (lists kinds namespace) (λ rest. Keeps-pure _ tt)

  -- The answer of the target cluster to the listing of one resource.
  abbrev pub IsAnswer : Cr → Result Cr → Type 0
  IsAnswer cr r = (h : MoveHistory) × (c.get_target cr h ≡ r)

  moved-IsMissing :
      (cr : Cr) (r : Result Cr)
      → IsAnswer cr r
      → compare_with_target c cr r ≡ Result.ok true
      → IsMissing c cr
  unfolding compare_with_target
  moved-IsMissing cr (Result.ok target) (h, e) m = absurd (ground arith)
  moved-IsMissing cr (Result.err x) (h, e) m = (h, x, e, ground arith)

  pub asks : (cr : Cr) → Keeps J (attempt (get_target c cr)) (IsAnswer cr)
  unfolding attempt get_target perform
  asks cr = record { at = λ h j. ((tt, j), (h, refl)) }

  pub finds : (crs : List Cr) → Keeps J (get_crs_to_be_moved c crs) (All (IsMissing c))
  unfolding get_crs_to_be_moved
  finds [] = Keeps-pure [] tt
  finds (cr ∷ crs) = Keeps-bind _ _ (asks cr) λ r a.
      Keeps-bind {P = λ m. compare_with_target c cr r ≡ Result.ok m} _ _ (Keeps-lift _ (λ m e. e))
        λ m e.
          Keeps-bind _ _ (finds crs)
            λ rest p. chosen m rest (λ t. moved-IsMissing cr r a (ground arith)) p
    where
      chosen :
          (m : Bool) (rest : List Cr)
          → (m ≡ true → IsMissing c cr)
          → All (IsMissing c) rest
          → Keeps J (pure (if m then cr ∷ rest else rest)) (All (IsMissing c))
      chosen true rest p ps = Keeps-pure _ (p refl, ps)
      chosen false rest p ps = Keeps-pure _ ps
