-- ===== src/Move/LinkLaws.antt =====
-- The edges of the forest: a resource is below another one where the first owner of its entry in the
-- list is the UID of the other, and it is a root where no resource of the list is its first owner.
use mathlib.Core.Path.{subst}
use metal_operator.Base.{
  ℕ, zero, suc, ◌≡◌, ◌≢◌, refl, sym, inl, inr, String, true, ◌==◌, Bool-cases, eq_iff, Option, none,
  some, List, [], ◌∷◌, ◌++◌, length, All, Any, Dict, lookup, insert, lookup-insert, arith,
}
use metal_operator.Move.Cluster.{Cr}
use metal_operator.Move.Trees.{
  Node, Nodes, Entry, first_owner, node_map, add_child, owner_entry, link_one, link, follow,
  crs_owner_reference_trees,
}

-- Every resource of a forest satisfies `P` with the resource right above it, none for a root.
abbrev mutual
  pub Under : (Option Cr → Cr → Type 0) → Option Cr → Nodes → Type 0
  Under P parent Nodes.nil = Unit
  Under P parent (Nodes.cons tree trees) = UnderOne P parent tree × Under P parent trees

  pub UnderOne : (Option Cr → Cr → Type 0) → Option Cr → Node → Type 0
  UnderOne P parent (Node.node cr children) = P parent cr × Under P (some cr) children

module _ (crs : List Cr) where
  -- A resource of the list with this UID has this one as the UID of its first owner.
  abbrev pub IsOwner : String → String → Type 0
  IsOwner owner uid =
      Any (λ x. (x.uid ≡ uid) × (others : List String) × (x.owner_uids ≡ owner ∷ others)) crs

  -- No resource of the list is the first owner of this one.
  abbrev pub IsOrphan : Cr → Type 0
  IsOrphan x = All (λ y. (others : List String) → x.owner_uids ≢ y.uid ∷ others) crs

  -- The place of a resource in the forest.
  abbrev pub Placed : Option Cr → Cr → Type 0
  Placed none cr = Any (λ x. (x.uid ≡ cr.uid) × IsOrphan x) crs
  Placed (some parent) cr = IsOwner parent.uid cr.uid

  -- What a node of the map is, by the UID that it is found with.
  abbrev IsLinked : String → Entry → Type 0
  IsLinked uid e = (e.cr.uid ≡ uid) × All (IsOwner uid) e.children

  abbrev AllLinked : Dict Entry → Type 0
  AllLinked nodes = (uid : String) (e : Entry) → lookup uid nodes ≡ some e → IsLinked uid e

  inserted :
      (uid : String) (x : Entry) (nodes : Dict Entry)
      → IsLinked uid x
      → AllLinked nodes
      → AllLinked (insert uid x nodes)
  inserted uid x nodes p all j e l = elim (Bool-cases (uid == j)) [
    | inl t ↦ subst (IsLinked j) (same t) (subst (λ k. IsLinked k x) ((eq_iff uid j).0 t) p)
    | inr f ↦ all j e (ground (arith, lookup-insert uid j x nodes))
  ]
    where
      same : (uid == j) ≡ true → x ≡ e
      same t = ground (arith, lookup-insert uid j x nodes)

  node_map-AllLinked :
      (l : List Cr) (nodes : Dict Entry) → AllLinked nodes → AllLinked (node_map l nodes)
  unfolding node_map
  node_map-AllLinked [] nodes all = all
  node_map-AllLinked (cr ∷ l) nodes all =
      node_map-AllLinked l _
        (inserted cr.uid (record { cr = cr; children = [] }) nodes (refl, tt) all)

  -- The map has a node for the UID.
  abbrev Has : Dict Entry → String → Type 0
  Has nodes uid = (e : Entry) × (lookup uid nodes ≡ some e)

  insert-Has :
      (key : String) (x : Entry) (nodes : Dict Entry) (uid : String)
      → Has nodes uid
      → Has (insert key x nodes) uid
  insert-Has key x nodes uid (e, l) = elim (Bool-cases (key == uid)) [
    | inl t ↦ (x, ground (arith, lookup-insert key uid x nodes))
    | inr f ↦ (e, ground (arith, lookup-insert key uid x nodes))
  ]

  node_map-Has :
      (l : List Cr) (nodes : Dict Entry) (uid : String) → Has nodes uid → Has (node_map l nodes) uid
  unfolding node_map
  node_map-Has [] nodes uid h = h
  node_map-Has (cr ∷ l) nodes uid h = node_map-Has l _ uid (insert-Has cr.uid _ nodes uid h)

  node_map_complete : (l : List Cr) (nodes : Dict Entry) → All (λ y. Has (node_map l nodes) y.uid) l
  unfolding node_map
  node_map_complete [] nodes = tt
  node_map_complete (cr ∷ l) nodes = (
    node_map-Has l _ cr.uid (
      record { cr = cr; children = [] },
      ground (
        arith,
        lookup-insert cr.uid cr.uid (record { cr = cr; children = [] }) nodes,
        eq_iff cr.uid cr.uid,
      ),
    ),
    node_map_complete l _,
  )

  Any-found : (P : Cr → Type 0) (x : Cr) (l : List Cr) → Any (λ y. y ≡ x) l → P x → Any P l
  Any-found P x [] a p = elim a [ ]
  Any-found P x (y ∷ l) (Any.head e) p = Any.head (subst P (sym e) p)
  Any-found P x (y ∷ l) (Any.tail a) p = Any.tail (Any-found P x l a p)

  -- What owner_entry answers: an owner of the list with its node, or none for an orphan.
  owner_entry-owner :
      (cr : Cr) (nodes : Dict Entry) (owner : String) (e : Entry)
      → owner_entry cr nodes ≡ some (owner, e)
      → (lookup owner nodes ≡ some e) × (others : List String) × (cr.owner_uids ≡ owner ∷ others)
  unfolding owner_entry first_owner
  owner_entry-owner cr nodes owner e h = go cr.owner_uids refl
    where
      go :
          (uids : List String)
          → cr.owner_uids ≡ uids
          → (lookup owner nodes ≡ some e)
            × (others : List String) × (cr.owner_uids ≡ owner ∷ others)
      go [] q = absurd (ground arith)
      go (uid ∷ uids) q = (ground arith, uids, ground arith)

  owner_entry-none :
      (cr : Cr) (nodes : Dict Entry) (l : List Cr)
      → All (λ y. Has nodes y.uid) l
      → owner_entry cr nodes ≡ none
      → All (λ y. (others : List String) → cr.owner_uids ≢ y.uid ∷ others) l
  unfolding owner_entry first_owner
  owner_entry-none cr nodes [] has h = tt
  owner_entry-none cr nodes (y ∷ l) ((e, found), has) h =
      (λ others q. ground arith, owner_entry-none cr nodes l has h)

  abbrev Known : Cr → Type 0
  Known x = Any (λ y. y ≡ x) crs

  abbrev IsRootUid : String → Type 0
  IsRootUid uid = Any (λ x. (x.uid ≡ uid) × IsOrphan x) crs

  -- The map is linked and has a node for each resource, and the roots are those of orphans.
  abbrev IsForest : Dict Entry × List String → Type 0
  IsForest (nodes, roots) = AllLinked nodes × All (λ y. Has nodes y.uid) crs × All IsRootUid roots

  All-snoc :
      (P : String → Type 0) (l : List String) (x : String) → All P l → P x → All P (l ++ x ∷ [])
  All-snoc P [] x ps p = (p, tt)
  All-snoc P (y ∷ l) x (q, ps) p = (q, All-snoc P l x ps p)

  All-Has :
      (l : List Cr) (key : String) (x : Entry) (nodes : Dict Entry)
      → All (λ y. Has nodes y.uid) l
      → All (λ y. Has (insert key x nodes) y.uid) l
  All-Has [] key x nodes has = tt
  All-Has (y ∷ l) key x nodes (h, has) = (insert-Has key x nodes y.uid h, All-Has l key x nodes has)

  link_one-IsForest :
      (o : Option (String × Entry)) (cr : Cr) (nodes : Dict Entry) (roots : List String)
      → owner_entry cr nodes ≡ o
      → Known cr
      → IsForest (nodes, roots)
      → IsForest (link_one o cr nodes roots)
  unfolding link_one add_child
  link_one-IsForest none cr nodes roots q known (linked, has, rooted) = (
    linked,
    has,
    All-snoc IsRootUid roots cr.uid rooted (
        Any-found (λ x. (x.uid ≡ cr.uid) × IsOrphan x) cr crs known
          (refl, owner_entry-none cr nodes crs has q)),
  )
  link_one-IsForest (some (owner, e)) cr nodes roots q known (linked, has, rooted) =
      let (found, others, owned) = owner_entry-owner cr nodes owner e q in
      let (same, children) = linked owner e found in
      (
        inserted owner _ nodes
            (
              same,
              All-snoc (IsOwner owner) e.children cr.uid children
                  (Any-found _ cr crs known (refl, others, owned)),
            )
            linked,
        All-Has crs owner _ nodes has,
        rooted,
      )

  link-IsForest :
      (l : List Cr) (nodes : Dict Entry) (roots : List String)
      → All Known l
      → IsForest (nodes, roots)
      → IsForest (link l nodes roots)
  unfolding link
  link-IsForest [] nodes roots known f = f
  link-IsForest (cr ∷ l) nodes roots (k, known) f =
      link-IsForest l _ _ known (link_one-IsForest (owner_entry cr nodes) cr nodes roots refl k f)

  -- The resources with these UIDs may stand below the parent.
  abbrev MayStand : Option Cr → String → Type 0
  MayStand none uid = IsRootUid uid
  MayStand (some parent) uid = IsOwner parent.uid uid

  MayStand-Placed :
      (parent : Option Cr) (uid : String) (e : Entry)
      → MayStand parent uid
      → e.cr.uid ≡ uid
      → Placed parent e.cr
  MayStand-Placed none uid e m q = subst IsRootUid (sym q) m
  MayStand-Placed (some parent) uid e m q = subst (IsOwner parent.uid) (sym q) m

  follow-Under :
      (depth : ℕ) (nodes : Dict Entry) (uids : List String) (parent : Option Cr)
      → AllLinked nodes
      → All (MayStand parent) uids
      → Under Placed parent (follow depth nodes uids)
  unfolding follow
  follow-Under depth nodes [] parent linked may = tt
  follow-Under zero nodes (uid ∷ uids) parent linked may = tt
  follow-Under (suc depth) nodes (uid ∷ uids) parent linked (m, may) =
      go (lookup uid nodes) (λ e l. linked uid e l)
        (follow-Under (suc depth) nodes uids parent linked may)
        (λ e c. follow-Under depth nodes e.children (some e.cr) linked c)
    where
      go :
          (o : Option Entry)
          → ((e : Entry) → o ≡ some e → IsLinked uid e)
          → Under Placed parent (follow (suc depth) nodes uids)
          → ((e : Entry)
              → All (IsOwner e.cr.uid) e.children
              → Under Placed (some e.cr) (follow depth nodes e.children))
          → Under Placed parent (elim o [
            | none ↦ follow (suc depth) nodes uids
            | some e ↦
                Nodes.cons
                  (Node.node e.cr (follow depth nodes e.children))
                  (follow (suc depth) nodes uids)
          ])
      go none l rest below = rest
      go (some e) l rest below =
          let (same, children) = l e refl in
          (
            (
              MayStand-Placed parent uid e m same,
              below e (subst (λ k. All (IsOwner k) e.children) (sym same) children),
            ),
            rest,
          )

  All-weaken : (P Q : Cr → Type 0) (l : List Cr) → ((x : Cr) → P x → Q x) → All P l → All Q l
  All-weaken P Q [] f p = tt
  All-weaken P Q (x ∷ l) f (p, ps) = (f x p, All-weaken P Q l f ps)

members : (l : List Cr) → All (λ x. Any (λ y. y ≡ x) l) l
members [] = tt
members (x ∷ l) = (
  Any.head refl,
  All-weaken l (λ z. Any (λ y. y ≡ z) l) (λ z. Any (λ y. y ≡ z) (x ∷ l)) l (λ z a. Any.tail a)
      (members l),
)

-- In the forest of a list, each resource stands right below its first owner, and a root has none in
-- the list.
pub crs_owner_reference_trees-Under :
    (crs : List Cr) → Under (Placed crs) none (crs_owner_reference_trees crs)
unfolding crs_owner_reference_trees
crs_owner_reference_trees-Under crs =
    let (linked, has, rooted) = link-IsForest crs crs (node_map crs []) [] (members crs) (
      node_map-AllLinked crs crs [] (λ uid e l. absurd (ground arith)),
      node_map_complete crs crs [],
      tt,
    ) in
    follow-Under crs (length crs) _ _ none linked rooted
