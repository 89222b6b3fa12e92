-- ===== src/Move/Trees.antt =====
-- crsOwnerReferenceTrees: the forest of resources under their owners.
--
-- The code puts a node for each resource in a map by UID, and then adds each node to the roots,
-- where its resource has no owner or the first owner is not in the map, or to the children of the
-- owner's node. Since the nodes are shared by pointer, the model keeps the children of a node as
-- UIDs in the map, and follows them once the map is complete. It follows them to the depth of the
-- number of resources, which no path from a root exceeds, for a node has one owner. Resources
-- whose owners form a cycle are under no root.
use metal_operator.Base.{
  ℕ, zero, suc, String, Option, none, some, List, [], ◌∷◌, ◌++◌, length, Dict, lookup, insert,
}
use metal_operator.Move.Cluster.{Cr}

mutual
  pub data Node : Type 0 where
    node : Cr → Nodes → Node

  pub data Nodes : Type 0 where
    nil : Nodes
    cons : Node → Nodes → Nodes

-- `cr.GetOwnerReferences()[0].UID`, where there is one
unfoldable pub first_owner : Cr → Option String
first_owner cr = elim cr.owner_uids [ [] ↦ none | uid ∷ uids ↦ some uid ]

-- A node of the map, its children by UID.
pub record Entry : Type 0 where
  pub cr : Cr
  pub children : List String

-- `nodeMap[cr.GetUID()] = &Node{Cr: cr}` for each resource
unfoldable pub node_map : List Cr → Dict Entry → Dict Entry
node_map [] nodes = nodes
node_map (cr ∷ crs) nodes = node_map crs (insert cr.uid (record { cr = cr; children = [] }) nodes)

-- `owner.Children = append(owner.Children, nodeMap[cr.GetUID()])`, where the owner has a node
unfoldable pub add_child : String → String → Entry → Dict Entry → Dict Entry
add_child owner uid e nodes = insert owner (record e { children = e.children ++ uid ∷ [] }) nodes

-- The node of the first owner, with its UID.
unfoldable pub owner_entry : Cr → Dict Entry → Option (String × Entry)
unfolding first_owner
owner_entry cr nodes = elim (first_owner cr) [
  | none ↦ none
  | some owner ↦ elim (lookup owner nodes) [ none ↦ none | some e ↦ some (owner, e) ]
]

-- One turn of the second loop: the map with the children, and the roots by UID.
unfoldable pub link_one :
    Option (String × Entry) → Cr → Dict Entry → List String → Dict Entry × List String
unfolding add_child
link_one none cr nodes roots = (nodes, roots ++ cr.uid ∷ [])
link_one (some (owner, e)) cr nodes roots = (add_child owner cr.uid e nodes, roots)

unfoldable pub link : List Cr → Dict Entry → List String → Dict Entry × List String
unfolding owner_entry link_one
link [] nodes roots = (nodes, roots)
link (cr ∷ crs) nodes roots =
    let (nodes', roots') = link_one (owner_entry cr nodes) cr nodes roots in link crs nodes' roots'

-- The trees below some nodes of the map, to a depth.
unfoldable pub follow : ℕ → Dict Entry → List String → Nodes
follow depth nodes [] = Nodes.nil
follow zero nodes (uid ∷ uids) = Nodes.nil
follow (suc depth) nodes (uid ∷ uids) =
    let rest = follow (suc depth) nodes uids in
    elim (lookup uid nodes) [
      | none ↦ rest
      | some e ↦ Nodes.cons (Node.node e.cr (follow depth nodes e.children)) rest
    ]

unfoldable pub crs_owner_reference_trees : List Cr → Nodes
unfolding node_map link follow
crs_owner_reference_trees crs =
    let (nodes, roots) = link crs (node_map crs []) [] in follow (length crs) nodes roots
