-- ===== src/Move/TreeLaws.antt =====
-- Every resource of the forest is one of those it was built from.
use mathlib.Core.Path.{subst}
use metal_operator.Base.{
  ℕ, zero, suc, ◌≡◌, refl, inl, inr, String, true, ◌==◌, Bool-cases, Option, none, some, List, [],
  ◌∷◌, length, All, Dict, lookup, insert, lookup-insert, arith,
}
use metal_operator.Move.Cluster.{Cr}
use metal_operator.Move.Trees.{
  Node, Nodes, Entry, node_map, add_child, owner_entry, link_one, link, follow,
  crs_owner_reference_trees,
}

-- Every resource of a forest satisfies `P`.
abbrev mutual
  pub AllNodes : (Cr → Type 0) → Nodes → Type 0
  AllNodes P Nodes.nil = Unit
  AllNodes P (Nodes.cons tree trees) = AllNode P tree × AllNodes P trees

  pub AllNode : (Cr → Type 0) → Node → Type 0
  AllNode P (Node.node cr children) = P cr × AllNodes P children

module _ (P : Cr → Type 0) where
  abbrev AllEntries : Dict Entry → Type 0
  AllEntries nodes = (uid : String) (e : Entry) → lookup uid nodes ≡ some e → P e.cr

  inserted :
      (uid : String) (x : Entry) (nodes : Dict Entry)
      → P x.cr
      → AllEntries nodes
      → AllEntries (insert uid x nodes)
  inserted uid x nodes p all j e l = elim (Bool-cases (uid == j)) [
    | inl t ↦ subst (λ y. P y.cr) (same t) p
    | inr f ↦ all j e (ground (arith, lookup-insert uid j x nodes))
  ]
    where
      same : (uid == j) ≡ true → x ≡ e
      same t = ground (arith, lookup-insert uid j x nodes)

  node_map-All :
      (crs : List Cr) (nodes : Dict Entry)
      → All P crs
      → AllEntries nodes
      → AllEntries (node_map crs nodes)
  unfolding node_map
  node_map-All [] nodes p all = all
  node_map-All (cr ∷ crs) nodes (p, ps) all =
      node_map-All crs _ ps (inserted cr.uid (record { cr = cr; children = [] }) nodes p all)

  owner_entry-P :
      (cr : Cr) (nodes : Dict Entry) (owner : String) (e : Entry)
      → owner_entry cr nodes ≡ some (owner, e)
      → AllEntries nodes
      → P e.cr
  unfolding owner_entry
  owner_entry-P cr nodes owner e h all = all owner e (ground arith)

  link_one-All :
      (o : Option (String × Entry)) (cr : Cr) (nodes : Dict Entry) (roots : List String)
      → ((owner : String) (e : Entry) → o ≡ some (owner, e) → P e.cr)
      → AllEntries nodes
      → AllEntries (link_one o cr nodes roots).0
  unfolding link_one add_child
  link_one-All none cr nodes roots p all = all
  link_one-All (some (owner, e)) cr nodes roots p all = inserted owner _ nodes (p owner e refl) all

  link-All :
      (crs : List Cr) (nodes : Dict Entry) (roots : List String)
      → AllEntries nodes
      → AllEntries (link crs nodes roots).0
  unfolding link
  link-All [] nodes roots all = all
  link-All (cr ∷ crs) nodes roots all = link-All crs _ _ (
      link_one-All (owner_entry cr nodes) cr nodes roots
        (λ owner e h. owner_entry-P cr nodes owner e h all) all)

  follow-All :
      (depth : ℕ) (nodes : Dict Entry) (uids : List String)
      → AllEntries nodes
      → AllNodes P (follow depth nodes uids)
  unfolding follow
  follow-All depth nodes [] all = tt
  follow-All zero nodes (uid ∷ uids) all = tt
  follow-All (suc depth) nodes (uid ∷ uids) all =
      go (lookup uid nodes) (λ e l. all uid e l) (follow-All (suc depth) nodes uids all)
        (λ e. follow-All depth nodes e.children all)
    where
      go :
          (o : Option Entry)
          → ((e : Entry) → o ≡ some e → P e.cr)
          → AllNodes P (follow (suc depth) nodes uids)
          → ((e : Entry) → AllNodes P (follow depth nodes e.children))
          → AllNodes P (elim o [
            | none ↦ follow (suc depth) nodes uids
            | some e ↦
                Nodes.cons
                  (Node.node e.cr (follow depth nodes e.children))
                  (follow (suc depth) nodes uids)
          ])
      go none p rest below = rest
      go (some e) p rest below = ((p e refl, below e), rest)

  pub crs_owner_reference_trees-All :
      (crs : List Cr) → All P crs → AllNodes P (crs_owner_reference_trees crs)
  unfolding crs_owner_reference_trees
  crs_owner_reference_trees-All crs p =
      follow-All (length crs) _ _
        (link-All crs _ [] (node_map-All crs [] p (λ uid e l. ground arith)))
