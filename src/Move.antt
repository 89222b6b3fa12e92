-- ===== src/Move.antt =====
-- cmdutils/move.go: moving the custom resources of one cluster to another.
pub mod Cluster
pub mod Trees
pub mod Mover
pub mod TreeLaws
pub mod LinkLaws
pub mod Copies
pub mod Safety
pub mod CleanUp
