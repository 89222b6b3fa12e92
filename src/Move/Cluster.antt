-- ===== src/Move/Cluster.antt =====
-- The resources that are moved, and what the two clusters answer. An unstructured object is its
-- metadata, its status and the rest of its fields; the deep comparison of two objects without the
-- fields that a cluster sets is a parameter on these.
use metal_operator.Base.{String, Bool, Option, List}
use metal_operator.Effects.{Result, Program}

-- unstructured.Unstructured
pub record Cr : Type 0 where
  pub kind : String
  pub namespace : String
  pub name : String
  pub uid : String
  pub resource_version : String
  pub owner_uids : List String  -- the UID of each owner reference
  pub status : Result (Option String)  -- what unstructured.NestedMap answers for it
  pub body : String

pub data MoveCall : Type 0 where
  list_source : String → String → MoveCall
  get_target : Cr → MoveCall
  create_target : Cr → MoveCall
  update_status_target : Cr → MoveCall
  delete_target : Cr → MoveCall

abbrev pub MoveHistory : Type 0
MoveHistory = List MoveCall

abbrev pub MoveProgram : Type 0 → Type 0
MoveProgram A = Program MoveCall A

-- The clients of both clusters. Create answers with the object as the API server returns it.
pub record Clusters : Type 0 where
  pub list_source : String → String → MoveHistory → Result (List Cr)
  pub get_target : Cr → MoveHistory → Result Cr
  pub create_target : Cr → MoveHistory → Result Cr
  pub update_status_target : Cr → MoveHistory → Result (Unit {0})
  pub delete_target : Cr → MoveHistory → Result (Unit {0})
  -- reflect.DeepEqual(clearFields(source), clearFields(target))
  pub same_cleared : Cr → Cr → Bool
