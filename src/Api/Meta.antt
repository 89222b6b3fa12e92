-- ===== src/Api/Meta.antt =====
-- What the resources of api/v1alpha1 take over from the Kubernetes object model: the fields that
-- the code reads or writes. A time is a number of nanoseconds; a missing time is `none`.
use metal_operator.Base.{ℕ, String, Bool, Option, List, Dict, is_some}

-- metav1.ManagedFieldsEntry
pub record ManagedFieldsEntry : Type 0 where
  pub operation : String
  pub subresource : String
  pub time : Option ℕ

-- metav1.OwnerReference
pub record OwnerReference : Type 0 where
  pub kind : String
  pub name : String
  pub uid : String
  pub controller : Bool

-- metav1.ObjectMeta
pub record ObjectMeta : Type 0 where
  pub name : String
  pub namespace : String
  pub uid : String
  pub labels : Dict String
  pub annotations : Dict String
  pub finalizers : List String
  pub owner_references : List OwnerReference
  pub deletion_timestamp : Option ℕ
  pub managed_fields : List ManagedFieldsEntry

-- v1.LocalObjectReference
pub record LocalObjectReference : Type 0 where
  pub name : String

-- v1.ObjectReference
pub record ObjectReference : Type 0 where
  pub api_version : String
  pub kind : String
  pub namespace : String
  pub name : String
  pub uid : String

-- `!obj.DeletionTimestamp.IsZero()`
abbrev pub is_deleted : ObjectMeta → Bool
is_deleted m = is_some m.deletion_timestamp

abbrev pub operation_annotation : String
operation_annotation = "metal.ironcore.dev/operation"

abbrev pub operation_annotation_ignore : String
operation_annotation_ignore = "ignore"

abbrev pub group_version : String
group_version = "metal.ironcore.dev/v1alpha1"
