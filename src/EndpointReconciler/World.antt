-- ===== src/EndpointReconciler/World.antt =====
-- The objects of the BMC and endpoint controllers, and the calls of the endpoint controller.
use metal_operator.Base.{ℕ, String, Bool, List, Dict}
use metal_operator.Api.Meta.{ObjectMeta}
use metal_operator.Effects.{Result, Program}
use metal_operator.BmcUtils.Clients.{BmcSpec, BmcOptions, ClientKind}

-- api/v1alpha1/endpoint_types.go
pub record EndpointObject : Type 0 where
  pub metadata : ObjectMeta
  pub mac_address : String
  pub ip : String

-- api/v1alpha1/bmcsecret_types.go, as far as the code fills it
pub record BmcSecret : Type 0 where
  pub metadata : ObjectMeta
  pub content : Dict String

-- api/v1alpha1/bmc_types.go, less the conditions, which no code writes
pub record BmcStatus : Type 0 where
  pub mac_address : String
  pub ip : String
  pub manufacturer : String
  pub model : String
  pub sku : String
  pub serial_number : String
  pub firmware_version : String
  pub state : String
  pub power_state : String

pub record BmcObject : Type 0 where
  pub metadata : ObjectMeta
  pub spec : BmcSpec
  pub status : BmcStatus

-- internal/api/macdb/macdb.go
pub record Console : Type 0 where
  pub type : String
  pub port : ℕ

pub record Credential : Type 0 where
  pub username : String
  pub password : String

pub record MacPrefix : Type 0 where
  pub mac_prefix : String
  pub manufacturer : String
  pub protocol : String
  pub port : ℕ
  pub type : String
  pub default_credentials : List Credential
  pub console : Console

-- A `create_or_patch` call carries the function that mutates the object, which may fail.
pub data EndpointCall : Type 0 where
  get_endpoint : String → EndpointCall
  ensure_no_finalizer : String → String → EndpointCall
  connect : ClientKind → BmcOptions → EndpointCall
  log_out : EndpointCall
  create_or_patch_secret : String → (BmcSecret → Result BmcSecret) → EndpointCall
  create_or_patch_bmc : String → (BmcObject → Result BmcObject) → EndpointCall

abbrev pub EndpointHistory : Type 0
EndpointHistory = List EndpointCall

abbrev pub EndpointProgram : Type 0 → Type 0
EndpointProgram A = Program EndpointCall A

-- The API server, the constructors of bmc/, and the libraries.
pub record EndpointEnv : Type 0 where
  pub get_endpoint : String → EndpointHistory → Result EndpointObject
  pub ensure_no_finalizer : EndpointObject → String → EndpointHistory → Result Bool
  pub connect : ClientKind → BmcOptions → EndpointHistory → Result (Unit {0})
  pub create_or_patch_secret :
      String → (BmcSecret → Result BmcSecret) → EndpointHistory → Result BmcSecret
  pub create_or_patch_bmc :
      String → (BmcObject → Result BmcObject) → EndpointHistory → Result BmcObject
  -- controllerutil.SetControllerReference, from the owner's metadata to the object's
  pub set_controller_reference : ObjectMeta → ObjectMeta → Result ObjectMeta
  pub join_host_port : String → ℕ → String  -- net.JoinHostPort
  pub without_colons : String → String  -- strings.Replace(s, ":", "", -1)
