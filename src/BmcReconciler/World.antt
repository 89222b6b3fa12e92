-- ===== src/BmcReconciler/World.antt =====
-- The calls of the BMC controller. A BMC client answers from the history before a call, as the API
-- server does.
use metal_operator.Base.{ℕ, String, Bool, Option, List, Dict}
use metal_operator.Api.Meta.{ObjectMeta}
use metal_operator.Api.Server.{Server}
use metal_operator.Effects.{Result, Program}
use metal_operator.BmcUtils.Clients.{Directory}
use metal_operator.Redfish.Client.{BmcServer, Manager}
use metal_operator.EndpointReconciler.World.{BmcObject}

-- A `create_or_patch` call carries the function that mutates the server, which may fail.
pub data BmcCall : Type 0 where
  get_bmc : String → BmcCall
  ensure_no_finalizer : String → String → BmcCall
  get_endpoint : String → BmcCall
  patch_status : BmcObject → BmcObject → BmcCall
  connect : BmcObject → BmcCall
  log_out : BmcCall
  get_manager : BmcCall
  get_systems : BmcCall
  create_or_patch_server : String → (Server → Result Server) → BmcCall

abbrev pub BmcHistory : Type 0
BmcHistory = List BmcCall

abbrev pub BmcProgram : Type 0 → Type 0
BmcProgram A = Program BmcCall A

-- The operations of the interface of bmc/bmc.go that the controller calls.
pub record BmcClient : Type 0 where
  pub get_manager : BmcHistory → Result (Option Manager)
  pub get_systems : BmcHistory → Result (List BmcServer)

-- What the controller reads of an endpoint.
pub record EndpointAddress : Type 0 where
  pub ip : String
  pub mac_address : String

pub record BmcEnv : Type 0 where
  pub get_bmc : String → BmcHistory → Result BmcObject
  pub ensure_no_finalizer : BmcObject → String → BmcHistory → Result Bool
  pub get_endpoint : String → BmcHistory → Result EndpointAddress
  pub patch_status : BmcObject → BmcObject → BmcHistory → Result BmcObject
  pub directory : BmcHistory → Directory BmcClient
  pub create_or_patch_server : String → (Server → Result Server) → BmcHistory → Result (Unit {0})
  -- controllerutil.SetControllerReference, from the owner's metadata to the object's
  pub set_controller_reference : ObjectMeta → ObjectMeta → Result ObjectMeta
  -- metautils.SetLabels, from the labels to the object's metadata
  pub set_labels : Dict String → ObjectMeta → ObjectMeta
  pub to_lower : String → String  -- strings.ToLower
  pub decimal : ℕ → String  -- `%d`
