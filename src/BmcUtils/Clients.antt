-- ===== src/BmcUtils/Clients.antt =====
-- The functions of internal/bmcutils/bmcutils.go. They only read from the API server, here a
-- Directory; the constructors of bmc/ are its last fields.
use metal_operator.Base.{
  ℕ, String, ◌<>◌, Bool, ◌==◌, if◌then◌else◌, Option, none, some, Dict, lookup,
}
use metal_operator.Api.Meta.{LocalObjectReference}
use metal_operator.Api.Server.{Server, Protocol}
use metal_operator.Effects.{Result, Err, wrap_result}
use metal_operator.EndpointWebhook.Validator.{Endpoint}

-- api/v1alpha1/bmc_types.go
pub record InlineEndpoint : Type 0 where
  pub mac_address : String
  pub ip : String

pub record ConsoleProtocol : Type 0 where
  pub name : String
  pub port : ℕ

pub record BmcSpec : Type 0 where
  pub endpoint_ref : Option LocalObjectReference
  pub endpoint : Option InlineEndpoint
  pub bmc_secret_ref : LocalObjectReference
  pub protocol : Protocol
  pub console_protocol : Option ConsoleProtocol

-- The string constants of bmc_types.go, as the constructor that each selects.
pub data ClientKind : Type 0 where
  redfish redfish_local redfish_kube : ClientKind

-- bmc.BMCOptions, without the polling intervals, which the functions pass on.
pub record BmcOptions : Type 0 where
  pub endpoint : String
  pub username : String
  pub password : String
  pub basic_auth : Bool

pub record Directory (C : Type 0) : Type 0 where
  pub get_bmc : String → Result BmcSpec
  pub get_endpoint : String → Result Endpoint
  pub get_bmc_secret : String → Result (Dict String)  -- the data of the secret
  pub join_host_port : String → ℕ → String  -- net.JoinHostPort
  pub new_client : ClientKind → BmcOptions → Result C

-- `if err != nil { return err }`
unfoldable pub next : {A B : Type 0} → Result A → (A → Result B) → Result B
next (Result.ok a) f = f a
next (Result.err e) f = Result.err e

unfoldable pub get_password : Dict String → String → Result (String × String)
get_password secret username = elim (lookup "password" secret) [
  | none ↦ Result.err (Err.failed "no password found in the BMC secret")
  | some password ↦ Result.ok (username, password)
]

unfoldable pub get_bmc_credentials_from_secret : Dict String → Result (String × String)
unfolding get_password
get_bmc_credentials_from_secret secret = elim (lookup "username" secret) [
  | none ↦ Result.err (Err.failed "no username found in the BMC secret")
  | some username ↦ get_password secret username
]

-- The switch of CreateBMCClient.
unfoldable pub client_kind : String → Result ClientKind
client_kind name =
    if name == "Redfish"
    then Result.ok ClientKind.redfish
    else if name == "RedfishLocal"
    then Result.ok ClientKind.redfish_local
    else if name == "RedfishKube"
    then Result.ok ClientKind.redfish_kube
    else Result.err (Err.failed ("unsupported BMC protocol " <> name))

module _ {C : Type 0} (d : Directory C) where
  unfoldable pub get_bmc_from_bmc_name : String → Result BmcSpec
  get_bmc_from_bmc_name name = wrap_result "failed to get bmc" (d.get_bmc name)

  unfoldable pub get_bmc_credentials_for_bmc_secret_name : String → Result (String × String)
  unfolding get_bmc_credentials_from_secret next
  get_bmc_credentials_for_bmc_secret_name name =
      next (wrap_result "failed to get bmc secret" (d.get_bmc_secret name))
        get_bmc_credentials_from_secret

  unfoldable pub inline_address : Option InlineEndpoint → String → String
  inline_address none address = address
  inline_address (some e) address = e.ip

  -- The IP of the referenced endpoint, and the empty string without a reference.
  unfoldable pub referenced_address : Option LocalObjectReference → Result String
  unfolding next
  referenced_address none = Result.ok ""
  referenced_address (some ref) =
      next (wrap_result "failed to get Endpoints for BMC" (d.get_endpoint ref.name))
        (λ e. Result.ok e.ip)

  unfoldable pub first_address : Option LocalObjectReference → Option InlineEndpoint → Result String
  unfolding inline_address referenced_address
  first_address none endpoint = Result.ok (inline_address endpoint "")
  first_address (some ref) endpoint = referenced_address (some ref)

  unfoldable pub get_bmc_address_for_bmc : BmcSpec → Result String
  unfolding first_address
  get_bmc_address_for_bmc b = first_address b.endpoint_ref b.endpoint

  -- The address that GetBMCClientFromBMC uses: here the inline endpoint comes last, and wins.
  unfoldable pub client_address : BmcSpec → Result String
  unfolding inline_address referenced_address next
  client_address b =
      next (referenced_address b.endpoint_ref)
        (λ address. Result.ok (inline_address b.endpoint address))

  unfoldable pub client_options : Bool → String → ℕ → BmcOptions → String × String → BmcOptions
  client_options insecure address port options (username, password) = record {
    endpoint = (if insecure then "http" else "https") <> ("://" <> d.join_host_port address port);
    username = username;
    password = password;
    basic_auth = options.basic_auth;
  }

  unfoldable pub create_bmc_client :
      Bool → String → String → ℕ → Dict String → BmcOptions → Result C
  unfolding next client_kind get_bmc_credentials_from_secret client_options
  create_bmc_client insecure protocol address port secret options =
      next (client_kind protocol) λ kind.
        next
          (wrap_result "failed to get credentials from BMC secret"
            (get_bmc_credentials_from_secret secret))
          λ credentials.
            wrap_result "failed to create Redfish client"
              (d.new_client kind (client_options insecure address port options credentials))

  unfoldable pub get_bmc_client_from_bmc : Bool → BmcOptions → BmcSpec → Result C
  unfolding next client_address create_bmc_client
  get_bmc_client_from_bmc insecure options b = next (client_address b) λ address.
      next (wrap_result "failed to get BMC secret" (d.get_bmc_secret b.bmc_secret_ref.name))
        λ secret. create_bmc_client insecure b.protocol.name address b.protocol.port secret options

  unfoldable pub get_bmc_client_for_server : Bool → BmcOptions → Server → Result C
  unfolding next get_bmc_client_from_bmc create_bmc_client
  get_bmc_client_for_server insecure options s = elim s.spec.bmc_ref [
    | some ref ↦
        next (wrap_result "failed to get BMC" (d.get_bmc ref.name))
          (get_bmc_client_from_bmc insecure options)
    | none ↦ elim s.spec.bmc [
      | some access ↦
          next
            (wrap_result "failed to get BMC secret" (d.get_bmc_secret access.bmc_secret_ref.name))
            (λ secret.
              create_bmc_client insecure access.protocol.name access.address access.protocol.port
                secret options)
      | none ↦ Result.err (
          Err.failed
            ("server " <> (s.metadata.name <> " has neither a BMCRef nor a BMC configured")))
    ]
  ]
