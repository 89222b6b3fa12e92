-- ===== src/EndpointReconciler/Reconcile.antt =====
-- The endpoint controller. A deferred call runs when the function returns, so a client stays
-- logged in while the loop goes on to the other prefixes.
use text.Mathlib.Text.{starts_with}
use metal_operator.Base.{
  String, ◌<>◌, Bool, true, ◌&&◌, ◌==◌, Option, none, some, List, [], ◌∷◌, if◌then◌else◌,
}
use metal_operator.Api.Meta.{is_deleted}
use metal_operator.Effects.{
  Err, Result, pure, raise, ◌>>=◌, ◌>>◌, perform, wrap, attempt, deferring, optional, is_not_found,
}
use metal_operator.ServerReconciler.Config.{should_ignore_reconciliation}
use metal_operator.BmcUtils.Clients.{BmcOptions, ClientKind, next}
use metal_operator.EndpointReconciler.World.{
  EndpointObject, BmcSecret, BmcObject, MacPrefix, Credential, EndpointCall, EndpointProgram,
  EndpointEnv,
}

abbrev pub endpoint_finalizer : String
endpoint_finalizer = "metal.ironcore.dev/endpoint"

unfoldable pub get_protocol : Bool → String
get_protocol insecure = if insecure then "http" else "https"

-- The client that the switch on the protocol creates; no other protocol is handled.
unfoldable pub protocol_client : String → Option ClientKind
protocol_client name =
    if name == "Redfish"
    then some ClientKind.redfish
    else if name == "RedfishLocal"
    then some ClientKind.redfish_local
    else if name == "RedfishKube"
    then some ClientKind.redfish_kube
    else none

module _ (env : EndpointEnv) (insecure : Bool) where
  -- Whether a prefix of the database is one of a BMC with this MAC address.
  unfoldable pub matches : EndpointObject → MacPrefix → Bool
  matches endpoint m =
      starts_with (env.without_colons endpoint.mac_address) m.mac_prefix && (m.type == "bmc")

  unfoldable pub set_secret : EndpointObject → Credential → BmcSecret → Result BmcSecret
  unfolding next
  set_secret endpoint credential s =
      next (env.set_controller_reference endpoint.metadata s.metadata) λ metadata.
        Result.ok (record {
          metadata = metadata;
          content = ("username", credential.username) ∷ ("password", credential.password) ∷ [];
        })

  unfoldable pub apply_bmc_secret : EndpointObject → Credential → EndpointProgram BmcSecret
  unfolding wrap perform set_secret
  apply_bmc_secret endpoint credential = wrap "failed to create or patch BMCSecret" (
      perform
        (EndpointCall.create_or_patch_secret endpoint.metadata.name
          (set_secret endpoint credential))
        (env.create_or_patch_secret endpoint.metadata.name (set_secret endpoint credential)))

  unfoldable pub set_bmc : EndpointObject → BmcSecret → MacPrefix → BmcObject → Result BmcObject
  unfolding next
  set_bmc endpoint secret m b =
      next (env.set_controller_reference endpoint.metadata b.metadata) λ metadata.
        Result.ok (record b {
          metadata = metadata;
          spec = record b.spec {
            endpoint_ref = some (record { name = endpoint.metadata.name });
            bmc_secret_ref = record { name = secret.metadata.name };
            protocol = record { name = m.protocol; port = m.port };
            console_protocol = some (record { name = m.console.type; port = m.console.port });
          };
        })

  unfoldable pub apply_bmc : EndpointObject → BmcSecret → MacPrefix → EndpointProgram BmcObject
  unfolding wrap perform set_bmc
  apply_bmc endpoint secret m = wrap "failed to create or patch BMC" (
      perform (EndpointCall.create_or_patch_bmc endpoint.metadata.name (set_bmc endpoint secret m))
        (env.create_or_patch_bmc endpoint.metadata.name (set_bmc endpoint secret m)))

  unfoldable pub client_options : EndpointObject → MacPrefix → Credential → BmcOptions
  unfolding get_protocol
  client_options endpoint m credential = record {
    endpoint = get_protocol insecure <> ("://" <> env.join_host_port endpoint.ip m.port);
    username = credential.username;
    password = credential.password;
    basic_auth = true;
  }

  unfoldable pub connect : ClientKind → BmcOptions → EndpointProgram (Unit {0})
  unfolding perform
  connect kind options = perform (EndpointCall.connect kind options) (env.connect kind options)

  unfoldable pub apply_bmc_and :
      EndpointObject
      → MacPrefix
      → EndpointProgram (Unit {0})
      → BmcSecret
      → EndpointProgram (Unit {0})
  unfolding wrap apply_bmc ◌>>=◌
  apply_bmc_and endpoint m go_on secret =
      wrap "failed to apply BMC object" (apply_bmc endpoint secret m) >>= λ b. go_on

  -- The secret, the BMC, and the rest of the function, `go_on`.
  unfoldable pub apply_both :
      EndpointObject
      → MacPrefix
      → Credential
      → EndpointProgram (Unit {0})
      → EndpointProgram (Unit {0})
  unfolding wrap apply_bmc_secret apply_bmc_and ◌>>=◌
  apply_both endpoint m credential go_on =
      wrap "failed to apply BMCSecret" (apply_bmc_secret endpoint credential)
      >>= apply_bmc_and endpoint m go_on

  -- One case of the switch: the three are alike but for the client.
  unfoldable pub adopt :
      EndpointObject
      → MacPrefix
      → Credential
      → EndpointProgram (Unit {0})
      → ClientKind
      → EndpointProgram (Unit {0})
  unfolding connect client_options wrap deferring apply_both ◌>>=◌ ◌>>◌
  adopt endpoint m credential go_on kind = do
    wrap "failed to create BMC client" (connect kind (client_options endpoint m credential))
    deferring EndpointCall.log_out (apply_both endpoint m credential go_on)

  unfoldable pub adopt_with_first :
      EndpointObject
      → MacPrefix
      → EndpointProgram (Unit {0})
      → List Credential
      → EndpointProgram (Unit {0})
  unfolding raise optional protocol_client adopt
  adopt_with_first endpoint m go_on [] =
      raise (Err.failed ("no default credentials present for BMC " <> endpoint.mac_address))
  adopt_with_first endpoint m go_on (credential ∷ credentials) =
      optional (protocol_client m.protocol) go_on (adopt endpoint m credential go_on)

  -- The loop over the prefixes.
  unfoldable pub adopt_all : EndpointObject → List MacPrefix → EndpointProgram (Unit {0})
  unfolding pure matches adopt_with_first
  adopt_all endpoint [] = pure tt
  adopt_all endpoint (m ∷ prefixes) =
      let rest = adopt_all endpoint prefixes in
      if matches endpoint m then adopt_with_first endpoint m rest m.default_credentials else rest

  unfoldable pub delete_endpoint : EndpointObject → EndpointProgram (Unit {0})
  unfolding perform pure ◌>>=◌
  delete_endpoint endpoint =
      perform (EndpointCall.ensure_no_finalizer endpoint.metadata.name endpoint_finalizer)
        (env.ensure_no_finalizer endpoint endpoint_finalizer)
      >>= λ modified. pure tt

  unfoldable pub reconcile_endpoint : List MacPrefix → EndpointObject → EndpointProgram (Unit {0})
  unfolding should_ignore_reconciliation pure adopt_all
  reconcile_endpoint prefixes endpoint =
      if should_ignore_reconciliation endpoint.metadata
      then pure tt
      else adopt_all endpoint prefixes

  unfoldable pub reconcile_existing_endpoint :
      List MacPrefix → EndpointObject → EndpointProgram (Unit {0})
  unfolding delete_endpoint reconcile_endpoint
  reconcile_existing_endpoint prefixes endpoint =
      if is_deleted endpoint.metadata
      then delete_endpoint endpoint
      else reconcile_endpoint prefixes endpoint

  -- Reconcile, for the endpoint of a name; `client.IgnoreNotFound` on the error of the read.
  unfoldable pub endpoint_found :
      List MacPrefix → Result EndpointObject → EndpointProgram (Unit {0})
  unfolding reconcile_existing_endpoint is_not_found pure raise
  endpoint_found prefixes (Result.ok endpoint) = reconcile_existing_endpoint prefixes endpoint
  endpoint_found prefixes (Result.err e) = if is_not_found e then pure tt else raise e

  unfoldable pub reconcile : List MacPrefix → String → EndpointProgram (Unit {0})
  unfolding attempt perform endpoint_found ◌>>=◌
  reconcile prefixes name =
      attempt (perform (EndpointCall.get_endpoint name) (env.get_endpoint name))
      >>= endpoint_found prefixes
