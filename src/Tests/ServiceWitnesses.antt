-- ===== src/Tests/ServiceWitnesses.antt =====
-- The theorems on the registry, the webhook and the clients of BMCs, at small inputs.
use metal_operator.Base.{
  true, ◌≡◌, ◌≢◌, refl, ◌↔◌, ◌⊎◌, none, some, [], ◌∷◌, List, lookup, All, ==-false,
}
use metal_operator.Effects.{Result}
use metal_operator.Effects.Env.{RegistryServer}
use metal_operator.Registry.Server.{
  Codec, Route, Request, answer, not_found_response, serve, serve_all,
}
use metal_operator.Registry.Laws.{known_after, lookup-serve_all, register-systems, delete-systems}
use metal_operator.BmcUtils.Clients.{
  BmcSpec, BmcOptions, Directory, next, get_password, get_bmc_credentials_from_secret, client_kind,
  inline_address, referenced_address, get_bmc_address_for_bmc, client_address, client_options,
  create_bmc_client, get_bmc_client_from_bmc,
}
use metal_operator.BmcUtils.Laws.{
  Disagreement, MadeFor, client_address_lem, get_bmc_client_from_bmc-MadeFor,
}
use metal_operator.EndpointWebhook.Validator.{
  Endpoint, Verdict, validate_create, validate_update, duplicates_of_new,
  validate_mac_address_create, verdict,
}
use metal_operator.EndpointWebhook.Uniqueness.{
  IsUnique, Reachable, Step, Reachable-IsUnique, validate_lem,
}

abbrev machine : RegistryServer
machine = record {
  network_interfaces = record { name = "eth0"; ip_address = "10.0.0.1"; mac_address = "aa" } ∷ [];
}

-- A codec that knows one payload.
abbrev codec : Codec
codec = record {
  decode = λ t. Result.ok (record { system_uuid = t; server = machine });
  encode = λ s. Result.ok "machine";
  error_text = λ e. "error";
}

abbrev requests : List Request
requests =
    record { method = "POST"; route = Route.register; body = "sys" }
    ∷ record { method = "DELETE"; route = Route.delete "other"; body = "" }
    ∷ []

lookup-serve_all_example :
    lookup "sys" (serve_all codec requests []) ≡ known_after codec requests "sys" none
lookup-serve_all_example = lookup-serve_all codec requests [] "sys"

register-systems_example :
    (serve codec
      (record { method = "GET"; route = Route.systems "sys"; body = "" })
      (serve codec (record { method = "POST"; route = Route.register; body = "sys" }) []).1).0
    ≡ answer 200 "machine"
register-systems_example =
    register-systems codec "sys" "machine" (record { system_uuid = "sys"; server = machine }) []
      refl refl

delete-systems_example :
    ((some machine ≡ none)
      × (serve codec
            (record { method = "DELETE"; route = Route.delete "sys"; body = "" })
            (("sys", machine) ∷ [])
          ≡ (not_found_response, ("sys", machine) ∷ [])))
    ⊎ (((serve codec
            (record { method = "DELETE"; route = Route.delete "sys"; body = "" })
            (("sys", machine) ∷ [])).0
          ≡ answer 200 "")
        × ((serve codec
              (record { method = "GET"; route = Route.systems "sys"; body = "" })
              (serve codec
                (record { method = "DELETE"; route = Route.delete "sys"; body = "" })
                (("sys", machine) ∷ [])).1).0
            ≡ not_found_response))
delete-systems_example = delete-systems codec "sys" (("sys", machine) ∷ [])

abbrev bmc_a : Endpoint
bmc_a = record { name = "a"; mac_address = "aa"; ip = "10.0.0.1" }

abbrev bmc_b : Endpoint
bmc_b = record { name = "b"; mac_address = "bb"; ip = "10.0.0.2" }

admits_a : validate_create (Result.ok []) bmc_a ≡ Verdict.admitted
unfolding validate_create validate_mac_address_create duplicates_of_new verdict
admits_a = refl

admits_b : validate_create (Result.ok (bmc_a ∷ [])) bmc_b ≡ Verdict.admitted
unfolding validate_create validate_mac_address_create duplicates_of_new verdict
admits_b = refl

b_is_new : All (λ e. bmc_b.name ≢ e.name) (bmc_a ∷ [])
b_is_new = (==-false "b" "a" refl, tt)

two-Reachable : Reachable (bmc_b ∷ bmc_a ∷ [])
two-Reachable =
    Reachable.next (Reachable.next Reachable.start (Step.created bmc_a tt admits_a))
      (Step.created bmc_b b_is_new admits_b)

Reachable-IsUnique_example : IsUnique (bmc_b ∷ bmc_a ∷ [])
Reachable-IsUnique_example = Reachable-IsUnique (bmc_b ∷ bmc_a ∷ []) two-Reachable

validate_lem_example :
    ((validate_create (Result.ok (bmc_a ∷ [])) bmc_b ≡ Verdict.admitted)
      ↔ All (λ f. f.mac_address ≢ "bb") (bmc_a ∷ []))
    × ((validate_update (Result.ok (bmc_a ∷ [])) bmc_b ≡ Verdict.admitted)
        ↔ All (λ f. f.mac_address ≡ "bb" → f.name ≡ "b") (bmc_a ∷ []))
validate_lem_example = validate_lem (bmc_a ∷ []) bmc_b

-- A directory of one BMC, which has an endpoint and an inline address; a client is its options.
abbrev access : BmcSpec
access = record {
  endpoint_ref = some (record { name = "a" });
  endpoint = some (record { mac_address = "aa"; ip = "10.0.0.9" });
  bmc_secret_ref = record { name = "secret" };
  console_protocol = none;
  protocol = record { name = "Redfish"; port = 8000 };
}

abbrev directory : Directory BmcOptions
directory = record {
  get_bmc = λ n. Result.ok access;
  get_endpoint = λ n. Result.ok bmc_a;
  get_bmc_secret = λ n. Result.ok (("username", "u") ∷ ("password", "p") ∷ []);
  join_host_port = λ host port. host;
  new_client = λ kind options. Result.ok options;
}

abbrev default_options : BmcOptions
default_options = record { endpoint = ""; username = ""; password = ""; basic_auth = true }

abbrev made_options : BmcOptions
made_options = record {
  endpoint = "http://10.0.0.9";
  username = "u";
  password = "p";
  basic_auth = true;
}

client_address_lem_example :
    (client_address directory access ≡ get_bmc_address_for_bmc directory access)
    ⊎ Disagreement directory access
client_address_lem_example = client_address_lem directory access

run_client : get_bmc_client_from_bmc directory true default_options access ≡ Result.ok made_options
unfolding get_bmc_client_from_bmc next client_address referenced_address inline_address
    create_bmc_client client_kind get_bmc_credentials_from_secret get_password client_options
run_client = refl

get_bmc_client_from_bmc-MadeFor_example : MadeFor directory true default_options access made_options
get_bmc_client_from_bmc-MadeFor_example =
    get_bmc_client_from_bmc-MadeFor directory true default_options access made_options run_client
