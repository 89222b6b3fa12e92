-- ===== src/BmcUtils/Laws.antt =====
-- Which address, secret and protocol a BMC client is made from.
use metal_operator.Base.{
  String, ◌≡◌, refl, ◌<>◌, eq_iff, if◌then◌else◌, ◌⊎◌, inl, inr, Bool, Option, none, some, Dict,
  lookup, arith,
}
use metal_operator.Api.Meta.{LocalObjectReference}
use metal_operator.Effects.{Result, Err, wrap_result}
use metal_operator.EndpointWebhook.Validator.{Endpoint}
use metal_operator.BmcUtils.Clients.{
  InlineEndpoint, BmcSpec, ClientKind, BmcOptions, Directory, next, get_password,
  get_bmc_credentials_from_secret, client_kind, inline_address, referenced_address, first_address,
  get_bmc_address_for_bmc, client_address, client_options, create_bmc_client,
  get_bmc_client_from_bmc,
}

-- Both an endpoint reference and an inline endpoint, with an existing endpoint: the inline address
-- for the client, and the address of the endpoint for others.
pub record Disagreement {C : Type 0} (d : Directory C) (b : BmcSpec) : Type 0 where
  pub ref : LocalObjectReference
  pub inline : InlineEndpoint
  pub endpoint : Endpoint
  pub by_reference : b.endpoint_ref ≡ some ref
  pub by_value : b.endpoint ≡ some inline
  pub found : d.get_endpoint ref.name ≡ Result.ok endpoint
  pub client : client_address d b ≡ Result.ok inline.ip
  pub others : get_bmc_address_for_bmc d b ≡ Result.ok endpoint.ip

-- The address that a client is made with is the one that GetBMCAddressForBMC computes, errors
-- included, except where the BMC has both an endpoint reference and an inline endpoint and the
-- referenced endpoint exists: then the client gets the inline address, and GetBMCAddressForBMC
-- answers the address of the endpoint.
pub client_address_lem :
    {C : Type 0} (d : Directory C) (b : BmcSpec)
    → (client_address d b ≡ get_bmc_address_for_bmc d b) ⊎ Disagreement d b
unfolding client_address get_bmc_address_for_bmc first_address inline_address referenced_address
    next
client_address_lem {C} d b = go b.endpoint_ref b.endpoint refl refl
  where
    found_or_not :
        (ref : LocalObjectReference) (inline : InlineEndpoint) (x : Result Endpoint)
        → b.endpoint_ref ≡ some ref
        → b.endpoint ≡ some inline
        → d.get_endpoint ref.name ≡ x
        → (client_address d b ≡ get_bmc_address_for_bmc d b) ⊎ Disagreement d b
    found_or_not ref inline (Result.ok e) p q f = inr (record {
      ref = ref;
      inline = inline;
      endpoint = e;
      by_reference = p;
      by_value = q;
      found = f;
      client = simp (p, q, f) refl;
      others = simp (p, f) refl;
    })
    found_or_not ref inline (Result.err e) p q f = inl (simp (p, q, f) refl)

    one_of_them :
        (ref : LocalObjectReference) (x : Result Endpoint)
        → b.endpoint_ref ≡ some ref
        → b.endpoint ≡ none
        → d.get_endpoint ref.name ≡ x
        → client_address d b ≡ get_bmc_address_for_bmc d b
    one_of_them ref (Result.ok e) p q f = simp (p, q, f) refl
    one_of_them ref (Result.err e) p q f = simp (p, q, f) refl

    go :
        (r : Option LocalObjectReference) (i : Option InlineEndpoint)
        → b.endpoint_ref ≡ r
        → b.endpoint ≡ i
        → (client_address d b ≡ get_bmc_address_for_bmc d b) ⊎ Disagreement d b
    go none i p q = inl (simp p refl)
    go (some ref) none p q = inl (one_of_them ref (d.get_endpoint ref.name) p q refl)
    go (some ref) (some inline) p q = found_or_not ref inline (d.get_endpoint ref.name) p q refl

-- The protocol name for which the client of a kind stands.
abbrev pub protocol_name : ClientKind → String
protocol_name ClientKind.redfish = "Redfish"
protocol_name ClientKind.redfish_local = "RedfishLocal"
protocol_name ClientKind.redfish_kube = "RedfishKube"

kind-protocol_name :
    (name : String) (kind : ClientKind)
    → client_kind name ≡ Result.ok kind
    → name ≡ protocol_name kind
unfolding client_kind
kind-protocol_name name ClientKind.redfish e = ground (arith, eq_iff name "Redfish")
kind-protocol_name name ClientKind.redfish_local e = ground (arith, eq_iff name "RedfishLocal")
kind-protocol_name name ClientKind.redfish_kube e = ground (arith, eq_iff name "RedfishKube")

-- The address of a BMC: a referenced endpoint must exist, and its address counts if the resource
-- has no endpoint of its own; with neither, the address is empty.
abbrev pub IsAddress :
    {C : Type 0}
    → Directory C
    → Option LocalObjectReference
    → Option InlineEndpoint
    → String
    → Type 0
IsAddress d none none address = address ≡ ""
IsAddress d none (some inline) address = address ≡ inline.ip
IsAddress d (some ref) none address =
    (e : Endpoint) × (d.get_endpoint ref.name ≡ Result.ok e) × (address ≡ e.ip)
IsAddress d (some ref) (some inline) address =
    (e : Endpoint) × (d.get_endpoint ref.name ≡ Result.ok e) × (address ≡ inline.ip)

client_address-IsAddress :
    {C : Type 0} (d : Directory C) (b : BmcSpec) (address : String)
    → client_address d b ≡ Result.ok address
    → IsAddress d b.endpoint_ref b.endpoint address
unfolding client_address inline_address referenced_address next
client_address-IsAddress d b address h = go b.endpoint_ref b.endpoint h
  where
    found :
        (i : Option InlineEndpoint) (ref : LocalObjectReference) (x : Result Endpoint)
        → d.get_endpoint ref.name ≡ x
        → next
            (next (wrap_result "failed to get Endpoints for BMC" x) (λ e. Result.ok e.ip))
            (λ a. Result.ok (inline_address d i a))
          ≡ Result.ok address
        → IsAddress d (some ref) i address
    found none ref (Result.ok e) q h = (e, q, ground arith)
    found (some inline) ref (Result.ok e) q h = (e, q, ground arith)
    found i ref (Result.err f) q h = absurd (ground arith)

    go :
        (r : Option LocalObjectReference) (i : Option InlineEndpoint)
        → next (referenced_address d r) (λ a. Result.ok (inline_address d i a)) ≡ Result.ok address
        → IsAddress d r i address
    go none none h = ground arith
    go none (some inline) h = ground arith
    go (some ref) i h = found i ref (d.get_endpoint ref.name) refl h

-- A client made for a BMC, and what it was made from.
pub record MadeFor {C : Type 0} (d : Directory C) (insecure : Bool) (options : BmcOptions)
    (b : BmcSpec) (c : C) : Type 0 where
  pub address : String
  pub secret : Dict String
  pub username : String
  pub password : String
  pub kind : ClientKind
  pub at : IsAddress d b.endpoint_ref b.endpoint address
  pub secret_read : d.get_bmc_secret b.bmc_secret_ref.name ≡ Result.ok secret
  pub username_read : lookup "username" secret ≡ some username
  pub password_read : lookup "password" secret ≡ some password
  pub kind_known : b.protocol.name ≡ protocol_name kind
  pub made :
      d.new_client kind (record {
        endpoint =
            (if insecure then "http" else "https")
            <> ("://" <> d.join_host_port address b.protocol.port);
        username = username;
        password = password;
        basic_auth = options.basic_auth;
      })
      ≡ Result.ok c

module _ {C : Type 0} (d : Directory C) (insecure : Bool) (options : BmcOptions) (b : BmcSpec)
    (c : C) where
  -- The client constructor answered.
  constructed : (m : String) (x : Result C) → wrap_result m x ≡ Result.ok c → x ≡ Result.ok c
  constructed m (Result.ok a) e = e
  constructed m (Result.err f) e = ground arith

  credentials_read :
      (secret : Dict String) (k : String × String → Result C)
      → next
          (wrap_result "failed to get credentials from BMC secret"
            (get_bmc_credentials_from_secret secret))
          k
        ≡ Result.ok c
      → (username : String) × (password : String) × (lookup "username" secret ≡ some username)
        × (lookup "password" secret ≡ some password)
        × (k (username, password) ≡ Result.ok c)
  unfolding get_bmc_credentials_from_secret get_password next
  credentials_read secret k e = go (lookup "username" secret) (lookup "password" secret) refl refl e
    where
      go :
          (u p : Option String)
          → lookup "username" secret ≡ u
          → lookup "password" secret ≡ p
          → next
              (wrap_result "failed to get credentials from BMC secret" (elim u [
                | none ↦ Result.err (Err.failed "no username found in the BMC secret")
                | some username ↦ elim p [
                  | none ↦ Result.err (Err.failed "no password found in the BMC secret")
                  | some password ↦ Result.ok (username, password)
                ]
              ]))
              k
            ≡ Result.ok c
          → (username : String) × (password : String) × (lookup "username" secret ≡ some username)
            × (lookup "password" secret ≡ some password)
            × (k (username, password) ≡ Result.ok c)
      go none p q r e = ground arith
      go (some u) none q r e = ground arith
      go (some u) (some p) q r e = (u, p, q, r, e)

  secret_and_kind :
      (address : String) (secret : Dict String) (x : Result ClientKind)
      → client_address d b ≡ Result.ok address
      → d.get_bmc_secret b.bmc_secret_ref.name ≡ Result.ok secret
      → client_kind b.protocol.name ≡ x
      → next x (λ kind.
        next
          (wrap_result "failed to get credentials from BMC secret"
            (get_bmc_credentials_from_secret secret))
          λ credentials. wrap_result "failed to create Redfish client" (
            d.new_client kind
              (client_options d insecure address b.protocol.port options credentials)))
        ≡ Result.ok c
      → MadeFor d insecure options b c
  unfolding next client_options
  secret_and_kind address secret (Result.err f) p q r e = ground arith
  secret_and_kind address secret (Result.ok kind) p q r e =
      let (username, password, u, w, k) = credentials_read secret _ e in
      record {
        address = address;
        secret = secret;
        username = username;
        password = password;
        kind = kind;
        at = client_address-IsAddress d b address p;
        secret_read = q;
        username_read = u;
        password_read = w;
        kind_known = kind-protocol_name b.protocol.name kind r;
        made = constructed "failed to create Redfish client" _ k;
      }

  address_and_secret :
      (x : Result String) (y : Result (Dict String))
      → client_address d b ≡ x
      → d.get_bmc_secret b.bmc_secret_ref.name ≡ y
      → next x (λ address. next (wrap_result "failed to get BMC secret" y) λ secret.
        create_bmc_client d insecure b.protocol.name address b.protocol.port secret options)
        ≡ Result.ok c
      → MadeFor d insecure options b c
  unfolding next create_bmc_client
  address_and_secret (Result.err f) y p q e = ground arith
  address_and_secret (Result.ok address) (Result.err f) p q e = ground arith
  address_and_secret (Result.ok address) (Result.ok secret) p q e =
      secret_and_kind address secret (client_kind b.protocol.name) p q refl e

  -- A client of a BMC resource was made by the constructor that stands for the name of the
  -- resource's protocol, with http or https, the address and the port in the endpoint, and with the
  -- user name and the password that the secret of the resource has. The address is the one of the
  -- inline endpoint, or else the one of the referenced endpoint, or else empty; a referenced
  -- endpoint was found in any case.
  pub get_bmc_client_from_bmc-MadeFor :
      get_bmc_client_from_bmc d insecure options b ≡ Result.ok c → MadeFor d insecure options b c
  unfolding get_bmc_client_from_bmc
  get_bmc_client_from_bmc-MadeFor e =
      address_and_secret (client_address d b) (d.get_bmc_secret b.bmc_secret_ref.name) refl refl e
