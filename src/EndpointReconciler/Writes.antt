-- ===== src/EndpointReconciler/Writes.antt =====
-- What the endpoint controller may write.
use text.Mathlib.Text.{starts_with}
use metal_operator.Base.{
  String, ◌<>◌, ◌≡◌, refl, Bool, true, false, ◌&&◌, ◌==◌, some, List, [], ◌∷◌, Any, eq_iff, arith,
  if◌then◌else◌,
}
use metal_operator.Effects.{Result}
use metal_operator.Api.Meta.{ObjectMeta}
use metal_operator.BmcUtils.Clients.{BmcOptions, ClientKind, next}
use metal_operator.EndpointReconciler.World.{
  EndpointObject, BmcSecret, BmcObject, MacPrefix, Credential, EndpointCall, EndpointHistory,
  EndpointEnv,
}
use metal_operator.EndpointReconciler.Reconcile.{matches, protocol_client, set_secret, set_bmc}

module _ (env : EndpointEnv) (insecure : Bool) (prefixes : List MacPrefix)
    (endpoint : EndpointObject) where
  -- The name of the protocol that a kind of client speaks.
  abbrev pub Speaks : ClientKind → String → Type 0
  Speaks ClientKind.redfish name = name ≡ "Redfish"
  Speaks ClientKind.redfish_local name = name ≡ "RedfishLocal"
  Speaks ClientKind.redfish_kube name = name ≡ "RedfishKube"

  -- A client for the address of the endpoint and the port of the prefix, with a credential.
  abbrev pub offered : MacPrefix → Credential → BmcOptions
  offered m credential = record {
    endpoint =
        (if insecure then "http" else "https") <> ("://" <> env.join_host_port endpoint.ip m.port);
    username = credential.username;
    password = credential.password;
    basic_auth = true;
  }

  -- A secret of the endpoint with the user name and the password of a credential.
  abbrev pub secured : Credential → Result ObjectMeta → Result BmcSecret
  secured credential (Result.err e) = Result.err e
  secured credential (Result.ok metadata) = Result.ok (record {
    metadata = metadata;
    content = ("username", credential.username) ∷ ("password", credential.password) ∷ [];
  })

  -- A BMC of the endpoint, with a secret, and the protocol and the console of a prefix.
  abbrev pub accessed : BmcSecret → MacPrefix → BmcObject → Result ObjectMeta → Result BmcObject
  accessed secret m b (Result.err e) = Result.err e
  accessed secret m b (Result.ok metadata) = Result.ok (record b {
    metadata = metadata;
    spec = record b.spec {
      endpoint_ref = some (record { name = endpoint.metadata.name });
      bmc_secret_ref = record { name = secret.metadata.name };
      protocol = record { name = m.protocol; port = m.port };
      console_protocol = some (record { name = m.console.type; port = m.console.port });
    };
  })

  abbrev pub SetsSecret : Credential → (BmcSecret → Result BmcSecret) → Type 0
  SetsSecret credential f =
      (s : BmcSecret)
      → f s ≡ secured credential (env.set_controller_reference endpoint.metadata s.metadata)

  abbrev pub SetsBmc : BmcSecret → MacPrefix → (BmcObject → Result BmcObject) → Type 0
  SetsBmc secret m f =
      (b : BmcObject)
      → f b ≡ accessed secret m b (env.set_controller_reference endpoint.metadata b.metadata)

  -- The prefix is in the database and is one of a BMC with the MAC address of the endpoint; the
  -- credential is the first of the prefix, whose protocol has a client of this kind.
  pub record IsChosen (m : MacPrefix) (credential : Credential) (kind : ClientKind) : Type 0 where
    pub known : Any (λ x. x ≡ m) prefixes
    pub prefix : starts_with (env.without_colons endpoint.mac_address) m.mac_prefix ≡ true
    pub of_bmc : m.type ≡ "bmc"
    pub others : List Credential
    pub first : m.default_credentials ≡ credential ∷ others
    pub protocol : Speaks kind m.protocol

  -- A client of the chosen kind was connected at this history, with the chosen credential.
  abbrev pub IsConnected :
      MacPrefix → Credential → ClientKind → EndpointHistory → EndpointHistory → Type 0
  IsConnected m credential kind before h =
      (h ≡ EndpointCall.connect kind (offered m credential) ∷ before)
      × (env.connect kind (offered m credential) before ≡ Result.ok tt)

  -- A write is of the name of the endpoint and has the content for a chosen prefix. The secret is
  -- written right after a client was connected, the BMC right after the secret that it names.
  abbrev pub IsJustified : EndpointCall → EndpointHistory → Type 0
  IsJustified (EndpointCall.create_or_patch_secret name f) h =
      (m : MacPrefix) × (credential : Credential) × (kind : ClientKind) × IsChosen m credential kind
      × (name ≡ endpoint.metadata.name)
      × SetsSecret credential f
      × ((before : EndpointHistory) × IsConnected m credential kind before h)
  IsJustified (EndpointCall.create_or_patch_bmc name f) h =
      (m : MacPrefix) × (credential : Credential) × (kind : ClientKind) × (secret : BmcSecret)
      × (before : EndpointHistory) × (g : BmcSecret → Result BmcSecret) × IsChosen m credential kind
      × (name ≡ endpoint.metadata.name)
      × SetsBmc secret m f
      × SetsSecret credential g
      × (h ≡ EndpointCall.create_or_patch_secret name g ∷ before)
      × (env.create_or_patch_secret name g before ≡ Result.ok secret)
  IsJustified _ h = Unit

  pub set_secret-secured :
      (credential : Credential)
      → SetsSecret credential (set_secret env insecure endpoint credential)
  unfolding set_secret next
  set_secret-secured credential s = go (env.set_controller_reference endpoint.metadata s.metadata)
    where
      go :
          (x : Result ObjectMeta)
          → next x (λ metadata. Result.ok (record {
            metadata = metadata;
            content = ("username", credential.username) ∷ ("password", credential.password) ∷ [];
          }))
            ≡ secured credential x
      go (Result.ok metadata) = refl
      go (Result.err e) = refl

  pub set_bmc-accessed :
      (secret : BmcSecret) (m : MacPrefix)
      → SetsBmc secret m (set_bmc env insecure endpoint secret m)
  unfolding set_bmc next
  set_bmc-accessed secret m b = go (env.set_controller_reference endpoint.metadata b.metadata)
    where
      go :
          (x : Result ObjectMeta)
          → next x (λ metadata. Result.ok (record b {
            metadata = metadata;
            spec = record b.spec {
              endpoint_ref = some (record { name = endpoint.metadata.name });
              bmc_secret_ref = record { name = secret.metadata.name };
              protocol = record { name = m.protocol; port = m.port };
              console_protocol = some (record { name = m.console.type; port = m.console.port });
            };
          }))
            ≡ accessed secret m b x
      go (Result.ok metadata) = refl
      go (Result.err e) = refl

  pub protocol_client-Speaks :
      (kind : ClientKind) (name : String) → protocol_client name ≡ some kind → Speaks kind name
  unfolding protocol_client
  protocol_client-Speaks ClientKind.redfish name e = ground (arith, eq_iff name "Redfish")
  protocol_client-Speaks ClientKind.redfish_local name e =
      ground (arith, eq_iff name "RedfishLocal")
  protocol_client-Speaks ClientKind.redfish_kube name e = ground (arith, eq_iff name "RedfishKube")

  pub matches-prefix :
      (m : MacPrefix)
      → matches env insecure endpoint m ≡ true
      → (starts_with (env.without_colons endpoint.mac_address) m.mac_prefix ≡ true)
        × (m.type ≡ "bmc")
  unfolding matches
  matches-prefix m t = go (starts_with (env.without_colons endpoint.mac_address) m.mac_prefix) t
    where
      go : (b : Bool) → (b && (m.type == "bmc")) ≡ true → (b ≡ true) × (m.type ≡ "bmc")
      go true t = (refl, (eq_iff m.type "bmc").0 t)
      go false t = absurd (ground arith)
