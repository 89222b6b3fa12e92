-- ===== src/BmcReconciler/Discovery.antt =====
-- The servers that the BMC controller writes, and the systems that they stand for.
use mathlib.Core.Path.{subst}
use metal_operator.Base.{
  ℕ, zero, suc, ◌+◌, ◌≡◌, refl, inl, inr, String, Bool, ◌==◌, Bool-cases, Option, some, none, List,
  [], ◌∷◌, ◌<>◌, get_elem?, eq_iff, arith,
}
use metal_operator.Api.Server.{Server}
use metal_operator.Effects.{Err, Result, is_not_found, pure, raise, perform, attempt}
use metal_operator.Effects.Keeps.{
  Keeps, Steps, Anything, Keeps-pure, Keeps-raise, Keeps-if, Keeps-optional, Keeps-perform,
  Keeps-deferring, Keeps-wrap, Keeps-bind, Keeps-then, Keeps-ignoring,
}
use metal_operator.Effects.Rules.{Keeps-bind_any, Keeps-attempt_any}
use metal_operator.Api.Meta.{ObjectMeta, is_deleted}
use metal_operator.ServerReconciler.Config.{should_ignore_reconciliation}
use metal_operator.BmcUtils.Clients.{BmcOptions, get_bmc_client_from_bmc, next}
use metal_operator.Redfish.Service.{ComputerSystem}
use metal_operator.Redfish.Client.{BmcServer, Manager, find_system, server_of_system}
use metal_operator.EndpointReconciler.World.{BmcObject}
use metal_operator.BmcReconciler.World.{BmcCall, BmcHistory, BmcClient, BmcEnv, EndpointAddress}
use metal_operator.BmcReconciler.Reconcile.{
  get_server_name_from_bmc_and_index, with_manager, with_address, patch_status, connect,
  patch_manager, update_from_manager, patch_address, with_endpoint, update_bmc_status_details,
  set_server, apply_servers, discover_servers, delete_bmc, discover_if_found, reconcile_bmc,
  reconcile_existing_bmc,
}

module _ (env : BmcEnv) (insecure : Bool) (options : BmcOptions) where
  -- The system at the index of a listing by a client that was made for the BMC.
  pub record IsListed (b : BmcObject) (i : ℕ) (system : BmcServer) : Type 0 where
    pub made : BmcHistory
    pub client : BmcClient
    pub connected :
        get_bmc_client_from_bmc (env.directory made) insecure options b.spec ≡ Result.ok client
    pub asked : BmcHistory
    pub systems : List BmcServer
    pub answered : client.get_systems asked ≡ Result.ok systems
    pub place : get_elem? systems i ≡ some system

  -- The versions of a BMC in a reconciliation: the BMC itself, and what the API server answered to
  -- a patch of a version that changes its status only.
  pub data IsVersion (b0 : BmcObject) : BmcObject → Type 0 where
    first : IsVersion b0 b0
    patched :
        {base new b : BmcObject} {h : BmcHistory}
        → IsVersion b0 base
        → new.metadata ≡ base.metadata
        → new.spec ≡ base.spec
        → env.patch_status base new h ≡ Result.ok b
        → IsVersion b0 b

  -- What discovery makes of a server, with the metadata that a controller reference leaves.
  abbrev pub discovered : BmcObject → BmcServer → Server → Result ObjectMeta → Result Server
  discovered b system s (Result.err e) = Result.err e
  discovered b system s (Result.ok metadata) = Result.ok (record s {
    metadata = metadata;
    spec = record s.spec {
      uuid = env.to_lower system.uuid;
      system_uuid = env.to_lower system.uuid;
      bmc_ref = some (record { name = b.metadata.name });
    };
  })

module _ (env : BmcEnv) (insecure : Bool) (options : BmcOptions) (given : BmcObject) where
  -- A server is written under the name of its BMC and of the index of a listed system, and with
  -- what discovery sets for that system.
  abbrev pub IsDiscovery : BmcCall → BmcHistory → Type 0
  IsDiscovery (BmcCall.create_or_patch_server name f) h =
      (b : BmcObject) × (i : ℕ) × (system : BmcServer) × IsListed env insecure options b i system
      × IsVersion env insecure options given b
      × (name ≡ b.metadata.name <> ("-system-" <> env.decimal i))
      × ((s : Server)
          → f s
            ≡ discovered env insecure options b system s (
                env.set_controller_reference b.metadata
                  (env.set_labels b.metadata.labels s.metadata)))
  IsDiscovery _ h = Unit

  abbrev J : BmcHistory → Type 0
  J = Steps IsDiscovery

  -- A version of the BMC that is reconciled.
  abbrev Version : BmcObject → Type 0
  Version = IsVersion env insecure options given

  connects :
      (b : BmcObject)
      → Keeps J (connect env insecure options b) (λ client.
        (h : BmcHistory) × (get_bmc_client_from_bmc (env.directory h) insecure options b.spec
          ≡ Result.ok client))
  unfolding connect
  connects b = Keeps-wrap _ _ (Keeps-perform _ _ (λ h j. (tt, j)) (λ h a e. (h, e)))

  patches :
      (base new : BmcObject)
      → Version base
      → new.metadata ≡ base.metadata
      → new.spec ≡ base.spec
      → Keeps J (patch_status env insecure options base new) Version
  unfolding patch_status
  patches base new v m s = Keeps-perform _ _ (λ h j. (tt, j)) (λ h a e. IsVersion.patched v m s e)

  manager_patched :
      (b : BmcObject) (m : Option Manager)
      → Version b
      → Keeps J (patch_manager env insecure options b m) Version
  unfolding patch_manager with_manager
  manager_patched b none v = Keeps-pure b v
  manager_patched b (some m) v = patches b _ v refl refl

  manages :
      (b : BmcObject) → Version b → Keeps J (update_from_manager env insecure options b) Version
  unfolding update_from_manager
  manages b v = Keeps-bind _ _ (connects b) λ client c.
      Keeps-deferring BmcCall.log_out _ (λ h j. (tt, j))
        (Keeps-bind_any _ _
          (Keeps-wrap "failed to get manager details" _
            (Keeps-perform BmcCall.get_manager client.get_manager (λ h j. (tt, j)) (λ h a e. tt)))
          (λ m. manager_patched b m v))

  addresses :
      (b : BmcObject) (a : EndpointAddress)
      → Version b
      → Keeps J (patch_address env insecure options b a) Version
  unfolding patch_address with_address
  addresses b a v = Keeps-bind _ _ (Keeps-wrap _ _ (patches b _ v refl refl)) manages

  endpoint_used :
      (b : BmcObject) (r : Result EndpointAddress)
      → Version b
      → Keeps J (with_endpoint env insecure options b r) Version
  unfolding with_endpoint
  endpoint_used b (Result.ok a) v = addresses b a v
  endpoint_used b (Result.err e) v =
      Keeps-if (is_not_found e) (pure b) (raise (Err.wrapped "failed to get Endpoints for BMC" e))
        (λ _. Keeps-pure b v) (λ _. Keeps-raise _)

  updates :
      (b : BmcObject)
      → Version b
      → Keeps J (update_bmc_status_details env insecure options b) Version
  unfolding update_bmc_status_details
  updates b v = Keeps-optional b.spec.endpoint_ref _ _ (addresses b _ v) λ ref e.
      Keeps-bind_any (attempt (perform (BmcCall.get_endpoint ref.name) (env.get_endpoint ref.name)))
        _ (Keeps-attempt_any _ (Keeps-perform _ _ (λ h j. (tt, j)) (λ h a e. tt)))
        (λ r. endpoint_used b r v)

  -- What discovery sets, with the outcome of the controller reference as a value.
  set_server-discovered :
      (b : BmcObject) (system : BmcServer) (s : Server)
      → set_server env insecure options b system s
        ≡ discovered env insecure options b system s
            (env.set_controller_reference b.metadata (env.set_labels b.metadata.labels s.metadata))
  unfolding set_server next
  set_server-discovered b system s =
      go (env.set_controller_reference b.metadata (env.set_labels b.metadata.labels s.metadata))
    where
      go :
          (x : Result ObjectMeta)
          → next x (λ metadata. Result.ok (record s {
            metadata = metadata;
            spec = record s.spec {
              uuid = env.to_lower system.uuid;
              system_uuid = env.to_lower system.uuid;
              bmc_ref = some (record { name = b.metadata.name });
            };
          }))
            ≡ discovered env insecure options b system s x
      go (Result.ok m) = refl
      go (Result.err e) = refl

  applies :
      (b : BmcObject) (i : ℕ) (systems : List BmcServer)
      → Version b
      → ((k : ℕ) (system : BmcServer)
          → get_elem? systems k ≡ some system
          → IsListed env insecure options b (i + k) system)
      → Keeps J (apply_servers env insecure options b i systems) Anything
  unfolding apply_servers get_server_name_from_bmc_and_index
  applies b i [] v l = Keeps-pure tt tt
  applies b i (system ∷ systems) v l =
      Keeps-then _ _
        (Keeps-wrap _ _ (
          Keeps-perform _ _
            (λ h j. (
              (
                b,
                i,
                system,
                subst (λ n. IsListed env insecure options b n system) (omega arith)
                    (l 0 system refl),
                v,
                refl,
                set_server-discovered b system,
              ),
              j,
            ))
            (λ h a e. tt)))
        (applies b (suc i) systems v
          (λ k s e. subst (λ n. IsListed env insecure options b n s) (omega arith) (l (suc k) s e)))

  discovers :
      (b : BmcObject) → Version b → Keeps J (discover_servers env insecure options b) Anything
  unfolding discover_servers
  discovers b v = Keeps-bind _ _ (connects b) λ client (made, c).
      Keeps-deferring BmcCall.log_out _ (λ h j. (tt, j))
        (Keeps-bind {P = λ systems. (h : BmcHistory) × (client.get_systems h ≡ Result.ok systems)} _
          _
          (Keeps-wrap _ _ (
            Keeps-perform BmcCall.get_systems client.get_systems (λ h j. (tt, j))
              (λ h a e. (h, e))))
          (λ systems (asked, e). applies b 0 systems v λ k system g.
            subst (λ n. IsListed env insecure options b n system) (omega arith)
              (record {
                made = made;
                client = client;
                connected = c;
                asked = asked;
                systems = systems;
                answered = e;
                place = g;
              })))

  deletes : (b : BmcObject) → Keeps J (delete_bmc env insecure options b) Anything
  unfolding delete_bmc
  deletes b =
      Keeps-bind_any _ _ (Keeps-perform _ _ (λ h j. (tt, j)) (λ h a e. tt)) (λ m. Keeps-pure tt tt)

  discovers_if_found :
      (b : BmcObject) → Version b → Keeps J (discover_if_found env insecure options b) Anything
  unfolding discover_if_found
  discovers_if_found b v = Keeps-wrap _ _ (Keeps-ignoring _ _ (discovers b v))

  -- The BMC controller writes a server only for a system that a client of the reconciled BMC
  -- listed, under the name of the BMC and the index of the system in the listing, and with the
  -- lower-case UUID of the system as both UUIDs, the labels of the BMC, and the BMC as reference and
  -- owner. The BMC is the one reconciled, as the API server answered it after the patches of its
  -- status, which change nothing else.
  pub reconcile-IsDiscovery : Keeps J (reconcile_existing_bmc env insecure options given) Anything
  unfolding reconcile_existing_bmc reconcile_bmc
  reconcile-IsDiscovery =
      Keeps-if (is_deleted given.metadata) _ _ (λ d. deletes given)
        λ n.
          Keeps-if (should_ignore_reconciliation given.metadata) _ _ (λ i. Keeps-pure tt tt)
            λ i. Keeps-bind _ _ (Keeps-wrap _ _ (updates given IsVersion.first)) discovers_if_found

-- Some system of a listing is found by the UUID of any other, in lower case.
finds :
    (lower : String → String) (uuid : String) (systems : List ComputerSystem) (i : ℕ)
    (system : ComputerSystem)
    → get_elem? systems i ≡ some system
    → lower system.uuid ≡ uuid
    → (found : ComputerSystem) × (find_system lower uuid systems ≡ some found)
      × (lower found.uuid ≡ uuid)
unfolding find_system
finds lower uuid [] i system g e = absurd (ground arith)
finds lower uuid (x ∷ systems) zero system g e =
    (x, ground (arith, eq_iff (lower x.uuid) uuid), ground arith)
finds lower uuid (x ∷ systems) (suc i) system g e = elim (Bool-cases (lower x.uuid == uuid)) [
  | inl t ↦ (x, ground arith, (eq_iff (lower x.uuid) uuid).0 t)
  | inr f ↦
      let (found, here, same) = finds lower uuid systems i system g e in (found, ground arith, same)
]

-- The system that a listing gives for a server that discovery wrote: the client finds one among
-- the listed systems by the UUID of the server, and its lower-case UUID is that UUID.
pub find_system-discovered :
    (env : BmcEnv) (insecure : Bool) (options : BmcOptions) (b : BmcObject)
    (server written : Server) (systems : List ComputerSystem) (i : ℕ) (system : ComputerSystem)
    → get_elem? systems i ≡ some system
    → set_server env insecure options b (server_of_system system) server ≡ Result.ok written
    → (found : ComputerSystem) × (find_system env.to_lower written.spec.system_uuid systems
        ≡ some found)
      × (env.to_lower found.uuid ≡ written.spec.system_uuid)
unfolding set_server server_of_system find_system next
find_system-discovered env insecure options b server written systems i system g w =
    finds env.to_lower written.spec.system_uuid systems i system g (
      written_uuid
        (env.set_controller_reference b.metadata (env.set_labels b.metadata.labels server.metadata))
        w)
  where
    written_uuid :
        (r : Result ObjectMeta)
        → next r (λ metadata. Result.ok (record server {
          metadata = metadata;
          spec = record server.spec {
            uuid = env.to_lower system.uuid;
            system_uuid = env.to_lower system.uuid;
            bmc_ref = some (record { name = b.metadata.name });
          };
        }))
          ≡ Result.ok written
        → env.to_lower system.uuid ≡ written.spec.system_uuid
    written_uuid (Result.ok m) e = ground arith
    written_uuid (Result.err x) e = absurd (ground arith)
