-- ===== src/Tests/ControllerWitnesses.antt =====
-- The theorems on the mover and on the BMC and endpoint controllers, at concrete clusters.
use metal_operator.Base.{
  ◌≡◌, ◌↔◌, refl, Option, String, true, false, ◌==◌, none, some, List, [], ◌∷◌, if◌then◌else◌,
}
use metal_operator.Api.Meta.{ObjectMeta}
use metal_operator.Api.Server.{Server, ServerPowerState, empty_server}
use metal_operator.Effects.{Result, Err}
use metal_operator.Effects.Keeps.{Keeps, Steps, Anything}
use metal_operator.BmcUtils.Clients.{BmcOptions}
use metal_operator.Redfish.Service.{ComputerSystem}
use metal_operator.Redfish.Client.{find_system, server_of_system}
use metal_operator.Move.Cluster.{Cr, MoveCall, Clusters}
use metal_operator.Move.Mover.{move, cleanup}
use metal_operator.Move.CleanUp.{deletions, AllDeleted, cleanup-deletions}
use metal_operator.Move.Copies.{IsSafe}
use metal_operator.Move.Safety.{move-IsSafe}
use metal_operator.EndpointReconciler.World.{EndpointObject, MacPrefix, EndpointEnv, BmcObject}
use metal_operator.EndpointReconciler.Reconcile.{reconcile_existing_endpoint}
use metal_operator.EndpointReconciler.Writes.{IsJustified}
use metal_operator.EndpointReconciler.Justified.{reconcile-IsJustified}
use metal_operator.BmcReconciler.World.{BmcEnv}
use metal_operator.BmcReconciler.Reconcile.{reconcile_existing_bmc, set_server}
use metal_operator.BmcReconciler.Discovery.{
  IsDiscovery, reconcile-IsDiscovery, find_system-discovered,
}
use metal_operator.Probe.Agent.{Host, Agent, ProbeHistory, start}
use metal_operator.Probe.Laws.{PostsOwn, start-PostsOwn}
use metal_operator.Effects.Sessions.{Open}
use metal_operator.BmcReconciler.Sessions.{bmc_sessions, reconcile-Open}
use metal_operator.EndpointReconciler.Sessions.{endpoint_sessions, reconcile_endpoint-Open}
use metal_operator.Tests.Pollers.{three_more}
use metal_operator.Tests.Backoffs.{undisturbed}
use metal_operator.Tests.RedfishWitnesses.{system}

-- A server and its configuration, which it owns.
abbrev cr : String → String → List String → Cr
cr name uid owners = record {
  kind = "Server";
  namespace = "";
  name = name;
  uid = uid;
  resource_version = "7";
  owner_uids = owners;
  status = Result.ok none;
  body = "";
}

-- An empty target cluster at first, which gives its own UIDs; it has what was created.
abbrev has : Cr → List MoveCall → Result Cr
has x [] = Result.err Err.not_found
has x (MoveCall.create_target y ∷ h) =
    let rest = has x h in if y.name == x.name then Result.ok (record y { uid = "new" }) else rest
has x (c ∷ h) = has x h

abbrev clusters : Clusters
clusters = record {
  list_source = λ kind namespace h. Result.ok (cr "s" "1" [] ∷ cr "c" "2" ("1" ∷ []) ∷ []);
  get_target = has;
  create_target = λ x h. Result.ok (record x { uid = "new" });
  update_status_target = λ x h. Result.ok tt;
  delete_target = λ x h. Result.ok tt;
  same_cleared = λ a b. false;
}

-- The owner is created first, and the configuration below it with its new UID.
move_run : move clusters three_more ("Server" ∷ []) "" false [] ≡ (
  Result.ok tt,
  MoveCall.get_target (cr "c" "2" ("1" ∷ []))
      ∷ MoveCall.create_target (record (cr "c" "2" ("new" ∷ [])) { resource_version = "" })
      ∷ MoveCall.get_target (cr "s" "1" [])
      ∷ MoveCall.create_target (record (cr "s" "1" []) { resource_version = "" })
      ∷ MoveCall.get_target (cr "c" "2" ("1" ∷ []))
      ∷ MoveCall.get_target (cr "s" "1" [])
      ∷ MoveCall.list_source "Server" ""
      ∷ [],
)
unfolding move
move_run = refl

move-IsSafe_example :
    Keeps
      (Steps (IsSafe clusters ("Server" ∷ []) "" false))
      (move clusters three_more ("Server" ∷ []) "" false)
      Anything
move-IsSafe_example = move-IsSafe clusters three_more ("Server" ∷ []) "" false

abbrev leftovers : List Cr
leftovers = cr "s" "1" [] ∷ cr "c" "2" ("1" ∷ []) ∷ []

cleanup-deletions_example :
    ((cleanup clusters leftovers none []).1 ≡ deletions leftovers [])
    × (((cleanup clusters leftovers none []).0 ≡ Result.ok none)
        ↔ AllDeleted clusters leftovers [] × (◌≡◌ {A = Option Err} none none))
cleanup-deletions_example = cleanup-deletions clusters leftovers none []

abbrev meta : String → ObjectMeta
meta name = record empty_server.metadata { name = name }

abbrev endpoint : EndpointObject
endpoint = record { metadata = meta "e"; mac_address = "aabbcc"; ip = "10.0.0.1" }

abbrev prefix : MacPrefix
prefix = record {
  mac_prefix = "aabb";
  manufacturer = "m";
  protocol = "Redfish";
  port = 443;
  type = "bmc";
  default_credentials = record { username = "u"; password = "p" } ∷ [];
  console = record { type = "SSH"; port = 22 };
}

abbrev bmc : BmcObject
bmc = record {
  metadata = meta "e";
  spec = record {
    endpoint_ref = some (record { name = "e" });
    endpoint = none;
    bmc_secret_ref = record { name = "e" };
    protocol = record { name = "Redfish"; port = 443 };
    console_protocol = none;
  };
  status = record {
    mac_address = "";
    ip = "";
    manufacturer = "";
    model = "";
    sku = "";
    serial_number = "";
    firmware_version = "";
    state = "";
    power_state = "";
  };
}

abbrev endpoint_env : EndpointEnv
endpoint_env = record {
  get_endpoint = λ n h. Result.ok endpoint;
  ensure_no_finalizer = λ e f h. Result.ok true;
  connect = λ k o h. Result.ok tt;
  create_or_patch_secret = λ n f h. f (record { metadata = meta n; content = [] });
  create_or_patch_bmc = λ n f h. f bmc;
  set_controller_reference = λ owner m. Result.ok m;
  join_host_port = λ a p. a;
  without_colons = λ s. s;
}

reconcile-IsJustified_example :
    Keeps
      (Steps (IsJustified endpoint_env false (prefix ∷ []) endpoint))
      (reconcile_existing_endpoint endpoint_env false (prefix ∷ []) endpoint)
      Anything
reconcile-IsJustified_example = reconcile-IsJustified endpoint_env false (prefix ∷ []) endpoint

abbrev options : BmcOptions
options = record { endpoint = ""; username = ""; password = ""; basic_auth = true }

abbrev bmc_env : BmcEnv
bmc_env = record {
  get_bmc = λ n h. Result.ok bmc;
  ensure_no_finalizer = λ b f h. Result.ok true;
  get_endpoint = λ n h. Result.ok (record { ip = "10.0.0.1"; mac_address = "aabbcc" });
  patch_status = λ base new h. Result.ok new;
  directory = λ h. record {
    get_bmc = λ n. Result.ok bmc.spec;
    get_endpoint = λ n. Result.ok (record { name = n; mac_address = "aabbcc"; ip = "10.0.0.1" });
    get_bmc_secret = λ n. Result.ok (("username", "u") ∷ ("password", "p") ∷ []);
    join_host_port = λ a p. a;
    new_client = λ k o. Result.ok (record {
      get_manager = λ h. Result.ok none;
      get_systems = λ h. Result.ok (server_of_system (system "b" ServerPowerState.off) ∷ []);
    });
  };
  create_or_patch_server = λ n f h. Result.ok tt;
  set_controller_reference = λ owner m. Result.ok m;
  set_labels = λ l m. m;
  to_lower = λ s. s;
  decimal = λ n. "0";
}

reconcile-IsDiscovery_example :
    Keeps
      (Steps (IsDiscovery bmc_env true options bmc))
      (reconcile_existing_bmc bmc_env true options bmc)
      Anything
reconcile-IsDiscovery_example = reconcile-IsDiscovery bmc_env true options bmc

reconcile-Open_example :
    Keeps
      (Open (bmc_sessions bmc_env true options) 0)
      (reconcile_existing_bmc bmc_env true options bmc)
      Anything
reconcile-Open_example = reconcile-Open bmc_env true options 0 bmc

reconcile_endpoint-Open_example :
    Keeps
      (Open (endpoint_sessions endpoint_env false) 0)
      (reconcile_existing_endpoint endpoint_env false (prefix ∷ []) endpoint)
      Anything
reconcile_endpoint-Open_example =
    reconcile_endpoint-Open endpoint_env false endpoint (prefix ∷ []) 0

abbrev systems : List ComputerSystem
systems = system "a" ServerPowerState.on ∷ system "b" ServerPowerState.off ∷ []

abbrev discovered : Server
discovered = record empty_server {
  spec = record empty_server.spec {
    uuid = "b";
    system_uuid = "b";
    bmc_ref = some (record { name = "e" });
  };
}

is_set :
    set_server bmc_env true options bmc
      (server_of_system (system "b" ServerPowerState.off))
      empty_server
    ≡ Result.ok discovered
unfolding set_server server_of_system
is_set = refl

find_system-discovered_example :
    (found : ComputerSystem) × (find_system bmc_env.to_lower discovered.spec.system_uuid systems
      ≡ some found)
    × (bmc_env.to_lower found.uuid ≡ discovered.spec.system_uuid)
find_system-discovered_example =
    find_system-discovered bmc_env true options bmc empty_server discovered systems 1
      (system "b" ServerPowerState.off) refl is_set

-- A host with one Ethernet address, and a loopback interface that is passed over.
abbrev host : Host
host = record {
  interfaces = λ h. Result.ok (
      record {
        name = "lo";
        hardware_addr = "";
        is_loopback = true;
        is_up = true;
        addrs =
            Result.ok (some (record { text = "127.0.0.1"; is_loopback = true; is_v4 = true }) ∷ []);
      }
      ∷ record {
        name = "eth0";
        hardware_addr = "aa:bb";
        is_loopback = false;
        is_up = true;
        addrs =
            Result.ok (some (record { text = "10.0.0.2"; is_loopback = false; is_v4 = true }) ∷ []);
      }
      ∷ []);
  post = λ url payload h. Result.ok 201;
}

abbrev agent : Agent
agent = record { system_uuid = "b"; registry_url = "http://r"; duration = 5; server = none }

start-PostsOwn_example :
    Keeps (Steps (PostsOwn host agent)) (start host undisturbed agent (false ∷ true ∷ [])) Anything
start-PostsOwn_example = start-PostsOwn host agent undisturbed (false ∷ true ∷ [])

-- The end of a run with one tick.
abbrev registered_twice : ProbeHistory
registered_twice = (start host undisturbed agent (false ∷ true ∷ []) []).1
