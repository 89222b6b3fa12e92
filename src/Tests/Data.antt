-- ===== src/Tests/Data.antt =====
-- Test data: a server, a claim, a boot configuration and the configuration of the controller.
use metal_operator.Base.{pos, true, false, none, some, [], ◌∷◌}
use metal_operator.Api.Meta.{ObjectReference}
use metal_operator.Api.Server.{
  Server, ServerState, ServerPowerState, Power, with_claim_ref, with_boot_ref, empty_server,
}
use metal_operator.Api.Claim.{ServerClaim, Phase}
use metal_operator.ServerReconciler.Config.{ServerReconciler}
use metal_operator.ServerReconciler.Boot.{named}

abbrev pub config : ServerReconciler
config = record {
  manager_namespace = "metal";
  probe_image = "probe:1";
  registry_url = "http://registry";
  probe_os_image = "os:1";
  enforce_first_boot = false;
  enforce_power_off = true;
  resync_interval = 120;
  discovery_timeout = 1800;
}

abbrev pub boot_reference_b : ObjectReference
boot_reference_b = record {
  api_version = "metal.ironcore.dev/v1alpha1";
  kind = "ServerBootConfiguration";
  namespace = "apps";
  name = "b";
  uid = "uid-b";
}

abbrev pub claim_reference_b : ObjectReference
claim_reference_b = record {
  api_version = "metal.ironcore.dev/v1alpha1";
  kind = "ServerClaim";
  namespace = "apps";
  name = "b";
  uid = "uid-b";
}

-- A server with a BMC, available, off and unclaimed, which is wanted on.
abbrev pub node : Server
node = record {
  metadata = named "node" "";
  spec = record (empty_server.spec) {
    system_uuid = "sys";
    power = Power.on;
    bmc_ref = some (record { name = "bmc" });
    boot_order =
        record { name = "disk"; priority = pos 2; device = "Boot0002" }
        ∷ record { name = "net"; priority = pos 1; device = "Boot0001" }
        ∷ [];
  };
  status = record (empty_server.status) {
    state = ServerState.available;
    power_state = ServerPowerState.off;
  };
}

-- The same server, claimed by another claim and booted with its configuration.
abbrev pub taken : Server
taken = with_boot_ref (some boot_reference_b) (with_claim_ref (some claim_reference_b) node)

abbrev pub claim : ServerClaim
claim = record {
  metadata = record (named "a" "apps") {
    uid = "uid-a";
    finalizers = "metal.ironcore.dev/serverclaim" ∷ [];
  };
  spec = record {
    power = Power.on;
    server_ref = some (record { name = "node" });
    server_selector = none;
    ignition_secret_ref = none;
    image = "img:1";
  };
  phase = Phase.unbound;
}
