-- ===== src/Redfish/Variants.antt =====
-- bmc/redfish_local.go and bmc/redfish_kube.go: the operations that the two other clients replace.
-- All other operations are those of the embedded RedfishBMC.
use metal_operator.Base.{String, ◌<>◌, List, [], ◌∷◌, Dict}
use metal_operator.Api.Server.{ServerPowerState}
use metal_operator.Effects.{pure, ◌>>=◌, ◌>>◌, perform, wrap}
use metal_operator.Effects.Polling.{Poller}
use metal_operator.Redfish.Service.{Job, RedfishCall, RedfishProgram, Service}
use metal_operator.Redfish.Client.{
  RedfishOptions, new_redfish_bmc_client, get_system, get_system_by_uuid, set_boot, pxe_boot,
}

-- bmc.RedfishKubeBMC, less the connections
pub record KubeClient : Type 0 where
  pub options : RedfishOptions
  pub namespace : String

abbrev pub metal_job_label : String
metal_job_label = "kube.ironcore.dev/job"

abbrev pub registry_url : String
registry_url = "http://metal-registry.metal-operator-system.svc.cluster.local:30000/register"

abbrev pub net_data : String
net_data =
    "{\"networkInterfaces\":[{\"name\":\"dummy0\",\"ipAddress\":\"127.0.0.2\",\"macAddress\":\"aa:bb:cc:dd:ee:ff\"}]"

-- The command that registers a system as a probe would.
unfoldable pub register_command : String → List String
register_command uuid =
    "/bin/sh"
    ∷ "-c"
    ∷ ("apk add curl && curl -H 'Content-Type: application/json' \\\n-d '{\"SystemUUID\":\""
        <> (uuid <> ("\",\"data\":" <> (net_data <> ("}}' \\\n-X POST " <> registry_url)))))
    ∷ []

unfoldable pub job_labels : String → Dict String
job_labels uuid = (metal_job_label, uuid) ∷ []

unfoldable pub register_job : List String → String → String → Job
unfolding job_labels
register_job command namespace uuid = record {
  generate_name = "register-" <> (uuid <> "-");
  namespace = namespace;
  labels = job_labels uuid;
  container_name = "registry-job";
  image = "alpine:latest";
  command = command;
  restart_policy = "Never";
  ttl_seconds_after_finished = 30;
}

module _ (service : Service) where
  unfoldable pub new_redfish_local_bmc_client : RedfishOptions → RedfishProgram RedfishOptions
  unfolding new_redfish_bmc_client
  new_redfish_local_bmc_client = new_redfish_bmc_client service

  unfoldable pub new_redfish_kube_bmc_client : RedfishOptions → String → RedfishProgram KubeClient
  unfolding new_redfish_bmc_client pure ◌>>=◌
  new_redfish_kube_bmc_client options namespace = do
    o ← new_redfish_bmc_client service options
    pure (record { options = o; namespace = namespace })

  -- No job is created where one with the label exists.
  unfoldable pub create_if_none : List Job → Job → RedfishProgram (Unit {0})
  unfolding perform pure
  create_if_none [] job = perform (RedfishCall.create_job job) (service.create_job job)
  create_if_none (j ∷ jobs) job = pure tt

  unfoldable pub create_job : List String → String → String → RedfishProgram (Unit {0})
  unfolding wrap perform job_labels create_if_none register_job ◌>>=◌
  create_job command namespace uuid = do
    jobs ← wrap "failed to list jobs" (
        perform (RedfishCall.list_jobs namespace (job_labels uuid))
          (service.list_jobs namespace (job_labels uuid)))
    create_if_none jobs (register_job command namespace uuid)

  module _ (poller : Poller RedfishCall) where
    -- Writes the power state into the system itself.
    unfoldable pub patch_power_state :
        RedfishOptions → ServerPowerState → String → RedfishProgram (Unit {0})
    unfolding wrap get_system_by_uuid perform ◌>>=◌
    patch_power_state o p uuid = do
      s ← wrap "failed to get system" (get_system_by_uuid service poller o uuid)
      let uri = "/redfish/v1/Systems/" <> s.id
      let changed = record s { power_state = p }
      wrap "failed to set power state"
          (perform (RedfishCall.patch uri changed) (service.patch uri changed))

    unfoldable pub local_power_on : RedfishOptions → String → RedfishProgram (Unit {0})
    unfolding patch_power_state
    local_power_on o = patch_power_state o ServerPowerState.on

    unfoldable pub local_power_off : RedfishOptions → String → RedfishProgram (Unit {0})
    unfolding patch_power_state
    local_power_off o = patch_power_state o ServerPowerState.off

    unfoldable pub kube_set_pxe_boot_once : KubeClient → String → RedfishProgram (Unit {0})
    unfolding wrap get_system set_boot pxe_boot create_job register_command ◌>>=◌ ◌>>◌
    kube_set_pxe_boot_once k uuid = do
      s ← get_system service poller k.options uuid
      wrap "failed to set the boot order" (set_boot service s (pxe_boot s))
      wrap "failed to create job for system" (create_job (register_command uuid) k.namespace uuid)
