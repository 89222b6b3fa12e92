-- ===== src/Lib.antt =====
-- A model of metal-operator, the Kubernetes operator that discovers bare-metal servers through
-- their BMCs and hands them to claims, with the theorems that its core is correct.
--
-- How the parts interact. The server controller drives a Server through the states Initial,
-- Discovery, Available and Reserved: it powers the machine through a BMC client, boots a probe on
-- it, reads what the probe registered, and sets the machine free. The claim controller binds a
-- ServerClaim to an available Server by a reference in the spec of the server, which makes the
-- server controller reserve it, and writes the boot configuration that the server boots. The probe
-- registers its machine in the registry server, from which the server controller reads and then
-- deletes the entry. The webhook admits Endpoints, one for each MAC address. The endpoint
-- controller makes a BMC and its secret of an Endpoint whose MAC address has a known prefix, and the
-- BMC controller a Server of each system of a BMC, both through the Redfish clients, which find a
-- system by the UUID that discovery wrote to its Server. The move command copies all of these
-- resources to another cluster.
--
-- Files and code:
-- - Base, and below it: names of the libraries, Boolean tests, lists, Go's maps and integers.
-- - Api/Meta, Api/Server, Api/Claim: api/v1alpha1/server_types.go, serverclaim_types.go,
--   serverbootconfiguration_types.go, constants.go, and the object metadata in use.
-- - Effects/Core: results, the log of calls, and the monad in which the reconcilers are written.
--   A program takes the history of all calls and returns a result and the longer history.
-- - Effects/Env: what answers the calls, as a record of functions of the history before them; the
--   interface BMC of bmc/bmc.go and its records. Client: one program for each call.
-- - Effects/Keeps, Effects/Rules: a logic for programs over any type of calls, with one rule for
--   each construct of the monad. Effects/Polling: the contract of wait.PollUntilContextTimeout,
--   which the clients and the mover take as a parameter. Effects/Sessions: sessions that calls open
--   and close.
-- - ServerReconciler/Config, Power, Boot, Status, States, Reconcile: the methods of
--   internal/controller/server_controller.go and helper.go, with the names of the methods. A method
--   that assigns through the server pointer returns the new server.
--   ServerReconciler/Diagram, Quiet, QuietParts, StateSteps, KeepsState, Guards, Transitions,
--   Lawful: the transitions of the state with their guards, and that a reconciliation makes no other. ServerReconciler/PowerLaws, Sessions,
--   BiosLaws, BootLaws: power, BMC sessions, BIOS settings and the boot order.
-- - ClaimReconciler/Select, Claim, Reconcile: the methods of
--   internal/controller/serverclaim_controller.go. ClaimReconciler/SelectLaws, ReferenceLaws: which
--   server is selected. ClaimReconciler/Respects, Safety: the servers of other claims.
--   ClaimReconciler/Phases, Binding, Order: the order of binding. ClaimReconciler/Cleanup: deletion.
-- - BootConfigurationReconciler/Reconcile, Pending:
--   internal/controller/serverbootconfiguration_controller.go, and what it changes.
-- - Registry/Server: the handlers of internal/registry/server.go and the types of
--   internal/api/registry, over an association list for the sync.Map. Registry/Laws: what a client
--   sees.
-- - Probe/Network, Agent: internal/probe/networking.go and agent.go. Probe/Backoff: the
--   contract of wait.ExponentialBackoffWithContext, which the agent takes as a parameter.
--   Probe/Laws, Ticks: what is posted, and how often.
-- - EndpointWebhook/Validator: internal/webhook/v1alpha1/endpoint_webhook.go.
--   EndpointWebhook/Uniqueness: the endpoints that admitted requests reach.
-- - BmcUtils/Clients: internal/bmcutils/bmcutils.go, over what the API server holds and the
--   constructors of clients. BmcUtils/Laws: which address, secret and protocol a client is made
--   from.
-- - Redfish/Service: what gofish answers, and its resources. Redfish/Client, Bios, Storage: the
--   methods of bmc/redfish.go. Redfish/Variants: those that bmc/redfish_local.go and
--   bmc/redfish_kube.go replace. Redfish/Text: strconv.Atoi and strings.Contains.
--   Redfish/SystemLaws, WriteLaws: on which system an operation works. Redfish/Times: the
--   polling times. Redfish/BiosLaws, BiosSafety:
--   which attributes are read and written.
-- - EndpointReconciler/World, Reconcile, Writes, Justified, Sessions:
--   internal/controller/endpoint_controller.go and internal/api/macdb/macdb.go, what the controller
--   writes, and its sessions with BMCs.
-- - BmcReconciler/World, Reconcile, Discovery, Sessions: internal/controller/bmc_controller.go,
--   which servers it writes, and its sessions.
-- - Move/Cluster, Trees, Mover: cmdutils/move.go; Move/TreeLaws, LinkLaws: which
--   resources the forest has, and which stands above which. Move/Copies, Safety, CleanUp: what it
--   writes, and the clean-up after a failure.
-- - Tests, and below it: concrete data, an environment that answers, and the theorems at them.
--
-- Bounds and fuel. Each loop of the code goes over a list or a tree, and is recursion on it. Only
-- `follow` of Move/Trees takes a depth: it reads the trees that the code shares by pointer out of
-- a map, to the depth of the number of resources. A path from a root meets no resource twice, since
-- each has one first owner and a UID of its own, so no path is longer. Polling is a parameter. A
-- reconciliation returns on every input, since its calls do. sort.Slice is insertion sort,
-- which Go uses for up to twelve elements; the order of entries with the same priority is that of the spec. Go maps are association lists, gone through in order.
-- Durations are natural numbers: a negative time.Duration is not represented.
--
-- What the environment stands for. The API server, controller-runtime and controller-utils, the
-- HTTP transport, JSON, the clock and cryptography are not in the repository. Three functions that
-- are in it are parameters of the reconcilers all the same: GetBMCClientForServer, whose model in
-- BmcUtils/Clients is not joined to them (the BMC controller is joined to that of
-- GetBMCClientFromBMC), GenerateDefaultIgnitionData of internal/ignition/default.go, and
-- generateSSHKeyPairAndPassword, which calls cryptography only.
--
-- The gofish library, whose resources the Redfish clients read, is a parameter of theirs, and so is
-- the deep comparison of objects for the move command.
--
-- Not modelled: the controller of BMC secrets, which does nothing; the commands; the
-- registration of controllers and watches with the manager; log lines; the closing of response
-- bodies; start and shutdown of the registry's listener; concurrent writers between two calls
-- of one reconciliation, except as the environment answers them.
mod Base
pub mod Api
pub mod Effects
mod Client
pub mod ServerReconciler
pub mod ClaimReconciler
pub mod BootConfigurationReconciler
pub mod Redfish
pub mod Move
pub mod Registry
pub mod Probe
pub mod EndpointWebhook
pub mod EndpointReconciler
pub mod BmcReconciler
pub mod BmcUtils
mod Tests
