-- ===== src/ServerReconciler/Diagram.antt =====
-- The changes of a server's state, each with what must have come before it, and what the rest of a
-- reconciliation may rely on: the Server reconciler is the only writer of the state. The comment on
-- ensureServerStateTransition and docs/concepts/servers.md have no edge to Reserved but from
-- Available, no edge from Discovery to Initial, and no edge from Reserved to Available; the
-- reconciler makes these three.
use metal_operator.Base.{
  ℕ, ◌+◌, ◌<◌, get_last?, some, String, ◌<>◌, ◌≡◌, ◌⊎◌, Bool, true, none, ◌∷◌, is_some, eq_iff,
  arith,
}
use metal_operator.Api.Server.{Server, ServerState, server_state_eq}
use metal_operator.Effects.{Result, Call, History}
use metal_operator.Api.Meta.{ManagedFieldsEntry, ObjectReference}
use metal_operator.Api.Claim.{ServerBootConfiguration, BootConfigurationState}
use metal_operator.Effects.Env.{Env, Bmc, OperationResult}
use metal_operator.ServerReconciler.Config.{ServerReconciler}

-- The network boot of a server was just set by a client that was made for it, or the server has no
-- boot configuration.
pub data PxeBooted (env : Env) (s : Server) (h : History) : Type 0 where
  unconfigured : s.spec.boot_configuration_ref ≡ none → PxeBooted env s h
  set_once :
      (bmc : Bmc) (before : History)
      → env.bmc_client s before ≡ Result.ok bmc
      → bmc.set_pxe_boot_once s.spec.system_uuid (Call.bmc_client s ∷ before) ≡ Result.ok tt
      → h ≡ Call.logout ∷ Call.set_pxe_boot_once s.spec.system_uuid ∷ Call.bmc_client s ∷ before
      → PxeBooted env s h

-- The last writer of the server updated its status, and at the last call, the clock was more than
-- the discovery timeout past that update.
pub record TimedOut (env : Env) (r : ServerReconciler) (s : Server) (h : History) : Type 0 where
  pub last : ManagedFieldsEntry
  pub time : ℕ
  pub before : History
  pub is_last : get_last? s.metadata.managed_fields ≡ some last
  pub is_update : last.operation ≡ "Update"
  pub of_status : last.subresource ≡ "status"
  pub at : last.time ≡ some time
  pub late : time + r.discovery_timeout < env.now before
  pub calls : h ≡ Call.now ∷ before

-- The API server answered that the boot configuration of a server in Discovery is ready.
pub record BootReady (env : Env) : Type 0 where
  pub server : Server
  pub ref : ObjectReference
  pub read_at : History
  pub config : ServerBootConfiguration
  pub discovered : server.status.state ≡ ServerState.discovery
  pub referenced : server.spec.boot_configuration_ref ≡ some ref
  pub answered : env.get_boot_configuration ref.namespace ref.name read_at ≡ Result.ok config
  pub is_ready : config.state ≡ BootConfigurationState.ready

-- `Edge env r s h x`: after the calls `h`, the state of `s` may be set to `x`.
pub data Edge (env : Env) (r : ServerReconciler) (s : Server) (h : History)
    : ServerState → Type 0 where
  start : s.status.state ≡ ServerState.unset → Edge env r s h ServerState.initial
  boot :
      s.status.state ≡ ServerState.initial
      → PxeBooted env s h
      → Edge env r s h ServerState.discovery
  finish :
      (before : History)
      → s.status.state ≡ ServerState.discovery
      → BootReady env
      → env.http_delete (r.registry_url <> ("/delete/" <> s.spec.system_uuid)) before ≡ Result.ok tt
      → h ≡ Call.http_delete (r.registry_url <> ("/delete/" <> s.spec.system_uuid)) ∷ before
      → Edge env r s h ServerState.available
  time_out :
      s.status.state ≡ ServerState.discovery
      → BootReady env
      → TimedOut env r s h
      → Edge env r s h ServerState.initial
  reserve : is_some s.spec.server_claim_ref ≡ true → Edge env r s h ServerState.reserved
  release :
      s.spec.server_claim_ref ≡ none
      → s.status.state ≡ ServerState.reserved
      → Edge env r s h ServerState.available

-- A status patch keeps the state or follows an edge.
abbrev pub Legal : Env → ServerReconciler → Call → History → Type 0
Legal env r (Call.patch_server_status base new) h =
    (new.status.state ≡ base.status.state) ⊎ Edge env r base h new.status.state
Legal env r _ h = Unit

-- No other client changes the state of a server, and a patch that succeeds returns the object as
-- patched: the answer to a patch of the status has the state that was sent, and the answer to any
-- other patch has the state that the caller had.
pub record IsSingleWriter (env : Env) : Type 0 where
  pub spec_patch :
      (base new s : Server) (h : History)
      → env.patch_server base new h ≡ Result.ok s
      → s.status.state ≡ base.status.state
  pub status_patch :
      (base new s : Server) (h : History)
      → env.patch_server_status base new h ≡ Result.ok s
      → s.status.state ≡ new.status.state
  pub create_or_patch :
      (old s : Server) (f : Server → Server) (op : OperationResult) (h : History)
      → env.create_or_patch_server old f h ≡ Result.ok (s, op)
      → s.status.state ≡ old.status.state
  pub finalizer :
      (old s : Server) (name : String) (modified : Bool) (h : History)
      → env.ensure_server_finalizer old name h ≡ Result.ok (s, modified)
      → s.status.state ≡ old.status.state

pub server_state_eq-true : (x y : ServerState) → server_state_eq x y ≡ true → x ≡ y
unfolding server_state_eq
server_state_eq-true (ServerState.other s) (ServerState.other t) h = ground (arith, eq_iff s t)
server_state_eq-true x y h = ground arith
