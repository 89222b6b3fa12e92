-- ===== src/Probe/Agent.antt =====
-- internal/probe/agent.go: the registration, once at the start and then at each tick.
use metal_operator.Base.{
  ℕ, String, ◌<>◌, Bool, true, false, ◌||◌, Option, none, some, List, [], ◌∷◌, leb, ◌&&◌,
  if◌then◌else◌,
}
use metal_operator.Effects.{Result, Program, pure, ◌>>=◌, ◌>>◌, perform, attempt, lift}
use metal_operator.Effects.Env.{RegistryInterface, RegistryServer}
use metal_operator.Probe.Backoff.{Backoff}
use metal_operator.Probe.Network.{Interface, collect_network_data}

-- internal/api/registry/registry.go
pub record Payload : Type 0 where
  pub system_uuid : String
  pub server : RegistryServer

pub record Agent : Type 0 where
  pub system_uuid : String
  pub registry_url : String
  pub duration : ℕ
  pub server : Option RegistryServer

pub data ProbeCall : Type 0 where
  list_interfaces : ProbeCall
  post : String → Payload → ProbeCall

abbrev pub ProbeHistory : Type 0
ProbeHistory = List ProbeCall

abbrev pub ProbeProgram : Type 0 → Type 0
ProbeProgram A = Program ProbeCall A

-- The host, and the registry as http.Post answers for it, with a status code. The encoding of the
-- payload as JSON does not fail.
pub record Host : Type 0 where
  pub interfaces : ProbeHistory → Result (List Interface)
  pub post : String → Payload → ProbeHistory → Result ℕ

unfoldable pub new_agent : String → String → ℕ → Agent
new_agent uuid url duration = record {
  system_uuid = uuid;
  registry_url = url;
  duration = duration;
  server = none;
}

abbrev is_status : ℕ → ℕ → Bool
is_status code status = leb code status && leb status code

-- The condition of the back-off: an error of http.Post and another status are retried.
unfoldable pub is_registered : Result ℕ → Option (Unit {0})
is_registered (Result.ok status) =
    if is_status 200 status || is_status 201 status then some tt else none
is_registered (Result.err e) = none

unfoldable pub payload_of : Agent → RegistryServer → Payload
payload_of a server = record { system_uuid = a.system_uuid; server = server }

module _ (host : Host) where
  unfoldable pub post_payload : Agent → RegistryServer → ProbeProgram (Option (Unit {0}))
  unfolding attempt perform payload_of is_registered pure ◌>>=◌
  post_payload a server =
      attempt (
        perform (ProbeCall.post (a.registry_url <> "/register") (payload_of a server))
          (host.post (a.registry_url <> "/register") (payload_of a server)))
      >>= λ answer. pure (is_registered answer)

  unfoldable pub server_of : List RegistryInterface → ProbeProgram RegistryServer
  unfolding pure
  server_of found = pure (record { network_interfaces = found })

  -- The server that is registered: the one the agent has, or the interfaces of the host.
  unfoldable pub init : Option RegistryServer → ProbeProgram RegistryServer
  unfolding attempt perform lift collect_network_data server_of pure ◌>>=◌
  init (some server) = pure server
  init none = attempt (perform ProbeCall.list_interfaces host.interfaces) >>= λ answer.
      lift (collect_network_data answer) >>= server_of

  module _ (backoff : Backoff ProbeCall) where
    unfoldable pub register_server : Agent → RegistryServer → ProbeProgram (Unit {0})
    unfolding post_payload
    register_server a server = backoff.run a.duration 1 (post_payload a server)

    -- The loop: a tick of the timer is `false`, the end of the context `true`.
    unfoldable pub register_at : Agent → RegistryServer → List Bool → ProbeProgram (Unit {0})
    unfolding pure attempt register_server ◌>>=◌
    register_at a server [] = pure tt
    register_at a server (true ∷ ticks) = pure tt
    register_at a server (false ∷ ticks) =
        attempt (register_server a server) >>= λ answer. register_at a server ticks

    unfoldable pub start : Agent → List Bool → ProbeProgram (Unit {0})
    unfolding init register_server register_at ◌>>=◌ ◌>>◌
    start a ticks = do server ← init a.server; register_server a server; register_at a server ticks
