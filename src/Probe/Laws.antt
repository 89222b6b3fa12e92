-- ===== src/Probe/Laws.antt =====
-- What the probe posts.
use mathlib.Core.Path.{subst}
use metal_operator.Base.{
  ℕ, ◌≡◌, refl, sym, ◌<>◌, Bool, true, false, Option, none, some, List, [], ◌∷◌,
}
use metal_operator.Effects.{Result, attempt, perform}
use metal_operator.Effects.Env.{RegistryServer}
use metal_operator.Effects.Keeps.{
  Keeps, Steps, Anything, Keeps-pure, Keeps-perform, Keeps-lift, Keeps-bind, Keeps-then, Kept,
}
use metal_operator.Effects.Rules.{Keeps-bind_any, Keeps-attempt_any}
use metal_operator.Probe.Backoff.{Backs, Backoff}
use metal_operator.Probe.Network.{collect_network_data}
use metal_operator.Probe.Agent.{
  Agent, ProbeCall, ProbeHistory, ProbeProgram, Host, init, post_payload, is_registered,
  register_server, register_at, start, server_of, payload_of,
}

-- The server that the agent has, or else the interfaces that the host answered with.
abbrev pub IsOwnServer : Host → Option RegistryServer → RegistryServer → Type 0
IsOwnServer host (some own) server = server ≡ own
IsOwnServer host none server =
    (h : ProbeHistory) × (collect_network_data (host.interfaces h)
      ≡ Result.ok server.network_interfaces)

module _ (host : Host) (a : Agent) where
  abbrev pub PostsOwn : ProbeCall → ProbeHistory → Type 0
  PostsOwn (ProbeCall.post url payload) h =
      (url ≡ a.registry_url <> "/register")
      × (payload.system_uuid ≡ a.system_uuid)
      × IsOwnServer host a.server payload.server
  PostsOwn ProbeCall.list_interfaces h = Unit

  abbrev J : ProbeHistory → Type 0
  J = Steps PostsOwn

  -- The answer of the host to the listing of its interfaces.
  asks :
      Keeps J
        (attempt (perform ProbeCall.list_interfaces host.interfaces))
        (λ r. (h : ProbeHistory) × (host.interfaces h ≡ r))
  unfolding attempt perform
  asks = record { at = λ h j. ((tt, j), (h, refl)) }

  posted :
      (server : RegistryServer)
      → IsOwnServer host a.server server
      → Keeps J
          (attempt (
            perform
              (ProbeCall.post (a.registry_url <> "/register") (payload_of a server))
              (host.post (a.registry_url <> "/register") (payload_of a server))))
          Anything
  unfolding payload_of
  posted server own = Keeps-attempt_any _ (
      Keeps-perform (ProbeCall.post (a.registry_url <> "/register") (payload_of a server))
        (host.post (a.registry_url <> "/register") (payload_of a server))
        (λ h j. ((refl, refl, own), j)) (λ h r e. tt))

  posts :
      (server : RegistryServer)
      → IsOwnServer host a.server server
      → Keeps J (post_payload host a server) Anything
  unfolding post_payload
  posts server own =
      Keeps-bind_any _ _ (posted server own) (λ answer. Keeps-pure (is_registered answer) tt)

  inits : (o : Option RegistryServer) → Keeps J (init host o) (IsOwnServer host o)
  unfolding init server_of
  inits (some own) = Keeps-pure own refl
  inits none = Keeps-bind _ _ asks λ r (h, e).
      Keeps-bind {P = λ found. collect_network_data r ≡ Result.ok found} _ _
        (Keeps-lift _ (λ found c. c))
        (λ found c.
          Keeps-pure _ (h, subst (λ x. collect_network_data x ≡ Result.ok found) (sym e) c))

  module _ (backoff : Backoff ProbeCall) where
    -- A run of the back-off makes the calls of its condition only.
    Backs-kept :
        (condition : ProbeProgram (Option (Unit {0})))
        → Keeps J condition Anything
        → {n : ℕ} {h : ProbeHistory} {x : Result (Unit {0}) × ProbeHistory}
        → Backs backoff.is_done condition n h x
        → J h
        → Kept J Anything x
    Backs-kept condition k (Backs.exhausted e) j = j
    Backs-kept condition k (Backs.cancelled e d) j = j
    Backs-kept condition k {h} (Backs.met e) j = subst (Kept J Anything) e (k.at h j)
    Backs-kept condition k {h} (Backs.failing e) j = subst (Kept J Anything) e (k.at h j)
    Backs-kept condition k {h} (Backs.again e b) j =
        Backs-kept condition k b (subst (Kept J Anything) e (k.at h j)).0

    registers :
        (server : RegistryServer)
        → IsOwnServer host a.server server
        → Keeps J (register_server host backoff a server) Anything
    unfolding register_server
    registers server own = record {
      at = λ h j.
          Backs-kept (post_payload host a server) (posts server own)
            (backoff.run_law a.duration 1 (post_payload host a server) h) j;
    }

    registers_at :
        (server : RegistryServer) (ticks : List Bool)
        → IsOwnServer host a.server server
        → Keeps J (register_at host backoff a server ticks) Anything
    unfolding register_at
    registers_at server [] own = Keeps-pure tt tt
    registers_at server (true ∷ ticks) own = Keeps-pure tt tt
    registers_at server (false ∷ ticks) own =
        Keeps-bind_any _ _ (Keeps-attempt_any _ (registers server own))
          (λ r. registers_at server ticks own)

    -- The probe posts only to the register path of its registry, with its UUID and with the server
    -- that it was given, or else the interfaces that the host answered with.
    pub start-PostsOwn :
        (ticks : List Bool) → Keeps (Steps PostsOwn) (start host backoff a ticks) Anything
    unfolding start
    start-PostsOwn ticks =
        Keeps-bind _ _ (inits a.server)
          λ server own. Keeps-then _ _ (registers server own) (registers_at server ticks own)
