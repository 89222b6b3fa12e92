-- ===== src/Redfish/SystemLaws.antt =====
-- Which system the client works on, and what waiting for a power state means.
use mathlib.Core.Path.{subst}
use metal_operator.Base.{
  ◌≡◌, ◌≢◌, inl, inr, String, true, Bool-cases, none, some, List, [], ◌∷◌, ==-true, ==-false, ◌==◌,
  arith,
}
use metal_operator.Api.Server.{ServerPowerState, power_state_eq}
use metal_operator.Effects.{Result, pure, attempt}
use metal_operator.Effects.Keeps.{
  Keeps, IfOk, Keeps-pure, Keeps-raise, Keeps-perform_at, Keeps-wrap, Keeps-bind, Keeps-attempt,
  Keeps-optional,
}
use metal_operator.Effects.Polling.{Poller, Keeps-poll}
use metal_operator.Redfish.Service.{
  ComputerSystem, RedfishCall, RedfishHistory, RedfishProgram, Service,
}
use metal_operator.Redfish.Client.{
  RedfishOptions, when_ok, find_system, list_systems, get_system_by_uuid, get_system,
  reports_power_state, wait_for_server_power_state,
}

-- The system is the first of the list whose lower-case UUID is the wanted one.
pub data IsFirst (lower : String → String) (uuid : String) (s : ComputerSystem)
    : List ComputerSystem → Type 0 where
  here :
      {x : ComputerSystem} {systems : List ComputerSystem}
      → x ≡ s
      → lower x.uuid ≡ uuid
      → IsFirst lower uuid s (x ∷ systems)
  later :
      {x : ComputerSystem} {systems : List ComputerSystem}
      → lower x.uuid ≢ uuid
      → IsFirst lower uuid s systems
      → IsFirst lower uuid s (x ∷ systems)

-- The service answered a listing in which the system is the first with the UUID, at a history
-- that satisfies `J`.
pub record IsReported (service : Service) (J : RedfishHistory → Type 0) (uuid : String)
    (s : ComputerSystem) : Type 0 where
  pub at : RedfishHistory
  pub holds : J at
  pub systems : List ComputerSystem
  pub answered : service.systems at ≡ Result.ok systems
  pub first : IsFirst service.to_lower uuid s systems

-- Some report of the system had the power state.
abbrev pub IsSeen : Service → (RedfishHistory → Type 0) → String → ServerPowerState → Type 0
IsSeen service J uuid p =
    (s : ComputerSystem) × IsReported service J uuid s × (power_state_eq s.power_state p ≡ true)

find_system-IsFirst :
    (lower : String → String) (uuid : String) (s : ComputerSystem) (systems : List ComputerSystem)
    → find_system lower uuid systems ≡ some s
    → IsFirst lower uuid s systems
unfolding find_system
find_system-IsFirst lower uuid s [] e = ground arith
find_system-IsFirst lower uuid s (x ∷ systems) e = elim (Bool-cases (lower x.uuid == uuid)) [
  | inl t ↦ IsFirst.here (ground arith) (==-true (lower x.uuid) uuid t)
  | inr f ↦
      IsFirst.later (==-false (lower x.uuid) uuid f)
        (find_system-IsFirst lower uuid s systems (ground arith))
]

some_injective : {A : Type 0} {a b : A} → some a ≡ some b → a ≡ b
some_injective e = cc

-- A program, polled until it succeeds.
module _ {J : RedfishHistory → Type 0} {A : Type 0} {P : A → Type 0} where
  answer :
      (r : Result A)
      → IfOk P r
      → Keeps J
          (pure (elim r [ Result.ok a ↦ some a | Result.err e ↦ none ]))
          (λ o. (a : A) → o ≡ some a → P a)
  answer (Result.ok b) p = Keeps-pure (some b) (λ a e. subst P (some_injective e) p)
  answer (Result.err x) p = Keeps-pure none (λ a e. ground arith)

  pub Keeps-when_ok :
      (m : RedfishProgram A) → Keeps J m P → Keeps J (when_ok m) (λ o. (a : A) → o ≡ some a → P a)
  unfolding when_ok
  Keeps-when_ok m k = Keeps-bind (attempt m) _ (Keeps-attempt m k) answer

module _ (service : Service) {J : RedfishHistory → Type 0}
    (reads : (h : RedfishHistory) → J h → J (RedfishCall.get_systems ∷ h))
    (poller : Poller RedfishCall) (o : RedfishOptions) (uuid : String) where
  -- The system that the client works on has been reported, and is the first with its UUID.
  pub get_system_by_uuid-IsReported :
      Keeps J (get_system_by_uuid service poller o uuid) (IsReported service J uuid)
  unfolding get_system_by_uuid list_systems
  get_system_by_uuid-IsReported =
      Keeps-bind
        {P = λ systems. (h : RedfishHistory) × J h × (service.systems h ≡ Result.ok systems)} _ _
        (Keeps-wrap _ _ (
          Keeps-poll _
            (Keeps-when_ok (list_systems service) (
              Keeps-perform_at RedfishCall.get_systems service.systems reads
                (λ h j a e. (h, j, e))))
            poller o.resource_polling_interval o.resource_polling_timeout))
        (λ systems (h, j, e).
          Keeps-optional (find_system service.to_lower uuid systems) _ pure (Keeps-raise _) (λ s f.
            Keeps-pure s (record {
              at = h;
              holds = j;
              systems = systems;
              answered = e;
              first = find_system-IsFirst service.to_lower uuid s systems f;
            })))

  pub get_system-IsReported : Keeps J (get_system service poller o uuid) (IsReported service J uuid)
  unfolding get_system
  get_system-IsReported = Keeps-wrap _ _ get_system_by_uuid-IsReported

  reports :
      (p : ServerPowerState)
      → Keeps J
          (reports_power_state service poller o uuid p)
          (λ r. (a : Unit {0}) → r ≡ some a → IsSeen service J uuid p)
  unfolding reports_power_state
  reports p =
      Keeps-bind _ _ (Keeps-wrap _ _ get_system_by_uuid-IsReported)
        (λ s r. Keeps-pure _ (λ a e. (s, r, ground arith)))

  -- Waiting for a power state succeeds only where the system with the UUID reported that state.
  pub wait_for_server_power_state-IsSeen :
      (p : ServerPowerState)
      → Keeps J (wait_for_server_power_state service poller o uuid p) (λ a. IsSeen service J uuid p)
  unfolding wait_for_server_power_state
  wait_for_server_power_state-IsSeen p =
      Keeps-wrap _ _
        (Keeps-poll _ (reports p) poller o.power_polling_interval o.power_polling_timeout)
