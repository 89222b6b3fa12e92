-- ===== src/Redfish/WriteLaws.antt =====
-- What each operation of the clients does to a machine, and to which machine.
use metal_operator.Base.{◌≡◌, refl, ◌⊎◌, inl, inr, String, ◌<>◌, false, List, [], ◌∷◌}
use metal_operator.Api.Server.{ServerPowerState, power_state_eq}
use metal_operator.Effects.{Result, proceed, perform, ◌>>=◌, ◌>>◌, wrap}
use metal_operator.Effects.Keeps.{
  Kept, Keeps, Anything, Keeps-pure, Keeps-perform, Keeps-wrap, Keeps-if, Keeps-then, Kept-history,
}
use metal_operator.Effects.Rules.{Keeps-bind_any}
use metal_operator.Effects.Polling.{Poller}
use metal_operator.Redfish.Service.{
  Boot, ComputerSystem, Job, RedfishCall, RedfishHistory, RedfishProgram, Service,
}
use metal_operator.Redfish.Client.{
  RedfishOptions, get_system_by_uuid, get_system, reset_system, set_boot, pxe_boot, power_on,
  power_off, force_power_off, reset, set_pxe_boot_once, set_boot_order,
}
use metal_operator.Redfish.Variants.{
  create_job, create_if_none, register_job, register_command, job_labels, patch_power_state,
  local_power_on, local_power_off, kube_set_pxe_boot_once,
}
use metal_operator.Redfish.SystemLaws.{
  IsReported, get_system_by_uuid-IsReported, get_system-IsReported,
}

-- The operations that change a machine; those of the kube client with its namespace.
pub data Operation : Type 0 where
  turn_on turn_off force_off boot_pxe patch_on patch_off : Operation
  restart : String → Operation
  order_boot : List String → Operation
  boot_pxe_kube : String → Operation

-- The calls that an operation may make once it has found the system.
abbrev pub Permits : Operation → String → ComputerSystem → RedfishCall → Type 0
Permits Operation.turn_on uuid s c =
    (c ≡ RedfishCall.reset s.id "On") × (power_state_eq s.power_state ServerPowerState.on ≡ false)
Permits Operation.turn_off uuid s c = c ≡ RedfishCall.reset s.id "GracefulShutdown"
Permits Operation.force_off uuid s c = c ≡ RedfishCall.reset s.id "ForceOff"
Permits (Operation.restart kind) uuid s c = c ≡ RedfishCall.reset s.id kind
Permits Operation.boot_pxe uuid s c = c ≡ RedfishCall.set_boot s.id (pxe_boot s)
Permits (Operation.order_boot order) uuid s c =
    (boot : Boot) × (c ≡ RedfishCall.set_boot s.id boot) × (boot.boot_order ≡ order)
Permits Operation.patch_on uuid s c =
    c
    ≡ RedfishCall.patch ("/redfish/v1/Systems/" <> s.id)
        (record s { power_state = ServerPowerState.on })
Permits Operation.patch_off uuid s c =
    c
    ≡ RedfishCall.patch ("/redfish/v1/Systems/" <> s.id)
        (record s { power_state = ServerPowerState.off })
Permits (Operation.boot_pxe_kube namespace) uuid s c =
    (c ≡ RedfishCall.set_boot s.id (pxe_boot s))
    ⊎ (c ≡ RedfishCall.list_jobs namespace (job_labels uuid))
    ⊎ (c ≡ RedfishCall.create_job (register_job (register_command uuid) namespace uuid))

-- Only systems were listed since the history `start`.
pub data Reads (start : RedfishHistory) : RedfishHistory → Type 0 where
  now : Reads start start
  read : {h : RedfishHistory} → Reads start h → Reads start (RedfishCall.get_systems ∷ h)

-- Since `start`, systems were listed, and then only calls were made that the operation may make on
-- a system that one of these listings reported, as the first with the UUID.
pub data Since (service : Service) (uuid : String) (op : Operation) (start : RedfishHistory)
    : RedfishHistory → Type 0 where
  searching : {h : RedfishHistory} → Reads start h → Since service uuid op start h
  acting :
      {c : RedfishCall} {h : RedfishHistory} (s : ComputerSystem)
      → IsReported service (Reads start) uuid s
      → Permits op uuid s c
      → Since service uuid op start h
      → Since service uuid op start (c ∷ h)

module _ (service : Service) (poller : Poller RedfishCall) (o : RedfishOptions)
    (uuid : String) where
  -- An operation of the clients.
  unfoldable pub run : Operation → RedfishProgram (Unit {0})
  unfolding power_on power_off force_power_off reset set_pxe_boot_once set_boot_order local_power_on
      local_power_off kube_set_pxe_boot_once
  run Operation.turn_on = power_on service poller o uuid
  run Operation.turn_off = power_off service poller o uuid
  run Operation.force_off = force_power_off service poller o uuid
  run (Operation.restart kind) = reset service poller o uuid kind
  run Operation.boot_pxe = set_pxe_boot_once service poller o uuid
  run (Operation.order_boot order) = set_boot_order service poller o uuid order
  run Operation.patch_on = local_power_on service poller o uuid
  run Operation.patch_off = local_power_off service poller o uuid
  run (Operation.boot_pxe_kube namespace) =
      kube_set_pxe_boot_once service poller (record { options = o; namespace = namespace }) uuid

  module _ (start : RedfishHistory) where
    found :
        Keeps
          (Reads start)
          (get_system service poller o uuid)
          (IsReported service (Reads start) uuid)
    found = get_system-IsReported service (λ h j. Reads.read j) poller o uuid

    found_plainly :
        Keeps
          (Reads start)
          (get_system_by_uuid service poller o uuid)
          (IsReported service (Reads start) uuid)
    found_plainly = get_system_by_uuid-IsReported service (λ h j. Reads.read j) poller o uuid

  module _ (op : Operation) (start : RedfishHistory) where
    abbrev IsActing : {A : Type 0} → RedfishProgram A → Type 0
    IsActing m = Keeps (Since service uuid op start) m Anything

    permitted :
        {A : Type 0} (c : RedfishCall) (answer : RedfishHistory → Result A) (s : ComputerSystem)
        → IsReported service (Reads start) uuid s
        → Permits op uuid s c
        → IsActing (perform c answer)
    permitted c answer s r p = Keeps-perform c answer (λ h j. Since.acting s r p j) (λ h a e. tt)

    -- An operation that finds the system and goes on.
    after :
        (x : Result ComputerSystem × RedfishHistory)
        (f : ComputerSystem → RedfishProgram (Unit {0}))
        → Kept (Reads start) (IsReported service (Reads start) uuid) x
        → ((s : ComputerSystem) → IsReported service (Reads start) uuid s → IsActing (f s))
        → Since service uuid op start (proceed x f).1
    after (Result.ok s, h) f (j, r) k =
        Kept-history (Since service uuid op start) Anything (f s h)
          ((k s r).at h (Since.searching j))
    after (Result.err e, h) f j k = Since.searching j

    acts :
        (m : RedfishProgram ComputerSystem) (f : ComputerSystem → RedfishProgram (Unit {0}))
        → Keeps (Reads start) m (IsReported service (Reads start) uuid)
        → ((s : ComputerSystem) → IsReported service (Reads start) uuid s → IsActing (f s))
        → Since service uuid op start ((m >>= f) start).1
    unfolding ◌>>=◌
    acts m f km k = after (m start) f (km.at start Reads.now) k

  created :
      (namespace : String) (start : RedfishHistory) (s : ComputerSystem)
      → IsReported service (Reads start) uuid s
      → (jobs : List Job)
      → IsActing
          (Operation.boot_pxe_kube namespace)
          start
          (create_if_none service jobs (register_job (register_command uuid) namespace uuid))
  unfolding create_if_none
  created namespace start s r [] = permitted _ start _ _ s r (inr (inr refl))
  created namespace start s r (j ∷ jobs) = Keeps-pure tt tt

  registers :
      (namespace : String) (start : RedfishHistory) (s : ComputerSystem)
      → IsReported service (Reads start) uuid s
      → IsActing
          (Operation.boot_pxe_kube namespace)
          start
          (create_job service (register_command uuid) namespace uuid)
  unfolding create_job
  registers namespace start s r =
      Keeps-bind_any _ _
        (Keeps-wrap "failed to list jobs"
          (perform (RedfishCall.list_jobs namespace (job_labels uuid))
            (service.list_jobs namespace (job_labels uuid)))
          (permitted _ start _ _ s r (inr (inl refl))))
        (created namespace start s r)

  boots_and_registers :
      (namespace : String) (start : RedfishHistory) (s : ComputerSystem)
      → IsReported service (Reads start) uuid s
      → IsActing (Operation.boot_pxe_kube namespace) start (
          wrap "failed to set the boot order" (set_boot service s (pxe_boot s))
          >> wrap "failed to create job for system"
              (create_job service (register_command uuid) namespace uuid))
  unfolding set_boot
  boots_and_registers namespace start s r =
      Keeps-then _ _
        (Keeps-wrap "failed to set the boot order"
          (perform (RedfishCall.set_boot s.id (pxe_boot s)) (service.set_boot s (pxe_boot s)))
          (permitted _ start _ _ s r (inl refl)))
        (Keeps-wrap "failed to create job for system" _ (registers namespace start s r))

  -- Whatever an operation of the clients that changes a machine does to it, it does to a system
  -- that the service reported after the operation began, the first of its listing whose UUID is
  -- the wanted one; and it makes no calls but the listings and those of the operation. A machine
  -- that was reported on is not reset by PowerOn.
  pub run-Since :
      (op : Operation) (start : RedfishHistory) → Since service uuid op start (run op start).1
  unfolding run power_on power_off force_power_off reset set_pxe_boot_once set_boot_order
      local_power_on local_power_off kube_set_pxe_boot_once patch_power_state reset_system set_boot
      create_job create_if_none
  run-Since Operation.turn_on start = acts _ start _ _ (found start) λ s r.
      Keeps-if (power_state_eq s.power_state ServerPowerState.on) _ _ (λ e. Keeps-pure tt tt)
        (λ e. Keeps-wrap _ _ (permitted _ start _ _ s r (refl, e)))
  run-Since Operation.turn_off start =
      acts _ start _ _ (found start) (λ s r. Keeps-wrap _ _ (permitted _ start _ _ s r refl))
  run-Since Operation.force_off start =
      acts _ start _ _ (found start) (λ s r. Keeps-wrap _ _ (permitted _ start _ _ s r refl))
  run-Since (Operation.restart kind) start =
      acts _ start _ _ (found start) (λ s r. Keeps-wrap _ _ (permitted _ start _ _ s r refl))
  run-Since Operation.boot_pxe start =
      acts _ start _ _ (found start) (λ s r. Keeps-wrap _ _ (permitted _ start _ _ s r refl))
  run-Since (Operation.order_boot order) start =
      acts _ start _ _ (found_plainly start) (λ s r. permitted _ start _ _ s r (_, refl, refl))
  run-Since Operation.patch_on start =
      acts _ start _ _ (Keeps-wrap _ _ (found_plainly start))
        (λ s r. Keeps-wrap _ _ (permitted _ start _ _ s r refl))
  run-Since Operation.patch_off start =
      acts _ start _ _ (Keeps-wrap _ _ (found_plainly start))
        (λ s r. Keeps-wrap _ _ (permitted _ start _ _ s r refl))
  run-Since (Operation.boot_pxe_kube namespace) start =
      acts _ start _ _ (found start) (boots_and_registers namespace start)
