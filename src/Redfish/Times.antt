-- ===== src/Redfish/Times.antt =====
-- The polling times of a connected client.
use metal_operator.Base.{ℕ, zero, suc, ◌≡◌, refl, ◌<◌, ◌⊎◌, inl, inr, arith}
use metal_operator.Effects.Keeps.{Keeps, Keeps-pure, Keeps-perform, Keeps-wrap, Keeps-then}
use metal_operator.Redfish.Service.{RedfishCall, Service}
use metal_operator.Redfish.Client.{
  RedfishOptions, or_default, with_defaults, client_config, new_redfish_bmc_client,
}

-- A time is not zero, and is the wanted one where that is not zero.
abbrev pub IsTimeSet : ℕ → ℕ → Type 0
IsTimeSet wanted t = (0 < t) × ((wanted ≡ 0) ⊎ (t ≡ wanted))

abbrev pub AreTimesSet : RedfishOptions → RedfishOptions → Type 0
AreTimesSet wanted o =
    IsTimeSet wanted.resource_polling_interval o.resource_polling_interval
    × IsTimeSet wanted.resource_polling_timeout o.resource_polling_timeout
    × IsTimeSet wanted.power_polling_interval o.power_polling_interval
    × IsTimeSet wanted.power_polling_timeout o.power_polling_timeout

or_default-IsTimeSet : (d t : ℕ) → 0 < d → IsTimeSet t (or_default d t)
unfolding or_default
or_default-IsTimeSet d zero p = (p, inl refl)
or_default-IsTimeSet d (suc t) p = (omega arith, inr refl)

-- A client that was connected polls with intervals and timeouts that are not zero, each the one of
-- the options where that is not zero; the other options are those given.
pub new_redfish_bmc_client-AreTimesSet :
    (service : Service) (wanted : RedfishOptions)
    → Keeps
        (λ h. Unit)
        (new_redfish_bmc_client service wanted)
        (λ o. AreTimesSet wanted o × (client_config o ≡ client_config wanted))
unfolding new_redfish_bmc_client with_defaults client_config
new_redfish_bmc_client-AreTimesSet service wanted =
    Keeps-then _ _
      (Keeps-wrap "failed to connect to redfish endpoint" _
        (Keeps-perform (RedfishCall.connect (client_config wanted)) _ (λ h j. tt) (λ h a e. tt)))
      (Keeps-pure _ (
        (
          or_default-IsTimeSet _ _ (omega arith),
          or_default-IsTimeSet _ _ (omega arith),
          or_default-IsTimeSet _ _ (omega arith),
          or_default-IsTimeSet _ _ (omega arith),
        ),
        refl,
      ))
