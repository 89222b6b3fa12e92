-- ===== src/Probe/Ticks.antt =====
-- How often the probe registers.
use metal_operator.Base.{ℕ, suc, Bool, true, false, List, [], ◌∷◌}
use metal_operator.Probe.Backoff.{Backoff}
use metal_operator.Probe.Agent.{Agent, ProbeCall, ProbeHistory}

-- The posts of a history.
abbrev pub posts : ProbeHistory → ℕ
posts [] = 0
posts (ProbeCall.post url payload ∷ h) = suc (posts h)
posts (ProbeCall.list_interfaces ∷ h) = posts h

-- The ticks before the end of the context.
abbrev pub ticks_before_end : List Bool → ℕ
ticks_before_end [] = 0
ticks_before_end (true ∷ ticks) = 0
ticks_before_end (false ∷ ticks) = suc (ticks_before_end ticks)
