-- ===== src/ClaimReconciler/Order.antt =====
-- Every patch of a claim, in a whole reconciliation, is in order.
use metal_operator.Api.Server.{Server}
use metal_operator.Effects.{History}
use metal_operator.Effects.Env.{Env}
use metal_operator.Effects.Keeps.{Steps, Keeps}
use metal_operator.ClaimReconciler.Phases.{InOrder}

module _ (env : Env) where
  abbrev J : History → Type 0
  J = Steps (InOrder env)
