-- ===== src/ServerReconciler/Quiet.antt =====
-- Programs that patch no server status, as rules for `search`.
use metal_operator.Base.{◌≡◌, refl, Bool, true, false, Option, ◌∷◌, if◌then◌else◌}
use metal_operator.Effects.{Result, Call, History, M, perform, with_logout}
use metal_operator.Effects.Keeps.{
  Keeps, Anything, Keeps-pure, Keeps-raise, Keeps-lift, Keeps-perform, Keeps-wrap,
  Keeps-with_logout, Keeps-attempt, Keeps-weaken, Keeps-if, Keeps-optional, Keeps-bind, Keeps-then,
  Keeps-ignoring, Keeps-unless_modified,
}
pub use metal_operator.Effects.Rules.{
  Keeps-pure_any, Keeps-lift_any, Keeps-attempt_any, Keeps-optional_any, Keeps-if_any,
  Keeps-bind_any, Keeps-unless_modified_any,
}

abbrev pub is_quiet : Call → Bool
is_quiet (Call.patch_server_status base new) = false
is_quiet _ = true

-- An invariant that a call can break only by patching the status of a server.
pub record IsStable (J : History → Type 0) : Type 0 where
  pub quiet : (c : Call) (h : History) → is_quiet c ≡ true → J h → J (c ∷ h)

module _ {J : History → Type 0} (st : IsStable J) {A : Type 0} where
  pub Keeps-quiet :
      (c : Call) (answer : History → Result A)
      → is_quiet c ≡ true
      → Keeps J (perform c answer) Anything
  Keeps-quiet c answer q = Keeps-perform c answer (λ h. st.quiet c h q) (λ h a e. tt)

  pub Keeps-session : {P : A → Type 0} (m : M A) → Keeps J m P → Keeps J (with_logout m) P
  Keeps-session m = Keeps-with_logout m (λ h. st.quiet Call.logout h refl)

pub ruleset quiet_rules = (
  Keeps-ignoring, Keeps-unless_modified_any, Keeps-attempt_any, Keeps-optional_any, Keeps-quiet,
  Keeps-session, Keeps-pure_any, Keeps-lift_any, Keeps-if_any, Keeps-bind_any, Keeps-then,
  Keeps-raise, Keeps-wrap, refl,
)
