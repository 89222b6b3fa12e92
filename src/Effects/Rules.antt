-- ===== src/Effects/Rules.antt =====
-- The logic for programs as rules for `search`, for what a program keeps whatever it returns.
use metal_operator.Base.{Bool, Option, List, if◌then◌else◌}
use metal_operator.Effects.Core.{
  Result, Program, pure, ◌>>=◌, attempt, lift, optional, unless_modified,
}
use metal_operator.Effects.Keeps.{
  Keeps, Anything, Keeps-pure, Keeps-raise, Keeps-lift, Keeps-wrap, Keeps-attempt, Keeps-weaken,
  Keeps-if, Keeps-optional, Keeps-bind, Keeps-then, Keeps-ignoring, Keeps-unless_modified,
}

module _ {C : Type 0} {J : List C → Type 0} {A : Type 0} where
  pub Keeps-pure_any : (a : A) → Keeps J (pure a) Anything
  Keeps-pure_any a = Keeps-pure a tt

  pub Keeps-lift_any : (r : Result A) → Keeps J (lift r) Anything
  Keeps-lift_any r = Keeps-lift r (λ a e. tt)

  pub Keeps-attempt_any : (m : Program C A) → Keeps J m Anything → Keeps J (attempt m) Anything
  Keeps-attempt_any m k = Keeps-weaken (attempt m) (Keeps-attempt m k) (λ a p. tt)

  pub Keeps-optional_any :
      {B : Type 0} (o : Option B) (m : Program C A) (f : B → Program C A)
      → Keeps J m Anything
      → ((b : B) → Keeps J (f b) Anything)
      → Keeps J (optional o m f) Anything
  Keeps-optional_any o m f km kf = Keeps-optional o m f km (λ b _. kf b)

  pub Keeps-if_any :
      (b : Bool) (m n : Program C A)
      → Keeps J m Anything
      → Keeps J n Anything
      → Keeps J (if b then m else n) Anything
  Keeps-if_any b m n km kn = Keeps-if b m n (λ _. km) (λ _. kn)

module _ {C : Type 0} {J : List C → Type 0} {A B : Type 0} {P : B → Type 0} where
  pub Keeps-bind_any :
      (m : Program C A) (f : A → Program C B)
      → Keeps J m Anything
      → ((a : A) → Keeps J (f a) P)
      → Keeps J (m >>= f) P
  Keeps-bind_any m f km kf = Keeps-bind m f km (λ a _. kf a)

module _ {C : Type 0} {J : List C → Type 0} {A B : Type 0} where
  pub Keeps-unless_modified_any :
      (m : Program C (A × Bool)) (b : B) (f : A → Program C B)
      → Keeps J m Anything
      → ((a : A) → Keeps J (f a) Anything)
      → Keeps J (unless_modified m b f) Anything
  Keeps-unless_modified_any m b f km kf =
      Keeps-unless_modified {P = Anything} m b f (Keeps-weaken m km (λ x p q. tt)) tt (λ a _. kf a)

pub ruleset program_rules = (
  Keeps-ignoring, Keeps-unless_modified_any, Keeps-attempt_any, Keeps-optional_any, Keeps-pure_any,
  Keeps-lift_any, Keeps-if_any, Keeps-bind_any, Keeps-then, Keeps-raise, Keeps-wrap,
)
