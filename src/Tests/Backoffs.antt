-- ===== src/Tests/Backoffs.antt =====
-- A back-off of a context that is never done.
use metal_operator.Base.{ℕ, zero, suc, ◌≡◌, refl, false, Option, none, some, List}
use metal_operator.Effects.{Err, Result, Program}
use metal_operator.Probe.Backoff.{Backs, Backoff}

-- What follows an answer of the condition, given what comes next.
abbrev continue :
    {C : Type 0}
    → (List C → Result (Unit {0}) × List C)
    → Result (Option (Unit {0})) × List C
    → Result (Unit {0}) × List C
continue next (Result.ok (some a), h) = (Result.ok tt, h)
continue next (Result.ok none, h) = next h
continue next (Result.err e, h) = (Result.err e, h)

abbrev attempts : {C : Type 0} → ℕ → Program C (Option (Unit {0})) → Program C (Unit {0})
attempts zero condition h = (Result.err (Err.failed "timed out waiting for the condition"), h)
attempts (suc n) condition h = continue (attempts n condition) (condition h)

pub attempts-Backs :
    {C : Type 0} (condition : Program C (Option (Unit {0}))) (n : ℕ) (h : List C)
    → Backs (λ h'. false) condition n h (attempts n condition h)
attempts-Backs condition zero h = Backs.exhausted _
attempts-Backs {C} condition (suc n) h = go (condition h) (attempts-Backs condition n) refl
  where
    go :
        (x : Result (Option (Unit {0})) × List C)
        → ((h' : List C) → Backs (λ h'. false) condition n h' (attempts n condition h'))
        → condition h ≡ x
        → Backs (λ h'. false) condition (suc n) h (continue (attempts n condition) x)
    go (Result.ok (some a), h') k e = Backs.met e
    go (Result.ok none, h') k e = Backs.again e (k h')
    go (Result.err x, h') k e = Backs.failing e

abbrev pub undisturbed : {C : Type 0} → Backoff C
undisturbed = record {
  is_done = λ h. false;
  run = λ duration steps condition. attempts steps condition;
  run_law = λ duration steps condition h. attempts-Backs condition steps h;
}
