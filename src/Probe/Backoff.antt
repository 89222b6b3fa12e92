-- ===== src/Probe/Backoff.antt =====
-- wait.ExponentialBackoffWithContext of k8s.io/apimachinery, which registerServer of
-- internal/probe/agent.go calls, by its documented behaviour.
use metal_operator.Base.{ℕ, zero, suc, ◌≡◌, Bool, true, Option, none, some, List}
use metal_operator.Effects.{Err, Result, Program}

-- The runs of a back-off with a number of steps: it runs nothing once the context is done; a
-- condition that is met or fails ends it; and with no step left it fails. The waits between the
-- steps make no call.
pub data Backs {C : Type 0} (is_done : List C → Bool) (condition : Program C (Option (Unit {0})))
    : ℕ → List C → Result (Unit {0}) × List C → Type 0 where
  exhausted : {h : List C} (e : Err) → Backs is_done condition zero h (Result.err e, h)
  cancelled :
      {n : ℕ} {h : List C} (e : Err)
      → is_done h ≡ true
      → Backs is_done condition (suc n) h (Result.err e, h)
  met :
      {n : ℕ} {h h' : List C}
      → condition h ≡ (Result.ok (some tt), h')
      → Backs is_done condition (suc n) h (Result.ok tt, h')
  failing :
      {n : ℕ} {h h' : List C} {e : Err}
      → condition h ≡ (Result.err e, h')
      → Backs is_done condition (suc n) h (Result.err e, h')
  again :
      {n : ℕ} {h h' : List C} {x : Result (Unit {0}) × List C}
      → condition h ≡ (Result.ok none, h')
      → Backs is_done condition n h' x
      → Backs is_done condition (suc n) h x

-- The function takes the first delay and the number of steps; `is_done` is whether the context is
-- done after the calls of a history.
pub record Backoff (C : Type 0) : Type 0 where
  pub is_done : List C → Bool
  pub run : ℕ → ℕ → Program C (Option (Unit {0})) → Program C (Unit {0})
  pub run_law :
      (duration steps : ℕ) (condition : Program C (Option (Unit {0}))) (h : List C)
      → Backs is_done condition steps h (run duration steps condition h)
