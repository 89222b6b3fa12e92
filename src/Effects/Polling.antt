-- ===== src/Effects/Polling.antt =====
-- The contract of wait.PollUntilContextTimeout with `immediate` set, which the clients and the
-- mover are given: it runs the condition at once and then again until the condition is met, the
-- condition fails, or the time is over. A condition is met by a value where Go's closure assigns a
-- captured variable and returns true.
use mathlib.Core.Path.{subst}
use metal_operator.Base.{◌≡◌, refl, ℕ, Option, none, some, List}
use metal_operator.Effects.Core.{Err, Result, Program}
use metal_operator.Effects.Keeps.{Keeps, Kept}

-- context.DeadlineExceeded
abbrev pub deadline_exceeded : Err
deadline_exceeded = Err.failed "context deadline exceeded"

-- How polling can go: from a history, to a result and a history.
pub data Polls {C A : Type 0} (condition : Program C (Option A))
    : List C → Result A × List C → Type 0 where
  met :
      {h h' : List C} {a : A}
      → condition h ≡ (Result.ok (some a), h')
      → Polls condition h (Result.ok a, h')
  failing :
      {h h' : List C} {e : Err}
      → condition h ≡ (Result.err e, h')
      → Polls condition h (Result.err e, h')
  timed_out :
      {h h' : List C}
      → condition h ≡ (Result.ok none, h')
      → Polls condition h (Result.err deadline_exceeded, h')
  again :
      {h h' : List C} {x : Result A × List C}
      → condition h ≡ (Result.ok none, h')
      → Polls condition h' x
      → Polls condition h x

-- The numbers are the interval and the timeout.
pub record Poller (C : Type 0) : Type 1 where
  pub poll : {A : Type 0} → ℕ → ℕ → Program C (Option A) → Program C A
  pub poll_law :
      {A : Type 0} (interval timeout : ℕ) (condition : Program C (Option A)) (h : List C)
      → Polls condition h (poll interval timeout condition h)

-- What a condition gives each time, polling gives.
module _ {C : Type 0} {J : List C → Type 0} {A : Type 0} {P : A → Type 0}
    (condition : Program C (Option A))
    (k : Keeps J condition (λ o. (a : A) → o ≡ some a → P a)) where
  after :
      {x : Result (Option A) × List C} {h : List C}
      → condition h ≡ x
      → J h
      → Kept J (λ o. (a : A) → o ≡ some a → P a) x
  after {h} e j = subst (Kept J (λ o. (a : A) → o ≡ some a → P a)) e (k.at h j)

  Polls-kept : {h : List C} {x : Result A × List C} → Polls condition h x → J h → Kept J P x
  Polls-kept (Polls.met {a} e) j = let (j', p) = after e j in (j', p a refl)
  Polls-kept (Polls.failing e) j = after e j
  Polls-kept (Polls.timed_out e) j = (after e j).0
  Polls-kept (Polls.again e next) j = Polls-kept next (after e j).0

  pub Keeps-poll :
      (poller : Poller C) (interval timeout : ℕ)
      → Keeps J (poller.poll interval timeout condition) P
  Keeps-poll poller interval timeout = record {
    at = λ h j. Polls-kept (poller.poll_law interval timeout condition h) j;
  }
