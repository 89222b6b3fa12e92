-- ===== src/Tests/Pollers.antt =====
-- A poller: it runs the condition a number of times at most.
use metal_operator.Base.{ℕ, zero, suc, ◌≡◌, refl, Option, none, some, List}
use metal_operator.Effects.{Result, Program}
use metal_operator.Effects.Polling.{Poller, Polls, deadline_exceeded}

-- What follows an answer of the condition, given what comes next.
abbrev continue :
    {C A : Type 0} → (List C → Result A × List C) → Result (Option A) × List C → Result A × List C
continue next (Result.ok (some a), h) = (Result.ok a, h)
continue next (Result.ok none, h) = next h
continue next (Result.err e, h) = (Result.err e, h)

abbrev retry : {C A : Type 0} → ℕ → Program C (Option A) → Program C A
retry zero condition h = continue (λ h'. (Result.err deadline_exceeded, h')) (condition h)
retry (suc n) condition h = continue (retry n condition) (condition h)

module _ {C A : Type 0} (condition : Program C (Option A)) where
  pub retry-Polls : (n : ℕ) (h : List C) → Polls condition h (retry n condition h)
  retry-Polls zero h = go (condition h) refl
    where
      go :
          (x : Result (Option A) × List C)
          → condition h ≡ x
          → Polls condition h (continue (λ h'. (Result.err deadline_exceeded, h')) x)
      go (Result.ok (some a), h') e = Polls.met e
      go (Result.ok none, h') e = Polls.timed_out e
      go (Result.err x, h') e = Polls.failing e
  retry-Polls (suc n) h = go (condition h) (λ h'. retry-Polls n h') refl
    where
      go :
          (x : Result (Option A) × List C)
          → ((h' : List C) → Polls condition h' (retry n condition h'))
          → condition h ≡ x
          → Polls condition h (continue (retry n condition) x)
      go (Result.ok (some a), h') k e = Polls.met e
      go (Result.ok none, h') k e = Polls.again e (k h')
      go (Result.err x, h') k e = Polls.failing e

abbrev pub three_more : {C : Type 0} → Poller C
three_more = record {
  poll = λ interval timeout condition. retry 3 condition;
  poll_law = λ interval timeout condition h. retry-Polls condition 3 h;
}
