-- ===== src/Effects/Sessions.antt =====
-- Sessions that calls open and close, for any type of calls: a call opens one where its answer
-- hands one out, and a deferred call closes it.
use Prim.Native.Nat.{pred}
use metal_operator.Base.{ℕ, suc, String, ◌≡◌, refl, Bool, true, false, List, [], ◌∷◌}
use metal_operator.Effects.Core.{
  Result, Program, proceed, wrap_result, ◌>>=◌, perform, wrap, deferring,
}
use metal_operator.Effects.Keeps.{Kept, Keeps, Anything, Keeps-perform}

abbrev pub is_ok : {A : Type 0} → Result A → Bool
is_ok (Result.ok a) = true
is_ok (Result.err e) = false

abbrev pub count : Bool → Bool → ℕ → ℕ
count true closes n = suc n
count false true n = pred n
count false false n = n

-- Whether a call opens a session, after the calls before it, and whether it closes one.
pub record SessionCalls (C : Type 0) : Type 0 where
  pub opens : C → List C → Bool
  pub closes : C → Bool

module _ {C : Type 0} (p : SessionCalls C) where
  -- The sessions that are open.
  abbrev pub sessions : List C → ℕ
  sessions [] = 0
  sessions (c ∷ h) = count (p.opens c h) (p.closes c) (sessions h)

  abbrev pub Open : ℕ → List C → Type 0
  Open n h = sessions h ≡ n

  module _ (n : ℕ) where
    pub Keeps-neutral :
        {A : Type 0} (c : C) (answer : List C → Result A)
        → ((h : List C) → p.opens c h ≡ false)
        → p.closes c ≡ false
        → Keeps (Open n) (perform c answer) Anything
    Keeps-neutral c answer o e = Keeps-perform c answer (λ h j. simp (o h, e) j) (λ h a q. tt)

    module _ {A B : Type 0} (c close : C) (answer : List C → Result B)
        (opened : (h : List C) → p.opens c h ≡ is_ok (answer h)) (kept : p.closes c ≡ false)
        (neither : (h : List C) → p.opens close h ≡ false) (closed : p.closes close ≡ true) where
      logged_out :
          (x : Result A × List C)
          → Kept (Open (suc n)) Anything x
          → Kept (Open n) Anything (x.0, close ∷ x.1)
      logged_out (Result.ok a, h) (j, t) = (less h j, tt)
        where
          less : (h : List C) → Open (suc n) h → Open n (close ∷ h)
          less h j = simp (neither h, closed, j) refl
      logged_out (Result.err e, h) j = simp (neither h, closed, j) refl

      -- A session that is closed on every way out.
      pub Keeps-session :
          (message : String) (k : B → Program C A)
          → ((b : B) → Keeps (Open (suc n)) (k b) Anything)
          → Keeps (Open n) (wrap message (perform c answer) >>= λ b. deferring close (k b)) Anything
      unfolding ◌>>=◌ wrap perform deferring
      Keeps-session message k kk = record { at = λ h j. go h j (answer h) refl }
        where
          go :
              (h : List C)
              → Open n h
              → (r : Result B) → answer h ≡ r
              → Kept
                  (Open n)
                  Anything
                  (proceed (wrap_result message r, c ∷ h) (λ b. deferring close (k b)))
          go h j (Result.ok b) e =
              logged_out (k b (c ∷ h)) ((kk b).at (c ∷ h) (simp (opened h, e, j) refl))
          go h j (Result.err x) e = simp (opened h, e, kept, j) refl
