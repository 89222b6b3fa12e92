-- ===== src/Effects/Keeps.antt =====
-- A logic for programs: an invariant of histories that a program keeps on every way out, and what
-- it returns. One rule for each way to build a program.
use metal_operator.Base.{
  String, ◌≡◌, refl, Bool, true, false, Option, none, some, List, [], ◌∷◌, if◌then◌else◌,
}
use metal_operator.Effects.Core.{
  Err, Result, Call, Program, M, wrap_result, proceed, pure, raise, ◌>>=◌, ◌>>◌, perform, wrap,
  attempt, ignoring, ignore_error, deferring, with_logout, lift, optional, unless_modified,
}

-- Every call of the history satisfies `Q`, given the calls before it.
abbrev pub Steps : {C : Type 0} → (C → List C → Type 0) → List C → Type 0
Steps Q [] = Unit
Steps Q (c ∷ h) = Q c h × Steps Q h

abbrev pub Kept : {C A : Type 0} → (List C → Type 0) → (A → Type 0) → Result A × List C → Type 0
Kept J P (Result.ok a, h) = J h × P a
Kept J P (Result.err e, h) = J h

-- `m` keeps `J`, also where it fails, and what it returns satisfies `P`.
pub record Keeps {C : Type 0} (J : List C → Type 0) {A : Type 0} (m : Program C A) (P : A → Type 0)
    : Type 0 where
  pub at : (h : List C) → J h → Kept J P (m h)

-- The invariant, whatever the program returned.
pub Kept-history :
    {C A : Type 0} (J : List C → Type 0) (P : A → Type 0) (x : Result A × List C)
    → Kept J P x
    → J x.1
Kept-history J P (Result.ok a, h) k = k.0
Kept-history J P (Result.err e, h) k = k

abbrev pub Anything : {A : Type 0} → A → Type 0
Anything a = Unit

-- What a program returned and left, seen through each construct.
module _ {C : Type 0} (J : List C → Type 0) {A : Type 0} (P : A → Type 0) where
  answered : (r : Result A) (h : List C) → J h → ((a : A) → r ≡ Result.ok a → P a) → Kept J P (r, h)
  answered (Result.ok a) h j p = (j, p a refl)
  answered (Result.err e) h j p = j

  wrapped :
      (message : String) (x : Result A × List C)
      → Kept J P x
      → Kept J P (wrap_result message x.0, x.1)
  wrapped message (Result.ok a, h) k = k
  wrapped message (Result.err e, h) k = k

  deferred :
      (c : C) (x : Result A × List C) (step : (h : List C) → J h → J (c ∷ h))
      → Kept J P x
      → Kept J P (x.0, c ∷ x.1)
  deferred c (Result.ok a, h) step k = (step h k.0, k.1)
  deferred c (Result.err e, h) step k = step h k

-- A property of values, where there is one.
abbrev pub IfOk : {A : Type 0} → (A → Type 0) → Result A → Type 0
IfOk P (Result.ok a) = P a
IfOk P (Result.err e) = Unit

module _ {C : Type 0} {J : List C → Type 0} {A : Type 0} {P : A → Type 0} where
  pub Keeps-pure : (a : A) → P a → Keeps J (pure a) P
  unfolding pure
  Keeps-pure a p = record { at = λ h j. (j, p) }

  pub Keeps-raise : (e : Err) → Keeps J (raise e) P
  unfolding raise
  Keeps-raise e = record { at = λ h j. j }

  pub Keeps-lift : (r : Result A) → ((a : A) → r ≡ Result.ok a → P a) → Keeps J (lift r) P
  unfolding lift
  Keeps-lift r p = record { at = λ h j. answered J P r h j p }

  pub Keeps-perform :
      (c : C) (answer : List C → Result A)
      → ((h : List C) → J h → J (c ∷ h))
      → ((h : List C) (a : A) → answer h ≡ Result.ok a → P a)
      → Keeps J (perform c answer) P
  unfolding perform
  Keeps-perform c answer step result = record {
    at = λ h j. answered J P (answer h) (c ∷ h) (step h j) (result h);
  }

  -- What holds of the answer may rest on the invariant before the call.
  pub Keeps-perform_at :
      (c : C) (answer : List C → Result A)
      → ((h : List C) → J h → J (c ∷ h))
      → ((h : List C) → J h → (a : A) → answer h ≡ Result.ok a → P a)
      → Keeps J (perform c answer) P
  unfolding perform
  Keeps-perform_at c answer step result = record {
    at = λ h j. answered J P (answer h) (c ∷ h) (step h j) (result h j);
  }

  pub Keeps-wrap : (message : String) (m : Program C A) → Keeps J m P → Keeps J (wrap message m) P
  unfolding wrap
  Keeps-wrap message m k = record { at = λ h j. wrapped J P message (m h) (k.at h j) }

  pub Keeps-deferring :
      (c : C) (m : Program C A)
      → ((h : List C) → J h → J (c ∷ h))
      → Keeps J m P
      → Keeps J (deferring c m) P
  unfolding deferring
  Keeps-deferring c m step k = record { at = λ h j. deferred J P c (m h) step (k.at h j) }

  pub Keeps-if :
      (b : Bool) (m n : Program C A)
      → (b ≡ true → Keeps J m P)
      → (b ≡ false → Keeps J n P)
      → Keeps J (if b then m else n) P
  Keeps-if true m n km kn = km refl
  Keeps-if false m n km kn = kn refl

  pub Keeps-optional :
      {B : Type 0} (o : Option B) (m : Program C A) (f : B → Program C A)
      → Keeps J m P
      → ((b : B) → o ≡ some b → Keeps J (f b) P)
      → Keeps J (optional o m f) P
  unfolding optional
  Keeps-optional none m f km kf = km
  Keeps-optional (some b) m f km kf = kf b refl

  -- Both branches know which one they are.
  pub Keeps-optional_cases :
      {B : Type 0} (o : Option B) (m : Program C A) (f : B → Program C A)
      → (o ≡ none → Keeps J m P)
      → ((b : B) → o ≡ some b → Keeps J (f b) P)
      → Keeps J (optional o m f) P
  unfolding optional
  Keeps-optional_cases none m f km kf = km refl
  Keeps-optional_cases (some b) m f km kf = kf b refl

  pub Keeps-weaken :
      {P' : A → Type 0} (m : Program C A) → Keeps J m P → ((a : A) → P a → P' a) → Keeps J m P'
  Keeps-weaken {P'} m k w = record { at = λ h j. go (m h) (k.at h j) }
    where
      go : (x : Result A × List C) → Kept J P x → Kept J P' x
      go (Result.ok a, h) k = (k.0, w a k.1)
      go (Result.err e, h) k = k

  pub Keeps-attempt : (m : Program C A) → Keeps J m P → Keeps J (attempt m) (IfOk P)
  unfolding attempt
  Keeps-attempt m k = record { at = λ h j. go (m h) (k.at h j) }
    where
      go : (x : Result A × List C) → Kept J P x → J x.1 × IfOk P x.0
      go (Result.ok a, h) k = k
      go (Result.err e, h) k = (k, tt)

module _ {J : List Call → Type 0} {A : Type 0} {P : A → Type 0} where
  pub Keeps-with_logout :
      (m : M A)
      → ((h : List Call) → J h → J (Call.logout ∷ h))
      → Keeps J m P
      → Keeps J (with_logout m) P
  unfolding with_logout
  Keeps-with_logout m step k = record { at = λ h j. deferred J P Call.logout (m h) step (k.at h j) }

-- One step of a program, at one history.
pub Kept-proceed :
    {C A B : Type 0} (J : List C → Type 0) (P : A → Type 0) (P' : B → Type 0)
    (x : Result A × List C) (f : A → Program C B)
    → Kept J P x
    → ((a : A) → P a → Keeps J (f a) P')
    → Kept J P' (proceed x f)
Kept-proceed J P P' (Result.ok a, h) f k kf = (kf a k.1).at h k.0
Kept-proceed J P P' (Result.err e, h) f k kf = k

module _ {C : Type 0} {J : List C → Type 0} {A B : Type 0} {P : A → Type 0} {P' : B → Type 0} where
  pub Keeps-bind :
      (m : Program C A) (f : A → Program C B)
      → Keeps J m P
      → ((a : A) → P a → Keeps J (f a) P')
      → Keeps J (m >>= f) P'
  unfolding ◌>>=◌
  Keeps-bind m f km kf = record { at = λ h j. Kept-proceed J P P' (m h) f (km.at h j) kf }

  -- The value goes on only where it is not modified.
  pub Keeps-unless_modified :
      (m : Program C (A × Bool)) (b : B) (f : A → Program C B)
      → Keeps J m (λ x. x.1 ≡ false → P x.0)
      → P' b
      → ((a : A) → P a → Keeps J (f a) P')
      → Keeps J (unless_modified m b f) P'
  unfolding unless_modified ◌>>=◌ pure
  Keeps-unless_modified m b f km kb kf = record { at = λ h j. go (m h) (km.at h j) }
    where
      go :
          (x : Result (A × Bool) × List C)
          → Kept J (λ y. y.1 ≡ false → P y.0) x
          → Kept J P' (proceed x (λ (a, modified). elim modified [ true ↦ pure b | false ↦ f a ]))
      go (Result.ok (a, true), h) k = (k.0, kb)
      go (Result.ok (a, false), h) k = (kf a (k.1 refl)).at h k.0
      go (Result.err e, h) k = k

module _ {C : Type 0} {J : List C → Type 0} {B : Type 0} {P : B → Type 0} where
  pub Keeps-then :
      (m : Program C (Unit {0})) (n : Program C B)
      → Keeps J m Anything
      → Keeps J n P
      → Keeps J (m >> n) P
  unfolding ◌>>◌
  Keeps-then m n km kn = Keeps-bind m (λ _. n) km (λ _ _. kn)

module _ {C : Type 0} {J : List C → Type 0} where
  pub Keeps-ignoring :
      (p : Err → Bool) (m : Program C (Unit {0}))
      → Keeps J m Anything
      → Keeps J (ignoring p m) Anything
  unfolding ignoring
  Keeps-ignoring p m k = record { at = λ h j. go (m h) (k.at h j) }
    where
      decided :
          (b : Bool) (e : Err) (h : List C)
          → J h
          → Kept J Anything (elim b [ true ↦ Result.ok tt | false ↦ Result.err e ], h)
      decided true e h j = (j, tt)
      decided false e h j = j

      go :
          (x : Result (Unit {0}) × List C)
          → Kept J Anything x
          → Kept J Anything (ignore_error x.0 p, x.1)
      go (Result.ok a, h) k = k
      go (Result.err e, h) k = decided (p e) e h k
