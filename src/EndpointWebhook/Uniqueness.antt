-- ===== src/EndpointWebhook/Uniqueness.antt =====
-- No two endpoints of a cluster have the same MAC address, as far as the webhook decides.
use metal_operator.Base.{
  String, ◌≡◌, ◌≢◌, ◌↔◌, refl, ◌==◌, eq_iff, if◌then◌else◌, List, [], ◌∷◌, All, arith,
}
use metal_operator.Effects.{Result}
use metal_operator.EndpointWebhook.Validator.{
  Endpoint, FieldError, Verdict, verdict, duplicates_of_new, duplicates_of_updated,
  validate_mac_address_create, validate_mac_address_update, validate_create, validate_update,
  validate_delete,
}

-- `e` and `f` differ in name and MAC address.
abbrev pub AreApart : Endpoint → Endpoint → Type 0
AreApart e f = (e.name ≢ f.name) × (e.mac_address ≢ f.mac_address)

abbrev pub IsUnique : List Endpoint → Type 0
IsUnique [] = Unit
IsUnique (e ∷ es) = All (AreApart e) es × IsUnique es

-- The API server, with the endpoints it holds: it replaces the one of the same name, or removes it.
abbrev pub replace : Endpoint → List Endpoint → List Endpoint
replace u [] = []
replace u (e ∷ es) = (if e.name == u.name then u else e) ∷ replace u es

abbrev pub remove : Endpoint → List Endpoint → List Endpoint
remove u [] = []
remove u (e ∷ es) = let rest = remove u es in if e.name == u.name then rest else e ∷ rest

-- One admitted request after another: the webhook lists what the API server holds, and the API
-- server itself refuses to create an endpoint with the name of another.
pub data Step (es : List Endpoint) : List Endpoint → Type 0 where
  created :
      (new : Endpoint)
      → All (λ e. new.name ≢ e.name) es
      → validate_create (Result.ok es) new ≡ Verdict.admitted
      → Step es (new ∷ es)
  updated :
      (u : Endpoint) → validate_update (Result.ok es) u ≡ Verdict.admitted → Step es (replace u es)
  deleted : (e : Endpoint) → validate_delete e ≡ Verdict.admitted → Step es (remove e es)

pub data Reachable : List Endpoint → Type 0 where
  start : Reachable []
  next : {es fs : List Endpoint} → Reachable es → Step es fs → Reachable fs

admitted_no_error :
    (name : String) (errors : List FieldError)
    → verdict name errors ≡ Verdict.admitted
    → errors ≡ []
unfolding verdict
admitted_no_error name [] h = refl
admitted_no_error name (e ∷ es) h = ground arith

new_apart :
    (new : Endpoint) (es : List Endpoint)
    → duplicates_of_new new es ≡ []
    → All (λ e. new.name ≢ e.name) es
    → All (AreApart new) es
unfolding duplicates_of_new
new_apart new [] h n = tt
new_apart new (e ∷ es) h n = ground (arith, eq_iff e.mac_address new.mac_address, new_apart new es)

-- After an admitted update, an endpoint that is apart from all others still is.
updated_apart :
    (u e : Endpoint) (es : List Endpoint)
    → duplicates_of_updated u es ≡ []
    → e.name ≡ u.name
    → All (AreApart e) es
    → All (AreApart u) (replace u es)
unfolding duplicates_of_updated
updated_apart u e [] h n a = tt
updated_apart u e (f ∷ fs) h n a =
    ground (arith, eq_iff f.mac_address u.mac_address, eq_iff f.name u.name, updated_apart u e fs)

kept_apart :
    (u e : Endpoint) (es : List Endpoint)
    → AreApart e u
    → All (AreApart e) es
    → All (AreApart e) (replace u es)
kept_apart u e [] p a = tt
kept_apart u e (f ∷ fs) p a = ground (arith, eq_iff f.name u.name, kept_apart u e fs)

remove_apart :
    (u e : Endpoint) (es : List Endpoint) → All (AreApart e) es → All (AreApart e) (remove u es)
remove_apart u e [] a = tt
remove_apart u e (f ∷ fs) a = ground (arith, remove_apart u e fs)

remove-IsUnique : (u : Endpoint) (es : List Endpoint) → IsUnique es → IsUnique (remove u es)
remove-IsUnique u [] h = tt
remove-IsUnique u (e ∷ es) h = ground (arith, remove_apart u e es, remove-IsUnique u es)

replace-IsUnique :
    (u : Endpoint) (es : List Endpoint)
    → duplicates_of_updated u es ≡ []
    → IsUnique es
    → IsUnique (replace u es)
unfolding duplicates_of_updated
replace-IsUnique u [] h q = tt
replace-IsUnique u (e ∷ es) h q = ground (
  arith,
  eq_iff e.mac_address u.mac_address,
  eq_iff e.name u.name,
  updated_apart u e es,
  kept_apart u e es,
  replace-IsUnique u es,
)

Step-IsUnique : (es fs : List Endpoint) → Step es fs → IsUnique es → IsUnique fs
unfolding validate_create validate_update validate_mac_address_create validate_mac_address_update
Step-IsUnique es fs (Step.created new n v) q =
    (new_apart new es (admitted_no_error new.name (duplicates_of_new new es) v) n, q)
Step-IsUnique es fs (Step.updated u v) q =
    replace-IsUnique u es (admitted_no_error u.name (duplicates_of_updated u es) v) q
Step-IsUnique es fs (Step.deleted e v) q = remove-IsUnique e es q

-- As long as the webhook sees the endpoints that the API server holds, every set of endpoints
-- that admitted creations, updates and deletions reach from none has pairwise different names and
-- pairwise different MAC addresses.
pub Reachable-IsUnique : (es : List Endpoint) → Reachable es → IsUnique es
Reachable-IsUnique es Reachable.start = tt
Reachable-IsUnique es (Reachable.next {es = before} r s) =
    Step-IsUnique before es s (Reachable-IsUnique before r)

admitted_iff :
    (name : String) (errors : List FieldError)
    → (verdict name errors ≡ Verdict.admitted) ↔ (errors ≡ [])
unfolding verdict
admitted_iff name [] = (λ _. refl, λ _. refl)
admitted_iff name (e ∷ es) = (λ h. ground arith, λ h. ground arith)

none_new :
    (e : Endpoint) (es : List Endpoint)
    → (duplicates_of_new e es ≡ []) ↔ All (λ f. f.mac_address ≢ e.mac_address) es
unfolding duplicates_of_new
none_new e [] = (λ _. tt, λ _. refl)
none_new e (f ∷ fs) = (
  λ h. ground (arith, eq_iff f.mac_address e.mac_address, none_new e fs),
  λ h. ground (arith, eq_iff f.mac_address e.mac_address, none_new e fs),
)

none_updated :
    (e : Endpoint) (es : List Endpoint)
    → (duplicates_of_updated e es ≡ [])
      ↔ All (λ f. f.mac_address ≡ e.mac_address → f.name ≡ e.name) es
unfolding duplicates_of_updated
none_updated e [] = (λ _. tt, λ _. refl)
none_updated e (f ∷ fs) = (
  λ h. ground (arith, eq_iff f.mac_address e.mac_address, eq_iff f.name e.name, none_updated e fs),
  λ h. ground (arith, eq_iff f.mac_address e.mac_address, eq_iff f.name e.name, none_updated e fs),
)

-- The webhook refuses an endpoint only for a reason: where the list succeeds, a creation is
-- admitted exactly when no endpoint has the MAC address, and an update exactly when every endpoint
-- with the MAC address has the name of the updated one.
pub validate_lem :
    (es : List Endpoint) (e : Endpoint)
    → ((validate_create (Result.ok es) e ≡ Verdict.admitted)
        ↔ All (λ f. f.mac_address ≢ e.mac_address) es)
      × ((validate_update (Result.ok es) e ≡ Verdict.admitted)
          ↔ All (λ f. f.mac_address ≡ e.mac_address → f.name ≡ e.name) es)
unfolding validate_create validate_update validate_mac_address_create validate_mac_address_update
validate_lem es e =
    let (c, c') = admitted_iff e.name (duplicates_of_new e es) in
    let (u, u') = admitted_iff e.name (duplicates_of_updated e es) in
    (
      (λ h. (none_new e es).0 (c h), λ h. c' ((none_new e es).1 h)),
      (λ h. (none_updated e es).0 (u h), λ h. u' ((none_updated e es).1 h)),
    )
