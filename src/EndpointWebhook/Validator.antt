-- ===== src/EndpointWebhook/Validator.antt =====
-- The validator of endpoints. A type assertion on the object holds, since the webhook is
-- registered for endpoints.
use metal_operator.Base.{String, ◌==◌, ◌!=◌, ◌&&◌, if◌then◌else◌, List, [], ◌∷◌}
use metal_operator.Effects.{Result, Err}

-- api/v1alpha1/endpoint_types.go; the resource is cluster-scoped, so the name identifies it.
pub record Endpoint : Type 0 where
  pub name : String
  pub mac_address : String
  pub ip : String

-- k8s.io/apimachinery's field.Error, of the two kinds in use.
pub data FieldError : Type 0 where
  internal_error : Err → FieldError
  duplicate : String → FieldError

-- The outcome of a call of the webhook: admitted, or `apierrors.NewInvalid` with the errors.
pub data Verdict : Type 0 where
  admitted : Verdict
  invalid : String → List FieldError → Verdict

-- `len(allErrs) != 0`
unfoldable pub verdict : String → List FieldError → Verdict
verdict name [] = Verdict.admitted
verdict name (e ∷ es) = Verdict.invalid name (e ∷ es)

-- The loops over all endpoints.
unfoldable pub duplicates_of_new : Endpoint → List Endpoint → List FieldError
duplicates_of_new new [] = []
duplicates_of_new new (e ∷ es) =
    let rest = duplicates_of_new new es in
    if e.mac_address == new.mac_address then FieldError.duplicate e.mac_address ∷ rest else rest

unfoldable pub duplicates_of_updated : Endpoint → List Endpoint → List FieldError
duplicates_of_updated updated [] = []
duplicates_of_updated updated (e ∷ es) =
    let rest = duplicates_of_updated updated es in
    if e.mac_address == updated.mac_address && e.name != updated.name
    then FieldError.duplicate e.mac_address ∷ rest
    else rest

-- A failed list leaves no endpoints to compare with.
unfoldable pub validate_mac_address_create : Result (List Endpoint) → Endpoint → List FieldError
unfolding duplicates_of_new
validate_mac_address_create (Result.ok es) new = duplicates_of_new new es
validate_mac_address_create (Result.err e) new =
    FieldError.internal_error (Err.wrapped "failed to list Endpoints" e) ∷ []

unfoldable pub validate_mac_address_update : Result (List Endpoint) → Endpoint → List FieldError
unfolding duplicates_of_updated
validate_mac_address_update (Result.ok es) updated = duplicates_of_updated updated es
validate_mac_address_update (Result.err e) updated =
    FieldError.internal_error (Err.wrapped "failed to list Endpoints" e) ∷ []

unfoldable pub validate_create : Result (List Endpoint) → Endpoint → Verdict
unfolding validate_mac_address_create verdict
validate_create listed new = verdict new.name (validate_mac_address_create listed new)

unfoldable pub validate_update : Result (List Endpoint) → Endpoint → Verdict
unfolding validate_mac_address_update verdict
validate_update listed updated = verdict updated.name (validate_mac_address_update listed updated)

unfoldable pub validate_delete : Endpoint → Verdict
validate_delete e = Verdict.admitted
