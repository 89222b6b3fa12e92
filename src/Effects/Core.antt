-- ===== src/Effects/Core.antt =====
-- Errors, results, calls, histories, and the monad of the reconcilers.
use metal_operator.Base.{String, Bool, true, false, ◌||◌, Option, none, some, List, ◌∷◌, Dict}
use metal_operator.Api.Meta.{ObjectMeta}
use metal_operator.Api.Server.{Server, ServerPowerState}
use metal_operator.Api.Claim.{ServerClaim, ServerBootConfiguration, Selector}

-- `wrapped m e` is `fmt.Errorf(m + ": %w", e)`; `panic` stands for a run-time panic,
-- and `joined a b` for errors.Join of an error and another.
pub data Err : Type 0 where
  not_found : Err
  failed : String → Err
  panic : String → Err
  wrapped : String → Err → Err
  joined : Err → Err → Err

-- apierrors.IsNotFound looks through wrapped and joined errors.
unfoldable pub is_not_found : Err → Bool
is_not_found Err.not_found = true
is_not_found (Err.failed m) = false
is_not_found (Err.panic m) = false
is_not_found (Err.wrapped m e) = is_not_found e
is_not_found (Err.joined a b) = is_not_found a || is_not_found b

pub data Result (A : Type 0) : Type 0 where
  ok : A → Result A
  err : Err → Result A

-- v1.Secret, as far as the code fills it.
pub record Secret : Type 0 where
  pub metadata : ObjectMeta
  pub content : Dict String

pub data Call : Type 0 where
  get_server : String → Call
  list_servers : Option Selector → Call
  patch_server : Server → Server → Call
  patch_server_status : Server → Server → Call
  create_or_patch_server : Server → (Server → Server) → Call
  ensure_server_finalizer : Server → String → Call
  ensure_no_server_finalizer : Server → String → Call
  get_claim : String → String → Call
  list_claims : Call
  patch_claim : ServerClaim → ServerClaim → Call
  patch_claim_status : ServerClaim → ServerClaim → Call
  ensure_claim_finalizer : ServerClaim → String → Call
  ensure_no_claim_finalizer : ServerClaim → String → Call
  get_boot_configuration : String → String → Call
  patch_boot_configuration_status : ServerBootConfiguration → ServerBootConfiguration → Call
  create_or_patch_boot_configuration :
      ServerBootConfiguration → (ServerBootConfiguration → Result ServerBootConfiguration) → Call
  delete_boot_configuration : String → String → Call
  apply_secret : Secret → Call
  http_get : String → Call
  http_delete : String → Call
  now : Call
  generate_key_pair : Call
  hash_password : String → Call
  bmc_client : Server → Call
  logout : Call
  power_on : String → Call
  power_off : String → Call
  force_power_off : String → Call
  reset : String → String → Call
  set_pxe_boot_once : String → Call
  get_system_info : String → Call
  get_boot_order : String → Call
  set_boot_order : String → List String → Call
  get_bios_version : String → Call
  get_bios_attribute_values : String → List String → Call
  set_bios_attributes : String → Dict String → Call
  get_storages : String → Call
  wait_for_server_power_state : String → ServerPowerState → Call

-- A program over a type of calls: from all calls made so far, newest first, to a result and a
-- longer history.
abbrev pub Program : Type 0 → Type 0 → Type 0
Program C A = List C → Result A × List C

abbrev pub History : Type 0
History = List Call

abbrev pub M : Type 0 → Type 0
M A = Program Call A

abbrev pub proceed : {C A B : Type 0} → Result A × List C → (A → Program C B) → Result B × List C
proceed (Result.ok a, h) f = f a h
proceed (Result.err e, h) f = (Result.err e, h)

infixl 5 ◌>>=◌ ◌>>◌
-- `errors.Join(err, e)`, where `err` may be nil
unfoldable pub join_error : Option Err → Err → Err
join_error none e = e
join_error (some a) e = Err.joined a e

unfoldable pub pure : {C A : Type 0} → A → Program C A
pure a h = (Result.ok a, h)

unfoldable pub raise : {C A : Type 0} → Err → Program C A
raise e h = (Result.err e, h)

unfoldable pub ◌>>=◌ : {C A B : Type 0} → Program C A → (A → Program C B) → Program C B
◌>>=◌ m f h = proceed (m h) f

unfoldable pub ◌>>◌ : {C B : Type 0} → Program C (Unit {0}) → Program C B → Program C B
unfolding ◌>>=◌
m >> k = m >>= λ _. k

-- Makes a call whose answer is a function of the history before it.
unfoldable pub perform : {C A : Type 0} → C → (List C → Result A) → Program C A
perform c answer h = (answer h, c ∷ h)

-- `fmt.Errorf(m + ": %w", err)` on the error of a call.
abbrev pub wrap_result : {A : Type 0} → String → Result A → Result A
wrap_result m (Result.ok a) = Result.ok a
wrap_result m (Result.err e) = Result.err (Err.wrapped m e)

unfoldable pub wrap : {C A : Type 0} → String → Program C A → Program C A
wrap message m h = let (r, h') = m h in (wrap_result message r, h')

-- Hands the error to the code that follows, as `err := f(); if err != nil` does.
unfoldable pub attempt : {C A : Type 0} → Program C A → Program C (Result A)
attempt m h = let (r, h') = m h in (Result.ok r, h')

abbrev pub ignore_error : Result (Unit {0}) → (Err → Bool) → Result (Unit {0})
ignore_error (Result.ok a) p = Result.ok a
ignore_error (Result.err e) p = elim (p e) [ true ↦ Result.ok tt | false ↦ Result.err e ]

-- `if err := m(); err != nil && !p(err) { return err }`
unfoldable pub ignoring : {C : Type 0} → (Err → Bool) → Program C (Unit {0}) → Program C (Unit {0})
ignoring p m h = let (r, h') = m h in (ignore_error r p, h')

-- `defer c()`: the call is made on every way out of `m`.
unfoldable pub deferring : {C A : Type 0} → C → Program C A → Program C A
deferring c m h = let (r, h') = m h in (r, c ∷ h')

-- `defer bmcClient.Logout()`
unfoldable pub with_logout : {A : Type 0} → M A → M A
with_logout m h = let (r, h') = m h in (r, Call.logout ∷ h')

-- `if p == nil { m } else { f(*p) }`
unfoldable pub optional :
    {A C B : Type 0} → Option A → Program C B → (A → Program C B) → Program C B
optional none m f = m
optional (some a) m f = f a

unfoldable pub lift : {C A : Type 0} → Result A → Program C A
lift r h = (r, h)

-- `if modified, err := m(); err != nil || modified { return b, err }`, and then `k`.
unfoldable pub unless_modified :
    {C A B : Type 0} → Program C (A × Bool) → B → (A → Program C B) → Program C B
unfolding ◌>>=◌ pure
unless_modified m b k = m >>= λ (a, modified). elim modified [ true ↦ pure b | false ↦ k a ]
