-- ===== src/ClaimReconciler/Cleanup.antt =====
-- What the deletion of a claim does to its server.
use metal_operator.Base.{
  String, ◌≡◌, ◌≢◌, refl, ap, ◌⊎◌, inl, inr, Bool, true, false, ◌!=◌, ◌&&◌, eq_iff, Bool-cases,
  Option, none, some, is_some, [], ◌∷◌, ◌++◌, arith,
}
use metal_operator.Api.Meta.{LocalObjectReference, ObjectReference}
use metal_operator.Api.Server.{Server, Power, with_power, with_boot_ref, with_claim_ref}
use metal_operator.Api.Claim.{ServerClaim}
use metal_operator.Effects.{
  History, Result, Err, Call, proceed, wrap_result, pure, optional, perform, wrap, ignoring,
  is_not_found, attempt, ◌>>=◌, ◌>>◌,
}
use metal_operator.Effects.Env.{Env}
use metal_operator.Effects.Keeps.{Keeps, Kept-history, Anything, Keeps-perform}
use metal_operator.Client.{delete_boot_configuration}
use metal_operator.ServerReconciler.Quiet.{quiet_rules}
use metal_operator.ClaimReconciler.Reconcile.{
  keeps_boot_ref, forget_server, remove_boot_config_ref_from_server_and_power_off,
  remove_claim_ref_from_server, clean_up, server_or_empty, cleanup_and_shutdown_server,
}

-- Later calls after those of `base`.
abbrev pub IsAfter : History → History → Type 0
IsAfter base h = (later : History) × (h ≡ later ++ base)

module _ (env : Env) (base : History) where
  Keeps-any :
      {A : Type 0} (c : Call) (answer : History → Result A)
      → Keeps (IsAfter base) (perform c answer) Anything
  Keeps-any c answer =
      Keeps-perform c answer (λ h (later, e). (c ∷ later, ap (λ t. c ∷ t) e)) (λ _ _ _. tt)

  clean_up-IsAfter :
      (claim : ServerClaim) (s : Server)
      → Keeps
          (IsAfter base)
          (wrap "failed to delete serverbootconfig" (
              ignoring is_not_found
                (delete_boot_configuration env claim.metadata.namespace claim.metadata.name))
            >> wrap "failed to remove boot config ref from server" (
                remove_boot_config_ref_from_server_and_power_off env claim.metadata.name
                  claim.metadata.namespace s))
          Anything
  unfolding remove_boot_config_ref_from_server_and_power_off forget_server
  clean_up-IsAfter claim s = search (quiet_rules, Keeps-any) depth 12

  removed :
      (claim : ServerClaim) (x : Result Server) (h : History)
      → IsAfter base h
      → IsAfter base
          (proceed
            (wrap_result "failed to remove claim ref from server" x, h)
            (λ s.
              wrap "failed to delete serverbootconfig" (
                ignoring is_not_found
                  (delete_boot_configuration env claim.metadata.namespace claim.metadata.name))
              >> wrap "failed to remove boot config ref from server" (
                  remove_boot_config_ref_from_server_and_power_off env claim.metadata.name
                    claim.metadata.namespace s))).1
  removed claim (Result.ok s) h a =
      Kept-history (IsAfter base) Anything _ ((clean_up-IsAfter claim s).at h a)
  removed claim (Result.err e) h a = a

module _ (env : Env) (claim : ServerClaim) where
  clean_up-claimed :
      (s : Server) (h : History)
      → is_some s.spec.server_claim_ref ≡ true
      → IsAfter (Call.patch_server s (with_claim_ref none s) ∷ h) (clean_up env claim s h).1
  unfolding clean_up remove_claim_ref_from_server ◌>>=◌ wrap perform
  clean_up-claimed s h c =
      simp c (removed env _ claim (env.patch_server s (with_claim_ref none s) h) _ ([], refl))

-- Deleting a claim clears the claim reference of the server that the claim names, whichever claim
-- that reference is to: the second call, after the fetch of the server, patches the reference away.
pub cleanup_and_shutdown_server-clears :
    (env : Env) (claim : ServerClaim) (ref : LocalObjectReference) (s : Server) (h : History)
    → claim.spec.server_ref ≡ some ref
    → env.get_server ref.name h ≡ Result.ok s
    → is_some s.spec.server_claim_ref ≡ true
    → IsAfter
        (Call.patch_server s (with_claim_ref none s) ∷ Call.get_server ref.name ∷ h)
        (cleanup_and_shutdown_server env claim h).1
unfolding cleanup_and_shutdown_server server_or_empty optional ◌>>=◌ attempt perform pure
cleanup_and_shutdown_server-clears env claim ref s h e g c =
    simp (e, g) (clean_up-claimed env claim s (Call.get_server ref.name ∷ h) c)

returned : (x : Result Server) (h : History) → (proceed {B = Unit {0}} (x, h) (λ _. pure tt)).1 ≡ h
unfolding pure
returned (Result.ok s) h = refl
returned (Result.err e) h = refl

patched_then_done :
    (env : Env) (p : Err → Bool) (c : Call) (answer : History → Result Server) (h : History)
    → (ignoring p (forget_server env (perform c answer)) h).1 ≡ c ∷ h
unfolding ignoring forget_server ◌>>=◌ perform
patched_then_done env p c answer h = returned (answer h) (c ∷ h)

keeps_boot_ref_lem :
    (env : Env) (name namespace : String) (s : Server) (ref : ObjectReference)
    → s.spec.boot_configuration_ref ≡ some ref
    → keeps_boot_ref env name namespace s ≡ (ref.name != name && ref.namespace != namespace)
unfolding keeps_boot_ref
keeps_boot_ref_lem env name namespace s ref e = go s.spec.boot_configuration_ref e
  where
    go :
        (o : Option ObjectReference)
        → o ≡ some ref
        → (elim o [ none ↦ true | some r ↦ r.name != name && r.namespace != namespace ])
          ≡ (ref.name != name && ref.namespace != namespace)
    go o e = rw e

both_differ : (a b c d : String) → (a != b && c != d) ≡ true → (a ≢ b) × (c ≢ d)
both_differ a b c d h = ground (arith, eq_iff a b, eq_iff c d)

one_agrees : (a b c d : String) → (a != b && c != d) ≡ false → (a ≡ b) ⊎ (c ≡ d)
one_agrees a b c d h = ground (arith, eq_iff a b, eq_iff c d)

-- For a server with a boot configuration, the deletion of a claim drops the reference to it and
-- asks for power off, in one patch, where the configuration has the claim's name or the claim's
-- namespace, so also for another configuration of the same namespace; else it makes no call.
pub remove_boot_config_ref_lem :
    (env : Env) (name namespace : String) (s : Server) (ref : ObjectReference) (h : History)
    → s.spec.boot_configuration_ref ≡ some ref
    → ((ref.name ≡ name) ⊎ (ref.namespace ≡ namespace))
        × ((remove_boot_config_ref_from_server_and_power_off env name namespace s h).1
            ≡ Call.patch_server s (with_power Power.off (with_boot_ref none s)) ∷ h)
      ⊎ (ref.name ≢ name)
        × (ref.namespace ≢ namespace)
        × (remove_boot_config_ref_from_server_and_power_off env name namespace s h
            ≡ (Result.ok tt, h))
unfolding remove_boot_config_ref_from_server_and_power_off pure
remove_boot_config_ref_lem env name namespace s ref h e =
    elim (Bool-cases (ref.name != name && ref.namespace != namespace)) [
      | inl q ↦ inr (
        (both_differ ref.name name ref.namespace namespace q).0,
        (both_differ ref.name name ref.namespace namespace q).1,
        rw (keeps_boot_ref_lem env name namespace s ref e, q),
      )
      | inr q ↦ inl (
        one_agrees ref.name name ref.namespace namespace q,
        rw (keeps_boot_ref_lem env name namespace s ref e, q)
            (patched_then_done env is_not_found
              (Call.patch_server s (with_power Power.off (with_boot_ref none s)))
              (env.patch_server s (with_power Power.off (with_boot_ref none s))) h),
      )
    ]
