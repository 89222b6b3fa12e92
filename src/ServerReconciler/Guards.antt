-- ===== src/ServerReconciler/Guards.antt =====
-- What comes before the changes of the state in the handlers: the network boot, the clock and the
-- deletion of the registry entry.
use metal_operator.Base.{
  ℕ, ◌+◌, ltb, ◌==◌, ◌&&◌, eq_iff, arith, inl, inr, Bool-cases, is_none, Option, none, some,
  get_last?, if◌then◌else◌, ap, ◌<>◌, ◌≡◌, refl, ◌∙◌, Bool, true, false, ◌∷◌,
}
use metal_operator.Api.Server.{Server, ServerState}
use metal_operator.Api.Meta.{ManagedFieldsEntry}
use metal_operator.Client.{now}
use metal_operator.ServerReconciler.Boot.{pxe_boot_server}
use metal_operator.ServerReconciler.PowerLaws.{Result-cases}
use metal_operator.Effects.{
  M, Err, raise, optional, with_logout, Result, Call, History, proceed, wrap_result, pure, ◌>>=◌,
  ◌>>◌, perform, wrap, unless_modified,
}
use metal_operator.Effects.Env.{Env}
use metal_operator.Effects.Keeps.{
  Keeps, Kept, Kept-proceed, Anything, Keeps-pure, Keeps-wrap, Keeps-bind, Keeps-then,
}
use metal_operator.ServerReconciler.Config.{ServerReconciler}
use metal_operator.ServerReconciler.Status.{
  patch_server_state, last_update_after, check_last_status_update_after, invalidate_registry_entry,
}
use metal_operator.ServerReconciler.States.{boot_for_discovery, give_up_discovery, finish_discovery}
use metal_operator.ServerReconciler.Diagram.{Edge, PxeBooted, TimedOut, BootReady, IsSingleWriter}
use metal_operator.ServerReconciler.QuietParts.{
  ensure_server_power_state-Keeps, pxe_boot_server-Keeps,
}
use metal_operator.ServerReconciler.StateSteps.{
  IsLawful, IsLawful-IsStable, InState, patch_server_state_at,
}
use metal_operator.ServerReconciler.KeepsState.{apply_boot_configuration_for_discovery-InState}

module _ (env : Env) (r : ServerReconciler) (w : IsSingleWriter env) where
  advance_at :
      (s : Server) (x : ServerState) (h : History)
      → IsLawful env r h
      → Edge env r s h x
      → Kept
          (IsLawful env r)
          Anything
          (unless_modified (patch_server_state env r s x) false (λ _. pure false) h)
  unfolding unless_modified ◌>>=◌
  advance_at s x h j e =
      Kept-proceed (IsLawful env r) _ Anything (patch_server_state env r s x h) _
        (patch_server_state_at env r w s x h j e) λ y p. settled y.1
    where
      settled :
          (b : Bool)
          → Keeps (IsLawful env r) (elim b [ true ↦ pure false | false ↦ pure false ]) Anything
      settled true = Keeps-pure false tt
      settled false = Keeps-pure false tt

  pub finish_discovery-IsLawful :
      (s : Server)
      → BootReady env
      → InState ServerState.discovery s
      → Keeps (IsLawful env r) (finish_discovery env r s) Anything
  unfolding finish_discovery ◌>>◌ ◌>>=◌ wrap perform invalidate_registry_entry
  finish_discovery-IsLawful s ready e = record {
    at = λ h j.
        go h j (env.http_delete (r.registry_url <> ("/delete/" <> s.spec.system_uuid)) h) refl;
  }
    where
      go :
          (h : History)
          → IsLawful env r h
          → (a : Result (Unit {0}))
          → env.http_delete (r.registry_url <> ("/delete/" <> s.spec.system_uuid)) h ≡ a
          → Kept (IsLawful env r) Anything (
              proceed
                (
                  wrap_result "failed to invalidate registry entry for server" a,
                  Call.http_delete (r.registry_url <> ("/delete/" <> s.spec.system_uuid)) ∷ h,
                )
                (λ _.
                  unless_modified
                    (patch_server_state env r s ServerState.available)
                    false
                    (λ _. pure false)))
      go h j (Result.ok a) q =
          advance_at s ServerState.available _ (tt, j) (Edge.finish h e ready q refl)
      go h j (Result.err f) q = (tt, j)

  -- A network boot that succeeds has been set.
  pxe_boot_server-PxeBooted :
      (s : Server) (h h' : History)
      → pxe_boot_server env r s h ≡ (Result.ok tt, h')
      → PxeBooted env s h'
  unfolding pxe_boot_server with_logout wrap perform raise ◌>>=◌
  pxe_boot_server-PxeBooted s h h' e = elim (Bool-cases (is_none s.spec.boot_configuration_ref)) [
    | inl none_set ↦ PxeBooted.unconfigured (ground arith)
    | inr set ↦ elim (Result-cases (env.bmc_client s h)) [
      | inl (bmc, q) ↦ PxeBooted.set_once bmc h q (ground arith) (ground arith)
      | inr (f, q) ↦ absurd (ground arith)
    ]
  ]

  pxe_then_discovery-IsLawful :
      (s : Server)
      → InState ServerState.initial s
      → Keeps
          (IsLawful env r)
          (wrap "failed to set PXE boot for server" (pxe_boot_server env r s)
            >> unless_modified
                (patch_server_state env r s ServerState.discovery)
                false
                (λ _. pure false))
          Anything
  unfolding ◌>>◌ ◌>>=◌ wrap
  pxe_then_discovery-IsLawful s e = record {
    at = λ h j.
        go h (pxe_boot_server env r s h) refl
          ((pxe_boot_server-Keeps (IsLawful-IsStable env r) env r s).at h j);
  }
    where
      go :
          (h : History) (x : Result (Unit {0}) × History)
          → pxe_boot_server env r s h ≡ x
          → Kept (IsLawful env r) Anything x
          → Kept (IsLawful env r) Anything (
              proceed
                (wrap_result "failed to set PXE boot for server" x.0, x.1)
                (λ _.
                  unless_modified
                    (patch_server_state env r s ServerState.discovery)
                    false
                    (λ _. pure false)))
      go h (Result.ok a, h') q (j, p) =
          advance_at s ServerState.discovery h' j (Edge.boot e (pxe_boot_server-PxeBooted s h h' q))
      go h (Result.err f, h') q j = j

  pub boot_for_discovery-IsLawful :
      (s : Server)
      → InState ServerState.initial s
      → Keeps (IsLawful env r) (boot_for_discovery env r s) Anything
  unfolding boot_for_discovery
  boot_for_discovery-IsLawful s e =
      Keeps-then _ _ (search (Keeps-wrap, ensure_server_power_state-Keeps, IsLawful-IsStable env r))
        (Keeps-bind _ _
          (Keeps-wrap _ _ (apply_boot_configuration_for_discovery-InState env r w s _ e))
          pxe_then_discovery-IsLawful)

  -- The patch that gives the discovery up, where it is late.
  abbrev go_back : Server → Bool → M (Server × Bool)
  go_back s late = if late then patch_server_state env r s ServerState.initial else pure (s, false)

  abbrev StillIn : Server × Bool → Type 0
  StillIn y = y.1 ≡ false → InState ServerState.discovery y.0

  go_back-InState :
      (s : Server) (late : Bool) (h : History)
      → BootReady env
      → InState ServerState.discovery s
      → IsLawful env r h
      → (late ≡ true → TimedOut env r s h)
      → Kept (IsLawful env r) StillIn (go_back s late h)
  unfolding pure
  go_back-InState s false h ready e j t = (j, λ q. e)
  go_back-InState s true h ready e j t =
      weaker _
        (patch_server_state_at env r w s ServerState.initial h j (Edge.time_out e ready (t refl)))
    where
      weaker :
          (x : Result (Server × Bool) × History)
          → Kept (IsLawful env r) (λ y. InState ServerState.initial y.0 × (y.1 ≡ false → y.0 ≡ s)) x
          → Kept (IsLawful env r) StillIn x
      weaker (Result.ok y, h') (j', p) = (j', λ q. ap (λ t. t.status.state) (p.1 q) ∙ e)
      weaker (Result.err f, h') j' = j'

  timed :
      (s : Server) (m : ManagedFieldsEntry) (h : History)
      → BootReady env
      → InState ServerState.discovery s
      → get_last? s.metadata.managed_fields ≡ some m
      → IsLawful env r h
      → Kept (IsLawful env r) StillIn ((last_update_after env r m >>= go_back s) h)
  unfolding last_update_after ◌>>=◌ optional perform pure raise
  timed s m h ready e l j = go (m.operation == "Update" && m.subresource == "status") refl
    where
      clocked :
          (o : Option ℕ)
          → (m.operation == "Update" && m.subresource == "status") ≡ true
          → m.time ≡ o
          → Kept (IsLawful env r) StillIn (
              (optional o
                    (raise (Err.panic "nil pointer dereference"))
                    (λ time. now env >>= λ t. pure (ltb (time + r.discovery_timeout) t))
                  >>= go_back s)
                h)
      clocked none u q = j
      clocked (some time) u q =
          go_back-InState s (ltb (time + r.discovery_timeout) (env.now h)) (Call.now ∷ h) ready e
            (tt, j)
            λ late. record {
              last = m;
              time = time;
              before = h;
              is_last = l;
              is_update =
                  ground (arith, eq_iff m.operation "Update", eq_iff m.subresource "status");
              of_status =
                  ground (arith, eq_iff m.operation "Update", eq_iff m.subresource "status");
              at = q;
              late = ground arith;
              calls = refl;
            }

      go :
          (b : Bool)
          → (m.operation == "Update" && m.subresource == "status") ≡ b
          → Kept (IsLawful env r) StillIn (
              ((if b
                    then optional m.time
                        (raise (Err.panic "nil pointer dereference"))
                        (λ time. now env >>= λ t. pure (ltb (time + r.discovery_timeout) t))
                    else pure false)
                  >>= go_back s)
                h)
      go true u = clocked m.time u refl
      go false u = go_back-InState s false h ready e j (λ q. absurd (ground arith))

  pub give_up_discovery-InState :
      (s : Server)
      → BootReady env
      → InState ServerState.discovery s
      → Keeps
          (IsLawful env r)
          (give_up_discovery env r s)
          (λ y. y.1 ≡ false → InState ServerState.discovery y.0)
  unfolding give_up_discovery check_last_status_update_after optional raise ◌>>=◌
  give_up_discovery-InState s ready e = record {
    at = λ h j. go (get_last? s.metadata.managed_fields) refl h j;
  }
    where
      go :
          (o : Option ManagedFieldsEntry)
          → get_last? s.metadata.managed_fields ≡ o
          → (h : History) → IsLawful env r h
          → Kept (IsLawful env r) StillIn (
              (optional o (raise (Err.panic "index out of range")) (last_update_after env r)
                  >>= go_back s)
                h)
      go none q h j = j
      go (some m) q h j = timed s m h ready e q j
