-- ===== src/Tests/Answers.antt =====
-- An environment that answers every call with success: the API server stores what it is sent.
use metal_operator.Base.{true, false, none, some, [], ◌∷◌, sym, ap, ◌≡◌}
use metal_operator.Api.Server.{Server, ServerPowerState}
use metal_operator.Effects.{Result, Err}
use metal_operator.Effects.Env.{Env, Bmc, OperationResult}
use metal_operator.ServerReconciler.Boot.{empty_boot_configuration}
use metal_operator.ServerReconciler.Diagram.{IsSingleWriter}
use metal_operator.ClaimReconciler.Respects.{IsSoleBinder}
use metal_operator.ClaimReconciler.Claim.{claim_reference}
use metal_operator.Tests.Data.{claim}

-- A BMC that powers off only by force: the wait for a graceful shutdown fails.
abbrev pub bmc : Bmc
bmc = record {
  power_on = λ u h. Result.ok tt;
  power_off = λ u h. Result.ok tt;
  force_power_off = λ u h. Result.ok tt;
  reset = λ u t h. Result.ok tt;
  set_pxe_boot_once = λ u h. Result.ok tt;
  get_system_info = λ u h. Result.ok (record {
    manufacturer = "m";
    model = "x";
    power_state = ServerPowerState.off;
    system_uuid = "";
    status = "";
    total_system_memory = 1024;
    serial_number = "s";
    sku = "k";
    indicator_led = "Off";
  });
  get_boot_order = λ u h. Result.ok ("Boot0002" ∷ "Boot0001" ∷ []);
  set_boot_order = λ u o h. Result.ok tt;
  get_bios_version = λ u h. Result.ok "1";
  get_bios_attribute_values = λ u k h. Result.ok [];
  set_bios_attributes = λ u a h. Result.ok false;
  get_storages = λ u h. Result.ok [];
  wait_for_server_power_state = λ u p h. elim p [
    | ServerPowerState.off ↦ Result.err (Err.failed "timeout")
    | _ ↦ Result.ok tt
  ];
}

-- The environment, which holds one server and one claim.
abbrev pub world : Server → Env
world held = record {
  get_server = λ n h. Result.ok held;
  list_servers = λ l h. Result.ok (held ∷ []);
  patch_server = λ base new h. Result.ok (record new { status = base.status });
  patch_server_status = λ base new h. Result.ok (record base { status = new.status });
  create_or_patch_server = λ s f h. Result.ok (s, OperationResult.unchanged);
  ensure_server_finalizer = λ s f h. Result.ok (s, false);
  ensure_no_server_finalizer = λ s f h. Result.ok true;
  get_claim = λ ns n h. Result.ok claim;
  list_claims = λ h. Result.ok (claim ∷ []);
  patch_claim = λ base new h. Result.ok new;
  patch_claim_status = λ base new h. Result.ok new;
  ensure_claim_finalizer = λ c f h. Result.ok (c, false);
  ensure_no_claim_finalizer = λ c f h. Result.ok true;
  get_boot_configuration = λ ns n h. Result.ok (empty_boot_configuration n ns);
  patch_boot_configuration_status = λ base new h. Result.ok new;
  create_or_patch_boot_configuration = λ c f h. f c;
  delete_boot_configuration = λ ns n h. Result.ok tt;
  apply_secret = λ s h. Result.ok tt;
  http_get = λ url h. record { response = none; error = some (Err.failed "no route") };
  http_delete = λ url h. Result.ok tt;
  decode_registry_server = λ t. Result.ok (record { network_interfaces = [] });
  parse_addr = λ t. some t;
  now = λ h. 0;
  generate_key_pair =
      λ h. Result.ok (record { private_key = "k"; public_key = "p"; password = "w" });
  hash_password = λ p h. Result.ok p;
  ignition_data = λ a b c d. Result.ok "ignition";
  set_status_condition = λ cs c. (c ∷ cs, true);
  label_selector_as_selector = λ l. Result.ok (record { text = l.text });
  selector_matches = λ s labels. true;
  contains_finalizer = λ fs f. true;
  set_controller_reference = λ owner m. Result.ok m;
  bmc_client = λ s h. Result.ok bmc;
}

ok_injective : {A : Type 0} {a b : A} → Result.ok a ≡ Result.ok b → a ≡ b
ok_injective e = cc

fst_eq : {A B : Type 0} {x y : A × B} → x ≡ y → x.0 ≡ y.0
fst_eq e = ap (λ p. p.0) e

pub world-IsSingleWriter : (held : Server) → IsSingleWriter (world held)
world-IsSingleWriter held = record {
  spec_patch = λ base new s h e. sym (ap (λ x. x.status.state) (ok_injective e));
  status_patch = λ base new s h e. sym (ap (λ x. x.status.state) (ok_injective e));
  create_or_patch = λ old s f op h e. sym (ap (λ x. x.status.state) (fst_eq (ok_injective e)));
  finalizer = λ old s name m h e. sym (ap (λ x. x.status.state) (fst_eq (ok_injective e)));
}

pub world-IsSoleBinder : (held : Server) → IsSoleBinder (world held)
world-IsSoleBinder held = record {
  server = λ base new h s e. sym (ap (λ x. x.spec.server_claim_ref) (ok_injective e));
  claim = λ base new h c e. sym (ap (λ x. claim_reference x) (ok_injective e));
  claim_status = λ base new h c e. sym (ap (λ x. claim_reference x) (ok_injective e));
  finalizer = λ base f h c m e. sym (ap (λ x. claim_reference x) (fst_eq (ok_injective e)));
}
