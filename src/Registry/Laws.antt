-- ===== src/Registry/Laws.antt =====
-- What a client of the registry sees, whatever requests came before.
use metal_operator.Base.{
  String, ◌≡◌, refl, ap, ◌∙◌, Bool, true, false, Option-cases, not, ◌⊎◌, inl, inr, ◌==◌, eq_iff,
  eq_refl, if◌then◌else◌, Option, none, some, is_none, List, [], ◌∷◌, lookup, erase, lookup-insert,
  lookup-erase, arith,
}
use metal_operator.Effects.{Result}
use metal_operator.Effects.Env.{RegistryServer}
use metal_operator.Registry.Server.{
  RegistrationPayload, Codec, Route, Request, Response, Store, answer, not_found_response,
  store_payload, register_handler, write_server, send_system, systems_handler, delete_handler,
  dispatch, serve, serve_all,
}

-- What the registry knows of a system, as a function of the requests alone: a POST of a valid
-- payload for the system sets it, a DELETE of the system forgets it, and nothing else changes it.
abbrev pub registered :
    Result RegistrationPayload → String → Option RegistryServer → Option RegistryServer
registered (Result.ok reg) uuid known = if reg.system_uuid == uuid then some reg.server else known
registered (Result.err e) uuid known = known

abbrev pub heard : Codec → Route → Request → String → Option RegistryServer → Option RegistryServer
heard codec Route.register r uuid known =
    if r.method == "POST" then registered (codec.decode r.body) uuid known else known
heard codec (Route.delete other) r uuid known =
    if r.method == "DELETE" then (if other == uuid then none else known) else known
heard codec (Route.systems other) r uuid known = known

abbrev pub known_after :
    Codec → List Request → String → Option RegistryServer → Option RegistryServer
known_after codec [] uuid known = known
known_after codec (r ∷ rs) uuid known = known_after codec rs uuid (heard codec r.route r uuid known)

module _ (codec : Codec) where
  lookup-store_payload :
      (p : Result RegistrationPayload) (uuid : String) (store : Store)
      → lookup uuid (store_payload codec p store).1 ≡ registered p uuid (lookup uuid store)
  unfolding store_payload
  lookup-store_payload (Result.ok reg) uuid store =
      lookup-insert reg.system_uuid uuid reg.server store
  lookup-store_payload (Result.err e) uuid store = refl

  deleted :
      (other uuid : String) (store : Store) (b : Bool) (x : Response × Store)
      → x ≡ (if b then (not_found_response, store) else (answer 200 "", erase other store))
      → is_none (lookup other store) ≡ b
      → lookup uuid x.1 ≡ (if other == uuid then none else lookup uuid store)
  deleted other uuid store true x q e = rw q (ground (arith, eq_iff other uuid))
  deleted other uuid store false x q e = rw q (lookup-erase other uuid store)

  -- A handler that leaves the store alone unless the method is the right one.
  guarded :
      (b : Bool) (uuid : String) (refusal : Response) (x : Response × Store) (store : Store)
      (known : Option RegistryServer)
      → lookup uuid x.1 ≡ known
      → lookup uuid (if not b then (refusal, store) else x).1
        ≡ (if b then known else lookup uuid store)
  guarded true uuid refusal x store known e = e
  guarded false uuid refusal x store known e = refl

  lookup-dispatch :
      (route : Route) (r : Request) (uuid : String) (store : Store)
      → lookup uuid (dispatch codec route r store).1 ≡ heard codec route r uuid (lookup uuid store)
  unfolding dispatch register_handler systems_handler delete_handler
  lookup-dispatch Route.register r uuid store =
      guarded (r.method == "POST") uuid _ (store_payload codec (codec.decode r.body) store) store _
        (lookup-store_payload (codec.decode r.body) uuid store)
  lookup-dispatch (Route.delete other) r uuid store =
      guarded (r.method == "DELETE") uuid _ _ store _
        (deleted other uuid store (is_none (lookup other store)) _ refl refl)
  lookup-dispatch (Route.systems other) r uuid store = only_read (r.method == "GET") _ refl
    where
      only_read :
          (b : Bool) (x : Response × Store)
          → x ≡ (
              if not b
              then (answer 405 "Only GET method is allowed", store)
              else (send_system codec (lookup other store), store))
          → lookup uuid x.1 ≡ lookup uuid store
      only_read true x q = rw q refl
      only_read false x q = rw q refl

  -- The store of the registry holds for every system what the requests say of it: the server of
  -- the last valid POST for the system, if no DELETE of it came later, and else what the store
  -- held before; requests with another method or an invalid payload and all GETs change nothing.
  pub lookup-serve_all :
      (rs : List Request) (store : Store) (uuid : String)
      → lookup uuid (serve_all codec rs store) ≡ known_after codec rs uuid (lookup uuid store)
  unfolding serve_all serve
  lookup-serve_all [] store uuid = refl
  lookup-serve_all (r ∷ rs) store uuid =
      lookup-serve_all rs (serve codec r store).1 uuid
      ∙ ap (known_after codec rs uuid) (lookup-dispatch r.route r uuid store)

-- A machine that a probe has registered can be read back: after a POST whose body decodes to a
-- payload, a GET of its system answers 200 with the encoding of the registered server, whatever
-- the store held.
pub register-systems :
    (codec : Codec) (body text : String) (reg : RegistrationPayload) (store : Store)
    → codec.decode body ≡ Result.ok reg
    → codec.encode reg.server ≡ Result.ok text
    → (serve codec
        (record { method = "GET"; route = Route.systems reg.system_uuid; body = "" })
        (serve codec (record { method = "POST"; route = Route.register; body = body }) store).1).0
      ≡ answer 200 text
unfolding serve dispatch register_handler systems_handler send_system write_server store_payload
register-systems codec body text reg store d e =
    simp
      (
        d,
        lookup-insert reg.system_uuid reg.system_uuid reg.server store,
        eq_refl reg.system_uuid,
        e,
      )
      refl

-- A DELETE answers 404 and changes nothing where the store has no such system; else it answers
-- 200, after which a GET of the system answers 404.
pub delete-systems :
    (codec : Codec) (uuid : String) (store : Store)
    → ((lookup uuid store ≡ none)
        × (serve codec (record { method = "DELETE"; route = Route.delete uuid; body = "" }) store
            ≡ (not_found_response, store)))
      ⊎ (((serve codec (record { method = "DELETE"; route = Route.delete uuid; body = "" }) store).0
            ≡ answer 200 "")
          × ((serve codec
                (record { method = "GET"; route = Route.systems uuid; body = "" })
                (serve codec
                  (record { method = "DELETE"; route = Route.delete uuid; body = "" })
                  store).1).0
              ≡ not_found_response))
unfolding serve dispatch delete_handler systems_handler send_system
delete-systems codec uuid store = elim (Option-cases (lookup uuid store)) [
  | inl e ↦ inl (e, simp e refl)
  | inr (s, e) ↦ inr (simp e refl, simp (e, lookup-erase uuid uuid store, eq_refl uuid) refl)
]
