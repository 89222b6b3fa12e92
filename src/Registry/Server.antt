-- ===== src/Registry/Server.antt =====
-- The handlers of internal/registry/server.go over the store of systems, a sync.Map from system
-- UUIDs to what the probe registered. A request is served in one step, as its operations on the
-- store are atomic each. The payload is that of internal/api/registry.
use metal_operator.Base.{
  ℕ, String, ◌!=◌, if◌then◌else◌, Option, none, some, is_none, List, [], ◌∷◌, Dict, lookup, insert,
  erase,
}
use metal_operator.Effects.{Result, Err}
use metal_operator.Effects.Env.{RegistryServer}

pub record RegistrationPayload : Type 0 where
  pub system_uuid : String
  pub server : RegistryServer  -- `Data`

-- encoding/json, for the two types that the server reads and writes.
pub record Codec : Type 0 where
  pub decode : String → Result RegistrationPayload
  pub encode : RegistryServer → Result String
  pub error_text : Err → String

-- The pattern of `routes` that http.ServeMux matched, with the rest of the path.
pub data Route : Type 0 where
  register : Route
  delete systems : String → Route

pub record Request : Type 0 where
  pub method : String
  pub route : Route
  pub body : String

pub record Response : Type 0 where
  pub status : ℕ
  pub body : String

-- `systemsStore`
abbrev pub Store : Type 0
Store = Dict RegistryServer

abbrev pub answer : ℕ → String → Response
answer status body = record { status = status; body = body }

abbrev pub not_found_response : Response
not_found_response = answer 404 "404 page not found"

module _ (codec : Codec) where
  unfoldable pub store_payload : Result RegistrationPayload → Store → Response × Store
  store_payload (Result.ok reg) store = (answer 201 "", insert reg.system_uuid reg.server store)
  store_payload (Result.err e) store = (answer 400 (codec.error_text e), store)

  unfoldable pub register_handler : Request → Store → Response × Store
  unfolding store_payload
  register_handler r store =
      if r.method != "POST"
      then (answer 405 "Only POST method is allowed", store)
      else store_payload (codec.decode r.body) store

  unfoldable pub write_server : Result String → Response
  write_server (Result.ok text) = answer 200 text
  write_server (Result.err e) = answer 500 "Failed to encode result"

  unfoldable pub send_system : Option RegistryServer → Response
  unfolding write_server
  send_system none = not_found_response
  send_system (some server) = write_server (codec.encode server)

  unfoldable pub systems_handler : Request → String → Store → Response × Store
  unfolding send_system
  systems_handler r uuid store =
      if r.method != "GET"
      then (answer 405 "Only GET method is allowed", store)
      else (send_system (lookup uuid store), store)

  unfoldable pub delete_handler : Request → String → Store → Response × Store
  delete_handler r uuid store =
      if r.method != "DELETE"
      then (answer 405 "Only DELETE method is allowed", store)
      else if is_none (lookup uuid store)
      then (not_found_response, store)
      else (answer 200 "", erase uuid store)

  unfoldable pub dispatch : Route → Request → Store → Response × Store
  unfolding register_handler systems_handler delete_handler
  dispatch Route.register r store = register_handler r store
  dispatch (Route.delete uuid) r store = delete_handler r uuid store
  dispatch (Route.systems uuid) r store = systems_handler r uuid store

  unfoldable pub serve : Request → Store → Response × Store
  unfolding dispatch
  serve r store = dispatch r.route r store

  -- The store after a sequence of requests, the first one first.
  unfoldable pub serve_all : List Request → Store → Store
  unfolding serve
  serve_all [] store = store
  serve_all (r ∷ rs) store = serve_all rs (serve r store).1
