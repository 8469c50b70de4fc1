-- ===== src/Tests/Servers.antt =====
-- The test server's store and the lookup of instances, at concrete data.
use cloud_provider_cherry.Prelude.{
  parse_int32, split, atoi, ℕ, ◌++◌, String, ◌≡◌, refl, Bool, true, false, none, some, List, [],
  ◌∷◌, ◌==◌, ◌⊎◌, string_eq, int_eq, nat_eq, if◌then◌else◌, pos, arith, lookup, length, map, ltb,
}
use cloud_provider_cherry.Effect.{ok}
use cloud_provider_cherry.Instances.{server_id_from_provider_id, provider_id_from_server}
use cloud_provider_cherry.Instances.RoundTrip.{server_id_from_provider_id-provider_id_from_server}
use cloud_provider_cherry.Instances.Lookup.{
  Api, Netip, ServerIp, NodeAddress, instance_exists, node_addresses, host_name, typed,
  node_addresses-eq-ok, instance_exists_lem,
}
use cloud_provider_cherry.Instances.Lookup
use cloud_provider_cherry.Store.{
  Region, Plan, Server, Memory, get_id, new_memory, get_region_by_name,
}
use cloud_provider_cherry.Store.Ids.{
  Operation, creates_server, updates_server, deletes_server, run, next_id_is_new,
}
use cloud_provider_cherry.Store.Handlers.{
  Body, server_body, reply, CreateServer, UpdateServer, error_reply, list_regions_handler,
  list_plans_handler, get_server_handler, create_in, update_server_handler,
}
use cloud_provider_cherry.Store.Handlers.Laws.{
  listings-constant, update_server_handler_lem, get_server-create,
}

abbrev writes : Body → Bool
writes body = true

abbrev plan : Plan
plan = record { id = pos 1; name = "baremetal"; slug = "slug-baremetal" }

abbrev region : Region
region = record { id = pos 2; name = "EU-Nord-1"; region_iso2 = "LT" }

abbrev server : Server
server = record {
  id = pos 3;
  hostname = "node-1";
  state = "active";
  region = region;
  plan = plan;
  project_id = pos 7;
  bgp_enabled = false;
  tags = [];
}

abbrev memory : Memory
memory = record {
  counter = pos 3;
  regions = (pos 2, region) ∷ [];
  servers = (pos 3, server) ∷ [];
  plans = (pos 1, plan) ∷ [];
  projects = [];
}

abbrev request : UpdateServer
request = record { bgp = true; tags = none }

abbrev creation : CreateServer
creation = record { plan = "1"; region = "EU-Nord-1"; hostname = "node-2" }

abbrev operations : List Operation
operations =
    creates_server (pos 7) "node-1" plan region
    ∷ updates_server (pos 3) server
    ∷ deletes_server (pos 3)
    ∷ []

listings-constant_case :
    (list_regions_handler writes memory ≡ list_regions_handler writes new_memory)
    × (list_plans_handler writes memory ≡ list_plans_handler writes new_memory)
listings-constant_case = listings-constant writes memory new_memory

update_server_handler_lem_example :
    let after = update_server_handler writes "3" (some request) memory in
    (edited : Server) × (edited ≡ record server { bgp_enabled = request.bgp; tags = edited.tags })
    × (((request.tags ≡ none) × (edited.tags ≡ server.tags)) ⊎ (request.tags ≡ some edited.tags))
    × (after.0 ≡ (
        if writes (server_body edited)
        then reply 200 (server_body edited)
        else error_reply 500 "unable to write json"))
    × (lookup (pos 3) after.1.servers
        ≡ (if pos 3 == pos 3 then some edited else lookup (pos 3) memory.servers))
unfolding parse_int32 lookup
update_server_handler_lem_example =
    update_server_handler_lem writes memory "3" (pos 3) (pos 3) request server refl refl refl

get_server-create_example :
    get_server_handler writes "4" (create_in writes (pos 7) (pos 1) creation memory).1
    ≡ (create_in writes (pos 7) (pos 1) creation memory).0
unfolding parse_int32 lookup get_region_by_name
get_server-create_example =
    get_server-create writes memory (pos 7) (pos 1) creation plan region "4" refl refl refl

next_id_is_new_example :
    lookup (get_id (run operations new_memory)).0 (run operations new_memory).servers ≡ none
next_id_is_new_example = next_id_is_new operations refl (omega arith)

abbrev addresses : Netip String
addresses = record { parse_addr = λ text. ok text; is4 = λ addr. true; format = λ addr. addr }

abbrev cloud_server : Lookup.Server
cloud_server = record {
  id = pos 101;
  hostname = "node-1";
  state = "active";
  plan_slug = "e3_1240v3";
  region_slug = "eu_nord_1";
  ip_addresses =
      record { address = "10.0.0.1"; type = "private-ip" }
      ∷ record { address = "5.199.0.1"; type = "primary-ip" }
      ∷ [];
}

abbrev found_addresses : List NodeAddress
found_addresses =
    host_name addresses cloud_server
    ∷ typed addresses "ExternalIP" "5.199.0.1"
    ∷ typed addresses "InternalIP" "10.0.0.1"
    ∷ []

node_addresses-eq-ok_case :
    (external : List String) × (internal : List String) × (found_addresses
      ≡ host_name addresses cloud_server ∷ map (typed addresses "ExternalIP") external
        ++ map (typed addresses "InternalIP") internal)
    × (ltb 0 (length external) ≡ true)
    × (ltb 0 (length internal) ≡ true)
unfolding node_addresses
node_addresses-eq-ok_case = node_addresses-eq-ok addresses cloud_server found_addresses refl

abbrev status : ℕ
status = 200

abbrev api : Api
api = record { get = λ id. (status, ok cloud_server); list = ok (cloud_server ∷ []) }

instance_exists_lem_case :
    instance_exists api "cherryservers://101" ≡ (if status == 404 then ok false else ok true)
unfolding server_id_from_provider_id split atoi
instance_exists_lem_case =
    instance_exists_lem api "cherryservers://101" (pos 101) cloud_server status refl refl

server_id_from_provider_id-provider_id_from_server_example :
    server_id_from_provider_id (provider_id_from_server (pos 590123)) ≡ ok (pos 590123)
server_id_from_provider_id-provider_id_from_server_example =
    server_id_from_provider_id-provider_id_from_server 590123 (omega arith)
