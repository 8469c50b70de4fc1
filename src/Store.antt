-- ===== src/Store.antt =====
-- cherry/server/store/memory.go: the store in memory behind the test server of the API. Its maps
-- are association lists, whose order stands for the order in which Go ranges over them.
pub mod Handlers
pub mod Ids
use cloud_provider_cherry.Prelude.{
  ℕ, zero, suc, ◌-◌, ◌^◌, String, ◌<>◌, Bool, true, false, Option, none, some, List, [], ◌∷◌, map,
  filter, find, ◌==◌, nat_eq, string_eq, ℤ, pos, negsuc, int_eq, if◌then◌else◌, Labels, lookup,
  insert, erase,
}
use cloud_provider_cherry.Effect.{Error, message, Result, ok, err}

-- The fields of cherrygo's types that the code reads and writes.
pub record Region : Type 0 where
  pub id : ℤ
  pub name : String
  pub region_iso2 : String

pub record Plan : Type 0 where
  pub id : ℤ
  pub name : String
  pub slug : String

pub record Project : Type 0 where
  pub id : ℤ
  pub name : String
  pub bgp_enabled : Bool

pub record Server : Type 0 where
  pub id : ℤ
  pub hostname : String
  pub state : String
  pub region : Region
  pub plan : Plan
  pub project_id : ℤ
  pub bgp_enabled : Bool
  pub tags : Labels

pub record Memory : Type 0 where
  pub counter : ℤ
  pub regions : List (ℤ × Region)
  pub servers : List (ℤ × Server)
  pub plans : List (ℤ × Plan)
  pub projects : List (ℤ × Project)

-- An int of 64 bits, plus one.
abbrev pub increment : ℤ → ℤ
increment (pos n) = if n == 2 ^ 63 - 1 then negsuc (2 ^ 63 - 1) else pos (suc n)
increment (negsuc zero) = pos 0
increment (negsuc (suc n)) = negsuc n

-- getID
unfoldable pub get_id : Memory → ℤ × Memory
get_id mem = let value = increment mem.counter in (value, record mem { counter = value })

unfoldable pub create_region : String → String → Memory → Region × Memory
unfolding get_id insert
create_region name code mem =
    let (id, mem') = get_id mem in
    let region : Region = record { id = id; name = name; region_iso2 = code } in
    (region, record mem' { regions = insert id region mem'.regions })

unfoldable pub list_regions : Memory → Result (List Region)
list_regions mem = ok (map (λ p. p.1) mem.regions)

unfoldable pub get_region : ℤ → Memory → Result (Option Region)
unfolding lookup
get_region id mem = ok (lookup id mem.regions)

unfoldable pub get_region_by_name : String → Memory → Result (Option Region)
get_region_by_name name mem =
    ok (find (λ (r : Region). r.name == name) (map (λ p. p.1) mem.regions))

unfoldable pub get_region_by_code : String → Memory → Result (Option Region)
get_region_by_code code mem =
    ok (find (λ (r : Region). r.region_iso2 == code) (map (λ p. p.1) mem.regions))

unfoldable pub create_plan : String → Memory → Plan × Memory
unfolding get_id insert
create_plan name mem =
    let (id, mem') = get_id mem in
    let plan : Plan = record { id = id; name = name; slug = "slug-" <> name } in
    (plan, record mem' { plans = insert id plan mem'.plans })

unfoldable pub list_plans : Memory → Result (List Plan)
list_plans mem = ok (map (λ p. p.1) mem.plans)

unfoldable pub get_plan : ℤ → Memory → Result (Option Plan)
unfolding lookup
get_plan id mem = ok (lookup id mem.plans)

unfoldable pub get_plan_by_name : String → Memory → Result (Option Plan)
get_plan_by_name name mem = ok (find (λ (p : Plan). p.name == name) (map (λ p. p.1) mem.plans))

unfoldable pub new_server : ℤ → ℤ → String → Plan → Region → Server
new_server id project_id name plan region = record {
  id = id;
  hostname = name;
  state = "active";
  region = region;
  plan = plan;
  project_id = project_id;
  bgp_enabled = false;
  tags = [];
}

unfoldable pub create_server : ℤ → String → Plan → Region → Memory → Result Server × Memory
unfolding get_id insert new_server
create_server project_id name plan region mem =
    let (id, mem') = get_id mem in
    let server = new_server id project_id name plan region in
    (ok server, record mem' { servers = insert id server mem'.servers })

-- UpdateServer, of a server that is not nil: it asks for the server's own ID and writes at the ID
-- that it is given.
unfoldable pub update_server : ℤ → Server → Memory → Option Error × Memory
unfolding lookup insert
update_server id server mem = elim (lookup server.id mem.servers) [
  | none ↦ (some (message "server not found"), mem)
  | some s ↦ (none, record mem { servers = insert id server mem.servers })
]

unfoldable pub list_servers : ℤ → Memory → Result (List Server)
list_servers project_id mem =
    ok (filter (λ (s : Server). s.project_id == project_id) (map (λ p. p.1) mem.servers))

unfoldable pub get_server : ℤ → Memory → Result (Option Server)
unfolding lookup
get_server id mem = ok (lookup id mem.servers)

unfoldable pub delete_server : ℤ → Memory → Result Bool × Memory
unfolding lookup erase
delete_server id mem = elim (lookup id mem.servers) [
  | none ↦ (ok false, mem)
  | some s ↦ (ok true, record mem { servers = erase id mem.servers })
]

unfoldable pub create_project : String → Bool → Memory → Project × Memory
unfolding get_id insert
create_project name bgp mem =
    let (id, mem') = get_id mem in
    let project : Project = record { id = id; name = name; bgp_enabled = bgp } in
    (project, record mem' { projects = insert id project mem'.projects })

unfoldable pub get_project : ℤ → Memory → Result (Option Project)
unfolding lookup
get_project id mem = ok (lookup id mem.projects)

-- UpdateProject, of a project that is not nil.
unfoldable pub update_project : ℤ → Project → Memory → Option Error × Memory
unfolding lookup insert
update_project id project mem =
    if id == project.id
    then elim (lookup project.id mem.projects) [
      | none ↦ (some (message "project not found"), mem)
      | some p ↦ (none, record mem { projects = insert project.id project mem.projects })
    ]
    else (some (message "project ID mismatch"), mem)

-- NewMemory
unfoldable pub new_memory : Memory
unfolding create_plan create_region
new_memory =
    let empty : Memory = record {
      counter = pos 0;
      regions = [];
      servers = [];
      plans = [];
      projects = [];
    } in
    (create_region "EU-Nord-1" "LT" (create_plan "baremetal" empty).1).1
