-- ===== src/Store/Handlers.antt =====
-- cherry/server/server.go: the handlers of the test server, over the store in memory. A decoded
-- request body is a parameter, none where the decoder fails, and `encode` is whether the JSON of a
-- body can be written.
pub mod Laws
use cloud_provider_cherry.Prelude.{
  ℕ, suc, ◌-◌, ◌^◌, ◌*◌, String, ◌<>◌, Bool, true, false, ◌&&◌, Option, none, some, List, [], ◌∷◌,
  ltb, leb, ℤ, pos, negsuc, int_eq, if◌then◌else◌, Labels, lookup, insert, parse_int32,
}
use cloud_provider_cherry.Effect.{Error, message, Result, ok, err}
use cloud_provider_cherry.Store.{
  Region, Plan, Project, Server, Memory, list_regions, get_region, get_region_by_name, list_plans,
  get_plan, create_server, update_server, list_servers, get_server, get_project, update_project,
}

-- What is encoded as JSON. The structs around regions and plans have no exported field, so
-- encoding/json writes an empty object for them.
pub data Body : Type 0 where
  error_body : ℕ → String → Body
  empty_object : Body
  servers_body : List Server → Body
  server_body : Server → Body
  project_body : Project → Body

-- A nil pointer that is followed is a panic of the handler.
pub data Response : Type 0 where
  reply : ℕ → Body → Response
  panics : Response

-- The fields of the decoded requests.
pub record CreateServer : Type 0 where
  pub plan : String
  pub region : String
  pub hostname : String

pub record UpdateServer : Type 0 where
  pub bgp : Bool
  pub tags : Option Labels

pub record UpdateProject : Type 0 where
  pub name : Option String
  pub bgp : Option Bool

abbrev pub error_reply : ℕ → String → Response
error_reply status text = reply status (error_body status text)

-- Lines 297 to 300: the fields of the request, written through the pointer to the stored server.
unfoldable pub edit_server : UpdateServer → Server → Server
edit_server req server = record server {
  bgp_enabled = req.bgp;
  tags = elim req.tags [ none ↦ server.tags | some tags ↦ tags ];
}

unfoldable pub edit_project : UpdateProject → Project → Project
edit_project req project = record project {
  bgp_enabled = elim req.bgp [ none ↦ false | some bgp ↦ bgp ];
  name = elim req.name [ none ↦ project.name | some name ↦ name ];
}

module _ (encode : Body → Bool) where
  unfoldable pub respond : Body → Response
  respond body = if encode body then reply 200 body else error_reply 500 "unable to write json"

  unfoldable pub list_regions_handler : Memory → Response
  unfolding respond
  list_regions_handler mem = elim (list_regions mem) [
    | err e ↦ error_reply 500 "unable to list regions"
    | ok regions ↦ respond empty_object
  ]

  unfoldable pub get_region_handler : String → Memory → Response
  unfolding respond parse_int32
  get_region_handler region_var mem = elim (parse_int32 region_var) [
    | none ↦ error_reply 400 ("invalid region: " <> region_var)
    | some id ↦ elim (get_region id mem) [
      | err e ↦ error_reply 404 "region not found"
      | ok none ↦ panics
      | ok (some region) ↦ respond empty_object
    ]
  ]

  unfoldable pub list_plans_handler : Memory → Response
  unfolding respond
  list_plans_handler mem = elim (list_plans mem) [
    | err e ↦ error_reply 500 "unable to list plans"
    | ok plans ↦ respond empty_object
  ]

  unfoldable pub get_plan_handler : String → Memory → Response
  unfolding respond parse_int32
  get_plan_handler plan_var mem = elim (parse_int32 plan_var) [
    | none ↦ error_reply 400 ("invalid planID: " <> plan_var)
    | some id ↦ elim (get_plan id mem) [
      | err e ↦ error_reply 404 "plan not found"
      | ok none ↦ panics
      | ok (some plan) ↦ respond empty_object
    ]
  ]

  unfoldable pub list_servers_handler : String → Memory → Response
  unfolding respond parse_int32
  list_servers_handler project_var mem = elim (parse_int32 project_var) [
    | none ↦ error_reply 400 ("invalid project ID: " <> project_var)
    | some id ↦ elim (list_servers id mem) [
      | err e ↦ error_reply 500 "project not found"
      | ok servers ↦ respond (servers_body servers)
    ]
  ]

  unfoldable pub get_server_handler : String → Memory → Response
  unfolding respond parse_int32
  get_server_handler server_var mem = elim (parse_int32 server_var) [
    | none ↦ error_reply 400 ("invalid server ID: " <> server_var)
    | some id ↦ elim (get_server id mem) [
      | err e ↦ error_reply 404 "server not found"
      | ok none ↦ error_reply 404 "server not found"
      | ok (some server) ↦ respond (server_body server)
    ]
  ]

  -- From line 241 on, once the IDs and the body are read.
  unfoldable pub create_in : ℤ → ℤ → CreateServer → Memory → Response × Memory
  unfolding respond
  create_in project_id plan_id req mem = elim (get_plan plan_id mem) [
    | err e ↦ (error_reply 404 "unknown plan ID", mem)
    | ok plan ↦ elim (get_region_by_name req.region mem) [
      | err e ↦ (error_reply 500 "unknown region", mem)
      | ok region ↦ create plan region
    ]
  ]
    where
      created : Result Server × Memory → Response × Memory
      created (err e, mem') = (error_reply 500 "error creating server", mem')
      created (ok server, mem') = (respond (server_body server), mem')

      create : Option Plan → Option Region → Response × Memory
      create (some plan) (some region) =
          created (create_server project_id req.hostname plan region mem)
      create _ _ = (panics, mem)

  unfoldable pub create_server_handler : String → Option CreateServer → Memory → Response × Memory
  unfolding create_in parse_int32
  create_server_handler project_var body mem = elim (parse_int32 project_var) [
    | none ↦ (error_reply 400 ("invalid project ID: " <> project_var), mem)
    | some project_id ↦ elim body [
      | none ↦ (error_reply 400 "cannot parse body of request", mem)
      | some req ↦ elim (parse_int32 req.plan) [
        | none ↦ (error_reply 400 ("invalid plan ID: " <> req.plan), mem)
        | some plan_id ↦ create_in project_id plan_id req mem
      ]
    ]
  ]

  unfoldable pub update_server_handler : String → Option UpdateServer → Memory → Response × Memory
  unfolding respond parse_int32 edit_server insert
  update_server_handler server_var body mem = elim (parse_int32 server_var) [
    | none ↦ (error_reply 400 ("invalid server ID: " <> server_var), mem)
    | some id ↦ elim body [
      | none ↦ (error_reply 400 "unable to parse body of request", mem)
      | some req ↦ elim (get_server id mem) [
        | err e ↦ (error_reply 400 "unknown server ID", mem)
        | ok none ↦ (panics, mem)
        | ok (some server) ↦
            let edited = edit_server req server in
            updated edited
              (update_server id edited (record mem { servers = insert id edited mem.servers }))
      ]
    ]
  ]
    where
      updated : Server → Option Error × Memory → Response × Memory
      updated server (some e, mem') = (error_reply 500 "unable to update server", mem')
      updated server (none, mem') = (respond (server_body server), mem')

  unfoldable pub get_project_handler : String → Memory → Response
  unfolding respond parse_int32
  get_project_handler project_var mem = elim (parse_int32 project_var) [
    | none ↦ error_reply 400 ("invalid project ID: " <> project_var)
    | some id ↦ elim (get_project id mem) [
      | err e ↦ error_reply 404 "project ID not found"
      | ok none ↦ error_reply 404 "project not found"
      | ok (some project) ↦ respond (project_body project)
    ]
  ]

  unfoldable pub update_project_handler : String → Option UpdateProject → Memory → Response × Memory
  unfolding respond parse_int32 edit_project insert
  update_project_handler project_var body mem = elim (parse_int32 project_var) [
    | none ↦ (error_reply 400 ("invalid project ID: " <> project_var), mem)
    | some id ↦ elim body [
      | none ↦ (error_reply 400 "unable to read body of request", mem)
      | some req ↦ elim (get_project id mem) [
        | err e ↦ (error_reply 404 "project ID not found", mem)
        | ok none ↦ (panics, mem)
        | ok (some project) ↦
            let edited = edit_project req project in
            updated edited
              (update_project id edited (record mem { projects = insert id edited mem.projects }))
      ]
    ]
  ]
    where
      updated : Project → Option Error × Memory → Response × Memory
      updated project (some e, mem') = (error_reply 500 "unable to update project", mem')
      updated project (none, mem') = (respond (project_body project), mem')
