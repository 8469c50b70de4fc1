-- ===== src/Store/Handlers/Laws.antt =====
-- cherry/server/server.go: what the answers of the test server say about its store.
use cloud_provider_cherry.Prelude.{
  parse_int32, String, Bool, List, false, Option, none, some, Labels, ◌⊎◌, ◌≡◌, refl, ap, ◌∙◌, ℤ,
  int_eq, ◌==◌, if◌then◌else◌, lookup, insert, lookup-insert, beq_refl, Bool-cases,
}
use mathlib.Core.Logic.{inl, inr}
use cloud_provider_cherry.Effect.{ok}
use cloud_provider_cherry.Store.{
  Region, Plan, Server, Memory, increment, get_id, list_regions, get_region_by_name, list_plans,
  get_plan, create_server, new_server, update_server, get_server,
}
use cloud_provider_cherry.Store.Handlers.{
  Body, server_body, reply, CreateServer, UpdateServer, error_reply, respond, list_regions_handler,
  list_plans_handler, get_server_handler, create_in, edit_server, update_server_handler,
}

lookup-inserted :
    {V : Type 0} (id j : ℤ) (v : V) (m : List (ℤ × V)) → j ≡ id → lookup j (insert id v m) ≡ some v
lookup-inserted id j v m e = lookup-insert id j v m ∙ rw (e, beq_refl id) refl

insert-twice :
    {V : Type 0} (id j : ℤ) (v : V) (m : List (ℤ × V))
    → lookup j (insert id v (insert id v m)) ≡ (if id == j then some v else lookup j m)
insert-twice id j v m =
    lookup-insert id j v (insert id v m)
    ∙ elim (Bool-cases (id == j)) [ inl e ↦ rw e refl | inr e ↦ lookup-insert-other id j v m e ]
  where
    lookup-insert-other :
        {V : Type 0} (id j : ℤ) (v : V) (m : List (ℤ × V))
        → (id == j) ≡ false
        → (if id == j then some v else lookup j (insert id v m))
          ≡ (if id == j then some v else lookup j m)
    lookup-insert-other id j v m e = rw (e, lookup-insert id j v m, e) refl

module _ (encode : Body → Bool) where
  -- The listings of regions and of plans answer the same whatever the store holds.
  pub listings-constant :
      (mem mem' : Memory)
      → (list_regions_handler encode mem ≡ list_regions_handler encode mem')
        × (list_plans_handler encode mem ≡ list_plans_handler encode mem')
  unfolding list_regions_handler list_plans_handler list_regions list_plans
  listings-constant mem mem' = (refl, refl)

  -- A server that stands under its own ID: updating it answers with the edited server, which has the
  -- BGP setting of the request and its tags, or its own tags where the request has none, and is
  -- otherwise as it was; the edited server is written under that ID, and every other entry is left.
  pub update_server_handler_lem :
      (mem : Memory) (server_var : String) (id other : ℤ) (req : UpdateServer) (server : Server)
      → parse_int32 server_var ≡ some id
      → lookup id mem.servers ≡ some server
      → server.id ≡ id
      → let after = update_server_handler encode server_var (some req) mem in
        (edited : Server) × (edited ≡ record server { bgp_enabled = req.bgp; tags = edited.tags })
        × (((req.tags ≡ none) × (edited.tags ≡ server.tags)) ⊎ (req.tags ≡ some edited.tags))
        × (after.0 ≡ (
            if encode (server_body edited)
            then reply 200 (server_body edited)
            else error_reply 500 "unable to write json"))
        × (lookup other after.1.servers
            ≡ (if id == other then some edited else lookup other mem.servers))
  unfolding update_server_handler get_server update_server edit_server respond
  update_server_handler_lem mem server_var id other req server e h own =
      let edited = edit_server req server in
      let after = insert id edited mem.servers in
      let found : lookup server.id after ≡ some edited =
        lookup-inserted id server.id edited mem.servers own in
      (
        edited,
        refl,
        tags_of req.tags,
        rw (e, h, found, update_server_handler, get_server, update_server, edit_server) refl,
        rw (e, h, found, update_server_handler, get_server, update_server, edit_server)
            (insert-twice id other edited mem.servers),
      )
    where
      tags_of :
          (tags : Option Labels)
          → let now : Labels = elim tags [ none ↦ server.tags | some given ↦ given ] in
            ((tags ≡ none) × (now ≡ server.tags)) ⊎ (tags ≡ some now)
      tags_of none = inl (refl, refl)
      tags_of (some given) = inr refl

  create_in-found :
      (mem : Memory) (project_id plan_id : ℤ) (req : CreateServer) (plan : Plan) (region : Region)
      → lookup plan_id mem.plans ≡ some plan
      → get_region_by_name req.region mem ≡ ok (some region)
      → create_in encode project_id plan_id req mem ≡ (
        respond encode
            (server_body (new_server (increment mem.counter) project_id req.hostname plan region)),
        (create_server project_id req.hostname plan region mem).1,
      )
  unfolding create_in get_plan create_server get_id
  create_in-found mem project_id plan_id req plan region p r = rw (r, p, create_in, get_plan) refl

  get_server_handler-found :
      (mem : Memory) (server_var : String) (id : ℤ) (server : Server)
      → parse_int32 server_var ≡ some id
      → get_server id mem ≡ ok (some server)
      → get_server_handler encode server_var mem ≡ respond encode (server_body server)
  unfolding get_server_handler
  get_server_handler-found mem server_var id server e h = rw (e, h, get_server_handler) refl

  -- A server that was created can be asked for.
  pub get_server-create :
      (mem : Memory) (project_id plan_id : ℤ) (req : CreateServer) (plan : Plan) (region : Region)
      (server_var : String)
      → lookup plan_id mem.plans ≡ some plan
      → get_region_by_name req.region mem ≡ ok (some region)
      → parse_int32 server_var ≡ some (increment mem.counter)
      → get_server_handler encode server_var (create_in encode project_id plan_id req mem).1
        ≡ (create_in encode project_id plan_id req mem).0
  unfolding create_server get_id get_server
  get_server-create mem project_id plan_id req plan region server_var p r e =
      let made = create_in-found mem project_id plan_id req plan region p r in
      let server = new_server (increment mem.counter) project_id req.hostname plan region in
      let found : get_server (increment mem.counter)
            (create_server project_id req.hostname plan region mem).1
          ≡ ok (some server) =
        ap ok (
          lookup-inserted (increment mem.counter) (increment mem.counter) server mem.servers
            refl) in
      rw made (get_server_handler-found _ server_var (increment mem.counter) server e found)
