-- ===== src/Instances/Lookup.antt =====
-- cherry/instances.go and cherry/server_ip.go: finding the server of a node, and its addresses.
-- The API client and net/netip are the records Api and Netip.
use cloud_provider_cherry.Prelude.{
  ℕ, String, Bool, true, false, none, some, List, [], ◌∷◌, ◌++◌, ◌≡◌, refl, sym, ◌==◌, string_eq,
  nat_eq, if◌then◌else◌, ltb, ℤ, length, map, filter, find, arith, Bool-cases, inl, inr,
}
use cloud_provider_cherry.Effect.{
  Error, message, instance_not_found, wrapped, Result, ok, err, ok-ne-err, ok_inj,
}
use cloud_provider_cherry.Instances.{server_id_from_provider_id, provider_id_from_server}

-- The fields of cherrygo.Server that the code reads.
pub record ServerIp : Type 0 where
  pub address : String
  pub type : String

pub record Server : Type 0 where
  pub id : ℤ
  pub hostname : String
  pub state : String
  pub plan_slug : String
  pub region_slug : String
  pub ip_addresses : List ServerIp

-- Servers.Get of an ID, with the status of its answer, and Servers.List of the project.
pub record Api : Type 0 where
  pub get : ℤ → ℕ × Result Server
  pub list : Result (List Server)

-- netip.ParseAddr, Addr.Is4 and Addr.String.
pub record Netip (Addr : Type 0) : Type 0 where
  pub parse_addr : String → Result Addr
  pub is4 : Addr → Bool
  pub format : Addr → String

unfoldable pub server_by_id : Api → ℤ → Result Server
server_by_id api id =
    let (status, answer) = api.get id in if status == 404 then err instance_not_found else answer

unfoldable pub server_from_provider_id : Api → String → Result Server
unfolding server_by_id
server_from_provider_id api provider_id = elim (server_id_from_provider_id provider_id) [
  | err e ↦ err e
  | ok id ↦ server_by_id api id
]

unfoldable pub server_by_name : Api → String → Result Server
server_by_name api node_name =
    if node_name == "" then err (message "node name cannot be empty string") else elim api.list [
      | err e ↦ err e
      | ok servers ↦ elim (find (λ (s : Server). s.hostname == node_name) servers) [
        | none ↦ err instance_not_found
        | some server ↦ ok server
      ]
    ]

-- serverByNode, of the provider ID and the name of the node.
unfoldable pub server_by_node : Api → String → String → Result Server
unfolding server_from_provider_id server_by_name
server_by_node api provider_id node_name =
    if provider_id == ""
    then server_by_name api node_name
    else server_from_provider_id api provider_id

unfoldable pub instance_shutdown : Api → String → Result Bool
unfolding server_from_provider_id
instance_shutdown api provider_id = elim (server_from_provider_id api provider_id) [
  | err e ↦ err e
  | ok server ↦ ok (server.state == "inactive")
]

-- errors.Is(err, cloudprovider.InstanceNotFound)
unfoldable pub is_not_found : Error → Bool
is_not_found instance_not_found = true
is_not_found (message text) = false
is_not_found (wrapped text e) = is_not_found e

unfoldable pub instance_exists : Api → String → Result Bool
unfolding server_from_provider_id is_not_found
instance_exists api provider_id = elim (server_from_provider_id api provider_id) [
  | err e ↦ if is_not_found e then ok false else err e
  | ok server ↦ ok true
]

pub record NodeAddress : Type 0 where
  pub type : String
  pub address : String

pub record InstanceMetadata : Type 0 where
  pub provider_id : String
  pub instance_type : String
  pub node_addresses : List NodeAddress
  pub region : String

module _ {Addr : Type 0} (netip : Netip Addr) where
  -- ipsFromServer, of one type of address. Its error is only logged by its callers here.
  unfoldable pub ips_of_type : String → List ServerIp → List Addr
  ips_of_type type [] = []
  ips_of_type type (ip ∷ ips) =
      let rest = ips_of_type type ips in
      elim (netip.parse_addr ip.address) [
        | err e ↦ rest
        | ok addr ↦ if ip.type == type then addr ∷ rest else rest
      ]

  unfoldable pub all_public4 : Server → List Addr
  unfolding ips_of_type
  all_public4 server = filter netip.is4 (ips_of_type "primary-ip" server.ip_addresses)

  unfoldable pub any_public4 : List ServerIp → Result Addr
  unfolding ips_of_type
  any_public4 ips = elim (find netip.is4 (ips_of_type "primary-ip" ips)) [
    | none ↦ err (message "server doesn't have a public IPv4")
    | some addr ↦ ok addr
  ]

  unfoldable pub all_private4 : Server → List Addr
  unfolding ips_of_type
  all_private4 server = filter netip.is4 (ips_of_type "private-ip" server.ip_addresses)

  abbrev pub typed : String → Addr → NodeAddress
  typed type addr = record { type = type; address = netip.format addr }

  abbrev pub host_name : Server → NodeAddress
  host_name server = record { type = "Hostname"; address = server.hostname }

  unfoldable pub node_addresses : Server → Result (List NodeAddress)
  unfolding all_public4 all_private4
  node_addresses server =
      let external = all_public4 server in
      let internal = all_private4 server in
      if ltb (length internal) 1
      then err (message "could not get at least one private ip")
      else if ltb (length external) 1
      then err (message "could not get at least one public ip")
      else ok (
          host_name server ∷ map (typed "ExternalIP") external ++ map (typed "InternalIP") internal)

  unfoldable pub instance_metadata : Api → String → String → Result InstanceMetadata
  unfolding server_by_node node_addresses provider_id_from_server
  instance_metadata api provider_id node_name = elim (server_by_node api provider_id node_name) [
    | err e ↦ err e
    | ok server ↦ elim (node_addresses server) [
      | err e ↦ err e
      | ok addresses ↦ ok (record {
        provider_id = provider_id_from_server server.id;
        instance_type = server.plan_slug;
        node_addresses = addresses;
        region = server.region_slug;
      })
    ]
  ]

  -- When the addresses of a server are found, they are its host name, then external addresses and
  -- then internal ones, at least one of each.
  pub node_addresses-eq-ok :
      (server : Server) (addresses : List NodeAddress)
      → node_addresses server ≡ ok addresses
      → (external : List Addr) × (internal : List Addr) × (addresses
          ≡ host_name server ∷ map (typed "ExternalIP") external
            ++ map (typed "InternalIP") internal)
        × (ltb 0 (length external) ≡ true)
        × (ltb 0 (length internal) ≡ true)
  unfolding node_addresses
  node_addresses-eq-ok server addresses h =
      elim (Bool-cases (ltb (length (all_private4 server)) 1)) [
        | inl e ↦ ok-ne-err (rw (e, node_addresses) at h)
        | inr e ↦ elim (Bool-cases (ltb (length (all_public4 server)) 1)) [
          | inl f ↦ ok-ne-err (rw (e, f, node_addresses) at h)
          | inr f ↦ (
            all_public4 server,
            all_private4 server,
            sym (ok_inj (rw (e, f, node_addresses) at h)),
            ground arith,
            ground arith,
          )
        ]
      ]

-- A provider ID that holds an ID for which the API answers with a server: the instance exists
-- exactly if the status of the answer is not 404.
pub instance_exists_lem :
    (api : Api) (provider_id : String) (id : ℤ) (server : Server) (status : ℕ)
    → server_id_from_provider_id provider_id ≡ ok id
    → api.get id ≡ (status, ok server)
    → instance_exists api provider_id ≡ (if status == 404 then ok false else ok true)
unfolding instance_exists server_from_provider_id server_by_id is_not_found
instance_exists_lem api provider_id id server status e g = elim (Bool-cases (status == 404)) [
  | inl h ↦ rw (e, g, h, instance_exists, server_from_provider_id, server_by_id) refl
  | inr h ↦ rw (e, g, h, instance_exists, server_from_provider_id, server_by_id) refl
]
