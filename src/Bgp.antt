-- ===== src/Bgp.antt =====
-- cherry/bgp.go: BGP of the project and of the servers. The API client is the record Client.
pub mod Laws
use cloud_provider_cherry.Prelude.{
  ℕ, String, Bool, true, Option, none, some, List, [], ◌∷◌, map, find, if◌then◌else◌, ℤ, Labels,
}
use cloud_provider_cherry.Effect.{
  Error, message, wrapped, Result, ok, err, Action, pure, fail, lift, wrapping, ◌>>=◌, ◌>>◌,
}
use cloud_provider_cherry.Instances.{server_id_from_provider_id}
use cloud_provider_cherry.Instances.Lookup.{ServerIp, Netip, any_public4}

abbrev pub peer_port : ℕ
peer_port = 179

pub record BgpPeer : Type 0 where
  pub address : String
  pub port : ℕ

pub record NodeBgpInfo : Type 0 where
  pub source_ip : String
  pub local_asn : ℕ
  pub remote_asn : ℕ
  pub peers : List BgpPeer

-- The fields of cherrygo.Project and cherrygo.Server that are read; `asn` and `hosts` are those of
-- `Region.BGP`.
pub record Project : Type 0 where
  pub name : String
  pub bgp_enabled : Bool
  pub local_asn : ℕ

pub record Server : Type 0 where
  pub id : ℤ
  pub tags : Labels
  pub bgp_enabled : Bool
  pub ip_addresses : List ServerIp
  pub asn : ℕ
  pub hosts : List String

-- Projects.Get and Update, Servers.Get and Update.
pub record Client (W : Type 0) : Type 0 where
  pub get_project : ℤ → Action W Project
  pub update_project : ℤ → String → Bool → Action W Project
  pub get_server : ℤ → Action W Server
  pub update_server : ℤ → Labels → Bool → Action W Server

-- The fields of `bgp` beside its clients.
pub record Bgp : Type 0 where
  pub project : ℤ
  pub local_asn : ℕ

-- An error that is formatted into a new one by `%v`, which leaves nothing of it but text.
abbrev pub restating : {W A : Type 0} → String → Action W A → Action W A
restating text m w = elim (m w).0 [ ok a ↦ m w | err e ↦ (err (message text), (m w).1) ]

abbrev pub bgp_peer : String → BgpPeer
bgp_peer host = record { address = host; port = peer_port }

module _ {Addr : Type 0} (netip : Netip Addr) where
  unfoldable pub node_bgp_info_from_server : Bgp → Server → Result NodeBgpInfo
  unfolding any_public4
  node_bgp_info_from_server b s = elim (any_public4 netip s.ip_addresses) [
    | err e ↦ err (wrapped "no public IP for server" e)
    | ok source ↦ ok (record {
      local_asn = b.local_asn;
      remote_asn = s.asn;
      peers = map bgp_peer s.hosts;
      source_ip = netip.format source;
    })
  ]

module _ {W : Type 0} (client : Client W) where
  -- enableBGP, which writes `localASN`.
  unfoldable pub enable_bgp : Bgp → Action W Bgp
  enable_bgp b = do
    project ← restating "error getting project" (client.get_project b.project)
    if project.bgp_enabled then pure (record b { local_asn = project.local_asn }) else (do
      updated ← client.update_project b.project project.name true
      pure (record b { local_asn = updated.local_asn }))

  unfoldable pub new_bgp : ℤ → Action W Bgp
  unfolding enable_bgp
  new_bgp project =
      wrapping "failed to enable BGP on project"
        (enable_bgp (record { project = project; local_asn = 0 }))

  module _ {Addr : Type 0} (netip : Netip Addr) where
    -- The rest of ensureNodeBGPEnabled, once the server is fetched.
    unfoldable pub switch_on : Bgp → ℤ → Server → Action W NodeBgpInfo
    unfolding node_bgp_info_from_server
    switch_on b id server =
        if server.bgp_enabled then lift (node_bgp_info_from_server netip b server) else (do
          updated ← client.update_server id server.tags true
          lift (
              node_bgp_info_from_server netip b
                (record updated { ip_addresses = server.ip_addresses })))

    unfoldable pub ensure_node_bgp_enabled : Bgp → String → Action W NodeBgpInfo
    unfolding switch_on
    ensure_node_bgp_enabled b provider_id = do
      id ← lift (server_id_from_provider_id provider_id)
      server ← restating "error getting server" (client.get_server id)
      switch_on b id server
