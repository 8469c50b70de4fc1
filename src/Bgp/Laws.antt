-- ===== src/Bgp/Laws.antt =====
-- What the operations of cherry/bgp.go come to.
use cloud_provider_cherry.Prelude.{
  String, true, false, List, [], ◌∷◌, ◌≡◌, refl, sym, ap, ◌∙◌, ◌⊎◌, inl, inr, map, find, Bool-cases,
  Option-cases, ◌==◌, nat_eq, ℤ, all, find-passes_self,
}
use cloud_provider_cherry.Effect.{
  Result, ok, Action, lift->>=-eq-ok, >>=-eq-ok, Result-cases, ok_inj, ok-ne-err,
}
use cloud_provider_cherry.Instances.{server_id_from_provider_id}
use cloud_provider_cherry.Instances.Lookup.{Netip, ips_of_type, any_public4, ServerIp}
use cloud_provider_cherry.Bgp.{
  BgpPeer, NodeBgpInfo, Server, Client, Bgp, restating, bgp_peer, node_bgp_info_from_server,
  switch_on, ensure_node_bgp_enabled,
}

restating-eq-ok :
    {W A : Type 0} (text : String) (m : Action W A) (w : W) {a : A} {w' : W}
    → restating text m w ≡ (ok a, w')
    → m w ≡ (ok a, w')
restating-eq-ok text m w h = elim (Result-cases (m w).0) [
  | inl (e, f) ↦ ok-ne-err (ap (λ (r : Result _ × _). r.0) (rw (f, restating) at h))
  | inr (a, f) ↦ rw (f, restating) at h
]

all-bgp_peer :
    (hosts : List String) → all (λ (p : BgpPeer). p.port == 179) (map bgp_peer hosts) ≡ true
all-bgp_peer [] = refl
all-bgp_peer (h ∷ hosts) = all-bgp_peer hosts

map-bgp_peer : (hosts : List String) → map (λ (p : BgpPeer). p.address) (map bgp_peer hosts) ≡ hosts
map-bgp_peer [] = refl
map-bgp_peer (h ∷ hosts) = ap (λ (hs : List String). h ∷ hs) (map-bgp_peer hosts)

module _ {Addr : Type 0} (netip : Netip Addr) where
  any_public4-eq-ok :
      (ips : List ServerIp) {addr : Addr} → any_public4 netip ips ≡ ok addr → netip.is4 addr ≡ true
  unfolding any_public4
  any_public4-eq-ok ips {addr} h =
      elim (Option-cases (find netip.is4 (ips_of_type netip "primary-ip" ips))) [
        | inl e ↦ ok-ne-err (rw (e, any_public4) at h)
        | inr (a, e) ↦
            rw (ok_inj (rw (e, any_public4) at h)) at
              (find-passes_self netip.is4 (ips_of_type netip "primary-ip" ips) e)
      ]

  -- What is told of a server's BGP: a peer on port 179 for each host, and the first public IPv4
  -- address.
  abbrev pub IsInfoOf : Bgp → List ServerIp → List String → NodeBgpInfo → Type 0
  IsInfoOf b ips hosts info =
      (addr : Addr) × (any_public4 netip ips ≡ ok addr)
      × (netip.is4 addr ≡ true)
      × ((info.source_ip ≡ netip.format addr)
          × (info.local_asn ≡ b.local_asn)
          × (map (λ (p : BgpPeer). p.address) info.peers ≡ hosts)
          × (all (λ (p : BgpPeer). p.port == 179) info.peers ≡ true))

  node_bgp_info-eq-ok :
      (b : Bgp) (s : Server) {info : NodeBgpInfo}
      → node_bgp_info_from_server netip b s ≡ ok info
      → IsInfoOf b s.ip_addresses s.hosts info
  unfolding node_bgp_info_from_server
  node_bgp_info-eq-ok b s {info} h = elim (Result-cases (any_public4 netip s.ip_addresses)) [
    | inl (e, f) ↦ ok-ne-err (rw (f, node_bgp_info_from_server) at h)
    | inr (addr, f) ↦
        let e = ok_inj (rw (f, node_bgp_info_from_server) at h) in
        (
          addr,
          f,
          any_public4-eq-ok s.ip_addresses f,
          (
            ap (λ (i : NodeBgpInfo). i.source_ip) (sym e),
            ap (λ (i : NodeBgpInfo). i.local_asn) (sym e),
            ap (λ (i : NodeBgpInfo). map (λ (p : BgpPeer). p.address) i.peers) (sym e)
                ∙ map-bgp_peer s.hosts,
            ap (λ (i : NodeBgpInfo). all (λ (p : BgpPeer). p.port == 179) i.peers) (sym e)
                ∙ all-bgp_peer s.hosts,
          ),
        )
  ]

  module _ {W : Type 0} (client : Client W) where
    -- The server s' that is answered for a fetched server s, and the world after it: BGP is on
    -- already, or it is switched on by an update that keeps the server's tags.
    abbrev pub IsSwitchedOn : ℤ → Server → Server → W → W → Type 0
    IsSwitchedOn id s s' w₁ w₂ =
        ((s.bgp_enabled ≡ true) × (s' ≡ s) × (w₂ ≡ w₁))
        ⊎ ((s.bgp_enabled ≡ false) × (client.update_server id s.tags true w₁ ≡ (ok s', w₂)))

    switch_on-eq-ok :
        (b : Bgp) (id : ℤ) (s : Server) (w₁ w₂ : W) (info : NodeBgpInfo)
        → switch_on client netip b id s w₁ ≡ (ok info, w₂)
        → (s' : Server) × IsSwitchedOn id s s' w₁ w₂ × IsInfoOf b s.ip_addresses s'.hosts info
    unfolding switch_on
    switch_on-eq-ok b id s w₁ w₂ info h = elim (Bool-cases s.bgp_enabled) [
      | inl e ↦
          let k = rw (e, switch_on) at h in
          (
            s,
            inl (e, refl, sym (ap (λ (r : Result NodeBgpInfo × W). r.1) k)),
            node_bgp_info-eq-ok b s (ap (λ (r : Result NodeBgpInfo × W). r.0) k),
          )
      | inr e ↦
          let (s', w₃, updated, rest) =
            >>=-eq-ok (client.update_server id s.tags true) _ w₁ (rw (e, switch_on) at h) in
          (
            s',
            inr (e, rw (ap (λ (r : Result NodeBgpInfo × W). r.1) rest) at updated),
            node_bgp_info-eq-ok b (record s' { ip_addresses = s.ip_addresses })
                (ap (λ (r : Result NodeBgpInfo × W). r.0) rest),
          )
    ]

    -- When ensureNodeBGPEnabled succeeds, it has fetched the server of the provider ID. If the
    -- server's BGP was on, nothing else has happened; if it was off, it has been switched on by one
    -- update that keeps the tags. The source IP is a public IPv4 address of the fetched server, also
    -- when the update returned no addresses, and every peer is a host of the region on port 179.
    pub ensure_node_bgp_enabled-eq-ok :
        (b : Bgp) (provider_id : String) (w w₂ : W) (info : NodeBgpInfo)
        → ensure_node_bgp_enabled client netip b provider_id w ≡ (ok info, w₂)
        → (id : ℤ) × (s s' : Server) × (w₁ : W) × (server_id_from_provider_id provider_id ≡ ok id)
          × (client.get_server id w ≡ (ok s, w₁))
          × (IsSwitchedOn id s s' w₁ w₂ × IsInfoOf b s.ip_addresses s'.hosts info)
    unfolding ensure_node_bgp_enabled
    ensure_node_bgp_enabled-eq-ok b provider_id w w₂ info h =
        let (id, parsed, rest₀) = lift->>=-eq-ok (server_id_from_provider_id provider_id) _ w h in
        let (s, w₁, got, rest₁) =
          >>=-eq-ok (restating "error getting server" (client.get_server id)) _ w rest₀ in
        let (s', on, known) = switch_on-eq-ok b id s w₁ w₂ info rest₁ in
        (
          id,
          s,
          s',
          w₁,
          parsed,
          restating-eq-ok "error getting server" (client.get_server id) w got,
          (on, known),
        )
