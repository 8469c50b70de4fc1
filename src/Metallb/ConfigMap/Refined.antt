-- ===== src/Metallb/ConfigMap/Refined.antt =====
-- The configurer of the config map as a set of services: what its calls leave for the peers to serve.
use cloud_provider_cherry.Prelude.{
  Bool, true, not, ◌||◌, ◌&&◌, Option, none, some, List, [], ◌∷◌, ◌≡◌, refl, ap, ◌∙◌, ◌==◌, All,
  arith,
}
use mathlib.Core.Path.{fun_ext}
use cloud_provider_cherry.Metallb.Resource.{Resource, resource_eq}
use cloud_provider_cherry.Metallb.Services.{is_named, services}
use cloud_provider_cherry.Metallb.Config.{Peer, ConfigFile, node_selector}
use cloud_provider_cherry.Metallb.Config.Peers
use cloud_provider_cherry.Metallb.Config.Peers.{remove_peers_by_service-All}
use cloud_provider_cherry.Metallb.Config.Changes.{serve_peer}
use cloud_provider_cherry.Metallb.Config.Changes.Served.{
  any_serves, serve_peer-served, remove_peers_by_service-served,
}
use cloud_provider_cherry.Metallb.ConfigMap.{
  CmConfigurer, serve_all, update_peers_by_service, remove_peers_by_service,
}

-- The calls by which the load balancer changes the peers.
pub data Call : Type 0 where
  update : List Peer → Resource → Call
  remove : Resource → Call

-- A call on the configurer; its result, whether anything changed, is left out.
abbrev configured : Option (CmConfigurer × Bool) → Option CmConfigurer
configured none = none
configured (some (m, changed)) = some m

abbrev pub call : Call → CmConfigurer → Option CmConfigurer
call (update adds svc) m = configured (update_peers_by_service adds svc m)
call (remove svc) m = configured (remove_peers_by_service svc m)

pub calls : List Call → CmConfigurer → Option CmConfigurer
calls [] m = some m
calls (c ∷ cs) m = elim (call c m) [ none ↦ none | some m' ↦ calls cs m' ]

-- The specification: a set of services, to which an update by some peers adds one, to which an update
-- by no peers adds none, and from which a removal takes one.
abbrev pub Served : Type 0
Served = Resource → Bool

abbrev pub spec : Call → Served → Served
spec (update [] svc) set s = set s
spec (update (add ∷ adds) svc) set s = s == svc || set s
spec (remove svc) set s = not (s == svc) && set s

pub specs : List Call → Served → Served
specs [] set = set
specs (c ∷ cs) set = specs cs (spec c set)

-- The services have names and namespaces, and the peers to add serve nothing yet.
abbrev ServesNone : Peer → Type 0
ServesNone p = services p.node_selectors ≡ []

abbrev pub IsValid : Call → Type 0
IsValid (update adds svc) = (is_named svc ≡ true) × All ServesNone adds
IsValid (remove svc) = is_named svc ≡ true

serve_all-served :
    (svc : Resource) (named : is_named svc ≡ true) (s : Resource) (add : Peer) (adds ps : List Peer)
    → All ServesNone (add ∷ adds)
    → any_serves (serve_all svc (add ∷ adds) ps) s ≡ (s == svc || any_serves ps s)
unfolding serve_all
serve_all-served svc named s add [] ps h = serve_peer-served svc named s add ps h.0
serve_all-served svc named s add (next ∷ adds) ps h =
    serve_all-served svc named s next adds (serve_peer svc add ps) h.1
    ∙ rw (serve_peer-served svc named s add ps h.0) (ground arith)

call-spec :
    (c : Call) (m : CmConfigurer) (cfg : ConfigFile)
    → IsValid c
    → (after : ConfigFile) × (call c (record m { config = some cfg })
        ≡ some (record m { config = some after }))
      × (any_serves after.peers ≡ spec c (any_serves cfg.peers))
      × (after.pools ≡ cfg.pools)
unfolding update_peers_by_service remove_peers_by_service
call-spec (update [] svc) m cfg h = (cfg, refl, refl, refl)
call-spec (update (add ∷ adds) svc) m cfg h = (
  record cfg { peers = serve_all svc (add ∷ adds) cfg.peers },
  refl,
  fun_ext (λ s. serve_all-served svc h.0 s add adds cfg.peers h.1),
  refl,
)
call-spec (remove svc) m cfg h = (
  (Peers.remove_peers_by_service svc cfg).0,
  refl,
  fun_ext (λ s. remove_peers_by_service-served svc cfg s h),
  (remove_peers_by_service-All svc cfg h).1,
)

-- A configurer that has read a configuration refines the set of the services that are served: no
-- sequence of UpdatePeersByService, with peers that serve nothing yet, and RemovePeersByService, all
-- of services with names and namespaces, panics; afterwards exactly those services are served that
-- the same additions and removals leave in the set, where an update by an empty list of peers adds
-- nothing; and the pools are as they were.
pub calls-specs :
    (cs : List Call) (m : CmConfigurer) (cfg : ConfigFile)
    → m.config ≡ some cfg
    → All IsValid cs
    → (after : ConfigFile) × (calls cs m ≡ some (record m { config = some after }))
      × (any_serves after.peers ≡ specs cs (any_serves cfg.peers))
      × (after.pools ≡ cfg.pools)
unfolding calls specs
calls-specs cs m cfg stored valid = rw (m_eq) (run cs cfg valid)
  where
    m_eq : m ≡ record m { config = some cfg }
    m_eq = ap (λ (c : Option ConfigFile). record m { config = c }) stored

    run :
        (cs : List Call) (cfg : ConfigFile)
        → All IsValid cs
        → (after : ConfigFile) × (calls cs (record m { config = some cfg })
            ≡ some (record m { config = some after }))
          × (any_serves after.peers ≡ specs cs (any_serves cfg.peers))
          × (after.pools ≡ cfg.pools)
    run [] cfg h = (cfg, refl, refl, refl)
    run (c ∷ cs) cfg h =
        let (next, step, served, kept) = call-spec c m cfg h.0 in
        let (after, rest, served', kept') = run cs next h.1 in
        (
          after,
          ap (λ (o : Option CmConfigurer). elim o [ none ↦ none | some m' ↦ calls cs m' ]) step
              ∙ rest,
          served' ∙ ap (specs cs) served,
          kept' ∙ kept,
        )
