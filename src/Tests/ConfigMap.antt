-- ===== src/Tests/ConfigMap.antt =====
-- A config map of MetalLB, for the theorem on its configurer.
use cloud_provider_cherry.Prelude.{
  String, Option, none, some, List, [], ◌∷◌, ◌≡◌, ◌∙◌, refl, sym, ap, false, ◌==◌, string_eq,
  if◌then◌else◌, Bool-cases, inl, inr, Labels, lookup, insert, lookup-insert,
}
use cloud_provider_cherry.Metallb.Config.{ConfigFile, Peer}
use cloud_provider_cherry.Metallb.ConfigMap.{
  ConfigMaps, Yaml, CmConfigurer, parse_config, get_config_map, update, add_address_pool,
  remove_address_pool_by_address,
}
use cloud_provider_cherry.Metallb.Services.{services}
use cloud_provider_cherry.Metallb.Config.Changes.Served.{any_serves}
use cloud_provider_cherry.Effect.{Result, ok, ok_inj}
use cloud_provider_cherry.Metallb.ConfigMap.Stored.{first_of, IsLawful, get_config_map-update}
use cloud_provider_cherry.Metallb.ConfigMap.Refined.{
  Call, update as update_call, remove as remove_call, calls, specs, calls-specs,
}
use cloud_provider_cherry.Tests.Services.{web, api}
use cloud_provider_cherry.Tests.ConfigFile.{peer}

abbrev no_config : ConfigFile
no_config = record { peers = []; bgp_communities = []; pools = [] }

abbrev configurer : Option ConfigFile → CmConfigurer
configurer config = record {
  namespace = "metallb-system";
  config_map_name = "config";
  config = config;
}

-- A configurer that has read nothing panics, unless there is nothing to do.
unread_run : remove_address_pool_by_address "10.1.0.1/32" (configurer none) ≡ none
unfolding remove_address_pool_by_address
unread_run = refl

unread_pool_run : add_address_pool none (configurer none) ≡ some (configurer none, false)
unfolding add_address_pool
unread_pool_run = refl

-- The peer of the file, before it serves anything, and the calls for two services.
abbrev plain_peer : Peer
plain_peer = record peer { node_selectors = [] }

abbrev two_updates : List Call
two_updates =
    update_call (plain_peer ∷ []) web
    ∷ update_call (plain_peer ∷ []) api
    ∷ update_call [] web
    ∷ remove_call web
    ∷ []

calls-specs_example :
    (after : ConfigFile) × (calls two_updates (configurer (some no_config))
      ≡ some (configurer (some after)))
    × (any_serves after.peers ≡ specs two_updates (any_serves []))
    × (after.pools ≡ [])
unfolding services
calls-specs_example =
    calls-specs two_updates (configurer (some no_config)) no_config refl
      ((refl, (refl, tt)), ((refl, (refl, tt)), ((refl, tt), (refl, tt))))

-- A config map that takes merge patches; its data is the world.
abbrev merged : Labels → Labels → Labels
merged [] values = values
merged ((k, v) ∷ entries) values = insert k v (merged entries values)

abbrev one_map : ConfigMaps Labels
one_map = record { get = λ name w. (ok w, w); patch = λ name entries w. (ok tt, merged entries w) }

lookup-merged :
    (entries values : Labels) (k : String)
    → lookup k (merged entries values) ≡ first_of (lookup k entries) (lookup k values)
unfolding lookup
lookup-merged [] values k = refl
lookup-merged ((j, v) ∷ entries) values k =
    lookup-insert j k v (merged entries values) ∙ elim (Bool-cases (j == k)) [
      | inl e ↦ rw e refl
      | inr e ↦ rw e (lookup-merged entries values k)
    ]

one_map-IsLawful : IsLawful one_map (λ w name. w)
one_map-IsLawful = record {
  reads = λ name w w₁ values h. sym (ok_inj (ap (λ (r : Result Labels × Labels). r.0) h));
  merges = λ name entries w w₁ h k.
      ap (lookup k) (sym (ap (λ (r : Result (Unit {0}) × Labels). r.1) h))
      ∙ lookup-merged entries w k;
}

-- A printer of configurations that shows whether there is one.
abbrev shows_some : Yaml
shows_some = record {
  marshal = λ config. elim config [ none ↦ ok "null" | some c ↦ ok "{}" ];
  unmarshal = λ text. ok no_config;
}

abbrev data_before : Labels
data_before = ("owner", "admin") ∷ ("config", "old") ∷ []

abbrev data_after : Labels
data_after = ("owner", "admin") ∷ ("config", "{}") ∷ []

abbrev owner : String
owner = "owner"

get_config_map-update_example :
    (text : String) × (shows_some.marshal (some no_config) ≡ ok text)
    × (lookup owner data_after
        ≡ (if "config" == owner then some text else lookup owner data_before))
    × (get_config_map one_map shows_some (configurer none) data_after
        ≡ (parse_config shows_some text, data_after))
unfolding update insert
get_config_map-update_example =
    get_config_map-update one_map shows_some (λ w name. w) one_map-IsLawful
      (configurer (some no_config)) (configurer none) data_before data_after data_after data_after
      refl refl refl owner
