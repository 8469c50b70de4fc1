-- ===== src/Tests/Services.antt =====
-- The services of peers, at concrete peers.
use cloud_provider_cherry.Prelude.{
  ◌≡◌, ◌⊎◌, refl, true, false, some, none, List, [], ◌∷◌, ◌++◌, map, Labels, contains, length, sort,
  index,
}
use mathlib.Core.List.{Perm}
use cloud_provider_cherry.Metallb.Resource.{Resource, resource_eq, less, less_both_ways}
use cloud_provider_cherry.Metallb.Config.{NodeSelector, node_selector}
use cloud_provider_cherry.Metallb.Services.{
  service_name_key, service_namespace_key, service_of, service_selector, services, add_service,
  remove_service,
}
use cloud_provider_cherry.Metallb.Services.Laws.{plain, others}
use cloud_provider_cherry.Metallb.Services.Updates.{
  contains-remove_service, remove_service-add_service,
}
use cloud_provider_cherry.Metallb.Services.Rebuilding.{
  half, add_service-cases, remove_service-cases,
}
use cloud_provider_cherry.Metallb.Services.Scan.{service_of-eq-index}

abbrev pub web : Resource
web = record { namespace = "default"; name = "web" }

abbrev pub api : Resource
api = record { namespace = "staging"; name = "api" }

abbrev api_labels : Labels
api_labels = (service_name_key, "api") ∷ (service_namespace_key, "staging") ∷ []

abbrev host_selector : NodeSelector
host_selector = record {
  match_labels = some (("kubernetes.io/hostname", "node-1") ∷ []);
  match_expressions = none;
}

abbrev pub selectors : List NodeSelector
selectors = host_selector ∷ record { match_labels = some api_labels; match_expressions = none } ∷ []

service_of-eq-index_case : service_of api_labels ≡ record {
  namespace = index api_labels service_namespace_key;
  name = index api_labels service_name_key;
}
service_of-eq-index_case = service_of-eq-index api_labels (refl, (refl, tt))

less_both_ways_case : (less web api ≡ true) × (less api web ≡ true)
less_both_ways_case = less_both_ways web api refl refl

-- A selector with one of the two labels of a service.
abbrev pub half_labelled : NodeSelector
half_labelled = record {
  match_labels = some ((service_name_key, "api") ∷ []);
  match_expressions = none;
}

abbrev mixed : List NodeSelector
mixed = half_labelled ∷ selectors

add_service-cases_example :
    ((contains web (services mixed) ≡ true) × (add_service web mixed ≡ (mixed, false)))
    ⊎ ((contains web (services mixed) ≡ false)
        × (rs : List Resource) × Perm rs (web ∷ services mixed)
        × (add_service web mixed ≡ (plain mixed ++ map service_selector rs, true))
        × (services (add_service web mixed).0 ≡ rs)
        × (half (add_service web mixed).0 ≡ []))
add_service-cases_example = add_service-cases web mixed refl

remove_service-cases_example :
    (rs : List Resource) × Perm rs (others api (services mixed))
    × (remove_service api mixed
        ≡ (plain mixed ++ map service_selector rs, contains api (services mixed), length rs))
    × (services (remove_service api mixed).0 ≡ rs)
    × (half (remove_service api mixed).0 ≡ [])
remove_service-cases_example = remove_service-cases api mixed refl

-- The half-labelled selector is gone, though it names no service.
half_dropped : (half mixed ≡ half_labelled ∷ []) × (half (add_service web mixed).0 ≡ [])
unfolding add_service service_of sort less
half_dropped = (refl, refl)

contains-remove_service_case : contains api (services (remove_service api selectors).0) ≡ false
contains-remove_service_case = contains-remove_service api selectors refl

remove_service-add_service_case :
    Perm (services (remove_service web (add_service web selectors).0).0) (services selectors)
    × (plain (remove_service web (add_service web selectors).0).0 ≡ plain selectors)
    × ((remove_service web (add_service web selectors).0).1 ≡ true)
unfolding services service_of
remove_service-add_service_case = remove_service-add_service web selectors refl refl
