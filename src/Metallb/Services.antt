-- ===== src/Metallb/Services.antt =====
-- The services of a peer. They are kept in the peer's node selectors, each as a selector on two
-- labels that match no node. `Peer.Services`, `Peer.AddService` and `Peer.RemoveService` of
-- cherry/loadbalancers/metallb/config.go and `peerAddService` and `peerRemoveService` of crd.go are
-- the same code over two types of node selectors, so it is written over any such type.
pub mod Laws
pub mod Updates
pub mod Rebuilding
pub mod Scan
use cloud_provider_cherry.Prelude.{
  ℕ, ◌+◌, String, ◌≡◌, Bool, true, false, not, ◌&&◌, ◌||◌, Option, none, some, List, [], ◌∷◌, ◌++◌,
  map, ◌==◌, ◌!=◌, string_eq, if◌then◌else◌, Labels, length, sort,
}
use cloud_provider_cherry.Metallb.Resource.{Resource, less}

-- metallb.go
abbrev pub service_name_key : String
service_name_key = "nomatch.cherryservers.com/service-name"

abbrev pub service_namespace_key : String
service_namespace_key = "nomatch.cherryservers.com/service-namespace"

-- What the code uses of a type of node selectors: the labels, and a selector of labels alone.
pub record Selector (S : Type 0) : Type 0 where
  pub match_labels : S → Labels
  pub of_labels : Labels → S
  pub match_labels-of_labels : (m : Labels) → match_labels (of_labels m) ≡ m

-- One round of `for k, v := range ns.MatchLabels { switch k { … } }`.
unfoldable pub scan_label : Resource → String × String → Resource
scan_label r (k, v) =
    if k == service_name_key
    then record r { name = v }
    else if k == service_namespace_key
    then record r { namespace = v }
    else r

unfoldable pub scan_labels : Resource → Labels → Resource
unfolding scan_label
scan_labels r [] = r
scan_labels r (kv ∷ m) = scan_labels (scan_label r kv) m

abbrev pub no_service : Resource
no_service = record { namespace = ""; name = "" }

unfoldable pub service_of : Labels → Resource
unfolding scan_labels
service_of m = scan_labels no_service m

-- `name == "" && namespace == ""`, and `name != "" && namespace != ""`
abbrev pub is_blank : Resource → Bool
is_blank r = r.name == "" && r.namespace == ""

abbrev pub is_named : Resource → Bool
is_named r = r.name != "" && r.namespace != ""

-- The labels of a service's selector.
abbrev pub service_labels : Resource → Labels
service_labels r = (service_namespace_key, r.namespace) ∷ (service_name_key, r.name) ∷ []

module _ {S : Type 0} ⦃sel : Selector S⦄ where
  abbrev pub resource : S → Resource
  resource ns = service_of (sel.match_labels ns)

  abbrev pub service_selector : Resource → S
  service_selector r = sel.of_labels (service_labels r)

  -- Peer.Services
  services_from : List Resource → List S → List Resource
  services_from found [] = found
  services_from found (ns ∷ rest) =
      let r = resource ns in services_from (if is_named r then found ++ (r ∷ []) else found) rest

  unfoldable pub services : List S → List Resource
  unfolding services_from
  services selectors = services_from [] selectors

  -- The loop of AddService over the selectors; none is the early `return false`.
  add_loop : Resource → List Resource → List S → List S → Option (List Resource × List S)
  add_loop svc found kept [] = some (found, kept)
  add_loop svc found kept (ns ∷ rest) =
      let r = resource ns in
      let kept' = if is_blank r then kept ++ (ns ∷ []) else kept in
      let listed = add_loop svc (found ++ (r ∷ [])) kept' rest in
      let skipped = add_loop svc found kept' rest in
      if is_named r
      then (if svc.namespace == r.namespace && svc.name == r.name then none else listed)
      else skipped

  -- The peer's new selectors, and whether anything changed.
  unfoldable pub add_service : Resource → List S → List S × Bool
  unfolding add_loop
  add_service svc selectors = elim (add_loop svc (svc ∷ []) [] selectors) [
    | none ↦ (selectors, false)
    | some (found, kept) ↦ (kept ++ map service_selector (sort less found), true)
  ]

  -- The loop of RemoveService, over `found`, `services` and `selectors`.
  remove_loop : Resource → Bool → List Resource → List S → List S → Bool × List Resource × List S
  remove_loop svc found left kept [] = (found, left, kept)
  remove_loop svc found left kept (ns ∷ rest) =
      let r = resource ns in
      let blank = remove_loop svc found left (kept ++ (ns ∷ [])) rest in
      let hit = remove_loop svc true left kept rest in
      let other = remove_loop svc found (left ++ (r ∷ [])) kept rest in
      let dropped = remove_loop svc found left kept rest in
      if is_blank r
      then blank
      else if r.name == svc.name && r.namespace == svc.namespace
      then hit
      else if is_named r && (r.name != svc.name || r.namespace != svc.namespace)
      then other
      else dropped

  -- The peer's new selectors, whether the service was found, and how many services are left.
  unfoldable pub remove_service : Resource → List S → List S × Bool × ℕ
  unfolding remove_loop
  remove_service svc selectors =
      let (found, left, kept) = remove_loop svc false [] [] selectors in
      let services' = sort less left in
      (kept ++ map service_selector services', found, length services')
