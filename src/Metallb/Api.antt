-- ===== src/Metallb/Api.antt =====
-- The Kubernetes objects of the package go.universe.tf/metallb/api/v1beta1, with the fields that
-- cherry/loadbalancers/metallb/crd.go reads or writes, and the client through which it acts on them.
use cloud_provider_cherry.Prelude.{
  ◌≡◌, ℕ, String, refl, Bool, Option, none, some, List, [], ◌∷◌, Labels, lookup, All, ◌==◌,
  string_eq, if◌then◌else◌,
}
use cloud_provider_cherry.Effect.{Result, ok, Action}
use cloud_provider_cherry.Metallb.Services.{Selector}

pub record MatchExpression : Type 0 where
  pub key : String
  pub operator : String
  pub values : List String

pub record ApiSelector : Type 0 where
  pub match_labels : Labels
  pub match_expressions : List MatchExpression

abbrev of_labels : Labels → ApiSelector
of_labels m = record { match_labels = m; match_expressions = [] }

instance abbrev pub api_selector : Selector ApiSelector
api_selector = record {
  match_labels = λ s. s.match_labels;
  of_labels = of_labels;
  match_labels-of_labels = λ m. refl;
}

-- The hold time is in nanoseconds.
pub record BgpPeerSpec : Type 0 where
  pub my_asn : ℕ
  pub asn : ℕ
  pub address : String
  pub src_address : String
  pub port : ℕ
  pub hold_time : ℕ
  pub router_id : String
  pub node_selectors : List ApiSelector
  pub password : String
  pub ebgp_multi_hop : Bool

pub record IpAddressPoolSpec : Type 0 where
  pub addresses : List String
  pub auto_assign : Option Bool
  pub avoid_buggy_ips : Bool

pub record BgpAdvertisementSpec : Type 0 where
  pub ip_address_pools : List String

-- An object of the API: its metadata and its spec.
pub record Object (A : Type 0) : Type 0 where
  pub name : String
  pub namespace : String
  pub labels : Labels
  pub spec : A

abbrev pub BgpPeer : Type 0
BgpPeer = Object BgpPeerSpec

abbrev pub IpAddressPool : Type 0
IpAddressPool = Object IpAddressPoolSpec

abbrev pub BgpAdvertisement : Type 0
BgpAdvertisement = Object BgpAdvertisementSpec

-- The calls of a controller-runtime client on one kind of object. Listing is by labels that match and
-- by a namespace. A patch is made from an object as it was read and as it is to be.
pub record Kind (W A : Type 0) : Type 0 where
  pub list : (matching : Labels) (namespace : String) → W → Result (List (Object A))
  pub create : Object A → Action W Unit
  pub patch : (original modified : Object A) → Action W Unit
  pub delete : Object A → Action W Unit

-- The first object of a list that has a name.
abbrev pub named_object : {A : Type 0} → String → List (Object A) → Option (Object A)
named_object n [] = none
named_object n (o ∷ os) = if o.name == n then some o else named_object n os

-- No two objects of a list share a name.
abbrev pub HasDistinctNames : {A : Type 0} → List (Object A) → Type 0
HasDistinctNames [] = Unit
HasDistinctNames (o ∷ os) = (named_object o.name os ≡ none) × HasDistinctNames os

-- An object is one of those that are listed by some labels and a namespace.
abbrev pub IsSelected : {A : Type 0} → Labels → String → Object A → Type 0
IsSelected matching namespace o =
    (o.namespace ≡ namespace)
    × All (λ (label : String × String). lookup label.0 o.labels ≡ some label.1) matching

-- What the API server documents, said of the view `find` of the objects that are listed by some
-- labels and a namespace. An object's name is unique in its namespace. A listing shows each object
-- that it selects. A call that succeeds has its effect on that object and on no other; an object that
-- is created is shown if it is selected; a patch is merged into the object as it was read, if nobody
-- changed it since, and leaves it selected where it keeps the labels and the namespace.
pub record IsLawful {W A : Type 0} (k : Kind W A) (matching : Labels) (namespace : String)
    (find : W → String → Option (Object A)) : Type 0 where
  pub list_names :
      (w : W) (os : List (Object A)) → k.list matching namespace w ≡ ok os → HasDistinctNames os
  pub find-list :
      (w : W) (os : List (Object A))
      → k.list matching namespace w ≡ ok os
      → (n : String) → find w n ≡ named_object n os
  pub find-create :
      (o : Object A) (w w' : W)
      → IsSelected matching namespace o
      → k.create o w ≡ (ok tt, w')
      → (n : String) → find w' n ≡ (if o.name == n then some o else find w n)
  pub find-patch :
      (o o' : Object A) (w w' : W)
      → o'.name ≡ o.name
      → o'.namespace ≡ o.namespace
      → o'.labels ≡ o.labels
      → find w o.name ≡ some o
      → k.patch o o' w ≡ (ok tt, w')
      → (n : String) → find w' n ≡ (if o.name == n then some o' else find w n)
  pub find-delete :
      (o : Object A) (w w' : W)
      → k.delete o w ≡ (ok tt, w')
      → (n : String) → find w' n ≡ (if o.name == n then none else find w n)
