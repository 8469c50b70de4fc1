-- ===== src/Reservations.antt =====
-- cherry/ipreservations.go: the reserved IP addresses of a project, by their tags.
use cloud_provider_cherry.Prelude.{
  String, Bool, true, false, ◌&&◌, Option, none, some, List, [], ◌∷◌, ◌==◌, string_eq, ℤ, Labels,
  lookup, filter,
}

-- The fields of cherrygo.IPAddress that the code reads; a nil `Tags` is none, and a
-- `TargetedTo.ID` of 0 is an address that is assigned to no server.
pub record IpAddress : Type 0 where
  pub id : String
  pub address : String
  pub cidr : String
  pub type : String
  pub targeted_to : ℤ
  pub tags : Option Labels

-- Every wanted tag is there, with the wanted value.
unfoldable pub has_all_tags : Labels → Labels → Bool
unfolding lookup
has_all_tags [] tags = true
has_all_tags ((k, v) ∷ targets) tags = elim (lookup k tags) [
  | none ↦ false
  | some value ↦ v == value && has_all_tags targets tags
]

unfoldable pub is_candidate : Labels → IpAddress → Bool
unfolding has_all_tags
is_candidate targets ip = elim ip.tags [ none ↦ false | some tags ↦ has_all_tags targets tags ]

unfoldable pub ip_reservations_by_all_tags : Labels → List IpAddress → List IpAddress
unfolding is_candidate
ip_reservations_by_all_tags targets ips = filter (is_candidate targets) ips

unfoldable pub first : List IpAddress → Option IpAddress
first [] = none
first (ip ∷ ips) = some ip

unfoldable pub ip_reservation_by_all_tags : Labels → List IpAddress → Option IpAddress
unfolding ip_reservations_by_all_tags first
ip_reservation_by_all_tags targets ips = first (ip_reservations_by_all_tags targets ips)
