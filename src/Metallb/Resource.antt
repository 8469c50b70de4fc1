-- ===== src/Metallb/Resource.antt =====
-- cherry/loadbalancers/metallb/resource.go: a service by its namespace and name, and the comparison
-- by which lists of services are sorted.
use cloud_provider_cherry.Prelude.{
  String, ◌≡◌, ◌↔◌, Bool, true, false, ◌&&◌, Eq, ◌==◌, string_eq, if◌then◌else◌, text_lt, arith,
  eq_iff,
}

pub record Resource : Type 0 where
  pub namespace : String
  pub name : String

abbrev pub beq : Resource → Resource → Bool
beq r s = r.namespace == s.namespace && r.name == s.name

pub beq_iff : (r s : Resource) → (beq r s ≡ true) ↔ (r ≡ s)
beq_iff r s = ground (arith, eq_iff r.namespace s.namespace, eq_iff r.name s.name)

instance abbrev pub resource_eq : Eq Resource
resource_eq = record { beq = beq; beq_iff = beq_iff }

-- Resources.Less
unfoldable pub less : Resource → Resource → Bool
less r s =
    if text_lt r.namespace s.namespace then true else if text_lt r.name s.name then true else false

-- `Less` orders two services both ways when one has the lower namespace and the other the lower
-- name, so it is no ordering that `sort.Sort` could establish.
pub less_both_ways :
    (r s : Resource)
    → text_lt r.namespace s.namespace ≡ true
    → text_lt s.name r.name ≡ true
    → (less r s ≡ true) × (less s r ≡ true)
unfolding less
less_both_ways r s h k = ground arith
