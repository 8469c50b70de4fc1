-- ===== src/Metallb/Services/Scan.antt =====
-- The loop over a selector's labels reads two of them, in whatever order Go ranges over the map.
use cloud_provider_cherry.Prelude.{
  String, ◌≡◌, refl, ◌∙◌, false, Option, none, some, [], ◌∷◌, ◌==◌, string_eq, Labels, index,
  lookup, lookup_absent, HasDistinctKeys, arith, eq_iff, Bool-cases, inl, inr,
}
use cloud_provider_cherry.Metallb.Resource.{Resource}
use cloud_provider_cherry.Metallb.Services.{
  service_name_key, service_namespace_key, scan_label, scan_labels, no_service, service_of,
}

abbrev or_old : String → Option String → String
or_old old none = old
or_old old (some v) = v

-- What the map holds under the two keys, or else what was found before.
abbrev read_labels : Resource → Labels → Resource
read_labels r m = record {
  namespace = or_old r.namespace (lookup service_namespace_key m);
  name = or_old r.name (lookup service_name_key m);
}

keys_differ : (service_name_key == service_namespace_key) ≡ false
keys_differ = refl

scan_labels-eq : (r : Resource) (m : Labels) → HasDistinctKeys m → scan_labels r m ≡ read_labels r m
unfolding scan_labels lookup
scan_labels-eq r [] d = refl
scan_labels-eq r ((k, v) ∷ m) d = elim (Bool-cases (k == service_name_key)) [
  | inl e ↦
      let at_name = (eq_iff k service_name_key).0 e in
      let other : (k == service_namespace_key) ≡ false = rw at_name keys_differ in
      let absent : lookup service_name_key m ≡ none = rw at_name at (lookup_absent k m d.0) in
      rw (scan_labels-eq (scan_label r (k, v)) m d.1, e, other, absent) refl
  | inr e ↦ elim (Bool-cases (k == service_namespace_key)) [
    | inl e' ↦
        let at_namespace = (eq_iff k service_namespace_key).0 e' in
        let absent : lookup service_namespace_key m ≡ none =
          rw at_namespace at (lookup_absent k m d.0) in
        rw (scan_labels-eq (scan_label r (k, v)) m d.1, e, e', absent) refl
    | inr e' ↦ rw (scan_labels-eq (scan_label r (k, v)) m d.1, e, e') refl
  ]
]

-- Over a map, whose keys are distinct, the loop finds the values of the two labels, or the empty
-- text for a label that is missing. So the order of the range does not matter.
pub service_of-eq-index :
    (m : Labels)
    → HasDistinctKeys m
    → service_of m
      ≡ record { namespace = index m service_namespace_key; name = index m service_name_key }
unfolding service_of
service_of-eq-index m d = scan_labels-eq no_service m d ∙ ground arith
