-- ===== src/Metallb/ConfigMap/Stored.antt =====
-- cherry/loadbalancers/metallb/configmap.go: Get reads what Update has written.
use cloud_provider_cherry.Prelude.{
  String, Option, none, some, [], ◌∷◌, ◌≡◌, refl, ap, ◌∙◌, ◌==◌, string_eq, if◌then◌else◌, Labels,
  index, lookup, Bool-cases, inl, inr,
}
use cloud_provider_cherry.Effect.{
  Result, ok, wrap, wrapping, lift, >>=-of_ok, lift->>=-eq-ok, wrap-eq-ok,
}
use cloud_provider_cherry.Metallb.ConfigMap.{
  ConfigMaps, Yaml, CmConfigurer, parse_config, get_config_map, update,
}

-- An entry that a merge patch has, and otherwise the one that was there.
abbrev pub first_of : Option String → Option String → Option String
first_of none old = old
first_of (some new) old = some new

-- Documented of the API server, of the data of each config map in the world: a read answers it, and
-- a merge patch that succeeds sets the entries that it has and leaves the others.
pub record IsLawful {W : Type 0} (maps : ConfigMaps W) (stored : W → String → Labels) : Type 0 where
  pub reads :
      (name : String) (w w₁ : W) (values : Labels)
      → maps.get name w ≡ (ok values, w₁)
      → values ≡ stored w name
  pub merges :
      (name : String) (entries : Labels) (w w₁ : W)
      → maps.patch name entries w ≡ (ok tt, w₁)
      → (k : String)
      → lookup k (stored w₁ name) ≡ first_of (lookup k entries) (lookup k (stored w name))

patched_entry :
    (k text : String) (old : Option String)
    → first_of (lookup k (("config", text) ∷ [])) old ≡ (if "config" == k then some text else old)
unfolding lookup
patched_entry k text old = elim (Bool-cases ("config" == k)) [
  | inl e ↦ rw e refl
  | inr e ↦ rw e refl
]

-- Over a lawful API:
-- When Update succeeds, the configuration could be marshalled; its text is the entry "config" of the
-- config map's data, whose other entries are as they were; and a read by any configurer of the same
-- config map that reaches the API parses that text.
pub get_config_map-update :
    {W : Type 0} (maps : ConfigMaps W) (yaml : Yaml) (stored : W → String → Labels)
    (law : IsLawful maps stored) (m other : CmConfigurer) (w w₁ w₂ : W) (values : Labels)
    → other.config_map_name ≡ m.config_map_name
    → update maps yaml m w ≡ (ok tt, w₁)
    → maps.get other.config_map_name w₁ ≡ (ok values, w₂)
    → (k : String)
    → (text : String) × (yaml.marshal m.config ≡ ok text)
      × (lookup k (stored w₁ m.config_map_name)
          ≡ (if "config" == k then some text else lookup k (stored w m.config_map_name)))
      × (get_config_map maps yaml other w₁ ≡ (parse_config yaml text, w₂))
unfolding update get_config_map
get_config_map-update {W} maps yaml stored law m other w w₁ w₂ values same h got k =
    let (text, marshalled, patched) =
      lift->>=-eq-ok (wrap "error converting configfile data to bytes" (yaml.marshal m.config))
        (λ (t : String). maps.patch m.config_map_name (("config", t) ∷ [])) w h in
    let entry : (j : String)
        → lookup j (stored w₁ m.config_map_name)
          ≡ (if "config" == j then some text else lookup j (stored w m.config_map_name)) =
      λ j.
        law.merges m.config_map_name (("config", text) ∷ []) w w₁ patched j
        ∙ patched_entry j text (lookup j (stored w m.config_map_name)) in
    let read : values ≡ stored w₁ m.config_map_name =
      law.reads other.config_map_name w₁ w₂ values got ∙ ap (stored w₁) same in
    (
      text,
      wrap-eq-ok "error converting configfile data to bytes" (yaml.marshal m.config) marshalled,
      entry k,
      >>=-of_ok (wrapping "unable to get metallb configmap" (maps.get other.config_map_name))
            (λ (d : Labels). lift (parse_config yaml (index d "config"))) w₁
            (ap (λ (r : Result Labels × W). (wrap "unable to get metallb configmap" r.0, r.1)) got)
          ∙ ap (λ (t : String). (parse_config yaml t, w₂))
              (ap (λ (d : Labels). index d "config") read
                ∙ ap (λ (v : Option String). elim v [ none ↦ "" | some t ↦ t ]) (entry "config")),
    )
