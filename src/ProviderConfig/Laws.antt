-- ===== src/ProviderConfig/Laws.antt =====
-- What getConfig gives, and what Strings shows.
use mathlib.Core.Path.{subst}
use cloud_provider_cherry.Prelude.{
  refl, String, false, Option, none, ◌≡◌, ◌==◌, string_eq, int_eq, ℤ, pos, inl, inr, Bool-cases,
  Option-cases, format_int, parse_int32, IsInt32, parse_int32-IsInt32, arith,
}
use cloud_provider_cherry.Effect.{err, Result, Error, ok, Result-cases, ok_inj, ok-ne-err}
use cloud_provider_cherry.ProviderConfig.{
  api_key_name, project_id_name, env_var_api_server_port, env_var_bgp_node_selector, Config, env_or,
  server_port, use_host_ip, process_config, get_config, assemble, strings,
}

server_port-IsInt32 :
    (env : String → String) (raw : Config) {port : ℤ}
    → IsInt32 raw.api_server_port
    → server_port env raw ≡ ok port
    → IsInt32 port
unfolding server_port
server_port-IsInt32 env raw {port} small h = elim (Bool-cases (env env_var_api_server_port == "")) [
  | inl e ↦ elim (Bool-cases (raw.api_server_port == pos 0)) [
    | inl f ↦ subst IsInt32 (ok_inj (rw (server_port, e, f) at h)) (ground arith)
    | inr f ↦ subst IsInt32 (ok_inj (rw (server_port, e, f) at h)) small
  ]
  | inr e ↦ elim (Option-cases (parse_int32 (env env_var_api_server_port))) [
    | inl f ↦ ok-ne-err (rw (server_port, e, f) at h)
    | inr (n, f) ↦
        subst IsInt32 (ok_inj (rw (server_port, e, f) at h))
          (parse_int32-IsInt32 (env env_var_api_server_port) f)
  ]
]

module _ (parse_selector : String → Option Error) (env : String → String) where
  -- What is known of a configuration.
  abbrev pub IsUsable : Config → Type 0
  IsUsable c =
      IsInt32 c.project_id
      × IsInt32 c.api_server_port
      × ((c.auth_token == "") ≡ false)
      × (parse_selector c.bgp_node_selector ≡ none)

  process_config-IsUsable :
      (raw : Config) {c : Config}
      → IsInt32 raw.api_server_port
      → process_config parse_selector env raw ≡ ok c
      → IsUsable c
  unfolding process_config
  process_config-IsUsable raw {c} small h =
      elim (Option-cases (parse_int32 (env_or env project_id_name (format_int raw.project_id)))) [
        | inl e ↦ ok-ne-err (rw (process_config, e) at h)
        | inr (project, e) ↦ elim (Bool-cases (env_or env api_key_name raw.auth_token == "")) [
          | inl f ↦ ok-ne-err (rw (process_config, e, f) at h)
          | inr f ↦
              elim (Bool-cases (env_or env project_id_name (format_int raw.project_id) == "")) [
                | inl g ↦ ok-ne-err (rw (process_config, e, f, g) at h)
                | inr g ↦ elim (Result-cases (server_port env raw)) [
                  | inl (x, i) ↦ ok-ne-err (rw (process_config, e, f, g, i) at h)
                  | inr (port, i) ↦
                      elim (Option-cases (
                        parse_selector
                          (env_or env env_var_bgp_node_selector raw.bgp_node_selector))) [
                            | inr (x, j) ↦ ok-ne-err (rw (process_config, e, f, g, i, j) at h)
                            | inl j ↦ elim (Result-cases (use_host_ip env raw)) [
                              | inl (x, k) ↦ ok-ne-err (rw (process_config, e, f, g, i, j, k) at h)
                              | inr (host_ip, k) ↦
                                  subst IsUsable
                                    (ok_inj (rw (process_config, e, f, g, i, j, k) at h))
                                    (
                                      parse_int32-IsInt32
                                          (env_or env project_id_name (format_int raw.project_id))
                                          e,
                                      server_port-IsInt32 env raw small i,
                                      f,
                                      j,
                                    )
                            ]
                          ]
                ]
              ]
        ]
      ]

  -- When getConfig succeeds, the project ID and the port of the API server fit into 32 bits, there
  -- is a token, and the node selector is one that labels.Parse reads; this from an `apiServerPort`
  -- of the file that fits into 32 bits, as json.Unmarshal makes sure of an int32 field.
  pub get_config-eq-ok :
      (unmarshal : String → Result Config) (file : Result String) (c : Config)
      → ((text : String) (raw : Config) → unmarshal text ≡ ok raw → IsInt32 raw.api_server_port)
      → get_config parse_selector env unmarshal file ≡ ok c
      → IsUsable c
  unfolding get_config
  get_config-eq-ok unmarshal (err e) c small h = ok-ne-err h
  get_config-eq-ok unmarshal (ok text) c small h = elim (Result-cases (unmarshal text)) [
    | inl (e, f) ↦ ok-ne-err (rw (get_config, f) at h)
    | inr (raw, f) ↦ process_config-IsUsable raw (small text raw f) (rw (get_config, f) at h)
  ]

  -- The file's `base-url` and its settings of the annotations are ignored: with others in their
  -- place getConfig comes to the same.
  pub ignored_settings :
      (raw : Config) (base_url : Option String) (a b c d e f : String)
      → process_config parse_selector env (record raw {
        base_url = base_url;
        annotation_local_asn = a;
        annotation_peer_asn = b;
        annotation_peer_ip = c;
        annotation_src_ip = d;
        annotation_fip_region = e;
        annotation_multi_hop = f;
      })
        ≡ process_config parse_selector env raw
  unfolding process_config server_port use_host_ip assemble
  ignored_settings raw base_url a b c d e f = refl

-- The lines that are logged of a configuration show of its token only whether it is empty: with any
-- other token that is not empty they are the same.
pub strings_mask_token :
    (c : Config) (token : String)
    → (c.auth_token == "") ≡ false
    → (token == "") ≡ false
    → strings (record c { auth_token = token }) ≡ strings c
unfolding strings
strings_mask_token c token h k = rw (strings, h, k) refl
