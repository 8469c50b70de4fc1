-- ===== src/ProviderConfig.antt =====
-- cherry/config.go: the configuration of the provider, from a JSON file and the environment, which
-- is a function with the empty text for a variable that is not set.
pub mod Laws
use cloud_provider_cherry.Prelude.{
  ℕ, String, ◌<>◌, Bool, true, false, ◌||◌, Option, none, some, List, [], ◌∷◌, ◌==◌, ◌!=◌,
  string_eq, int_eq, if◌then◌else◌, ℤ, pos, format_int, parse_int32,
}
use cloud_provider_cherry.Effect.{Error, message, wrapped, Result, ok, err}

abbrev pub api_key_name : String
api_key_name = "CHERRY_API_KEY"

abbrev pub project_id_name : String
project_id_name = "CHERRY_PROJECT_ID"

abbrev pub region_name : String
region_name = "CHERRY_REGION_NAME"

abbrev pub load_balancer_setting_name : String
load_balancer_setting_name = "CHERRY_LOAD_BALANCER"

abbrev pub env_var_annotation_local_asn : String
env_var_annotation_local_asn = "CHERRY_ANNOTATION_LOCAL_ASN"

abbrev pub env_var_annotation_peer_asn : String
env_var_annotation_peer_asn = "CHERRY_ANNOTATION_PEER_ASN"

abbrev pub env_var_annotation_peer_ip : String
env_var_annotation_peer_ip = "CHERRY_ANNOTATION_PEER_IP"

abbrev pub env_var_annotation_src_ip : String
env_var_annotation_src_ip = "CHERRY_ANNOTATION_SRC_IP"

abbrev pub env_var_annotation_fip_region : String
env_var_annotation_fip_region = "CHERRY_ANNOTATION_FIP_REGION"

abbrev pub env_var_annotation_multi_hop : String
env_var_annotation_multi_hop = "CHERRY_ANNOTATION_MULTI_HOP"

abbrev pub env_var_fip_tag : String
env_var_fip_tag = "CHERRY_FIP_TAG"

abbrev pub env_var_api_server_port : String
env_var_api_server_port = "CHERRY_API_SERVER_PORT"

abbrev pub env_var_bgp_node_selector : String
env_var_bgp_node_selector = "CHERRY_BGP_NODE_SELECTOR"

abbrev pub env_var_fip_health_check_use_host_ip : String
env_var_fip_health_check_use_host_ip = "CHERRY_FIP_HEALTH_CHECK_USE_HOST_IP"

-- constants.go
abbrev pub default_annotation_node_asn : String
default_annotation_node_asn = "cherryservers.com/bgp-peers-{{n}}-node-asn"

abbrev pub default_annotation_peer_asn : String
default_annotation_peer_asn = "cherryservers.com/bgp-peers-{{n}}-peer-asn"

abbrev pub default_annotation_peer_ip : String
default_annotation_peer_ip = "cherryservers.com/bgp-peers-{{n}}-peer-ip"

abbrev pub default_annotation_src_ip : String
default_annotation_src_ip = "cherryservers.com/bgp-peers-{{n}}-src-ip"

abbrev pub default_annotation_fip_region : String
default_annotation_fip_region = "cherryservers.com/fip-region"

abbrev pub default_annotation_multi_hop : String
default_annotation_multi_hop = "cherryservers.com/bgp-peers-{{n}}-peer-multi-hop"

pub record Config : Type 0 where
  pub auth_token : String
  pub project_id : ℤ
  pub base_url : Option String
  pub load_balancer_setting : String
  pub region : String
  pub annotation_local_asn : String
  pub annotation_peer_asn : String
  pub annotation_peer_ip : String
  pub annotation_src_ip : String
  pub annotation_fip_region : String
  pub annotation_multi_hop : String
  pub fip_tag : String
  pub api_server_port : ℤ
  pub bgp_node_selector : String
  pub fip_health_check_use_host_ip : Bool

-- Config.Strings
unfoldable pub strings : Config → List String
unfolding format_int
strings c =
    (if c.auth_token != "" then "authToken: '<masked>'" else "authToken: ''")
    ∷ ("projectID: '" <> format_int c.project_id <> "'")
    ∷ (if c.load_balancer_setting == ""
        then "loadbalancer config: disabled"
        else ("load balancer config: ''" <> c.load_balancer_setting))
    ∷ ("region: '" <> c.region <> "'")
    ∷ ("Floating IP Tag: '" <> c.fip_tag <> "'")
    ∷ ("API Server Port: '" <> format_int c.api_server_port <> "'")
    ∷ ("BGP Node Selector: '" <> c.bgp_node_selector <> "'")
    ∷ []

-- strconv.ParseBool
unfoldable pub parse_bool : String → Option Bool
parse_bool v =
    if v == "1" || v == "t" || v == "T" || v == "TRUE" || v == "true" || v == "True"
    then some true
    else if v == "0" || v == "f" || v == "F" || v == "FALSE" || v == "false" || v == "False"
    then some false
    else none

-- The value of an environment variable, if it is set.
abbrev pub env_or : (String → String) → String → String → String
env_or env name fallback = let v = env name in if v == "" then fallback else v

-- The switch on the port of the API server.
unfoldable pub server_port : (String → String) → Config → Result ℤ
unfolding parse_int32
server_port env raw =
    let port = env env_var_api_server_port in
    if port != ""
    then elim (parse_int32 port) [
      | none ↦ err (message "env var CHERRY_API_SERVER_PORT must be a number")
      | some n ↦ ok n
    ]
    else if raw.api_server_port != pos 0
    then ok raw.api_server_port
    else ok (pos 0)

unfoldable pub use_host_ip : (String → String) → Config → Result Bool
unfolding parse_bool
use_host_ip env raw =
    let v = env env_var_fip_health_check_use_host_ip in
    if v != ""
    then elim (parse_bool v) [
      | none ↦ err (message "env var CHERRY_FIP_HEALTH_CHECK_USE_HOST_IP must be a boolean")
      | some b ↦ ok b
    ]
    else ok raw.fip_health_check_use_host_ip

-- The configuration that is put together once the parts that may fail are there.
unfoldable pub assemble : (String → String) → Config → ℤ → ℤ → Bool → Config
assemble env raw project port host_ip = record {
  auth_token = env_or env api_key_name raw.auth_token;
  project_id = project;
  base_url = none;
  load_balancer_setting = env_or env load_balancer_setting_name raw.load_balancer_setting;
  region = env_or env region_name raw.region;
  annotation_local_asn = env_or env env_var_annotation_local_asn default_annotation_node_asn;
  annotation_peer_asn = env_or env env_var_annotation_peer_asn default_annotation_peer_asn;
  annotation_peer_ip = env_or env env_var_annotation_peer_ip default_annotation_peer_ip;
  annotation_src_ip = env_or env env_var_annotation_src_ip default_annotation_src_ip;
  annotation_fip_region = env_or env env_var_annotation_fip_region default_annotation_fip_region;
  annotation_multi_hop = env_or env env_var_annotation_multi_hop default_annotation_multi_hop;
  fip_tag = env_or env env_var_fip_tag raw.fip_tag;
  api_server_port = port;
  bgp_node_selector = env_or env env_var_bgp_node_selector raw.bgp_node_selector;
  fip_health_check_use_host_ip = host_ip;
}

-- getConfig after the file is read and its JSON is unmarshalled. `parse_selector` is the error of
-- labels.Parse.
unfoldable pub process_config : (String → Option Error) → (String → String) → Config → Result Config
unfolding parse_int32 format_int server_port use_host_ip assemble
process_config parse_selector env raw =
    let project_id = env_or env project_id_name (format_int raw.project_id) in
    elim (parse_int32 project_id) [
      | none ↦ err (message "project ID must be a valid integer")
      | some project ↦
          if env_or env api_key_name raw.auth_token == ""
          then err (message "environment variable CHERRY_API_KEY is required")
          else if project_id == ""
          then err (message "environment variable CHERRY_PROJECT_ID is required")
          else elim (server_port env raw) [
            | err e ↦ err e
            | ok port ↦
                elim (parse_selector (env_or env env_var_bgp_node_selector raw.bgp_node_selector)) [
                  | some e ↦ err (wrapped "BGP Node Selector must be valid Kubernetes selector" e)
                  | none ↦ elim (use_host_ip env raw) [
                    | err e ↦ err e
                    | ok host_ip ↦ ok (assemble env raw project port host_ip)
                  ]
                ]
          ]
    ]

-- getConfig, of what the reader gives and of json.Unmarshal.
unfoldable pub get_config :
    (String → Option Error)
    → (String → String)
    → (String → Result Config)
    → Result String
    → Result Config
unfolding process_config
get_config parse_selector env unmarshal file = elim file [
  | err e ↦ err (wrapped "failed to read configuration" e)
  | ok text ↦ elim (unmarshal text) [
    | err e ↦ err (wrapped "failed to process json of configuration file" e)
    | ok raw ↦ process_config parse_selector env raw
  ]
]
