-- ===== src/Controller/Choice.antt =====
-- newLoadBalancers of cherry/loadbalancers.go: the choice of the implementor by the URL of the
-- setting.
pub mod ReadBack
use mathlib.Core.Path.{subst}
use mathlib.Core.Option.{none-ne-some}
use cloud_provider_cherry.Prelude.{
  some_inj, false, ◌≡◌, ap, Bool-cases, Option-cases, inl, inr, String, Bool, true, Option, none,
  some, ◌==◌, string_eq, if◌then◌else◌, Labels,
}
use cloud_provider_cherry.Effect.{
  >>=-eq-ok, lift->>=-eq-ok, pure-eq-ok, message, wrapped, Result, ok, err, wrap, Action, pure,
  fail, lift, wrapping, ok_inj, ok-ne-err, Result-cases, ◌>>=◌,
}
use cloud_provider_cherry.LoadBalancers.{Service, Lb}
use cloud_provider_cherry.LoadBalancers.KubeVip.{kube_vip}
use cloud_provider_cherry.LoadBalancers.Empty.{new_lb}
use cloud_provider_cherry.LoadBalancers.ReadBack.{
  IsReadBack, kube_vip-IsReadBack, new_lb-IsReadBack,
}
use cloud_provider_cherry.Metallb.Lb.Laws.{new_lb-IsReadBack as new_metallb-IsReadBack}
use cloud_provider_cherry.Bgp.{NodeBgpInfo}
use cloud_provider_cherry.Metallb.Peers.{LabelSelector, parse_config_url, new_peers_from_nodes}
use cloud_provider_cherry.Metallb.Lb.{Configurer, new_lb as new_metallb}
use cloud_provider_cherry.Controller.{Calls, Templates, LoadBalancers}

-- The parts of a *url.URL that are read; `query` is the value of a parameter.
pub record Url : Type 0 where
  pub scheme : String
  pub path : String
  pub query : String → String

-- Code of others: url.Parse; the UID of a namespace, none for a nil namespace; labels.Parse, as the
-- test of the selector; metav1.ParseToLabelSelector; the client of MetalLB's objects of a namespace;
-- and SHA-256 with base64.
pub record Libraries (W : Type 0) : Type 0 where
  pub parse_url : String → Result Url
  pub namespace_uid : String → Action W (Option String)
  pub selects : String → Labels → Bool
  pub parse_label_selector : String → Result LabelSelector
  pub configurer : String → Configurer W
  pub service_hash : String → String

-- A setting, beside what newLoadBalancers only stores.
pub record Setting : Type 0 where
  pub config : String
  pub node_selector : String
  pub region : String
  pub templates : Templates
  pub fip_region_annotation : String

-- What is constructed: nil, a controller whose implementor is nil, or a controller.
pub data Made (W : Type 0) : Type 0 where
  disabled : Made W
  without_implementor : Made W
  made : LoadBalancers W → Made W

module _ {W : Type 0} (lib : Libraries W) (calls : Calls W)
    (ensure_node_bgp_enabled : String → Action W NodeBgpInfo) where
  -- The case "metallb" of the switch.
  unfoldable pub metallb_of : Setting → Url → Result (Option (Lb W))
  unfolding parse_config_url new_peers_from_nodes new_metallb
  metallb_of setting url =
      let (namespace, mode) = parse_config_url url.path (url.query "bgp-peer-mode") in
      elim mode [
        | none ↦
            err (wrapped "invalid metallb config" (message "invalid 'bgp-peer-mode' parameter"))
        | some mode ↦
            elim (wrap "failed to parse node selector"
              (lib.parse_label_selector setting.node_selector)) [
                | err e ↦ err e
                | ok selector ↦ ok (
                    some
                      (new_metallb lib.configurer namespace (new_peers_from_nodes mode selector)))
              ]
      ]

  -- The switch on the scheme.
  unfoldable pub implementor_of : Setting → Url → Result (Option (Lb W))
  unfolding metallb_of
  implementor_of setting url =
      if url.scheme == "kube-vip"
      then ok (some kube_vip)
      else if url.scheme == "metallb"
      then metallb_of setting url
      else if url.scheme == "empty"
      then ok (some (new_lb (url.query "ip-annotation")))
      else ok none

  abbrev pub made_of : Setting → String → Option (Lb W) → Made W
  made_of setting uid none = without_implementor
  made_of setting uid (some implementor) = made (record {
    calls = calls;
    region = setting.region;
    cluster_id = uid;
    implementor = implementor;
    templates = setting.templates;
    fip_region_annotation = setting.fip_region_annotation;
    selects = λ labels.
        if setting.node_selector == "" then true else lib.selects setting.node_selector labels;
    ensure_node_bgp_enabled = ensure_node_bgp_enabled;
    service_hash = lib.service_hash;
  })

  unfoldable pub new_load_balancers : Setting → Action W (Made W)
  unfolding implementor_of
  new_load_balancers setting = if setting.config == "" then pure disabled else (do
    found ← wrapping "failed to get kube-system namespace" (lib.namespace_uid "kube-system")
    elim found [
      | none ↦ fail (message "kube-system namespace is missing unexplainably")
      | some uid ↦ do
        url ← lift (wrap "invalid config" (lib.parse_url setting.config))
        implementor ← lift (implementor_of setting url)
        pure (made_of setting uid implementor)
    ])
