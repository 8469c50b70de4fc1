-- ===== src/Controller/Choice/ReadBack.antt =====
-- What all implementors that newLoadBalancers chooses have in common.
use mathlib.Core.Path.{subst}
use mathlib.Core.Option.{none-ne-some}
use cloud_provider_cherry.Prelude.{
  some_inj, false, ◌≡◌, ap, Bool-cases, Option-cases, inl, inr, String, Option, none, some, ◌==◌,
  string_eq,
}
use cloud_provider_cherry.Effect.{
  >>=-eq-ok, lift->>=-eq-ok, pure-eq-ok, Result, ok, wrap, Action, wrapping, ok_inj, ok-ne-err,
  Result-cases,
}
use cloud_provider_cherry.LoadBalancers.{Service, Lb}
use cloud_provider_cherry.LoadBalancers.ReadBack.{
  IsReadBack, kube_vip-IsReadBack, new_lb-IsReadBack,
}
use cloud_provider_cherry.Metallb.Lb.Laws.{new_lb-IsReadBack as new_metallb-IsReadBack}
use cloud_provider_cherry.Bgp.{NodeBgpInfo}
use cloud_provider_cherry.Metallb.Peers.{parse_config_url, new_peers_from_nodes}
use cloud_provider_cherry.Controller.{Calls, LoadBalancers}
use cloud_provider_cherry.Controller.Choice.{
  Url, Libraries, Setting, Made, disabled, without_implementor, made, metallb_of, implementor_of,
  made_of, new_load_balancers,
}

module _ {W : Type 0} (lib : Libraries W) (calls : Calls W)
    (ensure_node_bgp_enabled : String → Action W NodeBgpInfo) where
  metallb_of-IsReadBack :
      (setting : Setting) (url : Url) (lb : Lb W)
      → metallb_of lib calls ensure_node_bgp_enabled setting url ≡ ok (some lb)
      → IsReadBack lb
  unfolding metallb_of
  metallb_of-IsReadBack setting url lb h =
      elim (Option-cases (parse_config_url url.path (url.query "bgp-peer-mode")).1) [
        | inl e ↦ ok-ne-err (rw (metallb_of, e) at h)
        | inr (mode, e) ↦ elim (Result-cases (lib.parse_label_selector setting.node_selector)) [
          | inl (x, f) ↦ ok-ne-err (rw (metallb_of, e, f) at h)
          | inr (selector, f) ↦ subst IsReadBack (some_inj (ok_inj (rw (metallb_of, e, f) at h))) (
              new_metallb-IsReadBack lib.configurer
                (parse_config_url url.path (url.query "bgp-peer-mode")).0
                (new_peers_from_nodes mode selector))
        ]
      ]

  implementor_of-IsReadBack :
      (setting : Setting) (url : Url) (lb : Lb W)
      → implementor_of lib calls ensure_node_bgp_enabled setting url ≡ ok (some lb)
      → IsReadBack lb
  unfolding implementor_of
  implementor_of-IsReadBack setting url lb h = elim (Bool-cases (url.scheme == "kube-vip")) [
    | inl e ↦
        subst IsReadBack (some_inj (ok_inj (rw (implementor_of, e) at h))) (kube_vip-IsReadBack W)
    | inr e ↦ elim (Bool-cases (url.scheme == "metallb")) [
      | inl f ↦ metallb_of-IsReadBack setting url lb (rw (implementor_of, e, f) at h)
      | inr f ↦ elim (Bool-cases (url.scheme == "empty")) [
        | inl g ↦
            subst IsReadBack (some_inj (ok_inj (rw (implementor_of, e, f, g) at h)))
              (new_lb-IsReadBack W (url.query "ip-annotation"))
        | inr g ↦ absurd (none-ne-some lb (ok_inj (rw (implementor_of, e, f, g) at h)))
      ]
    ]
  ]

  abbrev implementor_made : Made W → Option (Lb W)
  implementor_made disabled = none
  implementor_made without_implementor = none
  implementor_made (made l) = some l.implementor

  made_of-IsReadBack :
      (setting : Setting) (uid : String) (url : Url) (found : Option (Lb W)) (l : LoadBalancers W)
      → implementor_of lib calls ensure_node_bgp_enabled setting url ≡ ok found
      → made_of lib calls ensure_node_bgp_enabled setting uid found ≡ made l
      → IsReadBack l.implementor
  made_of-IsReadBack setting uid url none l h e =
      absurd (none-ne-some l.implementor (ap implementor_made e))
  made_of-IsReadBack setting uid url (some lb) l h e =
      subst IsReadBack (some_inj (ap implementor_made e))
        (implementor_of-IsReadBack setting url lb h)

  -- What is constructed of a setting that is not empty: the implementor of its URL, chosen or nil.
  pub new_load_balancers-eq-ok :
      (setting : Setting) (w : W) {lb : Made W} {w' : W}
      → (setting.config == "") ≡ false
      → new_load_balancers lib calls ensure_node_bgp_enabled setting w ≡ (ok lb, w')
      → (url : Url) × (uid : String) × (chosen : Option (Lb W)) × (implementor_of lib calls
            ensure_node_bgp_enabled setting url
          ≡ ok chosen)
        × (made_of lib calls ensure_node_bgp_enabled setting uid chosen ≡ lb)
  unfolding new_load_balancers
  new_load_balancers-eq-ok setting w e h =
      let (found, w₁, got, rest₁) =
        >>=-eq-ok (wrapping "failed to get kube-system namespace" (lib.namespace_uid "kube-system"))
          _ w (rw (new_load_balancers, e) at h) in
      elim (Option-cases found) [
        | inl f ↦ ok-ne-err (ap (λ (r : Result (Made W) × W). r.0) (rw f at rest₁))
        | inr (uid, f) ↦
            let (url, parsed, rest₂) =
              lift->>=-eq-ok (wrap "invalid config" (lib.parse_url setting.config)) _ w₁
                (rw f at rest₁) in
            let (chosen, known, rest₃) =
              lift->>=-eq-ok (implementor_of lib calls ensure_node_bgp_enabled setting url) _ w₁
                rest₂ in
            (
              url,
              uid,
              chosen,
              known,
              (pure-eq-ok {a = made_of lib calls ensure_node_bgp_enabled setting uid chosen}
                  rest₃).0,
            )
      ]

  new_load_balancers-IsReadBack :
      (setting : Setting) (w w' : W) (l : LoadBalancers W)
      → new_load_balancers lib calls ensure_node_bgp_enabled setting w ≡ (ok (made l), w')
      → IsReadBack l.implementor
  unfolding new_load_balancers
  new_load_balancers-IsReadBack setting w w' l h = elim (Bool-cases (setting.config == "")) [
    | inl e ↦ absurd (
        none-ne-some l.implementor
          (ap implementor_made (pure-eq-ok (rw (new_load_balancers, e) at h)).0))
    | inr e ↦
        let (url, uid, chosen, known, same) = new_load_balancers-eq-ok setting w e h in
        made_of-IsReadBack setting uid url chosen l known same
  ]

  -- Of a controller that newLoadBalancers makes, whatever its implementor: the address that is set
  -- on a service, and is not empty, is the address of the service from then on.
  pub controller_reads_back :
      (setting : Setting) (w w' : W) (l : LoadBalancers W) (svc after : Service) (ip : String)
      → new_load_balancers lib calls ensure_node_bgp_enabled setting w ≡ (ok (made l), w')
      → (ip == "") ≡ false
      → l.implementor.set_service_ip (some svc) ip ≡ ok after
      → l.implementor.service_ip (some after) ≡ some ip
  unfolding new_load_balancers
  controller_reads_back setting w w' l svc after ip h full set =
      new_load_balancers-IsReadBack setting w w' l h svc after ip full set
