-- ===== src/Startup/Offers.antt =====
-- What a provider offers once it is initialised.
use cloud_provider_cherry.Prelude.{
  String, true, not, Option, none, some, ◌≡◌, refl, sym, ap, ◌∙◌, ◌==◌, string_eq, ℤ, Bool-cases,
  inl, inr,
}
use cloud_provider_cherry.Effect.{
  Result, ok, Action, lift, wrapping, >>=-eq-ok, pure-eq-ok, wrapping-eq-ok,
}
use cloud_provider_cherry.Instances.Lookup.{Netip}
use cloud_provider_cherry.ControlPlane.{Manager}
use cloud_provider_cherry.ControlPlane.Start.{Network, new_manager}
use cloud_provider_cherry.Bgp.{
  Bgp, Client, NodeBgpInfo, restating, enable_bgp, new_bgp, ensure_node_bgp_enabled,
}
use cloud_provider_cherry.LoadBalancers.{Lb}
use cloud_provider_cherry.Controller.{Calls}
use cloud_provider_cherry.Controller.Choice.ReadBack.{new_load_balancers-eq-ok}
use cloud_provider_cherry.Controller.Choice.{
  Libraries, Setting, Made, disabled, made_of, new_load_balancers,
}
use cloud_provider_cherry.Startup.{
  Cloud, is_there, new_instances, setting_of, initialize, load_balancer, instances_v2,
}

module _ {W : Type 0} (lib : Libraries W) (calls : Calls W)
    (enabler : String → Action W NodeBgpInfo) where
  made_of_there :
      (setting : Setting) (uid : String) (found : Option (Lb W))
      → is_there (made_of lib calls enabler setting uid found) ≡ true
  made_of_there setting uid none = refl
  made_of_there setting uid (some lb) = refl

  new_load_balancers_there :
      (setting : Setting) (w : W) {lb : Made W} {w' : W}
      → new_load_balancers lib calls enabler setting w ≡ (ok lb, w')
      → is_there lb ≡ not (setting.config == "")
  unfolding new_load_balancers
  new_load_balancers_there setting w h = elim (Bool-cases (setting.config == "")) [
    | inl e ↦
        rw e (ap is_there (sym (pure-eq-ok {a = disabled} (rw (new_load_balancers, e) at h)).0))
    | inr e ↦
        let (url, uid, chosen, known, same) =
          new_load_balancers-eq-ok lib calls enabler setting w e h in
        rw e (ap is_there (sym same) ∙ made_of_there setting uid chosen)
  ]

module _ {W : Type 0} (client : Client W) where
  enable_bgp-project :
      (start : Bgp) (w : W) {b : Bgp} {w' : W}
      → enable_bgp client start w ≡ (ok b, w')
      → b.project ≡ start.project
  unfolding enable_bgp
  enable_bgp-project start w h =
      let (project, w₁, got, rest) =
        >>=-eq-ok (restating "error getting project" (client.get_project start.project)) _ w h in
      elim (Bool-cases project.bgp_enabled) [
        | inl e ↦
            ap (λ (b : Bgp). b.project)
              (sym
                (pure-eq-ok {a = record start { local_asn = project.local_asn }} (rw e at rest)).0)
        | inr e ↦
            let (updated, w₂, put, last) =
              >>=-eq-ok (client.update_project start.project project.name true) _ w₁
                (rw e at rest) in
            ap (λ (b : Bgp). b.project)
              (sym (pure-eq-ok {a = record start { local_asn = updated.local_asn }} last).0)
      ]

  new_bgp-project :
      (project : ℤ) (w : W) {b : Bgp} {w' : W}
      → new_bgp client project w ≡ (ok b, w')
      → b.project ≡ project
  unfolding new_bgp
  new_bgp-project project w h =
      enable_bgp-project (record { project = project; local_asn = 0 }) w
        (wrapping-eq-ok "failed to enable BGP on project"
          (enable_bgp client (record { project = project; local_asn = 0 })) w h)

module _ {W Addr : Type 0} (net : Network) (host : String) (client : Client W) (netip : Netip Addr)
    (lib : Libraries W) (calls : Calls W) where
  -- Initialize, when it does not end the process: it keeps the configuration; LoadBalancer is then
  -- supported exactly if there is a setting for it, the instances and BGP are those of the project
  -- of the configuration, and the manager of the control plane is the one that is made of the tag
  -- and the port of the configuration.
  pub initialize-eq-ok :
      (c : Cloud W) (w : W) {after : Cloud W} {w' : W}
      → initialize net host client netip lib calls c w ≡ (ok after, w')
      → (after.config ≡ c.config)
        × ((load_balancer after).1 ≡ not (c.config.load_balancer_setting == ""))
        × ((instances_v2 after).0 ≡ some (record { project = c.config.project_id }))
        × ((b : Bgp) × (after.bgp ≡ some b) × (b.project ≡ c.config.project_id))
        × (new_manager net host c.config.fip_tag c.config.api_server_port
              c.config.fip_health_check_use_host_ip
            ≡ ok after.control_plane_endpoint_manager)
  unfolding initialize load_balancer instances_v2 new_instances setting_of
  initialize-eq-ok c w {after} h =
      let making =
        new_manager net host c.config.fip_tag c.config.api_server_port
          c.config.fip_health_check_use_host_ip in
      let (manager, w₁, made_of_tag, rest₁) =
        >>=-eq-ok (wrapping "could not initialize ControlPlaneEndpointManager" (lift making)) _ w
          h in
      let (b, w₂, enabled, rest₂) =
        >>=-eq-ok (wrapping "could not initialize BGP" (new_bgp client c.config.project_id)) _ w₁
          rest₁ in
      let enabler = ensure_node_bgp_enabled client netip b in
      let (lb, w₃, balanced, rest₃) =
        >>=-eq-ok
          (wrapping "could not initialize LoadBalancers"
            (new_load_balancers lib calls enabler (setting_of c.config)))
          _ w₂ rest₂ in
      let started = record c {
        load_balancer = lb;
        bgp = some b;
        instances = some (new_instances c.config.project_id);
        control_plane_endpoint_manager = manager;
      } in
      let same = sym (pure-eq-ok {a = started} rest₃).0 in
      let of_tag =
        wrapping-eq-ok "could not initialize ControlPlaneEndpointManager" (lift making) w
          made_of_tag in
      let of_project =
        wrapping-eq-ok "could not initialize BGP" (new_bgp client c.config.project_id) w₁ enabled in
      let of_setting =
        wrapping-eq-ok "could not initialize LoadBalancers"
          (new_load_balancers lib calls enabler (setting_of c.config)) w₂ balanced in
      (
        ap (λ (a : Cloud W). a.config) same,
        ap (λ (a : Cloud W). is_there a.load_balancer) same
            ∙ new_load_balancers_there lib calls enabler (setting_of c.config) w₂ of_setting,
        ap (λ (a : Cloud W). a.instances) same,
        (
          b,
          ap (λ (a : Cloud W). a.bgp) same,
          new_bgp-project client c.config.project_id w₁ of_project,
        ),
        ap (λ (r : Result (Option Manager) × W). r.0) of_tag
            ∙ ap (λ (a : Cloud W). ok a.control_plane_endpoint_manager) (sym same),
      )
