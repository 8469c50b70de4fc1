-- ===== src/Tests/Choice.antt =====
-- The choice of the implementor, at a concrete setting.
use cloud_provider_cherry.Prelude.{String, some, [], ◌∷◌, ◌≡◌, refl, insert, true}
use cloud_provider_cherry.Effect.{message, ok, err, Action}
use cloud_provider_cherry.LoadBalancers.Empty.{new_lb, set_service_ip}
use cloud_provider_cherry.Bgp.{NodeBgpInfo}
use cloud_provider_cherry.Metallb.Lb.{Configurer}
use cloud_provider_cherry.Controller.{LoadBalancers}
use cloud_provider_cherry.Controller.Choice.{Libraries, Setting, new_load_balancers}
use cloud_provider_cherry.Controller.Choice.ReadBack.{controller_reads_back}
use cloud_provider_cherry.Tests.Controller.{World, calls, templates, info, service}

abbrev refusing : Configurer World
refusing = record {
  get = λ w. (err (message "refused"), w);
  update = λ w. (err (message "refused"), w);
  update_peers_by_service = λ peers svc w. (err (message "refused"), w);
  remove_peers_by_service = λ svc w. (err (message "refused"), w);
  add_address_pool = λ pool svc w. (err (message "refused"), w);
  remove_address_pool = λ pool w. (err (message "refused"), w);
}

abbrev pub libraries : Libraries World
libraries = record {
  parse_url =
      λ text. ok (record { scheme = "empty"; path = ""; query = λ parameter. "example.org/ip" });
  namespace_uid = λ name w. (ok (some "main"), w);
  selects = λ selector labels. true;
  parse_label_selector = λ text. err (message "refused");
  configurer = λ namespace. refusing;
  service_hash = λ rep. rep;
}

abbrev setting : Setting
setting = record {
  config = "empty://?ip-annotation=example.org/ip";
  node_selector = "";
  region = "LT-Siauliai";
  templates = templates;
  fip_region_annotation = "cherryservers.com/fip-region";
}

abbrev enabler : String → Action World NodeBgpInfo
enabler id w = (ok info, w)

abbrev controller : LoadBalancers World
controller = record {
  calls = calls;
  region = "LT-Siauliai";
  cluster_id = "main";
  implementor = new_lb "example.org/ip";
  templates = templates;
  fip_region_annotation = "cherryservers.com/fip-region";
  selects = λ labels. true;
  ensure_node_bgp_enabled = enabler;
  service_hash = λ rep. rep;
}

controller_reads_back_example :
    controller.implementor.service_ip (some (service (("example.org/ip", "5.1.1.1") ∷ [])))
    ≡ some "5.1.1.1"
unfolding new_load_balancers set_service_ip insert
controller_reads_back_example =
    controller_reads_back libraries calls enabler setting ([], []) ([], []) controller (service [])
      (service (("example.org/ip", "5.1.1.1") ∷ [])) "5.1.1.1" refl refl refl
