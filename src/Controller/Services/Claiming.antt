-- ===== src/Controller/Services/Claiming.antt =====
-- How addService of cherry/loadbalancers.go comes by the CIDR of a service.
use cloud_provider_cherry.Prelude.{
  String, ◌<>◌, false, Option, none, some, List, ◌≡◌, refl, sym, ap, ◌∙◌, ◌==◌, ◌!=◌, if◌then◌else◌,
  ◌⊎◌, inl, inr, Option-cases, Bool-cases, string_eq,
}
use cloud_provider_cherry.Effect.{
  message, Result, ok, err, Action, fail, then_do, lift, wrap, wrapping, ◌>>=◌, >>=-eq-ok,
  lift->>=-eq-ok, wrapping-eq-ok, wrap-eq-ok, pure-eq-ok, ok_inj, ok-ne-err,
}
use cloud_provider_cherry.Reservations.{IpAddress}
use cloud_provider_cherry.LoadBalancers.{Service}
use cloud_provider_cherry.Controller.{
  LoadBalancers, service_annotation, reservation_of, service_tags,
}
use cloud_provider_cherry.Controller.Services.{
  region_of, reserve, save_address, cidr_of, claim_address,
}

module _ {W : Type 0} (l : LoadBalancers W) where
  -- The region that the service's annotation names, and if it names none, that of the controller.
  abbrev pub region_for : Service → String
  region_for svc =
      let own = service_annotation (some svc) l.fip_region_annotation in
      if own == "" then l.region else own

  -- The latest version of the service has been fetched, the implementor has set the address on it,
  -- and it has been written back.
  abbrev pub HasSaved : Service → String → W → W → Type 0
  HasSaved svc ip w w' =
      (latest : Service) × (changed : Service) × (w₁ : W) × (l.calls.get_service svc.namespace
          svc.name w
        ≡ (ok (some latest), w₁))
      × (l.implementor.set_service_ip (some latest) ip ≡ ok changed)
      × (l.calls.update_service changed w₁ ≡ (ok tt, w'))

  -- How a service comes by its CIDR: by its own address, of which the CIDR is that of a reservation
  -- with the tags of the service, if there is one, and the single address if not; or by a found
  -- reservation or a new one.
  abbrev pub HasClaimed : Service → List IpAddress → String → W → W → Type 0
  HasClaimed svc ips cidr w w' =
      ((ip : String) × (l.implementor.service_ip (some svc) ≡ some ip)
        × (((reservation_of l svc ips ≡ none) × (cidr ≡ ip <> "/" <> "32"))
            ⊎ ((r : IpAddress) × (reservation_of l svc ips ≡ some r) × (cidr ≡ r.cidr)))
        × (w' ≡ w))
      ⊎ ((l.implementor.service_ip (some svc) ≡ none)
          × (r : IpAddress) × (w₁ : W) × (((reservation_of l svc ips ≡ some r) × (w₁ ≡ w))
              ⊎ ((reservation_of l svc ips ≡ none)
                  × ((region_for svc == "") ≡ false)
                  × (l.calls.create_ip (region_for svc) (service_tags l svc) w ≡ (ok r, w₁))))
          × (HasSaved svc r.address w₁ w' × (cidr ≡ r.cidr)))

  region_of-eq-ok :
      (svc : Service) {region : String}
      → region_of l svc ≡ ok region
      → (region ≡ region_for svc) × ((region_for svc == "") ≡ false)
  unfolding region_of
  region_of-eq-ok svc {region} h =
      by_own (service_annotation (some svc) l.fip_region_annotation) l.region h
    where
      by_own :
          (own global : String)
          → (if own != ""
              then ok own
              else if global != ""
              then ok global
              else err (
                  message
                    "unable to create load balancer when no IP or region specified, either globally or on service"))
            ≡ ok region
          → (region ≡ (if own == "" then global else own))
            × (((if own == "" then global else own) == "") ≡ false)
      by_own own global h = elim (Bool-cases (own == "")) [
        | inr e ↦ rw e (sym (ok_inj (rw e at h)), e)
        | inl e ↦ elim (Bool-cases (global == "")) [
          | inr f ↦ rw e (sym (ok_inj (rw (e, f) at h)), f)
          | inl f ↦ ok-ne-err (rw (e, f) at h)
        ]
      ]

  cidr_of-cases :
      (ip : String) (found : Option IpAddress)
      → ((found ≡ none) × (cidr_of ip found ≡ ip <> "/" <> "32"))
        ⊎ ((r : IpAddress) × (found ≡ some r) × (cidr_of ip found ≡ r.cidr))
  cidr_of-cases ip none = inl (refl, refl)
  cidr_of-cases ip (some r) = inr (r, refl, refl)

  -- What save_address does with the latest version of the service.
  abbrev write_back : String → Option Service → Action W Unit
  write_back ip none = fail (message "failed to get latest for service")
  write_back ip (some latest) = do
    changed ← lift (wrap "failed to set service IP" (l.implementor.set_service_ip (some latest) ip))
    wrapping "failed to update service" (l.calls.update_service changed)

  save_address-write_back :
      (svc : Service) (ip : String) (w : W)
      → save_address l svc ip w
        ≡ (wrapping "failed to get latest for service" (l.calls.get_service svc.namespace svc.name)
              >>= write_back ip)
            w
  unfolding save_address
  save_address-write_back svc ip w =
      of_result
        (wrapping "failed to get latest for service" (l.calls.get_service svc.namespace svc.name) w)
    where
      of_result :
          (r : Result (Option Service) × W)
          → then_do r.0
              (λ existing. elim existing as (λ x. Action W Unit) [
                | none ↦ fail (message "failed to get latest for service")
                | some latest ↦ do
                  changed ← lift (
                      wrap "failed to set service IP"
                        (l.implementor.set_service_ip (some latest) ip))
                  wrapping "failed to update service" (l.calls.update_service changed)
              ])
              r.1
            ≡ then_do r.0 (write_back ip) r.1
      of_result (err e, w₁) = refl
      of_result (ok none, w₁) = refl
      of_result (ok (some latest), w₁) = refl

  write_back-eq-ok :
      (svc : Service) (ip : String) (existing : Option Service) (w w₁ w' : W)
      → l.calls.get_service svc.namespace svc.name w ≡ (ok existing, w₁)
      → write_back ip existing w₁ ≡ (ok tt, w')
      → HasSaved svc ip w w'
  write_back-eq-ok svc ip none w w₁ w' got h = ok-ne-err (ap (λ (r : Result Unit × W). r.0) h)
  write_back-eq-ok svc ip (some latest) w w₁ w' got h =
      let (changed, set, rest) =
        lift->>=-eq-ok
          (wrap "failed to set service IP" (l.implementor.set_service_ip (some latest) ip)) _ w₁
          h in
      (
        latest,
        changed,
        w₁,
        got,
        wrap-eq-ok "failed to set service IP" (l.implementor.set_service_ip (some latest) ip) set,
        wrapping-eq-ok "failed to update service" (l.calls.update_service changed) w₁ rest,
      )

  save_address-eq-ok :
      (svc : Service) (ip : String) (w w' : W)
      → save_address l svc ip w ≡ (ok tt, w')
      → HasSaved svc ip w w'
  save_address-eq-ok svc ip w w' h =
      let (existing, w₁, got, rest) =
        >>=-eq-ok
          (wrapping "failed to get latest for service" (l.calls.get_service svc.namespace svc.name))
          (write_back ip) w (sym (save_address-write_back svc ip w) ∙ h) in
      write_back-eq-ok svc ip existing w w₁ w'
        (wrapping-eq-ok "failed to get latest for service"
          (l.calls.get_service svc.namespace svc.name) w got)
        rest

  reserve-eq-ok :
      (svc : Service) (found : Option IpAddress) (w w' : W) (r : IpAddress)
      → reserve l svc found w ≡ (ok r, w')
      → ((found ≡ some r) × (w' ≡ w))
        ⊎ ((found ≡ none)
            × ((region_for svc == "") ≡ false)
            × (l.calls.create_ip (region_for svc) (service_tags l svc) w ≡ (ok r, w')))
  unfolding reserve
  reserve-eq-ok svc (some s) w w' r h =
      let (same, kept) = pure-eq-ok h in inl (ap (λ (x : IpAddress). some x) same, sym kept)
  reserve-eq-ok svc none w w' r h =
      let (region, known, rest) = lift->>=-eq-ok (region_of l svc) _ w h in
      let (same, given) = region_of-eq-ok svc known in
      inr (
        refl,
        given,
        ap (λ (name : String). l.calls.create_ip name (service_tags l svc) w) (sym same)
            ∙ wrapping-eq-ok "failed to request an IP for the load balancer"
                (l.calls.create_ip region (service_tags l svc)) w rest,
      )

  pub claim_address-eq-ok :
      (svc : Service) (ips : List IpAddress) (w w' : W) (cidr : String)
      → claim_address l svc ips w ≡ (ok cidr, w')
      → HasClaimed svc ips cidr w w'
  unfolding claim_address
  claim_address-eq-ok svc ips w w' cidr h =
      elim (Option-cases (l.implementor.service_ip (some svc))) [
        | inr (ip, e) ↦
            let (known, kept) = pure-eq-ok (rw (claim_address, e) at h) in
            inl (ip, e, rw known at (cidr_of-cases ip (reservation_of l svc ips)), sym kept)
        | inl e ↦
            let (r, w₁, reserved, rest) =
              >>=-eq-ok (reserve l svc (reservation_of l svc ips)) _ w
                (rw (claim_address, e) at h) in
            let (u, w₂, saved, rest₂) = >>=-eq-ok (save_address l svc r.address) _ w₁ rest in
            let (known, kept) = pure-eq-ok rest₂ in
            inr (
              e,
              r,
              w₁,
              reserve-eq-ok svc (reservation_of l svc ips) w w₁ r reserved,
              (save_address-eq-ok svc r.address w₁ w' (rw kept at saved), sym known),
            )
      ]
