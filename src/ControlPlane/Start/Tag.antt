-- ===== src/ControlPlane/Start/Tag.antt =====
-- The tag of the floating IP, and the manager that is made of it.
use Prim.Native.Char.{Char, code}
use Prim.Native.String.{char_at}
use mathlib.Core.List.{append-nil, append_assoc}
use Prim.Native.String.compare.{cons-nil}
use text.Mathlib.Text.{is_eq}
use text.Mathlib.TextLemmas.{nil-append, cons-append}
use cloud_provider_cherry.Prelude.{
  String, ◌<>◌, Bool, true, false, not, ◌&&◌, Option, some, List, [], ◌∷◌, ◌++◌, ◌≡◌, refl, sym, ap,
  ◌∙◌, ◌==◌, string_eq, nat_eq, if◌then◌else◌, ℤ, pos, inl, inr, arith, Option-cases,
}
use cloud_provider_cherry.Effect.{Result, ok, err, ok_inj, ok-ne-err}
use cloud_provider_cherry.ControlPlane.{Manager, control_plane_labels}
use cloud_provider_cherry.ControlPlane.Endpoints.{split_tag}
use cloud_provider_cherry.ControlPlane.Start.{
  Network, present, add_selectors, new_manager, server_name_from_config,
}

-- A text without an equals sign.
abbrev pub has_no_equals : String → Bool
has_no_equals String.[] = true
has_no_equals (String.◌∷◌ c s) = not (code c == b'=') && has_no_equals s

split_at_equals : (value : String) → split_tag ("=" <> value) ≡ ("", value)
unfolding split_tag
split_at_equals value = ap split_tag (
    cons-append (char_at "=" 0) "" value
    ∙ ap (λ (s : String). String.◌∷◌ (char_at "=" 0) s) (nil-append value))

split_other :
    (c : Char) (s : String) {key value : String}
    → (code c == b'=') ≡ false
    → split_tag s ≡ (key, value)
    → split_tag (String.◌∷◌ c s) ≡ (String.◌∷◌ c key, value)
unfolding split_tag
split_other c s h e =
    ap (λ (b : Bool). if b then ("", s) else (String.◌∷◌ c (split_tag s).0, (split_tag s).1)) h
    ∙ ap (λ (p : String × String). (String.◌∷◌ c p.0, p.1)) e

-- A tag that is written as a key and a value is split into them, where the key has no equals sign;
-- the value may have some.
pub split_tag-joined :
    (key value : String)
    → has_no_equals key ≡ true
    → split_tag (key <> ("=" <> value)) ≡ (key, value)
split_tag-joined String.[] value h =
    ap split_tag (nil-append ("=" <> value)) ∙ split_at_equals value
split_tag-joined (String.◌∷◌ c key) value h =
    ap split_tag (cons-append c key ("=" <> value))
    ∙ split_other c (key <> ("=" <> value)) (ground (arith, h))
        (split_tag-joined key value (ground (arith, h)))

add_selectors-eq-ok :
    (net : Network) (m : Manager) (labels : List String) {r : Manager}
    → add_selectors net m labels ≡ ok r
    → r ≡ record m { selectors = m.selectors ++ labels }
unfolding add_selectors
add_selectors-eq-ok net m [] h =
    sym (ok_inj h)
    ∙ ap (λ (l : List String). record m { selectors = l }) (sym (append-nil m.selectors))
add_selectors-eq-ok net m (label ∷ labels) {r} h = elim (Option-cases (net.new_requirement label)) [
  | inr (e, f) ↦ let impossible = rw (f, add_selectors) at h in cc
  | inl f ↦
      add_selectors-eq-ok net (record m { selectors = m.selectors ++ label ∷ [] }) labels
        (rw (f, add_selectors) at h)
      ∙ ap (λ (l : List String). record m { selectors = l })
          (append_assoc m.selectors (label ∷ []) labels)
]

starts_text : (c : Char) (s : String) → (String.◌∷◌ c s == "") ≡ false
starts_text c s = ap is_eq (cons-nil c s)

joined_is_text : (key value : String) → (key <> ("=" <> value) == "") ≡ false
joined_is_text String.[] value =
    ap (λ (s : String). s == "") (nil-append ("=" <> value) ∙ cons-append (char_at "=" 0) "" value)
    ∙ starts_text (char_at "=" 0) ("" <> value)
joined_is_text (String.◌∷◌ c key) value =
    ap (λ (s : String). s == "") (cons-append c key ("=" <> value))
    ∙ starts_text c (key <> ("=" <> value))

present-eq-ok :
    (r : Result Manager) {made : Option Manager}
    → present r ≡ ok made
    → (m : Manager) × (r ≡ ok m) × (made ≡ some m)
present-eq-ok (ok m) h = (m, refl, sym (ok_inj h))
present-eq-ok (err e) h = ok-ne-err h

abbrev pub fresh : String → String → ℤ → Bool → List String → Manager
fresh key value port use_host_ip selectors = record {
  api_server_port = port;
  node_api_server_port = pos 0;
  fip_tag_key = key;
  fip_tag_value = value;
  selectors = selectors;
  use_host_ip = use_host_ip;
}

-- A manager that is made of a tag, of a key without an equals sign and a value: it looks for the
-- key and the value, selects the nodes by both labels of control planes, and does not know the port
-- of the nodes' API servers yet.
pub new_manager-eq-ok :
    (net : Network) (host key value : String) (port : ℤ) (use_host_ip : Bool)
    {made : Option Manager}
    → has_no_equals key ≡ true
    → new_manager net host (key <> ("=" <> value)) port use_host_ip ≡ ok made
    → made ≡ some (fresh key value port use_host_ip control_plane_labels)
unfolding new_manager
new_manager-eq-ok net host key value port use_host_ip named h =
    let tag = key <> ("=" <> value) in
    let start = fresh (split_tag tag).0 (split_tag tag).1 port use_host_ip [] in
    elim (Option-cases (net.http_client_for (server_name_from_config net host))) [
      | inr (e, f) ↦ let impossible = rw (joined_is_text key value, f, new_manager) at h in cc
      | inl f ↦
          let (m, r, made_eq) =
            present-eq-ok (add_selectors net start control_plane_labels)
              (rw (joined_is_text key value, f, new_manager) at h) in
          made_eq
          ∙ ap some (
              add_selectors-eq-ok net start control_plane_labels r
              ∙ ap (λ (kv : String × String). fresh kv.0 kv.1 port use_host_ip control_plane_labels)
                  (split_tag-joined key value named))
    ]
