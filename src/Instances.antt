-- ===== src/Instances.antt =====
-- cherry/instances.go: the servers behind the nodes of the cluster.
pub mod Lookup
pub mod RoundTrip
use cloud_provider_cherry.Prelude.{
  ℕ, String, ◌<>◌, ◌≡◌, refl, Option, none, some, List, [], ◌∷◌, ◌==◌, list_eq, if◌then◌else◌, ℤ,
  pos, negsuc, format_int, codes, split, atoi, length, string_eq, nat_eq,
}
use cloud_provider_cherry.Effect.{Error, message, Result, ok, err}

abbrev pub provider_name : String
provider_name = "cherryservers"

-- serverIDFromProviderID; the texts inside its messages are left out.
convert_server_id : List ℕ → Result ℤ
convert_server_id text = elim (atoi text) [
  | none ↦ err (message "error converting serverID from providerID")
  | some id ↦ ok id
]

unfoldable pub server_id_of_parts : List ℕ → List (List ℕ) → Result ℤ
unfolding convert_server_id
server_id_of_parts whole (provider ∷ id ∷ []) =
    if provider == codes provider_name
    then convert_server_id id
    else err (message "provider name from providerID should be cherryservers")
server_id_of_parts whole (one ∷ []) = convert_server_id whole
server_id_of_parts whole _ = err (message "unexpected providerID format")

unfoldable pub server_id_from_provider_id : String → Result ℤ
unfolding server_id_of_parts
server_id_from_provider_id provider_id =
    if provider_id == ""
    then err (message "providerID cannot be empty string")
    else server_id_of_parts (codes provider_id) (split (codes provider_id) (codes "://"))

-- providerIDFromServer, of the server's ID.
unfoldable pub provider_id_from_server : ℤ → String
provider_id_from_server id = provider_name <> "://" <> format_int id
