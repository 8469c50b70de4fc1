-- ===== src/Metallb/Peers/Modes.antt =====
-- The mode of the peers in the URL of the setting.
use cloud_provider_cherry.Prelude.{String, some, ◌≡◌, refl, string_eq}
use cloud_provider_cherry.Metallb.Peers.{
  BgpPeerMode, mode_none, mode_native, mode_frr, mode_string, parse_config_url,
}

-- A mode that is printed into the URL is the mode that is read of it, whatever the path.
pub parse_config_url-mode_string :
    (path : String) (mode : BgpPeerMode) → (parse_config_url path (mode_string mode)).1 ≡ some mode
unfolding parse_config_url mode_string
parse_config_url-mode_string path mode_none = refl
parse_config_url-mode_string path mode_native = refl
parse_config_url-mode_string path mode_frr = refl
