-- ===== src/Server/VersionTests.antt =====
-- A version that is disabled.
use monitor_backend.Base.{
  ◌≡◌, refl, String, Bool, true, false, some, [], ◌∷◌, ◌==◌, string_eq, eq_iff,
}
use monitor_backend.Base.Results.{ok, err}
use monitor_backend.Server.Versions.{
  ClientVersionPolicy, normalize_client_version, require_allowed_client_version,
  handle_save_admin_client_version,
}
use monitor_backend.Server.Policies.{require_allowed_client_version-saved}

abbrev same : String → String → Bool
same s t = s == t

same_self : (s : String) → same s s ≡ true
same_self s = (eq_iff s s).1 refl

abbrev mac : ClientVersionPolicy
mac = record { platform = "macos"; version = "1.2.0"; enabled = true }

abbrev disabled_mac : ClientVersionPolicy
disabled_mac = record mac { enabled = false }

disables :
    handle_save_admin_client_version true same " macOS" "1.2.0" (some false) (mac ∷ [])
    ≡ ok (disabled_mac ∷ [], disabled_mac)
unfolding handle_save_admin_client_version
disables = refl

names_mac : normalize_client_version "MacOS" "1.2.0 " ≡ ok ("macos", "1.2.0")
unfolding normalize_client_version
names_mac = refl

require_allowed_client_version-saved_example :
    require_allowed_client_version true true same "MacOS" "1.2.0 " (disabled_mac ∷ [])
    ≡ (disabled_mac ∷ [], err "client_version_disabled")
require_allowed_client_version-saved_example =
    require_allowed_client_version-saved true same " macOS" "1.2.0" "MacOS" "1.2.0 " (some false)
      (mac ∷ []) (disabled_mac ∷ []) disabled_mac same_self disables names_mac

-- A version that no policy names is let in and registered.
registers_new :
    require_allowed_client_version true true same "windows" "2.0+beta" []
    ≡ (record { platform = "windows"; version = "2.0+beta"; enabled = true } ∷ [], ok tt)
unfolding require_allowed_client_version
registers_new = refl

refuses_unknown :
    require_allowed_client_version true true same "linux" "2.0" []
    ≡ ([], err "invalid_client_version")
unfolding require_allowed_client_version
refuses_unknown = refl
