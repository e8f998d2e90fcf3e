-- ===== src/Server/Versions.antt =====
-- internal/api/client_versions.go: the policies of the desktop clients' versions. `same` is the database's
-- comparison of texts, which does not see the case.
use Prim.Native.String.{count, char_at}
use Prim.Native.Char.{Char, code}
use monitor_backend.Base.{
  ◌-◌, String, Bool, true, false, not, ◌&&◌, ◌||◌, Option, none, some, List, [], ◌∷◌, ◌++◌, ◌==◌,
  string_eq, nat_eq, if◌then◌else◌, leb,
}
use monitor_backend.Base.Results.{Result, ok, err, ◌>>=◌, ◌>>◌, refuse_if}
use monitor_backend.Base.Texts.{every, trim_space, is_digit, is_upper, is_lower}
use monitor_backend.BossCycle.{find, has, update_where}

-- `client_version_policies`, without the times.
pub record ClientVersionPolicy : Type 0 where
  pub platform : String
  pub version : String
  pub enabled : Bool

-- `strings.ToLower` for what a platform's name can be made of: the other characters whose lower case is an
-- ASCII letter are U+0130 and U+212A. The rest stays, and is in no name of a platform either way.
abbrev pub lower_char : Char → Char
lower_char c =
    if is_upper c
    then char_at "abcdefghijklmnopqrstuvwxyz" (code c - 65)
    else if code c == 304
    then "i"
    else if code c == 8490
    then "k"
    else c

unfoldable pub to_lower : String → String
to_lower String.[] = ""
to_lower (String.◌∷◌ c s) = String.◌∷◌ (lower_char c) (to_lower s)

-- `^[0-9A-Za-z][0-9A-Za-z._+-]{0,31}$`.
abbrev pub is_alphanumeric : Char → Bool
is_alphanumeric c = is_digit c || (is_upper c || is_lower c)

abbrev pub is_version_char : Char → Bool
is_version_char c =
    is_alphanumeric c || (code c == 46 || (code c == 95 || (code c == 43 || code c == 45)))

unfoldable pub matches_version : String → Bool
unfolding every
matches_version String.[] = false
matches_version (String.◌∷◌ c s) =
    is_alphanumeric c && (leb (count s) 31 && every is_version_char s)

-- The result is the platform and the version, or that one is not valid.
unfoldable pub normalize_client_version : String → String → Result (String × String)
unfolding to_lower trim_space matches_version
normalize_client_version raw_platform raw_version = do
  let platform = to_lower (trim_space raw_platform)
  let version = trim_space raw_version
  refuse_if (not (platform == "macos" || platform == "windows")) "invalid_client_version"
  refuse_if (not (matches_version version)) "invalid_client_version"
  ok (platform, version)

-- `WHERE platform = ? AND version = ?`.
abbrev pub is_policy : (String → String → Bool) → String × String → ClientVersionPolicy → Bool
is_policy same (platform, version) p = same p.platform platform && same p.version version

abbrev pub policy : String × String → Bool → ClientVersionPolicy
policy (platform, version) enabled = record {
  platform = platform;
  version = version;
  enabled = enabled;
}

-- `INSERT IGNORE`: a row with the key stays.
abbrev pub with_registered :
    (String → String → Bool) → String × String → List ClientVersionPolicy → List ClientVersionPolicy
with_registered same key ps =
    if has (is_policy same key) ps then ps else ps ++ (policy key true ∷ [])

abbrev pub allowed_by : Option ClientVersionPolicy → Result (Unit {0})
allowed_by none = err "internal_error"
allowed_by (some p) = refuse_if (not p.enabled) "client_version_disabled"

abbrev pub register_version :
    Bool
    → Bool
    → (String → String → Bool)
    → List ClientVersionPolicy
    → Result (String × String)
    → List ClientVersionPolicy × Result (Unit {0})
register_version inserts selects same ps (err why) = (ps, err why)
register_version inserts selects same ps (ok key) =
    let after = with_registered same key ps in
    if not inserts then (ps, err "internal_error") else (
      after,
      refuse_if (not selects) "internal_error" >> allowed_by (find (is_policy same key) after),
    )

-- Without the headers of a client nothing is checked.
unfoldable pub require_allowed_client_version :
    Bool
    → Bool
    → (String → String → Bool)
    → String
    → String
    → List ClientVersionPolicy
    → List ClientVersionPolicy × Result (Unit {0})
unfolding normalize_client_version trim_space
require_allowed_client_version inserts selects same raw_platform raw_version ps =
    if trim_space raw_platform == "" && trim_space raw_version == ""
    then (ps, ok tt)
    else register_version inserts selects same ps
        (normalize_client_version raw_platform raw_version)

abbrev pub set_enabled : Bool → ClientVersionPolicy → ClientVersionPolicy
set_enabled enabled p = record p { enabled = enabled }

-- `ON DUPLICATE KEY UPDATE`.
abbrev pub saved_policy :
    (String → String → Bool)
    → String × String
    → Bool
    → List ClientVersionPolicy
    → List ClientVersionPolicy
saved_policy same key enabled ps =
    if has (is_policy same key) ps
    then update_where (is_policy same key) (set_enabled enabled) ps
    else ps ++ (policy key enabled ∷ [])

abbrev pub requested_switch : Option Bool → Result Bool
requested_switch none = err "invalid_client_version"
requested_switch (some enabled) = ok enabled

unfoldable pub handle_save_admin_client_version :
    Bool
    → (String → String → Bool)
    → String
    → String
    → Option Bool
    → List ClientVersionPolicy
    → Result (List ClientVersionPolicy × ClientVersionPolicy)
unfolding normalize_client_version
handle_save_admin_client_version writes same raw_platform raw_version requested ps = do
  key ← normalize_client_version raw_platform raw_version
  enabled ← requested_switch requested
  refuse_if (not writes) "internal_error"
  ok (saved_policy same key enabled ps, policy key enabled)
