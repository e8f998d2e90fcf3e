-- ===== src/Server/Accounts.antt =====
-- Accounts: registration, login and tokens of internal/api/server.go and internal/auth/service.go, and the
-- mode permissions of internal/api/admin.go. Password hashing, the signing of tokens and the checks of the
-- names are arguments where they are library code.
pub mod Registering
pub mod Consuming
pub mod Admin
pub mod Modes
use Prim.Native.String.{len, count}
use Prim.Native.Char.{Char, code}
use monitor_backend.Base.{
  ℕ, String, Bool, true, false, not, ◌&&◌, ◌||◌, Option, none, some, List, [], ◌∷◌, ◌++◌, ◌==◌,
  string_eq, nat_eq, if◌then◌else◌, ltb, leb,
}
use monitor_backend.Base.Int.{ℤ, pos, negsuc}
use monitor_backend.Base.Results.{Result, ok, err, ◌>>=◌, ◌>>◌, refuse_if}
use monitor_backend.Base.Texts.{every, trim_space, is_digit, is_upper, is_lower}
use monitor_backend.BossCycle.{find}
use monitor_backend.Server.{User, Store}
use monitor_backend.Server.Sessions.{active_user}

-- `authorizedModes`.
abbrev pub mode_if : Bool → String → List String
mode_if true mode = mode ∷ []
mode_if false mode = []

unfoldable pub authorized_modes : User → List String
authorized_modes u =
    if u.is_super_admin
    then "dead" ∷ "live" ∷ "temple" ∷ "follow_heal" ∷ "monitor" ∷ []
    else mode_if u.dead "dead"
      ++ (mode_if u.live "live"
          ++ (mode_if u.temple "temple"
              ++ (mode_if u.follow_heal "follow_heal" ++ mode_if u.monitor "monitor")))

-- `allows`.
unfoldable pub allows : User → String → Bool
allows u mode =
    if u.is_super_admin
    then true
    else if mode == "dead"
    then u.dead
    else if mode == "live"
    then u.live
    else if mode == "temple"
    then u.temple
    else if mode == "follow_heal"
    then u.follow_heal
    else if mode == "monitor"
    then u.monitor
    else false

abbrev pub in_length : ℕ → ℕ → ℕ → Bool
in_length low high n = leb low n && leb n high

-- `^[A-Za-z0-9_]{3,32}$`.
abbrev pub is_name_char : Char → Bool
is_name_char c = is_upper c || is_lower c || is_digit c || code c == 95

unfoldable pub is_username : String → Bool
unfolding every
is_username s = in_length 3 32 (count s) && every is_name_char s

-- `unicode.IsControl`: U+0000 to U+001F and U+007F to U+009F.
abbrev pub is_not_control : Char → Bool
is_not_control c = not (ltb (code c) 32) && not (leb 127 (code c) && leb (code c) 159)

unfoldable pub valid_nickname : String → Bool
unfolding every
valid_nickname s = in_length 1 24 (count s) && every is_not_control s

-- `^[A-Z0-9]{6}$`.
abbrev pub is_code_char : Char → Bool
is_code_char c = is_upper c || is_digit c

unfoldable pub valid_invite_code : String → Bool
unfolding every
valid_invite_code s = count s == 6 && every is_code_char s

-- The claims of a token, as the library gives them.
pub record Claims : Type 0 where
  pub subject : String
  pub username : String

-- `Parse` of the auth service: `verify` is the library's check of the token, and `parse_int` of the number.
unfoldable pub parse_token :
    (String → Option Claims) → (String → Option ℤ) → String → Result (ℕ × String)
parse_token verify parse_int raw = elim (verify raw) [
  | none ↦ err "invalid_token"
  | some c ↦ elim (parse_int c.subject) [
    | none ↦ err "invalid_token"
    | some n ↦ elim n [
      | pos m ↦ if m == 0 then err "invalid_token" else ok (m, c.username)
      | negsuc m ↦ err "invalid_token"
    ]
  ]
]

pub record AuthenticatedUser : Type 0 where
  pub id : ℕ
  pub username : String
  pub nickname : String
  pub is_super_admin : Bool

abbrev pub authenticated : String → Option User → Result AuthenticatedUser
authenticated username none = err "account_disabled"
authenticated username (some u) = ok (record {
  id = u.id;
  username = if u.username == "" then username else u.username;
  nickname = u.nickname;
  is_super_admin = u.is_super_admin;
})

-- `authenticateToken`: the account is looked up on every request.
unfoldable pub authenticate_token :
    (String → Option Claims)
    → (String → Option ℤ)
    → Bool
    → String
    → Store
    → Result AuthenticatedUser
unfolding parse_token
authenticate_token verify parse_int selects raw st = do
  refuse_if (raw == "") "missing_token"
  claims ← parse_token verify parse_int raw
  refuse_if (not selects) "account_disabled"
  authenticated claims.1 (find (active_user claims.0) st.users)
