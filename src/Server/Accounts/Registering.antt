-- ===== src/Server/Accounts/Registering.antt =====
-- `handleRegister` and `handleLogin`.
use Prim.Native.String.{len, char_at}
use Prim.Native.Char.{Char, code}
use monitor_backend.Base.{
  ℕ, ◌-◌, String, Bool, true, false, not, ◌&&◌, ◌||◌, Option, none, some, [], ◌∷◌, ◌++◌, ◌==◌,
  string_eq, nat_eq, if◌then◌else◌, ltb, is_some,
}
use monitor_backend.Base.Results.{Result, ok, err, ◌>>=◌, ◌>>◌, refuse_if}
use monitor_backend.Base.Texts.{trim_space, is_lower}
use monitor_backend.BossCycle.{find, has, update_where}
use monitor_backend.Server.{User, InviteCode, Store}
use monitor_backend.Server.Accounts.{in_length, is_username, valid_nickname, valid_invite_code}
use monitor_backend.Server.Teams.Ending.{found}

-- `strings.ToUpper` for what a valid code can be made of: the characters whose upper case is an ASCII
-- letter are a to z, U+0131 and U+017F. The others stay, and are not valid either way.
abbrev pub upper_char : Char → Char
upper_char c =
    if is_lower c
    then char_at "ABCDEFGHIJKLMNOPQRSTUVWXYZ" (code c - 97)
    else if code c == 305
    then "I"
    else if code c == 383
    then "S"
    else c

unfoldable pub to_upper : String → String
to_upper String.[] = ""
to_upper (String.◌∷◌ c s) = String.◌∷◌ (upper_char c) (to_upper s)

unfoldable pub normalize_invite_code : String → String
unfolding to_upper trim_space
normalize_invite_code value = to_upper (trim_space value)

pub record Credentials : Type 0 where
  pub username : String
  pub nickname : String
  pub password : String
  pub invite_code : String

-- Which statements succeed.
pub record Registration : Type 0 where
  pub reads : Bool
  pub begins : Bool
  pub locks : Bool
  pub inserts : Bool
  pub consumes : Bool
  pub commits : Bool

-- `code = ? AND used_at IS NULL AND expires_at > NOW(3)`.
abbrev pub is_available : String → ℕ → InviteCode → Bool
is_available code now i = i.code == code && (not (is_some i.used_at) && ltb now i.expires_at)

-- `WHERE id = ? AND used_at IS NULL`.
abbrev pub is_unused : ℕ → InviteCode → Bool
is_unused id i = i.id == id && not (is_some i.used_at)

abbrev pub used : ℕ → ℕ → InviteCode → InviteCode
used user now i = record i { used_by = some user; used_at = some now }

-- A row of `users` with the defaults of the table.
abbrev pub new_user : ℕ → String → String → String → User
new_user id username nickname hash = record {
  id = id;
  username = username;
  nickname = nickname;
  password_hash = hash;
  active = true;
  is_super_admin = false;
  max_client_count = 5;
  dead = true;
  live = true;
  temple = true;
  follow_heal = false;
  monitor = false;
}

abbrev pub consume : ℕ → ℕ → InviteCode → User → Store → Store
consume fresh now i u st = record st {
  users = st.users ++ (u ∷ []);
  invites = update_where (is_unused i.id) (used fresh now) st.invites;
}

-- The checks of the request, before the database is asked: the code, the username and the nickname.
abbrev pub check_credentials : Bool → Credentials → Result (String × (String × String))
check_credentials allowed c = do
  refuse_if (not allowed) "registration_closed"
  let invite = normalize_invite_code c.invite_code
  refuse_if (not (valid_invite_code invite)) "invalid_invite_code"
  let username = trim_space c.username
  refuse_if (not (is_username username)) "invalid_username"
  let nickname = trim_space c.nickname
  refuse_if (not (valid_nickname nickname)) "invalid_nickname"
  refuse_if (not (in_length 8 72 (len c.password))) "invalid_password"
  ok (invite, (username, nickname))

-- The query before the hashing, and the transaction. `fresh` is the id of the new row, `same_name` the
-- database's comparison of usernames, which does not see the case, and `hash` the password hashing.
abbrev pub register_with :
    Registration
    → (String → String → Bool)
    → (String → Result String)
    → ℕ
    → ℕ
    → ℕ
    → String
    → Store
    → String × (String × String)
    → Result (Store × ℕ)
register_with db same_name hash fresh before now password st (invite, (username, nickname)) = do
  refuse_if (not db.reads) "internal_error"
  refuse_if (not (has (is_available invite before) st.invites)) "invalid_invite_code"
  hashed ← hash password
  refuse_if (not db.begins) "internal_error"
  refuse_if (not db.locks) "internal_error"
  i ← found "invalid_invite_code" (find (is_available invite now) st.invites)
  refuse_if (has (λ (u : User). same_name u.username username) st.users) "username_exists"
  refuse_if (not db.inserts) "internal_error"
  refuse_if (not db.consumes) "internal_error"
  refuse_if (not db.commits) "internal_error"
  ok (consume fresh now i (new_user fresh username nickname hashed) st, fresh)

unfoldable pub handle_register :
    Registration
    → (String → String → Bool)
    → (String → Result String)
    → Bool
    → ℕ
    → ℕ
    → ℕ
    → Credentials
    → Store
    → Result (Store × ℕ)
unfolding normalize_invite_code valid_invite_code is_username valid_nickname
handle_register db same_name hash allowed fresh before now c st = do
  names ← check_credentials allowed c
  register_with db same_name hash fresh before now c.password st names

-- `handleLogin` up to the token: `matches` is the library's comparison of a hash and a password, and
-- `version_ok` the check of the client's version, whose answers are one error here.
abbrev pub login_as : (String → String → Bool) → String → Bool → Option User → Result ℕ
login_as matches password version_ok none = err "invalid_credentials"
login_as matches password version_ok (some u) =
    if not u.active || not (matches u.password_hash password)
    then err "invalid_credentials"
    else if not version_ok
    then err "client_version_refused"
    else ok u.id

unfoldable pub handle_login :
    (String → String → Bool)
    → (String → String → Bool)
    → Bool
    → Bool
    → Credentials
    → Store
    → Result ℕ
unfolding trim_space
handle_login same_name matches selects version_ok c st =
    let username = trim_space c.username in
    if not selects
    then err "invalid_credentials"
    else login_as matches c.password version_ok
        (find (λ (u : User). same_name u.username username) st.users)
