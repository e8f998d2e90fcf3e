-- ===== src/Server/Accounts/Admin.antt =====
-- The handlers of internal/api/admin.go that change an account, and those of
-- internal/api/invite_codes.go that change the codes.
use Prim.Native.String.{len}
use monitor_backend.Base.{
  ℕ, zero, suc, ◌+◌, ◌*◌, String, Bool, true, false, not, ◌&&◌, ◌||◌, Option, none, some, List, [],
  ◌∷◌, ◌++◌, ◌==◌, string_eq, nat_eq, if◌then◌else◌, keep, ltb,
}
use monitor_backend.Base.Int.{ℤ, pos, negsuc}
use monitor_backend.Base.Results.{Result, ok, err, ◌>>=◌, ◌>>◌, refuse_if}
use monitor_backend.Base.Texts.{trim_space}
use monitor_backend.Hub.{Hub, notify_clients}
use monitor_backend.Hub.Commands.{kick_device}
use monitor_backend.BossCycle.{has, update_where, contains_session_id}
use monitor_backend.Server.{User, Session, InviteCode, Store, with_hub, is_active_of}
use monitor_backend.Server.Clients.{revoke_client, not_found_unless}
use monitor_backend.Server.Accounts.{in_length}

-- `requestedUserID` and the id of an invite code: `value` is the parsed number.
abbrev pub requested_id : String → Option ℤ → Result ℕ
requested_id why none = err why
requested_id why (some (negsuc n)) = err why
requested_id why (some (pos n)) = if n == 0 then err why else ok n

abbrev pub is_user : ℕ → User → Bool
is_user id u = u.id == id

-- The update, and the query of handlers that tell an unchanged row from a missing one.
pub record UserChange : Type 0 where
  pub writes : Bool
  pub reads : Bool

abbrev pub change_user : UserChange → ℕ → (User → User) → Store → Result Store
change_user db id f st = do
  refuse_if (not db.writes) "internal_error"
  refuse_if (not (has (is_user id) st.users) && not db.reads) "internal_error"
  refuse_if (not (has (is_user id) st.users)) "user_not_found"
  ok (record st { users = update_where (is_user id) f st.users })

abbrev pub with_limit : ℕ → User → User
with_limit limit u = record u { max_client_count = limit }

abbrev pub requested_limit : Option ℕ → Result ℕ
requested_limit none = err "invalid_client_limit"
requested_limit (some limit) = if ltb 100 limit then err "invalid_client_limit" else ok limit

unfoldable pub handle_admin_user_client_limit :
    UserChange → Option ℤ → Option ℕ → Store → Result Store
handle_admin_user_client_limit db value max st = do
  id ← requested_id "invalid_user_id" value
  limit ← requested_limit max
  change_user db id (with_limit limit) st

abbrev pub is_known_mode : String → Bool
is_known_mode mode =
    mode == "dead"
    || mode == "live"
    || mode == "temple"
    || mode == "follow_heal"
    || mode == "monitor"

unfoldable pub all_known : List String → Bool
all_known [] = true
all_known (mode ∷ modes) = is_known_mode mode && all_known modes

abbrev pub with_modes : List String → User → User
with_modes modes u = record u {
  dead = contains_session_id modes "dead";
  live = contains_session_id modes "live";
  temple = contains_session_id modes "temple";
  follow_heal = contains_session_id modes "follow_heal";
  monitor = contains_session_id modes "monitor";
}

unfoldable pub handle_admin_user_authorized_modes :
    UserChange → Option ℤ → List String → Store → Result Store
unfolding all_known contains_session_id notify_clients
handle_admin_user_authorized_modes db value modes st = do
  id ← requested_id "invalid_user_id" value
  refuse_if (not (all_known modes)) "invalid_mode"
  after ← change_user db id (with_modes modes) st
  ok (with_hub (notify_clients id after.world.hub) after)

-- The update changes a row only if the status is another.
abbrev pub differs : Bool → User → Bool
differs active u = if active then not u.active else u.active

abbrev pub with_status : Bool → User → User
with_status active u = record u { active = active }

unfoldable pub handle_admin_user_status : Bool → ℕ → Option ℤ → ℕ → Store → Result Store
handle_admin_user_status writes self value status st = do
  id ← requested_id "invalid_user_id" value
  refuse_if (id == self) "cannot_disable_self"
  refuse_if (ltb 1 status) "invalid_status"
  refuse_if (not writes) "internal_error"
  refuse_if (not (has (λ u. is_user id u && differs (status == 1) u) st.users)) "user_not_found"
  ok (record st { users = update_where (is_user id) (with_status (status == 1)) st.users })

abbrev pub with_password : String → User → User
with_password hash u = record u { password_hash = hash }

-- `hash` is the password hashing. An error of the query that follows is not looked at.
unfoldable pub handle_admin_user_password :
    (String → Result String) → UserChange → Option ℤ → String → Store → Result Store
unfolding trim_space
handle_admin_user_password hash db value password st = do
  id ← requested_id "invalid_user_id" value
  refuse_if (not (in_length 8 72 (len password)) || trim_space password == "") "invalid_password"
  hashed ← hash password
  refuse_if (not db.writes) "internal_error"
  refuse_if (not (has (is_user id) st.users) && db.reads) "user_not_found"
  ok (record st { users = update_where (is_user id) (with_password hashed) st.users })

unfoldable pub handle_admin_delete_user_client : Bool → Option ℤ → String → Store → Result Store
unfolding revoke_client trim_space
handle_admin_delete_user_client writes value path st = do
  id ← requested_id "invalid_user_id" value
  let session = trim_space path
  refuse_if (not (len session == 36)) "invalid_session_id"
  after ← revoke_client writes id session st
  not_found_unless after.1 after.0

-- The loop over the sessions to kick: `reads` is whether the query of each succeeds.
unfoldable pub kick_all : (String → Bool) → ℕ → List Session → List String → Hub → Hub × ℕ
unfolding trim_space kick_device
kick_all reads user ss [] hub = (hub, 0)
kick_all reads user ss (raw ∷ ids) hub =
    let id = trim_space raw in
    let usable = len id == 36 && (reads id && has (is_active_of user id) ss) in
    let (after, sent) = if usable then kick_device id hub else (hub, false) in
    let (last, kicked) = kick_all reads user ss ids after in
    (last, if usable && sent then suc kicked else kicked)

unfoldable pub handle_admin_kick_user_clients :
    (String → Bool) → Option ℤ → List String → Store → Result (Store × ℕ)
unfolding kick_all notify_clients
handle_admin_kick_user_clients reads value ids st = do
  id ← requested_id "invalid_user_id" value
  let kicked = kick_all reads id st.sessions ids st.world.hub
  ok (with_hub (notify_clients id kicked.0) st, kicked.1)

-- The loop that creates an invite code: the attempt with `left` attempts after it draws `codes left`.
abbrev pub has_code_of : String → InviteCode → Bool
has_code_of code i = i.code == code

unfoldable pub insert_code :
    ℕ
    → Bool
    → (ℕ → String)
    → (String → InviteCode)
    → List InviteCode
    → Result (List InviteCode × InviteCode)
insert_code zero writes codes new is = err "internal_error"
insert_code (suc left) writes codes new is =
    let rest = insert_code left writes codes new is in
    if not writes
    then err "internal_error"
    else if has (has_code_of (codes left)) is
    then rest
    else ok (is ++ (new (codes left) ∷ []), new (codes left))

abbrev pub duration_of : Option ℤ → Option ℕ
duration_of none = some 1800
duration_of (some (negsuc n)) = none
duration_of (some (pos n)) = if in_length 60 31536000 n then some n else none

abbrev pub new_code : ℕ → ℕ → ℕ → ℕ → String → InviteCode
new_code admin fresh now seconds code = record {
  id = fresh;
  code = code;
  created_by = admin;
  used_by = none;
  expires_at = now + seconds * 1000;
  used_at = none;
}

abbrev pub created_code :
    Bool → Store → Result (List InviteCode × InviteCode) → Store × Result InviteCode
created_code reads st (err why) = (st, err why)
created_code reads st (ok (is, made)) =
    (record st { invites = is }, if reads then ok made else err "internal_error")

abbrev pub create_code :
    Bool → Bool → ℕ → ℕ → ℕ → (ℕ → String) → Store → Option ℕ → Store × Result InviteCode
create_code writes reads admin fresh now codes st none = (st, err "invalid_invite_duration")
create_code writes reads admin fresh now codes st (some seconds) =
    created_code reads st (insert_code 5 writes codes (new_code admin fresh now seconds) st.invites)

-- The answer needs the row that was inserted: `reads` is whether its query succeeds.
unfoldable pub handle_create_admin_invite_code :
    Bool → Bool → ℕ → ℕ → ℕ → (ℕ → String) → Option ℤ → Store → Store × Result InviteCode
unfolding insert_code
handle_create_admin_invite_code writes reads admin fresh now codes duration st =
    create_code writes reads admin fresh now codes st (duration_of duration)

abbrev pub is_not_code : ℕ → InviteCode → Bool
is_not_code id i = not (i.id == id)

unfoldable pub handle_delete_admin_invite_code : Bool → Option ℤ → Store → Result Store
handle_delete_admin_invite_code writes value st = do
  id ← requested_id "invalid_invite_code_id" value
  refuse_if (not writes) "internal_error"
  refuse_if (not (has (λ (i : InviteCode). i.id == id) st.invites)) "invite_code_not_found"
  ok (record st { invites = keep (is_not_code id) st.invites })
