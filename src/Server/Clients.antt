-- ===== src/Server/Clients.antt =====
-- The clients that the page shows and changes: `clientItems`, `revokeClient`, `handleDeleteClient` and
-- `handleSaveClientRoleName` of internal/api/clients.go, and `viewerSession` of server.go.
use Prim.Native.String.{len}
use monitor_backend.Base.{
  ℕ, String, Bool, true, false, not, ◌&&◌, ◌||◌, Option, none, some, List, [], ◌∷◌, ◌==◌, string_eq,
  nat_eq, if◌then◌else◌, keep, map, ltb,
}
use monitor_backend.Base.Results.{Result, ok, err, ◌>>=◌, ◌>>◌, refuse_if}
use monitor_backend.Base.Texts.{trim_space}
use monitor_backend.Protocol.{ClientStatePayload}
use monitor_backend.Hub.{notify_clients}
use monitor_backend.Hub.Watching.{client_status, active_monitor_session}
use monitor_backend.Hub.Commands.{disconnect_device}
use monitor_backend.BossCycle.{has, update_where}
use monitor_backend.Server.{
  Session, Store, with_hub, is_bound_to, is_counted, valid_role_name, bad_client_id, order_by,
}

-- What the page shows of a client.
pub record ClientItem : Type 0 where
  pub id : String
  pub client_id : Option String
  pub name : String
  pub role_name : String
  pub mode : String
  pub running : Bool
  pub online : Bool
  pub created_at : ℕ
  pub last_seen_at : Option ℕ

abbrev pub show_client : Session → Bool × ClientStatePayload × ℕ → ClientItem
show_client s (online, state, at) =
    let live = online && not (state.mode == "") in
    record {
      id = s.id;
      client_id = s.client_id;
      name = s.name;
      role_name = s.role_name;
      mode = if live then state.mode else s.mode;
      running = if live then state.running else s.running;
      online = online;
      created_at = s.created_at;
      last_seen_at = s.last_publish_at;
    }

-- `last_publish_at DESC, created_at DESC`, where NULL comes last.
abbrev pub later : Option ℕ → Option ℕ → ℕ → ℕ → Bool
later none none a b = ltb b a
later none (some y) a b = false
later (some x) none a b = true
later (some x) (some y) a b = ltb y x || (x == y && ltb b a)

abbrev pub seen_later : Session → Session → Bool
seen_later s t = later s.last_publish_at t.last_publish_at s.created_at t.created_at

unfoldable pub client_items : ℕ → Store → List ClientItem
unfolding order_by client_status
client_items user st =
    map (λ s. show_client s (client_status s.id st.world.hub))
      (order_by seen_later (keep (is_counted user) st.sessions))

-- `viewerSession`: the session that holds the monitor slot, else the one that published last.
abbrev pub head_id : List Session → Option String
head_id [] = none
head_id (s ∷ ss) = some s.id

abbrev pub is_viewable : ℕ → Session → Bool
is_viewable user s = s.user_id == user && s.active

unfoldable pub viewer_session : ℕ → Store → Option String
unfolding active_monitor_session order_by
viewer_session user st =
    let (session, active) = active_monitor_session user st.world.hub in
    if active
    then some session
    else head_id (order_by seen_later (keep (is_viewable user) st.sessions))

abbrev pub is_revocable : ℕ → String → Session → Bool
is_revocable user id s = s.id == id && is_counted user s

abbrev pub revoked : Session → Session
revoked s = record s { active = false; running = false }

-- Whether a session was revoked; `writes` is whether the update succeeds.
unfoldable pub revoke_client : Bool → ℕ → String → Store → Result (Store × Bool)
unfolding disconnect_device notify_clients
revoke_client writes user id st = do
  refuse_if (not writes) "internal_error"
  ok (
      if has (is_revocable user id) st.sessions
      then (
        with_hub (notify_clients user (disconnect_device id st.world.hub).0)
            (record st { sessions = update_where (is_revocable user id) revoked st.sessions }),
        true,
      )
      else (st, false))

abbrev pub not_found_unless : Bool → Store → Result Store
not_found_unless found st = if found then ok st else err "client_not_found"

unfoldable pub handle_delete_client : Bool → ℕ → String → Store → Result Store
unfolding revoke_client trim_space
handle_delete_client writes user path st =
    let id = trim_space path in
    refuse_if (not (len id == 36)) "invalid_session_id"
    >> (revoke_client writes user id st >>= λ (after : Store × Bool).
        not_found_unless after.1 after.0)

-- The rows that the update changes: a row that has the name already is not among the affected ones.
abbrev pub is_renamed : ℕ → String → String → Session → Bool
is_renamed user client name s = is_bound_to user client s && (s.active && not (s.role_name == name))

abbrev pub renamed : String → Session → Session
renamed name s = record s { role_name = name }

unfoldable pub handle_save_client_role_name : Bool → ℕ → String → String → Store → Result Store
unfolding trim_space valid_role_name notify_clients
handle_save_client_role_name writes user raw_client raw_name st = do
  let client = trim_space raw_client
  let name = trim_space raw_name
  refuse_if (bad_client_id client || not (valid_role_name name)) "invalid_role_name"
  refuse_if (not writes) "internal_error"
  refuse_if (not (has (is_renamed user client name) st.sessions)) "client_not_found"
  ok (
      with_hub (notify_clients user st.world.hub) (record st {
        sessions = update_where (is_renamed user client name) (renamed name) st.sessions;
      }))
