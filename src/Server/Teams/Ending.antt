-- ===== src/Server/Teams/Ending.antt =====
-- `handleDeleteRopeTeam` and `handleRemoveRopeTeamMember`, and `configureSavedRopeTeam`, which a team
-- that changes its leader goes on with.
use Prim.Native.String.{len}
use monitor_backend.Base.{
  ℕ, String, Bool, true, false, not, ◌&&◌, ◌||◌, Option, none, some, List, [], ◌∷◌, ◌==◌, string_eq,
  nat_eq, if◌then◌else◌, keep, map,
}
use monitor_backend.Base.Results.{Result, ok, err, ◌>>=◌, ◌>>◌, refuse_if}
use monitor_backend.Base.Texts.{trim_space}
use monitor_backend.Protocol.{ClientCommand}
use monitor_backend.Hub.{Hub, notify_clients}
use monitor_backend.Hub.Watching.{client_status}
use monitor_backend.Hub.Commands.{send_command}
use monitor_backend.BossCycle.{
  Team, Member, Taken, find, has, update_where, is_member, rope_team_member_session_ids,
}
use monitor_backend.Server.{Session, Store, valid_role_name, order_by}
use monitor_backend.Server.Teams.{TeamItem, team_of, rope_team, joined_rows, stands_before}
use monitor_backend.Server.Teams.Saving.{not_in_team, is_team}
use monitor_backend.Server.Teams.Configuring.{
  team_command, notify_user, with_teams, configure_command,
}

abbrev pub found {ℓ} : {A : Type ℓ} → String → Option A → Result A
found why none = err why
found why (some x) = ok x

abbrev pub is_not_team : ℕ → ℕ → Team → Bool
is_not_team id user t = not (t.id == id && t.user_id == user)

-- The row of the team goes, and with it the rows of its members: ON DELETE CASCADE.
abbrev pub delete_team : ℕ → ℕ → Store → Store
delete_team id user st = record st {
  world = record st.world {
    teams = keep (is_not_team id user) st.world.teams;
    members = keep (not_in_team id) st.world.members;
  };
}

-- Every member but the leader is told to forget the team.
unfoldable pub clear_members : ℕ → String → Taken → List String → Hub → Hub
unfolding send_command
clear_members team leader taken [] hub = hub
clear_members team leader taken (id ∷ ids) hub = clear_members team leader taken ids (
    if id == leader
    then hub
    else (send_command id (team_command "clear_rope_party" team) (taken id) hub).0)

-- Whether the two queries and the delete succeed.
pub record Deleting : Type 0 where
  pub selects_team : Bool
  pub lists_members : Bool
  pub deletes : Bool

abbrev pub tell_disbanded : ℕ → Taken → Team → List String → Store → Store × Bool
tell_disbanded user taken t members st =
    let (hub, sent) =
      send_command t.leader_session_id (team_command "disband_rope_party" t.id)
        (taken t.leader_session_id) st.world.hub in
    (notify_user user (clear_members t.id t.leader_session_id taken members hub) st, sent)

-- The answer is the team's id and whether its leader was told.
unfoldable pub handle_delete_rope_team : Deleting → ℕ → Taken → Store → Result (Store × (ℕ × Bool))
unfolding send_command clear_members notify_clients rope_team_member_session_ids
handle_delete_rope_team db user taken st = do
  refuse_if (not db.selects_team) "internal_error"
  t ← found "rope_team_not_found" (team_of user st)
  refuse_if (not db.lists_members) "internal_error"
  let members = rope_team_member_session_ids t.id st.world.members
  refuse_if (not db.deletes) "internal_error"
  let told = tell_disbanded user taken t members (delete_team t.id user st)
  ok (told.0, (t.id, told.1))

-- The user's team that has the session as a member, and the session's row: the query's join.
abbrev pub is_team_with : ℕ → String → Store → Team → Bool
is_team_with user id st t = t.user_id == user && has (is_member t.id id) st.world.members

-- The query, and the delete after the command.
pub record Removing : Type 0 where
  pub selects : Bool
  pub deletes : Bool
  pub reloads : Bool

abbrev pub is_active_id : String → Session → Bool
is_active_id id s = s.id == id && s.active

abbrev pub is_other_row : ℕ → String → Member → Bool
is_other_row team id m = not (is_member team id m)

abbrev pub delete_member : ℕ → String → Store → Store
delete_member team id st = record st {
  world = record st.world { members = keep (is_other_row team id) st.world.members };
}

-- After the leader was told, the row is deleted and its client told.
abbrev pub remove_row :
    Removing → ℕ → String → Taken → Team → Store → Store × Result (Option TeamItem)
remove_row db user id taken t st =
    if not db.deletes
    then (st, err "internal_error")
    else (let hub =
          (send_command id (team_command "clear_rope_party" t.id) (taken id) st.world.hub).0 in
        let after = notify_user user hub (delete_member t.id id st) in
        (after, rope_team db.reloads user after))

-- The rows that the removal needs: the team, and the active session of the member.
abbrev pub removable : Removing → ℕ → String → Store → Result (Team × Session)
removable db user id st = do
  refuse_if (not (len id == 36)) "invalid_session_id"
  refuse_if (not db.selects) "internal_error"
  t ← found "rope_team_member_not_found" (find (is_team_with user id st) st.world.teams)
  s ← found "rope_team_member_not_found" (find (is_active_id id) st.sessions)
  refuse_if (id == t.leader_session_id) "cannot_remove_team_leader"
  refuse_if (not (valid_role_name s.role_name)) "invalid_member_role_name"
  refuse_if (not (client_status t.leader_session_id st.world.hub).0) "team_leader_offline"
  ok (t, s)

abbrev pub ask_leader :
    Removing
    → ℕ
    → String
    → Taken
    → Store
    → Result (Team × Session)
    → Store × Result (Option TeamItem)
ask_leader db user id taken st (err why) = (st, err why)
ask_leader db user id taken st (ok (t, s)) =
    let (hub, sent) =
      send_command t.leader_session_id
        (record (team_command "remove_rope_party_member" t.id) { target_role_name = s.role_name })
        (taken t.leader_session_id) st.world.hub in
    let asked : Store = record st { world = record st.world { hub = hub } } in
    if sent then remove_row db user id taken t asked else (asked, err "team_leader_unavailable")

unfoldable pub handle_remove_rope_team_member :
    Removing → ℕ → String → Taken → Store → Store × Result (Option TeamItem)
unfolding send_command trim_space rope_team notify_clients valid_role_name client_status
handle_remove_rope_team_member db user path taken st =
    let id = trim_space path in ask_leader db user id taken st (removable db user id st)

-- `ORDER BY (rt.leader_session_id = rtm.session_id) DESC, ms.created_at`.
abbrev pub role_row : String → Member × Session → String × String
role_row leader (m, s) = (m.session_id, s.role_name)

abbrev pub saved_roles : Team → Store → List (String × String)
saved_roles t st =
    map (role_row t.leader_session_id)
      (order_by (stands_before t.leader_session_id) (joined_rows t.id st.sessions st.world.members))

unfoldable pub guest_roles : String → List (String × String) → List String
guest_roles leader [] = []
guest_roles leader ((id, role) ∷ rows) =
    let rest = guest_roles leader rows in if id == leader then rest else role ∷ rest

-- Here each member is sent the names of the invited.
abbrev pub saved_command : ℕ → Bool → String → List String → ClientCommand
saved_command team is_leader role invites = record (configure_command team is_leader role []) {
  invite_role_names = invites;
}

unfoldable pub configure_saved :
    ℕ → String → List String → Taken → List (String × String) → Hub → Hub × Bool
unfolding send_command
configure_saved team leader invites taken [] hub = (hub, true)
configure_saved team leader invites taken ((id, role) ∷ rows) hub =
    let (after, sent) =
      send_command id (saved_command team (id == leader) role invites) (taken id) hub in
    let (last, all_sent) = configure_saved team leader invites taken rows after in
    (last, sent && all_sent)

abbrev pub is_team_of : ℕ → ℕ → Team → Bool
is_team_of id user t = t.id == id && t.user_id == user

abbrev pub uncreated : Team → Team
uncreated t = record t { created_in_game = false; boss_cycle_state = "idle" }

abbrev pub configure_found : Bool → ℕ → ℕ → Taken → Store → Option Team → Store
configure_found resets user team taken st none = notify_user user st.world.hub st
configure_found resets user team taken st (some t) =
    let rows = saved_roles t st in
    let (hub, all_sent) =
      configure_saved team t.leader_session_id (guest_roles t.leader_session_id rows) taken rows
        st.world.hub in
    notify_user user hub (
      if all_sent || not resets
      then st
      else with_teams (update_where (is_team_of team user) uncreated st.world.teams) st)

-- `selects` is whether the query succeeds, and `resets` the update.
unfoldable pub configure_saved_rope_team : Bool → Bool → ℕ → ℕ → Taken → Store → Store
unfolding configure_saved guest_roles joined_rows order_by notify_clients
configure_saved_rope_team selects resets user team taken st =
    if selects
    then configure_found resets user team taken st (find (is_team team) st.world.teams)
    else st
