-- ===== src/Server/Progress.antt =====
-- The part of `handleDeviceWebSocket` in internal/api/server.go for the message "rope_progress".
use monitor_backend.Base.{
  ℕ, String, Bool, true, false, not, ◌&&◌, Option, none, some, List, ◌==◌, string_eq, nat_eq,
  if◌then◌else◌, keep,
}
use monitor_backend.Base.Int.{ℤ, pos, int_beq}
use monitor_backend.Protocol.{RopePartyProgressPayload}
use monitor_backend.Hub.Commands.{send_command, blank_command}
use monitor_backend.BossCycle.{Team, Member, World, Taken, find, has, update_where}
use monitor_backend.BossCycle.Starting.{Database, start_boss_buff_cycle}
use monitor_backend.BossCycle.Handlers.{
  mark_boss_joined, mark_boss_buff_completed, mark_boss_kicked, is_progress_of,
}
use monitor_backend.Server.{Session, Store, with_hub}
use monitor_backend.Server.Teams.Configuring.{with_teams}
use monitor_backend.Server.Teams.Ending.{configure_saved_rope_team, uncreated}
use monitor_backend.Server.Joins.{with_member_rows, owns, notify_if}

-- Which statements succeed, of the boss cycle's functions and of the updates of this message, and how
-- many frames the leader takes while it is told of a new cycle.
pub record Reports : Type 0 where
  pub boss : Database
  pub leader_takes : ℕ
  pub commits : Bool
  pub reads_state : Bool
  pub writes : Bool
  pub writes_members : Bool
  pub selects_saved : Bool
  pub resets_saved : Bool
  pub now : ℕ

unfoldable pub ack_progress : String → RopePartyProgressPayload → ℕ → Store → Store
unfolding send_command
ack_progress session p taken st =
    if p.receipt_id == ""
    then st
    else with_hub
        (send_command session
          (record blank_command {
            action = "rope_progress_ack";
            team_id = p.team_id;
            cycle_id = p.cycle_id;
            receipt_id = p.receipt_id;
          })
          taken st.world.hub).0
        st

abbrev pub with_world : World → Store → Store
with_world w st = record st { world = w }

-- An update by its new store, whether it changes a row, and whether it succeeds.
abbrev pub Update : Type 0
Update = Store × (Bool × Bool)

abbrev pub led_team : ℕ → String → ℤ → Team → Bool
led_team user session team t = owns user team t && t.leader_session_id == session

abbrev pub is_disbanding : ℕ → String → RopePartyProgressPayload → Team → Bool
is_disbanding user session p t =
    is_progress_of user p t
    && (t.leader_session_id == session && t.boss_cycle_state == "disbanding")

abbrev pub of_team : ℤ → Member → Bool
of_team team m = int_beq (pos m.team_id) team

abbrev pub cleared : Member → Member
cleared m = record m {
  invited = false;
  joined = false;
  joined_at = none;
  boss_completed_cycle_id = 0;
}

-- The boss party is disbanded: the team has to be built again.
unfoldable pub boss_cycle_disbanded :
    Reports → ℕ → String → RopePartyProgressPayload → Store → Update
boss_cycle_disbanded db user session p st =
    let hit = is_disbanding user session p in
    let after = with_teams (update_where hit uncreated st.world.teams) st in
    if not db.writes
    then (st, (false, false))
    else if not (has hit st.world.teams)
    then (st, (false, true))
    else if not db.writes_members
    then (after, (true, false))
    else (
      with_member_rows (update_where (of_team p.team_id) cleared st.world.members) after,
      (true, true),
    )

abbrev pub leads_row : List Member → ℕ → String → ℤ → Team → Bool
leads_row ms user session team t =
    led_team user session team t
    && has (λ (m : Member). m.team_id == t.id && m.session_id == t.leader_session_id) ms

abbrev pub created : Team → Team
created t = record t { created_in_game = true }

abbrev pub is_leader_row : ℕ → String → ℤ → List Team → Member → Bool
is_leader_row user session team ts m =
    has
      (λ (t : Team).
        led_team user session team t && (m.team_id == t.id && m.session_id == t.leader_session_id))
      ts

abbrev pub leader_joined : ℕ → Member → Member
leader_joined now m = record m { joined = true; joined_at = some now }

-- The leader has built the party in the game.
unfoldable pub team_created : Reports → ℕ → String → RopePartyProgressPayload → Store → Update
team_created db user session p st =
    let ts = st.world.teams in
    let ms = st.world.members in
    if not db.writes then (st, (false, false)) else (
      with_member_rows
          (update_where (is_leader_row user session p.team_id ts) (leader_joined db.now) ms)
          (with_teams (update_where (leads_row ms user session p.team_id) created ts) st),
      (has (leads_row ms user session p.team_id) ts, true),
    )

abbrev pub has_role : String → String → Session → Bool
has_role id role s = s.id == id && s.role_name == role

abbrev pub is_invited_row : ℕ → String → RopePartyProgressPayload → Store → Member → Bool
is_invited_row user session p st m =
    of_team p.team_id m
    && (has (led_team user session p.team_id) st.world.teams
        && has (has_role m.session_id p.role_name) st.sessions)

abbrev pub set_invited : Member → Member
set_invited m = record m { invited = true }

-- The leader has invited the member with this role name; a row that is invited already is unchanged.
unfoldable pub invitation_sent : Reports → ℕ → String → RopePartyProgressPayload → Store → Update
invitation_sent db user session p st =
    let hit = is_invited_row user session p st in
    if not db.writes then (st, (false, false)) else (
      with_member_rows (update_where hit set_invited st.world.members) st,
      (has (λ (m : Member). hit m && not m.invited) st.world.members, true),
    )

abbrev pub state_of : Bool → Option Team → String
state_of reads none = ""
state_of reads (some t) = if reads then t.boss_cycle_state else ""

abbrev pub is_left : ℕ → String → ℤ → Team → Bool
is_left user session team t = owns user team t && not (t.leader_session_id == session)

abbrev pub is_kept : ℕ → String → ℤ → Team → Bool
is_kept user session team t = not (led_team user session team t)

abbrev pub is_elsewhere : ℤ → Member → Bool
is_elsewhere team m = not (of_team team m)

-- The party is disbanded because the leader changes: the saved team is configured.
abbrev pub leave_leader : Reports → ℕ → String → Taken → Store → Option Team → Update
leave_leader db user session taken st none = (st, (false, true))
leave_leader db user session taken st (some t) =
    let hit = is_left user session (pos t.id) in
    let after = with_teams (update_where hit uncreated st.world.teams) st in
    (
      configure_saved_rope_team db.selects_saved db.resets_saved user t.id taken after,
      (has hit st.world.teams, true),
    )

-- Its leader disbands it: the team is deleted, and the rows of its members with it.
abbrev pub drop_team : ℕ → String → ℤ → Store → Update
drop_team user session team st = (
  (if has (led_team user session team) st.world.teams
      then with_member_rows (keep (is_elsewhere team) st.world.members)
          (with_teams (keep (is_kept user session team) st.world.teams) st)
      else st),
  (has (led_team user session team) st.world.teams, true),
)

unfoldable pub team_disbanded :
    Reports → ℕ → String → RopePartyProgressPayload → Taken → Store → Update
unfolding configure_saved_rope_team
team_disbanded db user session p taken st =
    let team = find (owns user p.team_id) st.world.teams in
    if not db.writes
    then (st, (false, false))
    else if state_of db.reads_state team == "changing_leader"
    then leave_leader db user session taken st team
    else drop_team user session p.team_id st

abbrev pub update_for : Reports → ℕ → String → RopePartyProgressPayload → Taken → Store → Update
update_for db user session p taken st =
    if p.event == "boss_cycle_disbanded"
    then boss_cycle_disbanded db user session p st
    else if p.event == "team_created"
    then team_created db user session p st
    else if p.event == "invitation_sent"
    then invitation_sent db user session p st
    else if p.event == "team_disbanded"
    then team_disbanded db user session p taken st
    else (st, (false, true))

abbrev pub finish : ℕ → String → RopePartyProgressPayload → Taken → Update → Store
finish user session p taken (st, (changed, succeeded)) =
    if succeeded then ack_progress session p (taken session) (notify_if changed user st) else st

-- The message "rope_progress".
unfoldable pub report_progress :
    Reports → ℕ → String → RopePartyProgressPayload → Taken → Store → Store
unfolding ack_progress boss_cycle_disbanded team_created invitation_sent team_disbanded
    start_boss_buff_cycle mark_boss_joined mark_boss_buff_completed mark_boss_kicked
report_progress db user session p taken st =
    if p.event == "buff_due"
    then ack_progress session p (taken session)
        (with_world (start_boss_buff_cycle db.boss user session none db.leader_takes st.world).0 st)
    else if p.event == "boss_joined"
    then ack_progress session p (taken session)
        (with_world (mark_boss_joined db.commits user session p taken st.world) st)
    else if p.event == "buff_completed"
    then ack_progress session p (taken session)
        (with_world (mark_boss_buff_completed db.commits user session p taken st.world) st)
    else if p.event == "boss_kicked"
    then ack_progress session p (taken session)
        (with_world (mark_boss_kicked db.commits user session p st.world) st)
    else finish user session p taken (update_for db user session p taken st)
