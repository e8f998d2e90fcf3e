-- ===== src/Server/Teams/Boss.antt =====
-- `handleSaveRopeTeamBoss`. Other requests may run between its check of the state and what follows, which
-- is `save_boss`.
use monitor_backend.Base.{
  ℕ, String, Bool, true, false, not, ◌&&◌, Option, none, some, ◌==◌, string_eq, nat_eq,
  if◌then◌else◌,
}
use monitor_backend.Base.Results.{Result, ok, err, ◌>>=◌, ◌>>◌, refuse_if}
use monitor_backend.Base.Texts.{trim_space}
use monitor_backend.BossCycle.{Team, World, Taken, update_where, is_active_temple_client}
use monitor_backend.BossCycle.Starting.{Database, start_boss_buff_cycle}
use monitor_backend.Server.{Store, valid_role_name}
use monitor_backend.Server.Teams.{TeamItem, rope_team, team_of}
use monitor_backend.Server.Teams.Configuring.{notify_user, with_teams}
use monitor_backend.Server.Teams.Ending.{found}

-- Which statements succeed, those of the start of a cycle included.
pub record BossStatements : Type 0 where
  pub selects : Bool
  pub saves : Bool
  pub reloads : Bool
  pub cycle : Database

pub record BossSaved : Type 0 where
  pub team : Option TeamItem
  pub cycle_started : Bool
  pub leader_online : Bool
  pub already_active : Bool
  pub start_reason : String

-- `user_id = ? AND boss_cycle_state = 'idle'`.
abbrev pub is_idle_of : ℕ → Team → Bool
is_idle_of user t = t.user_id == user && t.boss_cycle_state == "idle"

abbrev pub set_boss : String → Team → Team
set_boss role t = record t { boss_role_name = role }

-- Whether the team that is loaded again is in a cycle for another boss, or for this one.
abbrev pub runs_for_other : String → Option TeamItem → Bool
runs_for_other role none = false
runs_for_other role (some t) = not (t.boss_cycle_state == "idle") && not (t.boss_role_name == role)

abbrev pub runs_for : String → Option TeamItem → Bool
runs_for role none = false
runs_for role (some t) = not (t.boss_cycle_state == "idle") && t.boss_role_name == role

abbrev pub answer_boss : Bool → String → Bool × String → Result (Option TeamItem) → Result BossSaved
answer_boss online role (started, reason) loaded = do
  team ← loaded
  refuse_if (not started && runs_for_other role team) "boss_cycle_active"
  ok (record {
    team = team;
    cycle_started = started;
    leader_online = online;
    already_active = not started && runs_for role team;
    start_reason = reason;
  })

-- The name is saved by itself if no cycle took it.
abbrev pub save_name :
    BossStatements → ℕ → Bool → String → Bool × String → Store → Store × Result BossSaved
save_name db user online role start st =
    let teams =
      if start.0
      then st.world.teams
      else update_where (is_idle_of user) (set_boss role) st.world.teams in
    let after = notify_user user st.world.hub (with_teams teams st) in
    if not start.0 && not db.saves
    then (st, err "internal_error")
    else (after, answer_boss online role start (rope_team db.reloads user after))

abbrev pub try_start :
    BossStatements → ℕ → String → Bool → String → Taken → World → World × (Bool × String)
try_start db user leader online role taken w =
    if online
    then start_boss_buff_cycle db.cycle user leader (some role) (taken leader) w
    else (w, (false, "leader_offline"))

-- From the start of the cycle on. `leader` is the leader that the check saw.
unfoldable pub save_boss :
    BossStatements → ℕ → String → String → Taken → Store → Store × Result BossSaved
unfolding start_boss_buff_cycle is_active_temple_client rope_team
save_boss db user leader role taken st =
    let online = is_active_temple_client st.world.hub leader in
    let (world, start) = try_start db user leader online role taken st.world in
    save_name db user online role start (record st { world = world })

-- The answer of a team whose cycle runs.
abbrev pub refuse_running : BossStatements → ℕ → String → Team → Store → Result BossSaved
refuse_running db user role t st =
    if not (t.boss_role_name == role)
    then err "boss_cycle_active"
    else rope_team db.reloads user st >>= λ team. ok (record {
      team = team;
      cycle_started = false;
      leader_online = is_active_temple_client st.world.hub t.leader_session_id;
      already_active = true;
      start_reason = "already_active";
    })

abbrev pub check_boss : BossStatements → ℕ → String → Store → Result Team
check_boss db user role st = do
  refuse_if (not (valid_role_name role)) "invalid_boss_role_name"
  refuse_if (not db.selects) "internal_error"
  found "rope_team_not_found" (team_of user st)

abbrev pub save_checked :
    BossStatements → ℕ → String → Taken → Store → Result Team → Store × Result BossSaved
save_checked db user role taken st (err why) = (st, err why)
save_checked db user role taken st (ok t) =
    if not (t.boss_cycle_state == "idle")
    then (st, refuse_running db user role t st)
    else if not t.created_in_game
    then (st, err "rope_team_not_created")
    else save_boss db user t.leader_session_id role taken st

unfoldable pub handle_save_rope_team_boss :
    BossStatements → ℕ → String → Taken → Store → Store × Result BossSaved
unfolding save_boss is_active_temple_client rope_team valid_role_name trim_space
handle_save_rope_team_boss db user value taken st =
    let role = trim_space value in save_checked db user role taken st (check_boss db user role st)
