-- ===== src/BossCycle/Starting.antt =====
-- `startBossBuffCycle`.
use monitor_backend.Base.{
  ℕ, suc, String, Bool, true, false, not, ◌||◌, Option, none, some, List, [], ◌∷◌, ◌==◌, string_eq,
  nat_eq, if◌then◌else◌,
}
use monitor_backend.Base.Int.{pos}
use monitor_backend.Base.Results.{Result, ok, err, ◌>>=◌, ◌>>◌, refuse_if}
use monitor_backend.Protocol.{ClientCommand}
use monitor_backend.Hub.{notify_clients}
use monitor_backend.Hub.Commands.{send_command, blank_command}
use monitor_backend.BossCycle.{
  Team, Member, World, find, update_where, in_team, is_member, in_cycle, set_state, team_of_member,
  rope_team_member_session_ids, active_temple_client_session_ids, contains_session_id,
}

-- Which of the transaction's statements succeed, and whether the reset of an unsent command does.
pub record Database : Type 0 where
  pub begins : Bool
  pub selects_team : Bool
  pub lists_members : Bool
  pub reads_joined : String → Bool
  pub writes : Bool
  pub resets : Bool

abbrev pub found_team : Option Team → Result Team
found_team none = err "team_not_found"
found_team (some t) = ok t

abbrev pub override_name : Option String → String → String
override_name none name = name
override_name (some given) name = given

abbrev pub joined_check : Option Member → Result (Unit {0})
joined_check none = err "storage_error"
joined_check (some m) = refuse_if (not m.joined) "team_members_not_joined"

unfoldable pub check_joined : Database → ℕ → List Member → List String → Result (Unit {0})
check_joined db team ms [] = ok tt
check_joined db team ms (id ∷ ids) = do
  refuse_if (not (db.reads_joined id)) "storage_error"
  joined_check (find (is_member team id) ms)
  check_joined db team ms ids

abbrev pub is_empty : List String → Bool
is_empty [] = true
is_empty (id ∷ ids) = false

pub record Plan : Type 0 where
  pub team : Team
  pub role_name : String
  pub participants : List String

-- Everything up to the first write.
unfoldable pub plan_cycle : Database → ℕ → String → Option String → World → Result Plan
unfolding check_joined rope_team_member_session_ids active_temple_client_session_ids
    contains_session_id
plan_cycle db user session override w = do
  refuse_if (not db.begins) "storage_error"
  team ← found_team (if db.selects_team then team_of_member user session w else none)
  refuse_if (not (team.boss_cycle_state == "idle")) "already_active"
  refuse_if (not team.created_in_game) "team_not_created"
  let name = override_name override team.boss_role_name
  refuse_if (name == "") "boss_name_missing"
  let members = rope_team_member_session_ids team.id w.members
  refuse_if (not db.lists_members) "team_members_missing"
  refuse_if (is_empty members) "team_members_missing"
  let online = active_temple_client_session_ids w.hub members
  refuse_if (not (contains_session_id online team.leader_session_id)) "leader_offline"
  check_joined db team.id w.members online
  refuse_if (not db.writes) "storage_error"
  ok (record { team = team; role_name = name; participants = online })

abbrev pub set_completed : ℕ → Member → Member
set_completed cycle m = record m { boss_completed_cycle_id = cycle }

-- The loop that makes each participant pending.
unfoldable pub set_pending : ℕ → List String → List Member → List Member
set_pending team [] ms = ms
set_pending team (id ∷ ids) ms =
    set_pending team ids (update_where (is_member team id) (set_completed 0) ms)

abbrev pub invited : Plan → Team → Team
invited p t = record t {
  boss_role_name = p.role_name;
  boss_cycle_id = suc p.team.boss_cycle_id;
  boss_cycle_state = "inviting";
}

-- The writes of the transaction.
unfoldable pub open_cycle : Plan → World → World
unfolding set_pending
open_cycle p w =
    let cycle = suc p.team.boss_cycle_id in
    record w {
      teams = update_where (λ (t : Team). t.id == p.team.id) (invited p) w.teams;
      members =
          set_pending p.team.id p.participants
            (update_where (in_team p.team.id) (set_completed cycle) w.members);
    }

abbrev pub invite_command : ℕ → ℕ → String → ClientCommand
invite_command team cycle name = record blank_command {
  action = "start_boss_invite_cycle";
  team_id = pos team;
  cycle_id = pos cycle;
  target_role_name = name;
}

-- What follows the commit: the command to the leader, and the state set back if it is not sent and the reset succeeds.
unfoldable pub announce_cycle : Bool → ℕ → ℕ → Plan → World → World × (Bool × String)
unfolding send_command notify_clients
announce_cycle resets user taken p w =
    let cycle = suc p.team.boss_cycle_id in
    let (hub, sent) =
      send_command p.team.leader_session_id (invite_command p.team.id cycle p.role_name) taken
        w.hub in
    let teams =
      if sent || not resets
      then w.teams
      else update_where (in_cycle p.team.id cycle "inviting") (set_state "idle") w.teams in
    (
      record w { teams = teams; hub = notify_clients user hub },
      if sent then (true, "started") else (false, "leader_unavailable"),
    )

abbrev pub run_plan : Bool → ℕ → ℕ → World → Result Plan → World × (Bool × String)
run_plan resets user taken w (err why) = (w, (false, why))
run_plan resets user taken w (ok p) = announce_cycle resets user taken p (open_cycle p w)

unfoldable pub start_boss_buff_cycle :
    Database → ℕ → String → Option String → ℕ → World → World × (Bool × String)
unfolding plan_cycle announce_cycle open_cycle
start_boss_buff_cycle db user session override taken w =
    run_plan db.resets user taken w (plan_cycle db user session override w)
