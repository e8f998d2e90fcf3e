-- ===== src/Server/Teams/Saving.antt =====
-- `handleSaveRopeTeam`: what its transaction writes.
use monitor_backend.Base.{
  ℕ, String, Bool, true, false, not, ◌&&◌, Option, none, some, List, [], ◌∷◌, ◌++◌, ◌==◌, string_eq,
  nat_eq, if◌then◌else◌, keep, map,
}
use monitor_backend.Base.Results.{Result, ok, ◌>>=◌, ◌>>◌, refuse_if}
use monitor_backend.Hub.Watching.{client_status}
use monitor_backend.BossCycle.{Team, Member, update_where, in_team}
use monitor_backend.Server.{Store}
use monitor_backend.Server.Teams.{team_of}
use monitor_backend.Server.Teams.Choosing.{Statements, check_request, read_roles}

-- What the transaction writes, and what follows it.
pub record Change : Type 0 where
  pub team_id : ℕ
  pub first_creation : Bool
  pub leader_changing : Bool
  pub previous_leader : String
  pub teams : List Team

abbrev pub new_team : ℕ → ℕ → String → Team
new_team id user leader = record {
  id = id;
  user_id = user;
  leader_session_id = leader;
  created_in_game = false;
  boss_role_name = "";
  boss_cycle_id = 0;
  boss_cycle_state = "idle";
}

abbrev pub create_team : ℕ → ℕ → String → List Team → Change
create_team fresh user leader teams = record {
  team_id = fresh;
  first_creation = true;
  leader_changing = false;
  previous_leader = "";
  teams = teams ++ (new_team fresh user leader ∷ []);
}

abbrev pub led_by : String → Bool → Team → Team
led_by leader changing t = record t {
  leader_session_id = leader;
  created_in_game = false;
  boss_cycle_state = if changing then "changing_leader" else "idle";
}

abbrev pub is_team : ℕ → Team → Bool
is_team id t = t.id == id

abbrev pub change_team : Statements → String → Team → Store → Result Change
change_team db leader t st = do
  refuse_if (not db.loads_team) "internal_error"
  refuse_if (not (t.boss_cycle_state == "idle")) "team_transition_in_progress"
  let changing = not (t.leader_session_id == "") && not (t.leader_session_id == leader)
  refuse_if (changing && not (client_status t.leader_session_id st.world.hub).0)
      "previous_leader_offline"
  ok (record {
    team_id = t.id;
    first_creation = false;
    leader_changing = changing;
    previous_leader = t.leader_session_id;
    teams = update_where (is_team t.id) (led_by leader changing) st.world.teams;
  })

abbrev pub plan_change : Statements → ℕ → ℕ → String → Store → Option Team → Result Change
plan_change db fresh user leader st none = ok (create_team fresh user leader st.world.teams)
plan_change db fresh user leader st (some t) = change_team db leader t st

abbrev pub new_member : ℕ → String → Member
new_member team id = record {
  team_id = team;
  session_id = id;
  invited = false;
  boss_completed_cycle_id = 0;
  joined = false;
  joined_at = none;
}

abbrev pub not_in_team : ℕ → Member → Bool
not_in_team team m = not (in_team team m)

-- Every row of the team is deleted, and one is inserted for each session.
unfoldable pub replace_members : ℕ → List String → List Member → List Member
replace_members team ids ms = keep (not_in_team team) ms ++ map (new_member team) ids

abbrev pub write_change : Change → List String → Store → Store
write_change c ids st = record st {
  world = record st.world {
    teams = c.teams;
    members = replace_members c.team_id ids st.world.members;
  };
}

-- Everything up to the commit. `fresh` is the id that the database gives to an inserted team.
unfoldable pub commit_team :
    Statements
    → ℕ
    → ℕ
    → String
    → List String
    → Store
    → Result (Store × (Change × List (String × String)))
unfolding check_request read_roles replace_members client_status
commit_team db fresh user leader ids st = do
  check_request leader ids
  refuse_if (not db.begins) "internal_error"
  roles ← read_roles db user st [] ids
  refuse_if (not db.selects_team) "internal_error"
  c ← plan_change db fresh user leader st (team_of user st)
  refuse_if (not db.writes) "internal_error"
  ok (write_change c ids st, (c, roles))
