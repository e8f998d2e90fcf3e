-- ===== src/Server/Teams/Configuring.antt =====
-- `handleSaveRopeTeam`: what follows the commit, and the whole handler.
use monitor_backend.Base.{
  ℕ, String, Bool, true, ◌&&◌, Option, none, some, List, [], ◌∷◌, ◌==◌, string_eq, nat_eq,
  if◌then◌else◌, lookup,
}
use monitor_backend.Base.Int.{pos}
use monitor_backend.Base.Results.{Result, ok, err, ◌>>=◌}
use monitor_backend.Protocol.{ClientCommand}
use monitor_backend.Hub.{Hub, notify_clients}
use monitor_backend.Hub.Commands.{send_command, blank_command}
use monitor_backend.BossCycle.{Team, Taken, update_where}
use monitor_backend.Server.{Store, with_hub}
use monitor_backend.Server.Teams.{TeamItem, rope_team}
use monitor_backend.Server.Teams.Choosing.{Statements}
use monitor_backend.Server.Teams.Saving.{Change, commit_team}

abbrev pub role_of : List (String × String) → String → String
role_of roles id = elim (lookup id roles) [ none ↦ "" | some role ↦ role ]

-- The role names of the members that the leader invites.
unfoldable pub invited_roles : String → List (String × String) → List String → List String
unfolding lookup
invited_roles leader roles [] = []
invited_roles leader roles (id ∷ ids) =
    let rest = invited_roles leader roles ids in
    if id == leader then rest else role_of roles id ∷ rest

abbrev pub configure_command : ℕ → Bool → String → List String → ClientCommand
configure_command team is_leader role invites = record blank_command {
  action = "configure_rope_party";
  team_id = pos team;
  is_leader = is_leader;
  first_creation = true;
  role_name = role;
  invite_role_names = if is_leader then invites else [];
}

-- The loop that sends each session its part, and whether all are sent.
unfoldable pub configure_all :
    ℕ → String → List (String × String) → List String → Taken → List String → Hub → Hub × Bool
unfolding send_command lookup
configure_all team leader roles invites taken [] hub = (hub, true)
configure_all team leader roles invites taken (id ∷ ids) hub =
    let (after, sent) =
      send_command id (configure_command team (id == leader) (role_of roles id) invites) (taken id)
        hub in
    let (last, all_sent) = configure_all team leader roles invites taken ids after in
    (last, sent && all_sent)

pub record Saved : Type 0 where
  pub team : Option TeamItem
  pub first_creation : Bool
  pub leader_changing : Bool

abbrev pub team_command : String → ℕ → ClientCommand
team_command action team = record blank_command { action = action; team_id = pos team }

-- `WHERE id = ? AND user_id = ? AND boss_cycle_state = 'changing_leader'`.
abbrev pub is_changing : ℕ → ℕ → Team → Bool
is_changing id user t = t.id == id && (t.user_id == user && t.boss_cycle_state == "changing_leader")

abbrev pub set_idle : Team → Team
set_idle t = record t { boss_cycle_state = "idle" }

abbrev pub with_teams : List Team → Store → Store
with_teams teams st = record st { world = record st.world { teams = teams } }

abbrev pub notify_user : ℕ → Hub → Store → Store
notify_user user hub st = with_hub (notify_clients user hub) st

abbrev pub answer : Bool → ℕ → Change → Store → Store × Result Saved
answer reloads user c st = (
  st,
  rope_team reloads user st >>= λ team. ok (record {
    team = team;
    first_creation = c.first_creation;
    leader_changing = c.leader_changing;
  }),
)

abbrev pub reset_change : Bool → ℕ → Change → Store → Store
reset_change resets user c st =
    if resets
    then with_teams (update_where (is_changing c.team_id user) set_idle st.world.teams) st
    else st

-- The old leader is asked to leave the party; the new one follows when it reports that.
abbrev pub change_leader : Statements → ℕ → Taken → Change → Store → Store × Result Saved
change_leader db user taken c st =
    let (hub, sent) =
      send_command c.previous_leader (team_command "disband_rope_party" c.team_id)
        (taken c.previous_leader) st.world.hub in
    if sent then answer db.reloads user c (notify_user user hub st) else (
      notify_user user hub (reset_change db.resets user c st),
      err "previous_leader_unavailable",
    )

abbrev pub configure_team :
    Statements
    → ℕ
    → String
    → List String
    → Taken
    → List (String × String)
    → Change
    → Store
    → Store × Result Saved
configure_team db user leader ids taken roles c st =
    let (hub, all_sent) =
      configure_all c.team_id leader roles (invited_roles leader roles ids) taken ids
        st.world.hub in
    if all_sent
    then answer db.reloads user c (notify_user user hub st)
    else (notify_user user hub st, err "team_clients_unavailable")

abbrev pub after_commit :
    Statements
    → ℕ
    → String
    → List String
    → Taken
    → Store
    → Result (Store × (Change × List (String × String)))
    → Store × Result Saved
after_commit db user leader ids taken st (err why) = (st, err why)
after_commit db user leader ids taken st (ok (saved, (c, roles))) =
    if c.leader_changing
    then change_leader db user taken c saved
    else configure_team db user leader ids taken roles c saved

unfoldable pub handle_save_rope_team :
    Statements → ℕ → ℕ → String → List String → Taken → Store → Store × Result Saved
unfolding commit_team send_command notify_clients configure_all invited_roles rope_team
handle_save_rope_team db fresh user leader ids taken st =
    after_commit db user leader ids taken st (commit_team db fresh user leader ids st)
