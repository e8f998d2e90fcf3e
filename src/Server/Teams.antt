-- ===== src/Server/Teams.antt =====
-- `ropeTeam` of internal/api/clients.go, the team that the page shows. `Choosing`, `Saving` and
-- `Configuring` have the handler that saves a team, `Ending` those that take one apart.
pub mod Choosing
pub mod Saving
pub mod Configuring
pub mod Requests
pub mod Formed
pub mod Answers
pub mod Boss
pub mod Running
pub mod Ending
pub mod Deleting
use Prim.Native.String.{len}
use monitor_backend.Base.{
  ℕ, suc, ◌+◌, String, Bool, true, false, not, ◌&&◌, ◌||◌, Option, none, some, List, [], ◌∷◌, ◌++◌,
  ◌==◌, string_eq, nat_eq, if◌then◌else◌, keep, map, ltb, leb, length, is_some,
}
use monitor_backend.Base.Int.{pos}
use monitor_backend.Base.Results.{Result, ok, err, ◌>>=◌, ◌>>◌, refuse_if}
use monitor_backend.Protocol.{ClientCommand, ClientStatePayload}
use monitor_backend.Hub.{Hub, notify_clients}
use monitor_backend.Hub.Watching.{client_status}
use monitor_backend.Hub.Commands.{send_command, blank_command}
use monitor_backend.BossCycle.{
  Team, Member, World, Taken, find, has, update_where, in_team, is_temple, contains_session_id,
}
use monitor_backend.Server.{
  Session, Store, with_hub, has_id, is_active_of, valid_role_name, order_by,
}

pub record MemberItem : Type 0 where
  pub session_id : String
  pub client_id : String
  pub name : String
  pub role_name : String
  pub is_leader : Bool
  pub joined : Bool
  pub invited : Bool
  pub boss_buff_completed : Bool
  pub online : Bool

pub record TeamItem : Type 0 where
  pub id : ℕ
  pub leader_session_id : String
  pub created_in_game : Bool
  pub boss_role_name : String
  pub boss_cycle_id : ℕ
  pub boss_cycle_state : String
  pub members : List MemberItem

-- The rows of the team's members joined with their sessions, a session of each id.
unfoldable pub joined_rows : ℕ → List Session → List Member → List (Member × Session)
joined_rows team ss [] = []
joined_rows team ss (m ∷ ms) =
    let rest = joined_rows team ss ms in
    if in_team team m
    then elim (find (has_id m.session_id) ss) [ none ↦ rest | some s ↦ (m, s) ∷ rest ]
    else rest

abbrev pub agree : Bool → Bool → Bool
agree true b = b
agree false b = not b

-- The leader first, then by the time at which the sessions were created.
abbrev pub stands_before : String → Member × Session → Member × Session → Bool
stands_before leader (m, s) (n, t) =
    (s.id == leader && not (t.id == leader))
    || (agree (s.id == leader) (t.id == leader) && ltb s.created_at t.created_at)

abbrev pub show_member : Hub → Team → String → Member × Session → MemberItem
show_member hub t client (m, s) = record {
  session_id = s.id;
  client_id = client;
  name = s.name;
  role_name = s.role_name;
  is_leader = s.id == t.leader_session_id;
  joined = m.joined;
  invited = m.invited;
  boss_buff_completed = ltb 0 t.boss_cycle_id && m.boss_completed_cycle_id == t.boss_cycle_id;
  online = is_temple (client_status s.id hub);
}

-- Scanning a NULL into the text of the client's id is an error.
unfoldable pub show_members : Hub → Team → List (Member × Session) → Result (List MemberItem)
unfolding client_status
show_members hub t [] = ok []
show_members hub t ((m, s) ∷ rows) = elim s.client_id [
  | none ↦ err "internal_error"
  | some client ↦ show_members hub t rows >>= λ items. ok (show_member hub t client (m, s) ∷ items)
]

abbrev pub is_shown : Member × Session → Bool
is_shown (m, s) = s.active

abbrev pub with_members : Team → List MemberItem → TeamItem
with_members t items = record {
  id = t.id;
  leader_session_id = t.leader_session_id;
  created_in_game = t.created_in_game;
  boss_role_name = t.boss_role_name;
  boss_cycle_id = t.boss_cycle_id;
  boss_cycle_state = t.boss_cycle_state;
  members = items;
}

abbrev pub show_team : Store → Team → Result (Option TeamItem)
show_team st t =
    show_members st.world.hub t (
      order_by (stands_before t.leader_session_id)
        (keep is_shown (joined_rows t.id st.sessions st.world.members)))
    >>= λ items. ok (some (with_members t items))

abbrev pub team_of : ℕ → Store → Option Team
team_of user st = find (λ (t : Team). t.user_id == user) st.world.teams

abbrev pub shown_team : Store → Option Team → Result (Option TeamItem)
shown_team st none = ok none
shown_team st (some t) = show_team st t

-- `ropeTeam`: `selects` is whether its two queries succeed.
unfoldable pub rope_team : Bool → ℕ → Store → Result (Option TeamItem)
unfolding show_members order_by joined_rows
rope_team selects user st =
    refuse_if (not selects) "internal_error" >> shown_team st (team_of user st)
