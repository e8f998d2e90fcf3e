-- ===== src/BossCycle.antt =====
-- internal/api/boss_cycle.go: the rope party's boss cycle, over the rows of `rope_teams` and
-- `rope_team_members` and the hub. This file has the rows and the queries, `Handlers` the functions
-- of the file. Row ids, which the database counts from 1, are natural numbers.
pub mod Starting
pub mod Handlers
pub mod Frozen
pub mod Barrier
pub mod Skips
pub mod Kicks
mod Tests
use monitor_backend.Base.{
  ℕ, String, Bool, true, false, not, ◌&&◌, ◌||◌, Option, none, some, List, [], ◌∷◌, ◌==◌, string_eq,
  nat_eq, if◌then◌else◌, keep, map,
}
use monitor_backend.Protocol.{ClientStatePayload, ClientCommand}
use monitor_backend.Hub.{Hub}
use monitor_backend.Hub.Watching.{client_status}
use monitor_backend.Hub.Commands.{send_command}

pub record Team : Type 0 where
  pub id : ℕ
  pub user_id : ℕ
  pub leader_session_id : String
  pub created_in_game : Bool
  pub boss_role_name : String
  pub boss_cycle_id : ℕ
  pub boss_cycle_state : String

pub record Member : Type 0 where
  pub team_id : ℕ
  pub session_id : String
  pub invited : Bool
  pub boss_completed_cycle_id : ℕ
  pub joined : Bool
  pub joined_at : Option ℕ

pub record World : Type 0 where
  pub teams : List Team
  pub members : List Member
  pub hub : Hub

-- The first row that passes a test, as `QueryRow` gives it.
abbrev pub find {ℓ} : {A : Type ℓ} → (A → Bool) → List A → Option A
find p [] = none
find p (x ∷ xs) = if p x then some x else find p xs

abbrev pub has {ℓ} : {A : Type ℓ} → (A → Bool) → List A → Bool
has p [] = false
has p (x ∷ xs) = p x || has p xs

-- `UPDATE ... SET f WHERE p`.
abbrev pub update_where {ℓ} : {A : Type ℓ} → (A → Bool) → (A → A) → List A → List A
update_where p f xs = map (λ x. if p x then f x else x) xs

abbrev pub in_team : ℕ → Member → Bool
in_team team m = m.team_id == team

abbrev pub is_member : ℕ → String → Member → Bool
is_member team session m = in_team team m && m.session_id == session

abbrev pub is_pending : ℕ → ℕ → Member → Bool
is_pending team cycle m = in_team team m && not (m.boss_completed_cycle_id == cycle)

-- A list of sessions is the list of their rows' `session_id`.
abbrev pub sessions : List Member → List String
sessions ms = map (λ (m : Member). m.session_id) ms

unfoldable pub rope_team_member_session_ids : ℕ → List Member → List String
rope_team_member_session_ids team ms = sessions (keep (in_team team) ms)

unfoldable pub rope_team_pending_cycle_session_ids : ℕ → ℕ → List Member → List String
rope_team_pending_cycle_session_ids team cycle ms = sessions (keep (is_pending team cycle) ms)

abbrev pub is_temple : Bool × ClientStatePayload × ℕ → Bool
is_temple (connected, state, at) = connected && (state.mode == "temple" && state.running)

unfoldable pub is_active_temple_client : Hub → String → Bool
is_active_temple_client hub session = is_temple (client_status session hub)

unfoldable pub active_temple_client_session_ids : Hub → List String → List String
active_temple_client_session_ids hub ids = keep (is_active_temple_client hub) ids

unfoldable pub contains_session_id : List String → String → Bool
contains_session_id [] target = false
contains_session_id (id ∷ ids) target =
    if id == target then true else contains_session_id ids target

-- The first team of the user that has the session as a member: the join of the two tables.
abbrev pub team_of_member : ℕ → String → World → Option Team
team_of_member user session w =
    find (λ (t : Team). t.user_id == user && has (is_member t.id session) w.members) w.teams

-- `WHERE id = ? AND boss_cycle_id = ? AND boss_cycle_state = ?`.
abbrev pub in_cycle : ℕ → ℕ → String → Team → Bool
in_cycle team cycle state t =
    t.id == team && t.boss_cycle_id == cycle && t.boss_cycle_state == state

abbrev pub set_state : String → Team → Team
set_state state t = record t { boss_cycle_state = state }

-- How many frames each session's connection takes while a command waits for room.
abbrev pub Taken : Type 0
Taken = String → ℕ

-- The loop that sends the same command to several sessions; the answers are not used.
unfoldable pub send_all : List String → ClientCommand → Taken → Hub → Hub
send_all [] c taken hub = hub
send_all (id ∷ ids) c taken hub = send_all ids c taken (send_command id c (taken id) hub).0
